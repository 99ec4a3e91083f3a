-- ===== src/Aws/Flags.antt =====
-- CheckELBFlags and CheckELBOnlyReg of aws/elb.go, over the attributes of a service.
use registrator.Common.{
  ◌≡◌, ◌≢◌, ◌⊎◌, ◌↔◌, inl, inr, refl, ap, eq_of_ne, String, Bool, true, false, ◌&&◌, ◌||◌, not,
  Option, none, some, List, [], ◌∷◌, if◌then◌else◌, ◌==◌, eq-cases, eq_iff, arith,
}
use registrator.Common.Map.{Map, get_or}

-- fargo.MyOwn
abbrev pub my_own : String
my_own = "MyOwn"

abbrev one_of : String → List String → Bool
one_of s [] = false
one_of s (t ∷ ts) = (s == t) || one_of s ts

-- strconv.ParseBool, `none` for its error
unfoldable pub parse_bool : String → Option Bool
parse_bool s =
    if one_of s ("1" ∷ "t" ∷ "T" ∷ "TRUE" ∷ "true" ∷ "True" ∷ [])
    then some true
    else if one_of s ("0" ∷ "f" ∷ "F" ∷ "FALSE" ∷ "false" ∷ "False" ∷ [])
    then some false
    else none

-- `service.Attrs[key]`
abbrev pub attr : String → Map String → String
attr key attrs = get_or "" key attrs

-- The endpoint is given. The port is parsed too, but the result of that is overwritten.
unfoldable pub has_explicit_elb : Map String → Bool
unfolding get_or
has_explicit_elb attrs =
    not (attr "eureka_elbv2_hostname" attrs == "")
    && (not (attr "eureka_elbv2_port" attrs == "")
        && not (attr "eureka_elbv2_targetgroup" attrs == ""))

-- The value that ParseBool returns with an error is false.
abbrev or_false : Option Bool → Bool
or_false none = false
or_false (some b) = b

unfoldable pub uses_elb_lookup : Map String → Bool
unfolding has_explicit_elb parse_bool get_or
uses_elb_lookup attrs =
    let flag = attr "eureka_lookup_elbv2_endpoint" attrs in
    if flag == "" then has_explicit_elb attrs else or_false (parse_bool flag)

unfoldable pub check_elb_flags : Map String → Bool
unfolding uses_elb_lookup has_explicit_elb get_or
check_elb_flags attrs =
    (has_explicit_elb attrs || uses_elb_lookup attrs)
    && not (attr "eureka_datacenterinfo_name" attrs == my_own)

unfoldable pub check_elb_only_reg : Map String → Bool
unfolding parse_bool get_or
check_elb_only_reg attrs =
    let flag = attr "eureka_elbv2_only_registration" attrs in
    if flag == "" then true else elim (parse_bool flag) [ none ↦ true | some b ↦ b ]

-- The three attributes of an endpoint are set, whatever the port is.
abbrev pub HasEndpoint : Map String → Type 0
HasEndpoint attrs =
    (attr "eureka_elbv2_hostname" attrs ≢ "")
    × (attr "eureka_elbv2_port" attrs ≢ "")
    × (attr "eureka_elbv2_targetgroup" attrs ≢ "")

has_explicit_elb_iff : (attrs : Map String) → (has_explicit_elb attrs ≡ true) ↔ HasEndpoint attrs
unfolding has_explicit_elb
has_explicit_elb_iff attrs = all_set _ _ _
  where
    all_set :
        (a b c : String)
        → ((not (a == "") && (not (b == "") && not (c == ""))) ≡ true)
          ↔ ((a ≢ "") × (b ≢ "") × (c ≢ ""))
    all_set a b c = (
      λ e. (
        λ h. let t = (eq_iff a "").1 h in ground arith,
        λ h. let t = (eq_iff b "").1 h in ground arith,
        λ h. let t = (eq_iff c "").1 h in ground arith,
      ),
      λ (x, y, z). rw (eq_of_ne a "" x, eq_of_ne b "" y, eq_of_ne c "" z) refl,
    )

-- An endpoint or the lookup.
either_iff :
    (flag : String) (explicit : Bool)
    → ((explicit || (if flag == "" then explicit else or_false (parse_bool flag))) ≡ true)
      ↔ ((explicit ≡ true) ⊎ (parse_bool flag ≡ some true))
unfolding parse_bool
either_iff flag true = (λ e. inl refl, λ h. refl)
either_iff flag false = elim (eq-cases flag "") [
  | inl (e, t) ↦ rw e (λ h. cc, λ h. elim h [ inl x ↦ x | inr x ↦ cc ])
  | inr (n, t) ↦ rw t (λ h. inr (is_true _ h), λ h. elim h [ inl x ↦ cc | inr x ↦ rw x refl ])
]
  where
    is_true : (o : Option Bool) → or_false o ≡ true → o ≡ some true
    is_true none e = cc
    is_true (some b) e = ap some e

-- Outside of MyOwn.
outside_iff :
    (name : String) (asked : Bool)
    → ((asked && not (name == my_own)) ≡ true) ↔ ((asked ≡ true) × (name ≢ my_own))
outside_iff name false = (λ e. cc, λ (e, n). cc)
outside_iff name true = elim (eq-cases name my_own) [
  | inl (e, t) ↦ rw t (λ h. cc, λ (h, n). absurd (n e))
  | inr (n, t) ↦ rw t (λ h. (refl, n), λ h. refl)
]

-- A service is registered through a load balancer exactly if its data centre is not MyOwn and it has
-- an endpoint's host, port and target group, the port being any text, or asks for the lookup with
-- a text that ParseBool takes for true.
pub check_elb_flags_iff :
    (attrs : Map String)
    → (check_elb_flags attrs ≡ true) ↔ (
        (attr "eureka_datacenterinfo_name" attrs ≢ my_own)
        × (HasEndpoint attrs
            ⊎ (parse_bool (attr "eureka_lookup_elbv2_endpoint" attrs) ≡ some true)))
unfolding check_elb_flags
check_elb_flags_iff attrs =
    let either = either_iff (attr "eureka_lookup_elbv2_endpoint" attrs) (has_explicit_elb attrs) in
    let endpoint = has_explicit_elb_iff attrs in
    let centre =
      outside_iff (attr "eureka_datacenterinfo_name" attrs)
        (has_explicit_elb attrs || uses_elb_lookup attrs) in
    (
      λ e.
          let (asked, n) = centre.0 e in
          (n, elim (either.0 asked) [ inl x ↦ inl (endpoint.0 x) | inr x ↦ inr x ]),
      λ (n, h). centre.1 (either.1 (elim h [ inl x ↦ inl (endpoint.1 x) | inr x ↦ inr x ]), n),
    )
