-- ===== src/Adapter/Table/Schemes.antt =====
-- The schemes of the adapters, as their packages register them in `init`.
use mathlib.Core.Path.{subst}
use mathlib.Core.Option.{some-injective}
use registrator.Common.{
  ◌≡◌, ◌⊎◌, inl, inr, refl, sym, ◌∙◌, String, true, false, Option, none, some, List, [], ◌∷◌,
  if◌then◌else◌, ◌==◌, eq-cases, Bool-cases,
}
use registrator.Bridge.Sync.{contains_id}
use registrator.Adapter.Table.{
  Package, consul, consulkv, etcd, eureka, skydns2, zookeeper, modules, schemes,
}

-- The package is imported.
unfoldable pub Imports : List Package → Package → Type 0
Imports [] p = ⊥
Imports (q ∷ qs) p = (q ≡ p) ⊎ Imports qs p

pub modules-Imports : (p : Package) → Imports modules p
unfolding Imports
modules-Imports consul = inl refl
modules-Imports consulkv = inr (inl refl)
modules-Imports etcd = inr (inr (inl refl))
modules-Imports eureka = inr (inr (inr (inl refl)))
modules-Imports skydns2 = inr (inr (inr (inr (inl refl))))
modules-Imports zookeeper = inr (inr (inr (inr (inr (inl refl)))))

abbrev pub HasScheme : Package → String → Type 0
HasScheme p scheme = contains_id scheme (schemes p) ≡ true

-- The only package of a scheme.
abbrev owner : String → Option Package
owner scheme =
    if contains_id scheme (schemes consul)
    then some consul
    else if contains_id scheme (schemes consulkv)
    then some consulkv
    else if scheme == "etcd"
    then some etcd
    else if scheme == "eureka"
    then some eureka
    else if scheme == "skydns2"
    then some skydns2
    else if scheme == "zookeeper"
    then some zookeeper
    else none

-- A text of a list is found only as one of it.
found_at :
    (P : String → Type 0) (key name : String) (names : List String)
    → P name
    → (contains_id key names ≡ true → P key)
    → contains_id key (name ∷ names) ≡ true
    → P key
unfolding contains_id
found_at P key name names p rest h = elim (eq-cases key name) [
  | inl (e, t) ↦ subst P (sym e) p
  | inr (n, t) ↦ rest (rw t at h)
]

nowhere : (P : String → Type 0) (key : String) → contains_id key [] ≡ true → P key
unfolding contains_id
nowhere P key h = cc

HasScheme-owner : (p : Package) (scheme : String) → HasScheme p scheme → owner scheme ≡ some p
unfolding schemes contains_id
HasScheme-owner consul scheme =
    let P : String → Type 0 = λ s. owner s ≡ some consul in
    found_at P scheme "consul" ("consul-tls" ∷ "consul-unix" ∷ []) refl (
      found_at P scheme "consul-tls" ("consul-unix" ∷ []) refl
        (found_at P scheme "consul-unix" [] refl (nowhere P scheme)))
HasScheme-owner consulkv scheme =
    let P : String → Type 0 = λ s. owner s ≡ some consulkv in
    found_at P scheme "consulkv" ("consulkv-unix" ∷ []) refl
      (found_at P scheme "consulkv-unix" [] refl (nowhere P scheme))
HasScheme-owner etcd scheme =
    let P : String → Type 0 = λ s. owner s ≡ some etcd in
    found_at P scheme "etcd" [] refl (nowhere P scheme)
HasScheme-owner eureka scheme =
    let P : String → Type 0 = λ s. owner s ≡ some eureka in
    found_at P scheme "eureka" [] refl (nowhere P scheme)
HasScheme-owner skydns2 scheme =
    let P : String → Type 0 = λ s. owner s ≡ some skydns2 in
    found_at P scheme "skydns2" [] refl (nowhere P scheme)
HasScheme-owner zookeeper scheme =
    let P : String → Type 0 = λ s. owner s ≡ some zookeeper in
    found_at P scheme "zookeeper" [] refl (nowhere P scheme)

-- No scheme is that of two packages.
pub HasScheme-unique :
    (p q : Package) (scheme : String) → HasScheme p scheme → HasScheme q scheme → p ≡ q
HasScheme-unique p q scheme h k =
    some-injective p q (sym (HasScheme-owner p scheme h) ∙ HasScheme-owner q scheme k)

abbrev pub Lacks : Package → String → Type 0
Lacks p scheme = contains_id scheme (schemes p) ≡ false

-- A scheme is that of a package, or of none.
pub scheme-cases :
    (scheme : String) → ((p : Package) × HasScheme p scheme) ⊎ ((p : Package) → Lacks p scheme)
scheme-cases scheme = elim (Bool-cases (contains_id scheme (schemes consul))) [
  | inl h ↦ inl (consul, h)
  | inr a ↦ elim (Bool-cases (contains_id scheme (schemes consulkv))) [
    | inl h ↦ inl (consulkv, h)
    | inr b ↦ elim (Bool-cases (contains_id scheme (schemes etcd))) [
      | inl h ↦ inl (etcd, h)
      | inr c ↦ elim (Bool-cases (contains_id scheme (schemes eureka))) [
        | inl h ↦ inl (eureka, h)
        | inr d ↦ elim (Bool-cases (contains_id scheme (schemes skydns2))) [
          | inl h ↦ inl (skydns2, h)
          | inr e ↦ elim (Bool-cases (contains_id scheme (schemes zookeeper))) [
            | inl h ↦ inl (zookeeper, h)
            | inr f ↦ inr (missing a b c d e f)
          ]
        ]
      ]
    ]
  ]
]
  where
    missing :
        Lacks consul scheme
        → Lacks consulkv scheme
        → Lacks etcd scheme
        → Lacks eureka scheme
        → Lacks skydns2 scheme
        → Lacks zookeeper scheme
        → (p : Package) → Lacks p scheme
    missing a b c d e f consul = a
    missing a b c d e f consulkv = b
    missing a b c d e f etcd = c
    missing a b c d e f eureka = d
    missing a b c d e f skydns2 = e
    missing a b c d e f zookeeper = f
