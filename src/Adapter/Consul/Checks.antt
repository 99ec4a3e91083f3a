-- ===== src/Adapter/Consul/Checks.antt =====
-- buildCheck of consul/consul.go: it ends for every container's id that Docker gives, and a check has an
-- interval where the agent is to run it.
use registrator.Common.{
  ℕ, zero, suc, ◌≤◌, ◌≡◌, ◌≢◌, ◌⊎◌, ◌↔◌, inl, inr, refl, String, Char, Bool, true, false, ◌&&◌, not,
  Option, none, some, List, [], ◌∷◌, if◌then◌else◌, ◌==◌, length, eq-cases, Bool-cases, apart,
  arith,
}
use registrator.Common.Text.{chars}
use registrator.Bridge.Types.{Service}
use registrator.Adapter.Consul.{
  AgentCheck, attr, default_interval, with_interval, command_of, check_kind, build_check,
}
use registrator.Adapter.Consul.Script.{short_id}

short_id_total : (n : ℕ) (s : List Char) → n ≤ length s → (t : List Char) × (short_id n s ≡ some t)
unfolding short_id
short_id_total zero s h = ([], refl)
short_id_total (suc n) [] h = absurd (omega arith)
short_id_total (suc n) (c ∷ s) h =
    let (t, e) = short_id_total n s (omega arith) in (c ∷ t, rw (e, short_id) refl)

-- A check that the agent runs by itself.
abbrev Polls : AgentCheck → Type 0
Polls c = (c.script ≢ "") ⊎ (c.http ≢ "") ⊎ (c.tcp ≢ "")

-- What holds of a check before its interval, if there is one, and that there is no panic.
abbrev NoInterval : Option (Option AgentCheck) → Type 0
NoInterval none = ⊥
NoInterval (some none) = Unit
NoInterval (some (some c)) = c.interval ≡ ""

either :
    (b : Bool) (x y : Option (Option AgentCheck))
    → NoInterval x
    → NoInterval y
    → NoInterval (if b then x else y)
either true x y h k = h
either false x y h k = k

check_kind-NoInterval :
    (s : Service) → 12 ≤ length (chars s.origin.container_id) → NoInterval (check_kind s)
unfolding check_kind command_of
check_kind-NoInterval s h = either (not (attr "check_http" s == "")) _ _ refl (
    either (not (attr "check_https" s == "")) _ _ refl (
      either (not (attr "check_cmd" s == "")) _ _
        (let (id, e) = short_id_total 12 (chars s.origin.container_id) h in rw e refl)
        (either (not (attr "check_script" s == "")) _ _ refl (
          either (not (attr "check_ttl" s == "")) _ _ refl
            (either (not (attr "check_tcp" s == "")) _ _ refl tt)))))

polls_iff :
    (a b c : String)
    → (not (a == "" && (b == "" && c == "")) ≡ true) ↔ ((a ≢ "") ⊎ (b ≢ "") ⊎ (c ≢ ""))
polls_iff a b c = elim (eq-cases a "") [
  | inr (n, t) ↦ rw t (λ h. inl n, λ h. refl)
  | inl (e, t) ↦ elim (eq-cases b "") [
    | inr (n, t') ↦ rw (t, t') (λ h. inr (inl n), λ h. refl)
    | inl (e', t') ↦ elim (eq-cases c "") [
      | inr (n, t'') ↦ rw (t, t', t'') (λ h. inr (inr n), λ h. refl)
      | inl (e'', t'') ↦
          rw (t, t', t'')
            (
              λ h. cc,
              λ h. elim h [
                | inl n ↦ absurd (n e)
                | inr (inl n) ↦ absurd (n e')
                | inr (inr n) ↦ absurd (n e'')
              ],
            )
    ]
  ]
]

interval_set : (v : String) → (if v == "" then default_interval else v) ≢ ""
interval_set v = elim (eq-cases v "") [
  | inl (e, t) ↦ rw t (apart "10s" "" refl)
  | inr (n, t) ↦ rw t n
]

with_interval_lem :
    (s : Service) (c : AgentCheck)
    → c.interval ≡ ""
    → ((with_interval s c).interval ≢ "") ↔ Polls (with_interval s c)
unfolding with_interval
with_interval_lem s c e =
    elim (Bool-cases (not (c.script == "" && (c.http == "" && c.tcp == "")))) [
      | inl t ↦
          rw (t, with_interval)
            (
              λ h. (polls_iff c.script c.http c.tcp).0 t,
              λ h. interval_set (attr "check_interval" s),
            )
      | inr t ↦
          rw (t, with_interval)
            (λ h. absurd (h e), λ h. let t' = (polls_iff c.script c.http c.tcp).1 h in cc)
    ]

-- A service's check, if it has one, has an interval exactly if the agent runs it by itself.
abbrev HasInterval : Option AgentCheck → Type 0
HasInterval none = Unit
HasInterval (some c) = (c.interval ≢ "") ↔ Polls c

-- For a container whose id has twelve characters at least, buildCheck ends with a check or with none;
-- a check has an interval exactly if it has a script, a URL or an address, so that the agent is to
-- run it, and none if it waits for the service's own reports.
build_check-HasInterval :
    (s : Service)
    → 12 ≤ length (chars s.origin.container_id)
    → (o : Option AgentCheck) × (build_check s ≡ some o) × HasInterval o
unfolding build_check
build_check-HasInterval s h = with_kind (check_kind s) (check_kind-NoInterval s h)
  where
    with_kind :
        (k : Option (Option AgentCheck))
        → NoInterval k
        → (o : Option AgentCheck) × ((elim k as (λ x. Option (Option AgentCheck)) [
          | none ↦ none
          | some none ↦ some none
          | some (some check) ↦ some (some (with_interval s check))
        ])
            ≡ some o)
          × HasInterval o
    with_kind none v = absurd v
    with_kind (some none) v = (none, refl, tt)
    with_kind (some (some c)) v = (some (with_interval s c), refl, with_interval_lem s c v)
