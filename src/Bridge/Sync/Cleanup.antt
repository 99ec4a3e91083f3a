-- ===== src/Bridge/Sync/Cleanup.antt =====
-- What cleanupServices of bridge/servicesync.go deregisters.
use registrator.Common.{
  ◌≡◌, ◌≢◌, ◌⊎◌, ◌↔◌, inl, inr, refl, sym, ◌∙◌, String, Bool, true, false, Option, none, some, List,
  [], ◌∷◌, if◌then◌else◌, eq-cases, Option-cases, arith, All,
}
use registrator.Common.Map.{Map}
use registrator.Common.Text.{chars}
use registrator.Bridge.Types.{Service}
use registrator.Bridge.Env.{Env}
use registrator.Bridge.ServiceId.{find_service_id}
use registrator.Bridge.World.{Registry, ok}
use registrator.Bridge.Create.{tail_name}
use registrator.Bridge.Remove.{deregister_all}
use registrator.Bridge.Sync.{tracks_service, tracks, is_dangling, cleanup_services}

-- The name of the service's container, without its slash.
abbrev short_name : Service → Option String
short_name s = tail_name (chars s.origin.container_name)

-- The container of the service has a name.
abbrev pub IsNamed : Service → Type 0
IsNamed s = (n : String) × (short_name s ≡ some n)

-- The service is another than the one of this name and this container.
abbrev IsOther : String → String → Service → Type 0
IsOther name container s = ¬ ((s.name ≡ name) × (short_name s ≡ some container))

abbrev pub AllTracked : (Service → Type 0) → Map (List Service) → Type 0
AllTracked P = All (λ e. All P e.1)

-- The search has an answer: it found a service, or every one is another.
abbrev Decides : Option Bool → Type 0 → Type 0
Decides answer P = ((answer ≡ some true) × ¬ P) ⊎ ((answer ≡ some false) × P)

Decides-skip : {P Q : Type 0} (answer : Option Bool) → P → Decides answer Q → Decides answer (P × Q)
Decides-skip answer p (inl (e, h)) = inl (e, λ (_, q). h q)
Decides-skip answer p (inr (e, q)) = inr (e, (p, q))

other_name : {n m : String} → n ≢ m → some n ≢ some m
other_name h e = h (ground arith)

none-some : {A : Type 0} {a : A} → none ≢ some a
none-some e = cc

false-true : some false ≢ some true
false-true e = cc

same_parts :
    {a b c d : String}
    → ◌≡◌ {A = Option (String × String)} (some (a, b)) (some (c, d))
    → (a ≡ c) × (b ≡ d)
same_parts e = (ground arith, ground arith)

module _ (name container : String) where
  tracks_service_cases :
      (ss : List Service)
      → All IsNamed ss
      → Decides (tracks_service name container ss) (All (IsOther name container) ss)
  unfolding tracks_service
  tracks_service_cases [] h = inr (refl, tt)
  tracks_service_cases (s ∷ ss) ((n, e), hs) = elim (eq-cases s.name name) [
    | inl (same, t) ↦ elim (eq-cases container n) [
      | inl (c, t') ↦ inl (rw (t, e, t', tracks_service) refl, λ (other, _). other (same, rw c e))
      | inr (c, t') ↦
          rw (t, e, t', tracks_service)
            (Decides-skip _ (λ (_, e'). other_name c (sym e')) (tracks_service_cases ss hs))
    ]
    | inr (other, t) ↦
        rw (t, tracks_service) (Decides-skip _ (λ (e', _). other e') (tracks_service_cases ss hs))
  ]

  tracks_cases :
      (m : Map (List Service))
      → AllTracked IsNamed m
      → Decides (tracks name container m) (AllTracked (IsOther name container) m)
  unfolding tracks
  tracks_cases [] h = inr (refl, tt)
  tracks_cases ((id, ss) ∷ m) (h, hs) = elim (tracks_service_cases ss h) [
    | inl (e, o) ↦ inl (rw (e, tracks) refl, λ (o', _). o o')
    | inr (e, o) ↦ rw (e, tracks) (Decides-skip _ o (tracks_cases m hs))
  ]

-- The registry's service has an ID that this host has made for a container, and the bridge tracks
-- no service of its name and that container.
abbrev pub IsLeftOver : String → Map (List Service) → Service → Type 0
IsLeftOver hostname m s =
    (container : String) × (find_service_id s.id ≡ some (hostname, container))
    × AllTracked (IsOther s.name container) m

module _ (hostname : String) (m : Map (List Service)) (named : AllTracked IsNamed m)
    (s : Service) where
  is_dangling_cases :
      ((is_dangling hostname m s ≡ some true) × IsLeftOver hostname m s)
      ⊎ ((is_dangling hostname m s ≡ some false) × ¬ IsLeftOver hostname m s)
  unfolding is_dangling
  is_dangling_cases = elim (Option-cases (find_service_id s.id)) [
    | inl e ↦ inr (rw (e, is_dangling) refl, λ (c, e', _). absurd (none-some (sym e ∙ e')))
    | inr ((host, container), e) ↦ elim (eq-cases host hostname) [
      | inl (h, t) ↦ elim (tracks_cases s.name container m named) [
        | inl (e', o) ↦
            inr (
              rw (e, t, e', is_dangling) refl,
              λ (c, f, o'). o (rw ((same_parts (sym e ∙ f)).1) o'),
            )
        | inr (e', o) ↦ inl (rw (e, t, e', is_dangling) refl, (container, rw (e, h) refl, o))
      ]
      | inr (h, t) ↦ inr (rw (e, t, is_dangling) refl, λ (c, f, _). h (same_parts (sym e ∙ f)).0)
    ]
  ]

  -- The clean-up takes a service that the registry lists for left over exactly if its ID is one
  -- that this host has made for a container and no service of its name and of that container is
  -- tracked. Every tracked service is of a container that has a name.
  pub is_dangling_iff : (is_dangling hostname m s ≡ some true) ↔ IsLeftOver hostname m s
  is_dangling_iff = elim is_dangling_cases [
    | inl (e, l) ↦ (λ _. l, λ _. e)
    | inr (e, l) ↦ (λ e'. absurd (false-true (sym e ∙ e')), λ l'. absurd (l l'))
  ]

-- The services that are left over, in the order of the list.
unfoldable pub left_over : String → Map (List Service) → List Service → List Service
left_over hostname m [] = []
left_over hostname m (s ∷ ss) =
    let rest = left_over hostname m ss in
    elim (is_dangling hostname m s) [ none ↦ rest | some b ↦ if b then s ∷ rest else rest ]

-- If every tracked service is of a container that has a name, the clean-up ends, and has
-- deregistered the services that are left over, once each and in their order, and no other; a
-- deregistration that fails does not stop it.
pub cleanup_services_lem :
    (R : Registry) (env : Env) (m : Map (List Service))
    → AllTracked IsNamed m
    → (listed : List Service) (r : R.State)
    → cleanup_services R env m listed r
      ≡ ok (deregister_all R env (left_over env.hostname m listed) r)
unfolding cleanup_services left_over deregister_all
cleanup_services_lem R env m named [] r = refl
cleanup_services_lem R env m named (s ∷ ss) r = elim (is_dangling_cases env.hostname m named s) [
  | inl (e, _) ↦
      rw (e, cleanup_services, left_over)
        (cleanup_services_lem R env m named ss (R.deregister s r).0)
  | inr (e, _) ↦ rw (e, cleanup_services, left_over) (cleanup_services_lem R env m named ss r)
]
