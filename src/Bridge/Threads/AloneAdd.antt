-- ===== src/Bridge/Threads/AloneAdd.antt =====
-- `add` of bridge/bridge.go where no other thread interrupts it.
use mathlib.Core.Path.{subst}
use registrator.Common.{
  ◌≡◌, ◌∙◌, ap, inl, inr, refl, String, Bool, List, [], ◌∷◌, append-nil, Bool-cases, Option-cases,
}
use registrator.Bridge.Types.{Container, ServicePort}
use registrator.Bridge.Env.{Env, Inspected, found, no_such_container, inspect_error}
use registrator.Bridge.World.{
  Registry, World, Outcome, ok, blocked, panic, exit, ◌>>=◌, lock, unlock,
}
use registrator.Bridge.Create.{Created, created, declined, panicked, new_service}
use registrator.Bridge.Tracking.{is_nil, services_of, delete_dead_container, append_service}
use registrator.Bridge.Add.{
  container_ports, wanted_ports, is_group_of, register_created, register_ports, add_container,
  add_inspected, add,
}
use registrator.Bridge.Sync.{step}
use registrator.Bridge.Threads.{
  Thread, reviving, checking, inspecting, registering, appending, inspect_ports, register_next,
  next, System, move, Steps, done, before_last,
}

pub bind_ok :
    {A B : Type 0} (m : Outcome A) (f : A → Outcome B) (b : B)
    → (m >>= f) ≡ ok b
    → (a : A) × (m ≡ ok a) × (f a ≡ ok b)
bind_ok (ok a) f b e = (a, refl, e)
bind_ok blocked f b e = cc
bind_ok panic f b e = cc
bind_ok exit f b e = cc

pub ok_injective : {A : Type 0} (a b : A) → ok a ≡ ok b → a ≡ b
ok_injective a b e = cc

pub bind-ok :
    {A B : Type 0} (m : Outcome A) (f : A → Outcome B) (a : A) → m ≡ ok a → (m >>= f) ≡ f a
bind-ok m f a e = ap (λ x. x >>= f) e

abbrev pub system : {S : Type 0} → World S → List Thread → System S
system w ts = record { world = w; threads = ts }

module _ (R : Registry) (Possible : Env → Type 0) where
  pub Steps-trans :
      {s t u : System R.State} → Steps R Possible s t → Steps R Possible t u → Steps R Possible s u
  Steps-trans h done = h
  Steps-trans h (before_last k step) = before_last (Steps-trans h k) step

  module _ (env : Env) (possible : Possible env) where
    -- The only thread makes a step.
    pub once :
        (t : Thread) (ts : List Thread) (w w' : World R.State)
        → next R env t w ≡ ok (w', ts)
        → Steps R Possible (system w (t ∷ [])) (system w' ts)
    once t ts w w' e =
        subst (λ ts'. Steps R Possible (system w (t ∷ [])) (system w' ts')) (append-nil ts)
          (before_last done (move env [] t [] ts w' possible refl e))

    -- And then goes on.
    pub andthen :
        (t : Thread) (ts : List Thread) (w w' : World R.State) (u : System R.State)
        → next R env t w ≡ ok (w', ts)
        → Steps R Possible (system w' ts) u
        → Steps R Possible (system w (t ∷ [])) u
    andthen t ts w w' u e h = Steps-trans (once t ts w w' e) h

    created_alone :
        (c : Container) (g : Bool) (port : ServicePort) (ports : List ServicePort)
        (w w' : World R.State) (u : System R.State) (x : Created)
        → new_service env w.config c port g ≡ x
        → register_created R env c.id x w ≡ ok w'
        → Steps R Possible (system w' (registering c g ports ∷ [])) u
        → Steps R Possible (system w (registering c g (port ∷ ports) ∷ [])) u
    unfolding register_created next register_next
    created_alone c g port ports w w' u panicked made e h = cc
    created_alone c g port ports w w' u declined made e h =
        andthen _ (registering c g ports ∷ []) w w' u
          (rw made (ap (λ v. ok (v, registering c g ports ∷ [])) (ok_injective w w' e))) h
    created_alone c g port ports w w' u (created s) made e h =
        let w1 = record w { registry = (R.register s w.registry).0 } in
        elim (Bool-cases (R.register s w.registry).1) [
          | inl t ↦ andthen _ (appending s c g ports ∷ []) w w1 u (rw (made, t) refl) (
              andthen _ (registering c g ports ∷ []) w1 w' u
                (bind-ok (append_service c.id s w1) _ w' (rw (t, register_created) at e)) h)
          | inr t ↦
              andthen _ (registering c g ports ∷ []) w w' u
                (rw (made, t)
                  (ap (λ v. ok (v, registering c g ports ∷ []))
                    (ok_injective w1 w' (rw (t, register_created) at e))))
                h
        ]

    pub registering_alone :
        (c : Container) (g : Bool) (ports : List ServicePort) (w w' : World R.State)
        → register_ports R env c g ports w ≡ ok w'
        → Steps R Possible (system w (registering c g ports ∷ [])) (system w' [])
    unfolding register_ports next
    registering_alone c g [] w w' e = once _ [] w w' (ap (λ v. ok (v, [])) (ok_injective w w' e))
    registering_alone c g (port ∷ ports) w w' e =
        let (w1, e1, e2) = bind_ok _ _ w' e in
        created_alone c g port ports w w1 (system w' []) _ refl e1
          (registering_alone c g ports w1 w' e2)

    inspected_alone :
        (id ip : String) (w w' : World R.State) (x : Inspected)
        → env.inspect id ≡ x
        → add_inspected R env x ip w ≡ ok w'
        → Steps R Possible (system w (inspecting id ip ∷ [])) (system w' [])
    unfolding next inspect_ports add_container
    inspected_alone id ip w w' (found c) i e =
        elim (Option-cases (wanted_ports w.config c (container_ports env c ip))) [
          | inl n ↦ panic_ok (rw (n, add_container) at e)
          | inr (ports, n) ↦
              andthen _ (registering c (is_group_of ports) ports ∷ []) w w (system w' [])
                (rw (i, n) refl)
                (registering_alone c (is_group_of ports) ports w w' (rw (n, add_container) at e))
        ]
      where
        panic_ok :
            panic ≡ ok w' → Steps R Possible (system w (inspecting id ip ∷ [])) (system w' [])
        panic_ok e = cc
    inspected_alone id ip w w' no_such_container i e =
        once _ [] w w' (rw i (ap (λ v. ok (v, [])) (ok_injective w w' e)))
    inspected_alone id ip w w' inspect_error i e =
        once _ [] w w' (rw i (ap (λ v. ok (v, [])) (ok_injective w w' e)))

    pub adding_alone :
        (id ip : String) (w w' : World R.State)
        → add R env id ip w ≡ ok w'
        → Steps R Possible (system w (reviving id ip ∷ [])) (system w' [])
    unfolding add next
    adding_alone id ip w w' e =
        let (w1, e1, f1) = bind_ok (delete_dead_container id w) _ w' e in
        let (w2, e2, f2) = bind_ok (lock w1) _ w' f1 in
        andthen _ (checking id ip ∷ []) w w1 (system w' [])
          (bind-ok (delete_dead_container id w) _ w1 e1)
          (elim (Bool-cases (is_nil (services_of id w2))) [
            | inl n ↦
                andthen _ (inspecting id ip ∷ []) w1 (unlock w2) (system w' [])
                  (bind-ok (lock w1) _ w2 e2 ∙ rw n refl)
                  (inspected_alone id ip (unlock w2) w' _ refl (rw n at f2))
            | inr n ↦ once _ [] w1 w' (
                bind-ok (lock w1) _ w2 e2
                ∙ rw n (ap (λ v. ok (v, [])) (ok_injective w2 w' (rw n at f2))))
          ])
