-- ===== src/Adapter/Keyed.antt =====
-- What consulkv/consulkv.go, etcd/etcd.go and skydns2/skydns2.go promise to a bridge: a store with one
-- entry for each key, of which a service has its own.
use registrator.Common.{
  if◌then◌else◌, ◌==◌, ◌≡◌, ◌≢◌, inl, inr, refl, sym, ◌∙◌, ap, String, Bool, true, false, Option,
  none, some, List, [], ◌∷◌, ◌++◌, arith, eq-cases,
}
use registrator.Bridge.Types.{Service}
use registrator.Bridge.Env.{Env}
use registrator.Bridge.World.{Registry, World, ok}
use registrator.Bridge.Tracking.{services_of}
use registrator.Bridge.Remove.{deregister_all, remove}
use registrator.Bridge.Remove.Laws.{remove_deregisters, aside_of}

-- The store as a function is the abstract view: a successful call changes one key of it, and no call
-- another one.
pub record IsKeyed (R : Registry) : Type 0 where
  pub key : Service → String
  pub entry : Service → String
  pub view : R.State → String → Option String
  pub register_own :
      (s : Service) (r : R.State)
      → (R.register s r).1 ≡ true
      → view (R.register s r).0 (key s) ≡ some (entry s)
  pub register_other :
      (s : Service) (r : R.State) (k : String) → key s ≢ k → view (R.register s r).0 k ≡ view r k
  pub deregister_own :
      (s : Service) (r : R.State)
      → (R.deregister s r).1 ≡ true
      → view (R.deregister s r).0 (key s) ≡ none
  pub deregister_other :
      (s : Service) (r : R.State) (k : String) → key s ≢ k → view (R.deregister s r).0 k ≡ view r k

module _ (R : Registry) (env : Env) (K : IsKeyed R) where
  -- Whether the key is that of one of the services.
  unfoldable pub is_key : String → List Service → Bool
  is_key k [] = false
  is_key k (s ∷ ss) = let rest = is_key k ss in if K.key s == k then true else rest

  abbrev pub Releases : Type 0
  Releases = (s : Service) (r : R.State) → (R.deregister s r).1 ≡ true

  deregister-view :
      Releases
      → (s : Service) (r : R.State) (k : String)
      → K.view (R.deregister s r).0 k ≡ (if K.key s == k then none else K.view r k)
  deregister-view releases s r k = elim (eq-cases (K.key s) k) [
    | inl (e, t) ↦
        rw t (ap (K.view (R.deregister s r).0) (sym e) ∙ K.deregister_own s r (releases s r))
    | inr (n, t) ↦ rw t (K.deregister_other s r k n)
  ]

  deregister_all-view :
      Releases
      → (ss : List Service) (r : R.State) (k : String)
      → K.view (deregister_all R env ss r) k ≡ (if is_key k ss then none else K.view r k)
  unfolding deregister_all is_key
  deregister_all-view releases [] r k = refl
  deregister_all-view releases (s ∷ ss) r k =
      deregister_all-view releases ss (R.deregister s r).0 k
      ∙ rw (deregister-view releases s r k) (either (is_key k ss) (K.key s == k) (K.view r k))
    where
      either :
          (a b : Bool) (v : Option String)
          → (if a then none else if b then none else v)
            ≡ (if (if b then true else a) then none else v)
      either a b v = ground arith

  -- On a registry that is a keyed store and deregisters every service, a removal with a free lock
  -- ends, and of the store exactly the entries of the container's services are gone, those that were
  -- tracked and those that were set aside; under every other key it holds what it held.
  pub remove-view :
      Releases
      → (id : String) (w : World R.State) (k : String) → w.locked ≡ false
      → (w' : World R.State) × (remove R env id true w ≡ ok w')
        × (K.view w'.registry k
            ≡ (if is_key k (services_of id w ++ aside_of id w) then none else K.view w.registry k))
  remove-view releases id w k h =
      let (w', removed, registry, _, _, _, _) = remove_deregisters R env id w h in
      (
        w',
        removed,
        ap (λ r. K.view r k) registry
            ∙ deregister_all-view releases (services_of id w ++ aside_of id w) w.registry k,
      )
