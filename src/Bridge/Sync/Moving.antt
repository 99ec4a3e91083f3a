-- ===== src/Bridge/Sync/Moving.antt =====
-- reregisterService of bridge/servicesync.go over the services of a container.
use registrator.Common.{
  ◌≡◌, ◌≢◌, inl, inr, refl, String, true, List, [], ◌∷◌, map, if◌then◌else◌, ◌==◌, Bool-cases,
  eq_of_ne,
}
use registrator.Bridge.Types.{Service}
use registrator.Bridge.World.{Registry}
use registrator.Bridge.Sync.{moved, reregister_service, reregister_services}

abbrev moved_once : String → Service → Service
moved_once ip s = if s.ip == ip then s else moved s ip

module _ (R : Registry) where
  -- Every service that has another address is deregistered and then registered with the new one.
  unfoldable move_all : String → List Service → R.State → R.State
  move_all ip [] r = r
  move_all ip (s ∷ ss) r =
      if s.ip == ip
      then move_all ip ss r
      else move_all ip ss (R.register (moved s ip) (R.deregister s r).0).0

  abbrev pub Releases : Type 0
  Releases = (s : Service) (r : R.State) → (R.deregister s r).1 ≡ true

  reregister_service-moved :
      Releases
      → (s : Service) (ip : String) (r : R.State) → ip ≢ ""
      → reregister_service R s ip r ≡ (
        moved_once ip s,
        if s.ip == ip then r else (R.register (moved s ip) (R.deregister s r).0).0,
      )
  unfolding reregister_service
  reregister_service-moved releases s ip r h =
      rw (eq_of_ne ip "" h)
        (elim (Bool-cases (s.ip == ip)) [ inl e ↦ rw e | inr e ↦ rw (e, releases s r) ])

  -- With a new address, and a registry that deregisters every service, each service of a container
  -- that has another address is deregistered and registered again with the new one, in turn, and
  -- keeps it; the others are left alone.
  reregister_services-moved :
      Releases
      → (ss : List Service) (ip : String) (r : R.State) → ip ≢ ""
      → reregister_services R ss ip r ≡ (map (moved_once ip) ss, move_all ip ss r)
  unfolding reregister_services move_all
  reregister_services-moved releases [] ip r h = refl
  reregister_services-moved releases (s ∷ ss) ip r h =
      rw (reregister_service-moved releases s ip r h, reregister_services)
        (elim (Bool-cases (s.ip == ip)) [
          | inl e ↦ rw e (rw (reregister_services-moved releases ss ip r h) refl)
          | inr e ↦ rw e (
              rw
                (reregister_services-moved releases ss ip
                  (R.register (moved s ip) (R.deregister s r).0).0 h)
                refl)
        ])
