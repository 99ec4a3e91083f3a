-- ===== src/Bridge/Tracking.antt =====
-- deleteDeadContainer and appendService of bridge/bridge.go: the services that the bridge keeps for
-- a container.
use registrator.Common.{String, Bool, true, false, none, some, List, [], ◌∷◌, ◌++◌, if◌then◌else◌}
use registrator.Common.Map.{get, get_or, put, delete}
use registrator.Bridge.Types.{Service}
use registrator.Bridge.World.{World, Outcome, ok, ◌>>=◌, lock, unlock}

abbrev pub is_nil : List Service → Bool
is_nil [] = true
is_nil (s ∷ ss) = false

-- `b.services[id]`
abbrev pub services_of : {S : Type 0} → String → World S → List Service
services_of id w = get_or [] id w.services

module _ {S : Type 0} where
  -- The body of deleteDeadContainer, under the lock.
  unfoldable pub revive : String → World S → World S
  unfolding get put delete
  revive id w = elim (get id w.dead_containers) [
    | none ↦ w
    | some d ↦ record w {
      services = put id d.services w.services;
      dead_containers = delete id w.dead_containers;
    }
  ]

  unfoldable pub delete_dead_container : String → World S → Outcome (World S)
  unfolding revive
  delete_dead_container id w = do w ← lock w; ok (unlock (revive id w))

  -- The body of appendService. Its log calls come after the decision.
  unfoldable pub append_once : String → Service → World S → World S
  unfolding get_or put
  append_once id service w =
      if is_nil (services_of id w)
      then record w { services = put id (services_of id w ++ service ∷ []) w.services }
      else w

  unfoldable pub append_service : String → Service → World S → Outcome (World S)
  unfolding append_once
  append_service id service w = do w ← lock w; ok (unlock (append_once id service w))
