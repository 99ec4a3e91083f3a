-- ===== src/Bridge/World.antt =====
-- The state of a Bridge (bridge/bridge.go), its lock and the registry that it writes to. A method
-- runs to its end, to a call of Lock that never returns, or to a panic, which ends the process.
-- A service is a value here: a pointer to one stands in one list at a time, in `services` or in
-- `dead_containers`, so a write through it is seen nowhere else.
use registrator.Common.{Bool, true, false, List, Option}
use registrator.Common.Map.{Map}
use registrator.Bridge.Types.{Config, Service, DeadContainer}

-- RegistryAdapter of bridge/types.go over an unknown state. A call returns whether it succeeded;
-- `services` is `none` at an error.
pub record Registry : Type 1 where
  pub State : Type 0
  pub register : Service → State → State × Bool
  pub deregister : Service → State → State × Bool
  pub refresh : Service → State → State × Bool
  pub services : State → Option (List Service)
  pub ping : State → State × Bool

pub data Outcome (A : Type 0) : Type 0 where
  ok : A → Outcome A
  blocked : Outcome A
  panic : Outcome A
  exit : Outcome A

infixl 5 ◌>>=◌
abbrev pub ◌>>=◌ : {A B : Type 0} → Outcome A → (A → Outcome B) → Outcome B
ok a >>= f = f a
blocked >>= f = blocked
panic >>= f = panic
exit >>= f = exit

-- A nil slice and a missing key are both the empty list: no slice of the program is empty and not
-- nil.
pub record World (S : Type 0) : Type 0 where
  pub config : Config
  pub locked : Bool
  pub services : Map (List Service)
  pub dead_containers : Map DeadContainer
  pub registry : S

module _ {S : Type 0} where
  -- `b.Lock()`
  abbrev pub lock : World S → Outcome (World S)
  lock w = elim w.locked [ true ↦ blocked | false ↦ ok (record w { locked = true }) ]

  -- `b.Unlock()`
  abbrev pub unlock : World S → World S
  unlock w = record w { locked = false }

-- Bridge.Ping
abbrev pub ping_registry : (R : Registry) → World R.State → World R.State × Bool
ping_registry R w = let (r, answered) = R.ping w.registry in (record w { registry = r }, answered)
