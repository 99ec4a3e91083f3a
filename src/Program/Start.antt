-- ===== src/Program/Start.antt =====
-- New of bridge/bridge.go.
use registrator.Common.{
  ◌≡◌, ◌≢◌, refl, String, false, Option, none, some, [], Option-cases, inl, inr,
}
use registrator.Common.Map.{Map, get}
use registrator.Bridge.Types.{Config, DeadContainer}
use registrator.Bridge.World.{Registry, World}
use registrator.Bridge.Sync.Adding.{Inv}
use registrator.Bridge.Sync.Consistency.{IsConsistent}
use registrator.Adapter.Uri.{Uri}
use registrator.Adapter.Factories.{lookup}

-- AdapterFactory: the adapter of a URI with its state, or log.Fatal.
abbrev pub Factory : Type 1
Factory = Uri → Option ((R : Registry) × R.State)

pub data Started : Type 1 where
  bad_uri : Started
  unrecognized : Started
  fatal : Started
  started : (R : Registry) → World R.State → Started

abbrev new_world : (R : Registry) → Config → R.State → World R.State
new_world R config r = record {
  config = config;
  locked = false;
  services = [];
  dead_containers = [];
  registry = r;
}

abbrev pub made : Config → Option ((R : Registry) × R.State) → Started
made config none = fatal
made config (some (R, r)) = started R (new_world R config r)

-- New, over the parsed URI: `none` where url.Parse fails. The channel of Initialize is not modelled.
unfoldable pub new_bridge : (Factory → String) → Map Factory → Option Uri → Config → Started
unfolding get
new_bridge type_name factories none config = bad_uri
new_bridge type_name factories (some uri) config = elim (lookup type_name uri.scheme factories) [
  | none ↦ unrecognized
  | some factory ↦ made config (factory uri)
]

-- Nothing is tracked or set aside, and the lock is free.
abbrev pub IsFresh : {S : Type 0} → World S → Type 0
IsFresh w = (w.services ≡ []) × (w.dead_containers ≡ []) × (w.locked ≡ false)

empty-IsConsistent : IsConsistent [] []
empty-IsConsistent = record {
  keys = tt;
  dead_keys = tt;
  separate = λ id h. unfold get in refl;
  inhabited = λ id d e. absurd (nothing {d = d} (unfold get in e));
}
  where
    nothing : {d : DeadContainer} → none ≢ some d
    nothing e = cc

pub IsFresh-Inv : {S : Type 0} (w : World S) → IsFresh w → Inv w
IsFresh-Inv w (e, d, free) = rw (e, d) empty-IsConsistent

-- A bridge that has been made has the configuration and is fresh.
abbrev pub StartsWell : Config → Started → Type 0
StartsWell config (started R w) = (w.config ≡ config) × IsFresh w
StartsWell config bad_uri = Unit
StartsWell config unrecognized = Unit
StartsWell config fatal = Unit

made-StartsWell :
    (config : Config) (o : Option ((R : Registry) × R.State)) → StartsWell config (made config o)
made-StartsWell config none = tt
made-StartsWell config (some (R, r)) = (refl, (refl, refl, refl))

pub new_bridge-StartsWell :
    (type_name : Factory → String) (factories : Map Factory) (uri : Option Uri) (config : Config)
    → StartsWell config (new_bridge type_name factories uri config)
unfolding new_bridge
new_bridge-StartsWell type_name factories none config = tt
new_bridge-StartsWell type_name factories (some uri) config =
    elim (Option-cases (get uri.scheme factories)) [
      | inl e ↦ rw (e, new_bridge) tt
      | inr (factory, e) ↦ rw (e, new_bridge) (made-StartsWell config (factory uri))
    ]
