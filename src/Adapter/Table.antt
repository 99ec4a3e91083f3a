-- ===== src/Adapter/Table.antt =====
-- The adapters that modules.go imports: each package registers its factory under the schemes of its
-- `init`. The extension point of bridge/extpoints.go is made before, as a variable of the package
-- that they import.
pub mod Schemes
pub mod Laws
use registrator.Common.{String, Bool, none, some, List, [], ◌∷◌}
use registrator.Common.Map.{Map, get, put}
use registrator.Adapter.Factories.{register_ifaces}

pub data Package : Type 0 where
  consul consulkv etcd eureka skydns2 zookeeper : Package

-- modules.go
abbrev pub modules : List Package
modules = consul ∷ consulkv ∷ etcd ∷ eureka ∷ skydns2 ∷ zookeeper ∷ []

-- The names of the calls of bridge.Register in each package's `init`.
abbrev consul_schemes : List String
consul_schemes = "consul" ∷ "consul-tls" ∷ "consul-unix" ∷ []

abbrev consulkv_schemes : List String
consulkv_schemes = "consulkv" ∷ "consulkv-unix" ∷ []

abbrev etcd_schemes : List String
etcd_schemes = "etcd" ∷ []

abbrev eureka_schemes : List String
eureka_schemes = "eureka" ∷ []

abbrev skydns2_schemes : List String
skydns2_schemes = "skydns2" ∷ []

abbrev zookeeper_schemes : List String
zookeeper_schemes = "zookeeper" ∷ []

unfoldable pub schemes : Package → List String
schemes consul = consul_schemes
schemes consulkv = consulkv_schemes
schemes etcd = etcd_schemes
schemes eureka = eureka_schemes
schemes skydns2 = skydns2_schemes
schemes zookeeper = zookeeper_schemes

module _ {ℓ} {F : Type ℓ} (type_name : F → String) (implements : F → String → Bool) where
  -- newExtensionPoint, in the map of all of them
  unfoldable pub new_extension_point : String → Map (Map F) → Map (Map F)
  unfolding put
  new_extension_point iface extpoints = put iface [] extpoints

  -- The calls of bridge.Register with one factory.
  unfoldable pub register_names : F → List String → Map (Map F) → Map (Map F)
  unfolding register_ifaces
  register_names factory [] extpoints = extpoints
  register_names factory (name ∷ names) extpoints =
      register_names factory names (register_ifaces type_name implements factory name extpoints).0

  unfoldable pub run_inits : (Package → F) → List Package → Map (Map F) → Map (Map F)
  unfolding register_names schemes
  run_inits factory_of [] extpoints = extpoints
  run_inits factory_of (p ∷ ps) extpoints =
      run_inits factory_of ps (register_names (factory_of p) (schemes p) extpoints)

  -- AdapterFactories.Lookup
  unfoldable pub adapter_factories : Map (Map F) → Map F
  unfolding get
  adapter_factories extpoints = elim (get "AdapterFactory" extpoints) [
    | none ↦ []
    | some components ↦ components
  ]

  -- The extension point behind the `init` functions in the order of the list.
  unfoldable pub imported : (Package → F) → List Package → Map F
  unfolding run_inits new_extension_point adapter_factories
  imported factory_of ps =
      adapter_factories (run_inits factory_of ps (new_extension_point "AdapterFactory" []))
