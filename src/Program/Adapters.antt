-- ===== src/Program/Adapters.antt =====
-- New of bridge/bridge.go with the adapters that modules.go imports.
use registrator.Common.{◌≡◌, refl, ◌⊎◌, inl, inr, ◌∙◌, String, Bool, true, some, List}
use registrator.Bridge.Types.{Config}
use registrator.Adapter.Uri.{Uri}
use registrator.Adapter.Table.{Package, imported}
use registrator.Adapter.Table.Schemes.{Imports, HasScheme, Lacks, scheme-cases}
use registrator.Adapter.Table.Laws.{imported-get, first_of-hit, first_of-miss}
use registrator.Program.Start.{Factory, unrecognized, made, new_bridge}

-- Whatever the order in which the imported packages are initialised: an adapter URI with a scheme
-- of one of the packages gets the adapter that the factory of this package makes, and any other
-- scheme is refused. Every factory is taken to implement AdapterFactory.
pub new_bridge-imported :
    (type_name : Factory → String) (implements : Factory → String → Bool) (make : Package → Factory)
    → ((p : Package) → implements (make p) "AdapterFactory" ≡ true)
    → (ps : List Package) → ((p : Package) → Imports ps p)
    → (uri : Uri) (config : Config)
    → ((p : Package) × HasScheme p uri.scheme
        × (new_bridge type_name (imported type_name implements make ps) (some uri) config
            ≡ made config (make p uri)))
      ⊎ (((p : Package) → Lacks p uri.scheme)
          × (new_bridge type_name (imported type_name implements make ps) (some uri) config
              ≡ unrecognized))
unfolding new_bridge
new_bridge-imported type_name implements make adapters ps all uri config =
    let found = imported-get type_name implements make adapters ps uri.scheme in
    elim (scheme-cases uri.scheme) [
      | inl (p, h) ↦
          let e =
            found ∙ first_of-hit type_name implements make adapters p ps uri.scheme h (all p) in
          inl (p, h, rw (e, new_bridge) refl)
      | inr h ↦
          let e = found ∙ first_of-miss type_name implements make adapters ps uri.scheme h in
          inr (h, rw (e, new_bridge) refl)
    ]
