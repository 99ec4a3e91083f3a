-- ===== src/Adapter/Factories.antt =====
-- bridge/extpoints.go: the adapter factories by their names. The locks of the maps are free between
-- two calls. A type's name and whether a component implements an interface come from the package
-- reflect and are parameters.
use registrator.Common.{
  ◌≡◌, ◌≢◌, ◌⊎◌, refl, String, Bool, true, false, Option, none, some, List, [], ◌∷◌, if◌then◌else◌,
  ◌==◌, Option-cases, inl, inr, sym, eq-cases,
}
use registrator.Common.Map.{
  Map, get, put, delete, UniqueKeys, put-UniqueKeys, get-put, get_of_missing,
}

module _ {ℓ} {F : Type ℓ} (type_name : F → String) where
  -- lookup of an extension point
  abbrev pub lookup : String → Map F → Option F
  lookup name components = get name components

  abbrev pub name_of : F → String → String
  name_of component name = if name == "" then type_name component else name

  -- register: the first component of a name stays.
  unfoldable pub register_component : F → String → Map F → Map F × Bool
  unfolding get put
  register_component component name components = elim (get (name_of component name) components) [
    | none ↦ (put (name_of component name) component components, true)
    | some _ ↦ (components, false)
  ]

  unfoldable pub unregister_component : String → Map F → Map F × Bool
  unfolding get delete
  unregister_component name components = elim (get name components) [
    | none ↦ (components, false)
    | some _ ↦ (delete name components, true)
  ]

  -- The loop of Register over the interfaces that the component implements, with those that took it.
  unfoldable pub register_ifaces :
      (F → String → Bool) → F → String → Map (Map F) → Map (Map F) × List String
  unfolding register_component
  register_ifaces implements component name [] = ([], [])
  register_ifaces implements component name ((iface, ep) ∷ eps) =
      let (eps', ifaces) = register_ifaces implements component name eps in
      let (ep', ok) = register_component component name ep in
      if implements component iface
      then ((iface, ep') ∷ eps', if ok then iface ∷ ifaces else ifaces)
      else ((iface, ep) ∷ eps', ifaces)

  unfoldable pub unregister_ifaces : String → Map (Map F) → Map (Map F) × List String
  unfolding unregister_component
  unregister_ifaces name [] = ([], [])
  unregister_ifaces name ((iface, ep) ∷ eps) =
      let (eps', ifaces) = unregister_ifaces name eps in
      let (ep', ok) = unregister_component name ep in
      ((iface, ep') ∷ eps', if ok then iface ∷ ifaces else ifaces)

  -- The loop of `all`
  copy_components : Map F → Map F → Map F
  unfolding put
  copy_components [] all = all
  copy_components ((name, component) ∷ components) all =
      copy_components components (put name component all)

  unfoldable pub all_components : Map F → Map F
  unfolding copy_components
  all_components components = copy_components components []

  or_else : Option F → Option F → Option F
  or_else none y = y
  or_else (some x) y = some x

  copy_components-get :
      (key : String) (components all : Map F)
      → UniqueKeys components
      → get key (copy_components components all) ≡ or_else (get key components) (get key all)
  unfolding copy_components get or_else
  copy_components-get key [] all u = refl
  copy_components-get key ((name, f) ∷ components) all (missing, u) = elim (eq-cases name key) [
    | inl (e, t) ↦
        rw
          (
            copy_components-get key components (put name f all) u,
            get-put name key f all,
            t,
            get_of_missing key components (rw (sym e) missing),
          )
          refl
    | inr (e, t) ↦
        rw (copy_components-get key components (put name f all) u, get-put name key f all, t) refl
  ]

  -- The copy finds what the extension point finds.
  all_components-get :
      (key : String) (components : Map F)
      → UniqueKeys components
      → get key (all_components components) ≡ get key components
  unfolding all_components get or_else
  all_components-get key components u = elim (Option-cases (get key components)) [
    | inl e ↦ rw (copy_components-get key components [] u, e) refl
    | inr (f, e) ↦ rw (copy_components-get key components [] u, e) refl
  ]

  -- A component is registered exactly if its name is free; then it is found under that name, and
  -- in each case every other name, and a taken one, finds what it found. Names stay unique.
  pub register_component_lem :
      (component : F) (name key : String) (components : Map F)
      → UniqueKeys components
      → (((register_component component name components).1 ≡ true)
          × (lookup (name_of component name) components ≡ none)
          × (lookup key (register_component component name components).0
              ≡ (if name_of component name == key then some component else lookup key components))
          × UniqueKeys (register_component component name components).0)
        ⊎ (((register_component component name components).1 ≡ false)
            × (lookup (name_of component name) components ≢ none)
            × ((register_component component name components).0 ≡ components))
  unfolding register_component
  register_component_lem component name key components u =
      elim (Option-cases (get (name_of component name) components)) [
        | inl e ↦
            rw (e, register_component)
              (inl (
                refl,
                refl,
                get-put (name_of component name) key component components,
                put-UniqueKeys (name_of component name) component components u,
              ))
        | inr (f, e) ↦ rw (e, register_component) (inr (refl, λ h. cc, refl))
      ]
