-- ===== src/Adapter/Table/Laws.antt =====
-- What the `init` functions of the imported adapters leave for New of bridge/bridge.go to find.
use registrator.Common.{
  ◌≡◌, ◌≢◌, inl, inr, refl, sym, ◌∙◌, ap, String, Bool, true, false, Option, none, some, List, [],
  ◌∷◌, if◌then◌else◌, ◌==◌, eq-cases, Option-cases, Bool-cases, eq_of_ne, eq_self, apart,
}
use registrator.Common.Map.{Map, get, put, get-put}
use registrator.Bridge.Sync.{contains_id}
use registrator.Adapter.Factories.{name_of, register_component, register_ifaces}
use registrator.Adapter.Table.{
  Package, consul, consulkv, etcd, eureka, skydns2, zookeeper, schemes, new_extension_point,
  register_names, run_inits, adapter_factories, imported,
}
use registrator.Adapter.Table.Schemes.{Imports, HasScheme, HasScheme-unique}

-- The first of two answers.
abbrev keep {ℓ} : {A : Type ℓ} → Option A → Option A → Option A
keep none y = y
keep (some x) y = some x

keep_assoc {ℓ} : {A : Type ℓ} (x y z : Option A) → keep (keep x y) z ≡ keep x (keep y z)
keep_assoc none y z = refl
keep_assoc (some x) y z = refl

keep-none {ℓ} : {A : Type ℓ} (x : Option A) → keep x none ≡ x
keep-none none = refl
keep-none (some x) = refl

module _ {ℓ} {F : Type ℓ} (type_name : F → String) (implements : F → String → Bool) where
  abbrev given : String → List String → F → Option F
  given key names factory = if contains_id key names then some factory else none

  -- All the names are the factory's own.
  abbrev Named : List String → Type 0
  Named names = contains_id "" names ≡ false

  free_name :
      (f : F) (n key : String) (m : Map F)
      → get n m ≡ none
      → get key (put n f m) ≡ keep (get key m) (if key == n then some f else none)
  free_name f n key m e = elim (eq-cases key n) [
    | inl (k, t) ↦
        let e' : get key m ≡ none = ap (λ x. get x m) k ∙ e in
        rw (get-put n key f m, t, e') (rw (ap (λ x. n == x) k, eq_self n) refl)
    | inr (k, t) ↦
        rw (get-put n key f m, t, eq_of_ne n key (λ h. k (sym h))) (sym (keep-none (get key m)))
  ]

  taken_name :
      (f g : F) (n key : String) (m : Map F)
      → get n m ≡ some g
      → get key m ≡ keep (get key m) (if key == n then some f else none)
  taken_name f g n key m e = elim (eq-cases key n) [
    | inl (k, t) ↦ let e' : get key m ≡ some g = ap (λ x. get x m) k ∙ e in rw e' refl
    | inr (k, t) ↦ rw t (sym (keep-none (get key m)))
  ]

  register_component-get :
      (f : F) (name key : String) (m : Map F)
      → name ≢ ""
      → get key (register_component type_name f name m).0
        ≡ keep (get key m) (if key == name then some f else none)
  unfolding register_component
  register_component-get f name key m named =
      let n = name_of type_name f name in
      let plain : n ≡ name = rw (eq_of_ne name "" named) refl in
      elim (Option-cases (get n m)) [
        | inl e ↦
            rw (e, register_component)
              (free_name f n key m e
                ∙ ap (λ x. keep (get key m) (if key == x then some f else none)) plain)
        | inr (g, e) ↦
            rw (e, register_component)
              (taken_name f g n key m e
                ∙ ap (λ x. keep (get key m) (if key == x then some f else none)) plain)
      ]

  abbrev point : Map F → Map (Map F)
  point m = ("AdapterFactory", m) ∷ []

  -- A further name of the same factory.
  given-cons :
      (f : F) (key name : String) (names : List String)
      → keep (if key == name then some f else none) (given key names f) ≡ given key (name ∷ names) f
  unfolding contains_id
  given-cons f key name names = elim (Bool-cases (key == name)) [
    | inl t ↦ rw (t, contains_id) refl
    | inr t ↦ rw (t, contains_id) refl
  ]

  -- No name is empty.
  unfoldable AreNames : List String → Type 0
  AreNames [] = Unit
  AreNames (name ∷ names) = (name ≢ "") × AreNames names

  schemes-AreNames : (p : Package) → AreNames (schemes p)
  unfolding AreNames schemes
  schemes-AreNames consul = (apart _ _ refl, (apart _ _ refl, (apart _ _ refl, tt)))
  schemes-AreNames consulkv = (apart _ _ refl, (apart _ _ refl, tt))
  schemes-AreNames etcd = (apart _ _ refl, tt)
  schemes-AreNames eureka = (apart _ _ refl, tt)
  schemes-AreNames skydns2 = (apart _ _ refl, tt)
  schemes-AreNames zookeeper = (apart _ _ refl, tt)

  -- What the extension point has behind some registrations.
  abbrev Leaves : (String → Option F) → Map F → Map (Map F) → Type ℓ
  Leaves new m extpoints =
      (m' : Map F) × (extpoints ≡ point m')
      × ((key : String) → get key m' ≡ keep (get key m) (new key))

  register_names-get :
      (f : F) (names : List String) (m : Map F)
      → implements f "AdapterFactory" ≡ true
      → AreNames names
      → Leaves (λ key. given key names f) m (register_names type_name implements f names (point m))
  unfolding register_names register_ifaces AreNames contains_id
  register_names-get f [] m h k = (m, refl, λ key. sym (keep-none (get key m)))
  register_names-get f (name ∷ names) m h (n, k) =
      let m1 = (register_component type_name f name m).0 in
      let (m', e, g) = register_names-get f names m1 h k in
      (
        m',
        rw h e,
        λ key.
            g key
            ∙ ap (λ x. keep x (given key names f)) (register_component-get f name key m n)
            ∙ keep_assoc (get key m) _ _
            ∙ ap (keep (get key m)) (given-cons f key name names),
      )

  module _ (factory_of : Package → F)
      (adapters : (p : Package) → implements (factory_of p) "AdapterFactory" ≡ true) where
    pub first_of : String → List Package → Option F
    first_of key [] = none
    first_of key (p ∷ ps) = keep (given key (schemes p) (factory_of p)) (first_of key ps)

    run_inits-get :
        (ps : List Package) (m : Map F)
        → Leaves (λ key. first_of key ps) m (run_inits type_name implements factory_of ps (point m))
    unfolding run_inits first_of
    run_inits-get [] m = (m, refl, λ key. sym (keep-none (get key m)))
    run_inits-get (p ∷ ps) m =
        let (m1, e1, g1) =
          register_names-get (factory_of p) (schemes p) m (adapters p) (schemes-AreNames p) in
        let (m2, e2, g2) = run_inits-get ps m1 in
        (
          m2,
          ap (run_inits type_name implements factory_of ps) e1 ∙ e2,
          λ key. g2 key ∙ ap (λ x. keep x (first_of key ps)) (g1 key) ∙ keep_assoc (get key m) _ _,
        )

    pub imported-get :
        (ps : List Package) (key : String)
        → get key (imported type_name implements factory_of ps) ≡ first_of key ps
    unfolding imported new_extension_point adapter_factories put get
    imported-get ps key =
        let (m, e, g) = run_inits-get ps [] in
        ap (λ x. get key (adapter_factories type_name implements x)) e ∙ g key

    pub first_of-hit :
        (p : Package) (ps : List Package) (key : String)
        → HasScheme p key
        → Imports ps p
        → first_of key ps ≡ some (factory_of p)
    unfolding first_of Imports
    first_of-hit p [] key h i = absurd i
    first_of-hit p (q ∷ ps) key h i = elim (Bool-cases (contains_id key (schemes q))) [
      | inl t ↦ rw (t, first_of) (ap (λ x. some (factory_of x)) (HasScheme-unique q p key t h))
      | inr t ↦ elim i [
        | inl same ↦
            absurd (true-false (sym h ∙ ap (λ x. contains_id key (schemes x)) (sym same) ∙ t))
        | inr later ↦ rw (t, first_of) (first_of-hit p ps key h later)
      ]
    ]
      where
        true-false : true ≢ false
        true-false e = cc

    pub first_of-miss :
        (ps : List Package) (key : String)
        → ((p : Package) → contains_id key (schemes p) ≡ false)
        → first_of key ps ≡ none
    unfolding first_of
    first_of-miss [] key h = refl
    first_of-miss (p ∷ ps) key h = rw (h p, first_of) (first_of-miss ps key h)
