-- ===== src/Common/Map.antt =====
-- A Go map with text keys as an association list. `range` visits the entries in the list's order,
-- so a theorem about every list is a theorem about every order of iteration.
use Prim.Native.String.{String}
use mathlib.Core.Logic.{◌≢◌, inl, inr}
use mathlib.Core.Path.{◌≡◌, refl, sym}
use mathlib.Core.Bool.{Bool, true, false}
use mathlib.Core.Option.{Option, none, some}
use mathlib.Core.List.{List, [], ◌∷◌}
use native.Mathlib.Omega.{arith}
use registrator.Common.Tests.{◌==◌, if◌then◌else◌, eq_iff, eq-cases, eq_self, eq_of_ne}

abbrev pub Map {ℓ} : Type ℓ → Type ℓ
Map V = List (String × V)

module _ {ℓ} {V : Type ℓ} where
  -- `v, ok := m[k]`
  unfoldable pub get : String → Map V → Option V
  get k [] = none
  get k ((j, v) ∷ m) = if j == k then some v else get k m

  -- `m[k]`, with the type's zero value for a missing key
  unfoldable pub get_or : V → String → Map V → V
  get_or d k [] = d
  get_or d k ((j, v) ∷ m) = if j == k then v else get_or d k m

  -- `m[k] = v`
  unfoldable pub put : String → V → Map V → Map V
  put k v [] = (k, v) ∷ []
  put k v ((j, w) ∷ m) = if j == k then (k, v) ∷ m else (j, w) ∷ put k v m

  -- `delete(m, k)`
  unfoldable pub delete : String → Map V → Map V
  delete k [] = []
  delete k ((j, v) ∷ m) = if j == k then delete k m else (j, v) ∷ delete k m

  pub get-put :
      (k j : String) (v : V) (m : Map V) → get j (put k v m) ≡ (if k == j then some v else get j m)
  unfolding get put
  get-put k j v [] = refl
  get-put k j v ((i, w) ∷ m) = ground (arith, eq_iff k j, eq_iff i k, eq_iff i j, get-put k j v m)

  pub get-delete :
      (k j : String) (m : Map V) → get j (delete k m) ≡ (if k == j then none else get j m)
  unfolding get delete
  get-delete k j [] = elim (eq-cases k j) [ inl (e, t) ↦ rw t | inr (e, t) ↦ rw t ]
  get-delete k j ((i, w) ∷ m) = ground (arith, eq_iff k j, eq_iff i k, eq_iff i j, get-delete k j m)

  pub get_or-put :
      (d : V) (k j : String) (v : V) (m : Map V)
      → get_or d j (put k v m) ≡ (if k == j then v else get_or d j m)
  unfolding get_or put
  get_or-put d k j v [] = refl
  get_or-put d k j v ((i, w) ∷ m) =
      ground (arith, eq_iff k j, eq_iff i k, eq_iff i j, get_or-put d k j v m)

  pub get_or-delete :
      (d : V) (k j : String) (m : Map V)
      → get_or d j (delete k m) ≡ (if k == j then d else get_or d j m)
  unfolding get_or delete
  get_or-delete d k j [] = elim (eq-cases k j) [ inl (e, t) ↦ rw t | inr (e, t) ↦ rw t ]
  get_or-delete d k j ((i, w) ∷ m) =
      ground (arith, eq_iff k j, eq_iff i k, eq_iff i j, get_or-delete d k j m)

  pub get_or-delete_self : (d : V) (k : String) (m : Map V) → get_or d k (delete k m) ≡ d
  get_or-delete_self d k m = rw (get_or-delete d k k m, eq_self k) refl

  pub get-delete_self : (k : String) (m : Map V) → get k (delete k m) ≡ none
  get-delete_self k m = rw (get-delete k k m, eq_self k) refl

  pub get_or-delete_ne :
      (d : V) (k j : String) (m : Map V) → k ≢ j → get_or d j (delete k m) ≡ get_or d j m
  get_or-delete_ne d k j m h = rw (get_or-delete d k j m, eq_of_ne k j h) refl

  pub get-delete_ne : (k j : String) (m : Map V) → k ≢ j → get j (delete k m) ≡ get j m
  get-delete_ne k j m h = rw (get-delete k j m, eq_of_ne k j h) refl

  pub get-put_ne : (k j : String) (v : V) (m : Map V) → k ≢ j → get j (put k v m) ≡ get j m
  get-put_ne k j v m h = rw (get-put k j v m, eq_of_ne k j h) refl

  pub get-put_self : (k : String) (v : V) (m : Map V) → get k (put k v m) ≡ some v
  get-put_self k v m = rw (get-put k k v m, eq_self k) refl

  -- Whether a key is there.
  unfoldable pub has_key : String → Map V → Bool
  has_key k [] = false
  has_key k ((j, v) ∷ m) = if j == k then true else has_key k m

  -- Every key stands once.
  abbrev pub UniqueKeys : Map V → Type 0
  UniqueKeys [] = Unit
  UniqueKeys ((k, v) ∷ m) = (has_key k m ≡ false) × UniqueKeys m

  pub get_of_missing : (k : String) (m : Map V) → has_key k m ≡ false → get k m ≡ none
  unfolding get has_key
  get_of_missing k [] h = refl
  get_of_missing k ((j, v) ∷ m) h = ground (arith, get_of_missing k m)

  has_key-put :
      (k j : String) (v : V) (m : Map V)
      → has_key j (put k v m) ≡ (if k == j then true else has_key j m)
  unfolding has_key put
  has_key-put k j v [] = refl
  has_key-put k j v ((i, w) ∷ m) =
      ground (arith, eq_iff k j, eq_iff i k, eq_iff i j, has_key-put k j v m)

  has_key-delete : (k j : String) (m : Map V) → has_key j m ≡ false → has_key j (delete k m) ≡ false
  unfolding has_key delete
  has_key-delete k j [] h = refl
  has_key-delete k j ((i, w) ∷ m) h = ground (arith, has_key-delete k j m)

  pub put-UniqueKeys : (k : String) (v : V) (m : Map V) → UniqueKeys m → UniqueKeys (put k v m)
  unfolding put has_key
  put-UniqueKeys k v [] u = (refl, tt)
  put-UniqueKeys k v ((i, w) ∷ m) (h, u) = elim (eq-cases i k) [
    | inl (e, t) ↦ rw (t, put) (rw (← e) (h, u))
    | inr (e, t) ↦
        rw (t, put)
          (rw (has_key-put k i v m, eq_of_ne k i (λ e'. e (sym e'))) h, put-UniqueKeys k v m u)
  ]

  pub delete-UniqueKeys : (k : String) (m : Map V) → UniqueKeys m → UniqueKeys (delete k m)
  unfolding delete
  delete-UniqueKeys k [] u = tt
  delete-UniqueKeys k ((i, w) ∷ m) (h, u) = elim (eq-cases i k) [
    | inl (e, t) ↦ rw (t, delete) (delete-UniqueKeys k m u)
    | inr (e, t) ↦ rw (t, delete) (has_key-delete k i m h, delete-UniqueKeys k m u)
  ]
