-- ===== src/Common/Lists.antt =====
-- Slices of lists by native numbers.
use Prim.Native.Nat.{ℕ, zero, suc}
use mathlib.Core.Path.{◌≡◌, refl, ap}
use mathlib.Core.Logic.{◌⊎◌, inl, inr}
use mathlib.Core.List.{List, [], ◌∷◌, ◌++◌}
use mathlib.Core.Option.{Option, none, some}
use registrator.Common.Tests.{length, All}

module _ {ℓ} {A : Type ℓ} where
  abbrev pub get_elem? : List A → ℕ → Option A
  get_elem? [] i = none
  get_elem? (x ∷ xs) zero = some x
  get_elem? (x ∷ xs) (suc i) = get_elem? xs i

  abbrev pub take : ℕ → List A → List A
  take zero xs = []
  take (suc n) [] = []
  take (suc n) (x ∷ xs) = x ∷ take n xs

  abbrev pub drop : ℕ → List A → List A
  drop zero xs = xs
  drop (suc n) [] = []
  drop (suc n) (x ∷ xs) = drop n xs

  pub take-length-append : (xs ys : List A) → take (length xs) (xs ++ ys) ≡ xs
  take-length-append [] ys = refl
  take-length-append (x ∷ xs) ys = ap (◌∷◌ x) (take-length-append xs ys)

  pub drop-length-append : (xs ys : List A) → drop (length xs) (xs ++ ys) ≡ ys
  drop-length-append [] ys = refl
  drop-length-append (x ∷ xs) ys = drop-length-append xs ys

  pub get_elem?-length-append :
      (xs : List A) (y : A) (ys : List A) → get_elem? (xs ++ y ∷ ys) (length xs) ≡ some y
  get_elem?-length-append [] y ys = refl
  get_elem?-length-append (x ∷ xs) y ys = get_elem?-length-append xs y ys

  -- A list is empty or has a last entry.
  pub last-cases : (xs : List A) → (xs ≡ []) ⊎ ((ys : List A) × (y : A) × (xs ≡ ys ++ y ∷ []))
  last-cases [] = inl refl
  last-cases (x ∷ xs) = elim (last-cases xs) [
    | inl e ↦ inr ([], x, ap (◌∷◌ x) e)
    | inr (ys, y, e) ↦ inr (x ∷ ys, y, ap (◌∷◌ x) e)
  ]

module _ {ℓ κ} {A : Type ℓ} (P : A → Type κ) where
  pub All-append : (xs ys : List A) → All P xs → All P ys → All P (xs ++ ys)
  All-append [] ys h k = k
  All-append (x ∷ xs) ys (p, h) k = (p, All-append xs ys h k)

  -- One entry of a list, and others in its place.
  pub All-middle :
      (before : List A) (a : A) (after mid : List A)
      → All P (before ++ a ∷ after)
      → P a × (All P mid → All P (before ++ mid ++ after))
  All-middle [] a after mid (p, h) = (p, λ k. All-append mid after k h)
  All-middle (b ∷ before) a after mid (q, h) =
      let (p, f) = All-middle before a after mid h in (p, λ k. (q, f k))
