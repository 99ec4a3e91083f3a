-- ===== src/Common/Tests.antt =====
-- Boolean tests on native numbers and texts, the conditional, and case splits that keep the equation.
use Prim.Native.Nat.{ℕ, suc, ◌+◌, compare, Ordering}
use Prim.Native.String.{String}
use mathlib.Core.Path.{◌≡◌, refl}
use mathlib.Core.Logic.{◌↔◌, ◌⊎◌, ◌≢◌, inl, inr}
use mathlib.Core.Bool.{Bool, true, false}
use mathlib.Core.Option.{Option, none, some}
use mathlib.Core.List.{List, [], ◌∷◌, ◌++◌}
use native.Mathlib.Omega.{arith}
use text.Mathlib.TextEquality.{eq_iff as text_eq_iff}
use text.Mathlib.Text.{◌==◌ as text_eq}

abbrev pub ltb : ℕ → ℕ → Bool
ltb a b = elim (compare a b) [ Ordering.lt ↦ true | _ ↦ false ]

abbrev pub leb : ℕ → ℕ → Bool
leb a b = elim (compare a b) [ Ordering.gt ↦ false | _ ↦ true ]

abbrev pub num_eq : ℕ → ℕ → Bool
num_eq a b = elim (compare a b) [ Ordering.eq ↦ true | _ ↦ false ]

abbrev pub is_some {ℓ} : {A : Type ℓ} → Option A → Bool
is_some none = false
is_some (some a) = true

infix 1 if◌then◌else◌
abbrev pub if◌then◌else◌ {ℓ} : {A : Type ℓ} → Bool → A → A → A
if true then x else y = x
if false then x else y = y

-- Texts are compared as wholes.
infix 50 ◌==◌
abbrev pub ◌==◌ : String → String → Bool
s == t = text_eq s t

pub eq_iff : (s t : String) → ((s == t) ≡ true) ↔ (s ≡ t)
eq_iff s t = text_eq_iff s t

pub Bool-cases : (b : Bool) → (b ≡ true) ⊎ (b ≡ false)
Bool-cases true = inl refl
Bool-cases false = inr refl

pub eq-cases : (s t : String) → ((s ≡ t) × ((s == t) ≡ true)) ⊎ ((s ≢ t) × ((s == t) ≡ false))
eq-cases s t = elim (Bool-cases (s == t)) [
  | inl e ↦ inl ((eq_iff s t).0 e, e)
  | inr e ↦ inr (ground (arith, eq_iff s t), e)
]

pub eq_self : (s : String) → (s == s) ≡ true
eq_self s = (eq_iff s s).1 refl

pub eq_of_ne : (s t : String) → s ≢ t → (s == t) ≡ false
eq_of_ne s t h = ground (arith, eq_iff s t)

-- Two texts that the test tells apart differ.
pub apart : (s t : String) → (s == t) ≡ false → s ≢ t
apart s t h e = let e' = (eq_iff s t).1 e in cc

module _ {ℓ} {A : Type ℓ} where
  pub Option-cases : (o : Option A) → (o ≡ none) ⊎ ((a : A) × (o ≡ some a))
  Option-cases none = inl refl
  Option-cases (some a) = inr (a, refl)

  abbrev pub length : List A → ℕ
  length [] = 0
  length (x ∷ xs) = suc (length xs)

  pub length-append : (xs ys : List A) → length (xs ++ ys) ≡ length xs + length ys
  length-append [] ys = omega arith
  length-append (x ∷ xs) ys = omega (arith, length-append xs ys)

  -- A predicate at every entry of a list.
  abbrev pub All {κ} : (A → Type κ) → List A → Type κ
  All P [] = Unit
  All P (x ∷ xs) = P x × All P xs
