-- ===== src/Common/Values.antt =====
-- What holds of every key and value that a map has, and how `put` and `delete` keep it.
use Prim.Native.String.{String}
use mathlib.Core.Path.{◌≡◌, subst}
use mathlib.Core.Logic.{inl, inr}
use mathlib.Core.Option.{some, some-injective}
use mathlib.Core.List.{[], ◌∷◌}
use registrator.Common.Tests.{All, ◌==◌, Bool-cases, eq-cases}
use registrator.Common.Map.{Map, get, put, delete}

module _ {V : Type 0} (P : String → V → Type 0) where
  abbrev pub AllValues : Map V → Type 0
  AllValues = All (λ e. P e.0 e.1)

  pub put-AllValues : (k : String) (v : V) (m : Map V) → P k v → AllValues m → AllValues (put k v m)
  unfolding put
  put-AllValues k v [] p h = (p, tt)
  put-AllValues k v ((j, u) ∷ m) p (q, h) = elim (Bool-cases (j == k)) [
    | inl e ↦ rw (e, put) (p, h)
    | inr e ↦ rw (e, put) (q, put-AllValues k v m p h)
  ]

  pub delete-AllValues : (k : String) (m : Map V) → AllValues m → AllValues (delete k m)
  unfolding delete
  delete-AllValues k [] h = tt
  delete-AllValues k ((j, u) ∷ m) (q, h) = elim (Bool-cases (j == k)) [
    | inl e ↦ rw (e, delete) (delete-AllValues k m h)
    | inr e ↦ rw (e, delete) (q, delete-AllValues k m h)
  ]

  pub get-AllValues : (k : String) (v : V) (m : Map V) → AllValues m → get k m ≡ some v → P k v
  unfolding get
  get-AllValues k v [] h e = cc
  get-AllValues k v ((j, u) ∷ m) (q, h) e = elim (eq-cases j k) [
    | inl (same, t) ↦
        subst (P k) (some-injective u v (rw (t, get) at e)) (subst (λ x. P x u) same q)
    | inr (_, t) ↦ get-AllValues k v m h (rw (t, get) at e)
  ]
