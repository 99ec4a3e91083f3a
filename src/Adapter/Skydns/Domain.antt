-- ===== src/Adapter/Skydns/Domain.antt =====
-- domainPath of skydns2/skydns2.go: the loop that turns the parts of a domain round in their place.
use mathlib.Core.List.{reverse-cons, reverse-append}
use registrator.Common.{
  ℕ, zero, suc, ◌+◌, ◌-◌, ◌≤◌, ◌<◌, ◌≡◌, refl, sym, ◌∙◌, ap, String, ◌<>◌, true, false, Option,
  none, some, List, [], ◌∷◌, ◌++◌, inl, inr, map, reverse, append_assoc, append-nil, ltb, length,
  length-append, arith,
}
use registrator.Common.Lists.{get_elem?, get_elem?-length-append, last-cases}
use registrator.Common.Text.{chars, text, split}

module _ {ℓ} {A : Type ℓ} where
  abbrev set_elem : List A → ℕ → A → List A
  set_elem [] i y = []
  set_elem (x ∷ xs) zero y = y ∷ xs
  set_elem (x ∷ xs) (suc i) y = x ∷ set_elem xs i y

  -- components[i], components[j] = components[j], components[i]; `none` is an index out of range.
  unfoldable pub swap : ℕ → ℕ → List A → Option (List A)
  swap i j xs = elim (get_elem? xs i) [
    | none ↦ none
    | some x ↦ elim (get_elem? xs j) [
      | none ↦ none
      | some y ↦ some (set_elem (set_elem xs i y) j x)
    ]
  ]

  -- The loop, with as much fuel as there are parts.
  unfoldable pub swap_loop : ℕ → ℕ → ℕ → List A → Option (List A)
  unfolding swap
  swap_loop zero i j xs = none
  swap_loop (suc fuel) i j xs = elim (ltb i j) [
    | false ↦ some xs
    | true ↦ elim (swap i j xs) [ none ↦ none | some ys ↦ swap_loop fuel (i + 1) (j - 1) ys ]
  ]

  set_elem-length-append :
      (xs : List A) (y z : A) (ys : List A) → set_elem (xs ++ y ∷ ys) (length xs) z ≡ xs ++ z ∷ ys
  set_elem-length-append [] y z ys = refl
  set_elem-length-append (x ∷ xs) y z ys = ap (◌∷◌ x) (set_elem-length-append xs y z ys)

  -- The entry behind the first and the middle ones.
  module _ (a m b : List A) (x y : A) where
    far_index : length (a ++ x ∷ m) ≡ length a + suc (length m)
    far_index = length-append a (x ∷ m)

    far_list : (a ++ x ∷ m) ++ y ∷ b ≡ a ++ x ∷ (m ++ y ∷ b)
    far_list = append_assoc a (x ∷ m) (y ∷ b)

    get_far : get_elem? (a ++ x ∷ (m ++ y ∷ b)) (length a + suc (length m)) ≡ some y
    get_far =
        ap (λ l. get_elem? l (length a + suc (length m))) (sym far_list)
        ∙ ap (get_elem? ((a ++ x ∷ m) ++ y ∷ b)) (sym far_index)
        ∙ get_elem?-length-append (a ++ x ∷ m) y b

    set_far :
        (z : A)
        → set_elem (a ++ x ∷ (m ++ y ∷ b)) (length a + suc (length m)) z ≡ a ++ x ∷ (m ++ z ∷ b)
    set_far z =
        ap (λ l. set_elem l (length a + suc (length m)) z) (sym far_list)
        ∙ ap (λ i. set_elem ((a ++ x ∷ m) ++ y ∷ b) i z) (sym far_index)
        ∙ set_elem-length-append (a ++ x ∷ m) y z b
        ∙ append_assoc a (x ∷ m) (z ∷ b)

  swap_ends :
      (a m b : List A) (x y : A)
      → swap (length a) (length a + suc (length m)) (a ++ x ∷ (m ++ y ∷ b))
        ≡ some (a ++ y ∷ (m ++ x ∷ b))
  unfolding swap
  swap_ends a m b x y =
      rw (get_elem?-length-append a x (m ++ y ∷ b), swap)
        (rw (get_far a m b x y, set_elem-length-append a x y (m ++ y ∷ b))
          (ap some (set_far a m b y y x)))

  -- A round that ends the loop, and one that goes on.
  swap_loop-done : (fuel i j : ℕ) (xs : List A) → j ≤ i → swap_loop (suc fuel) i j xs ≡ some xs
  unfolding swap_loop
  swap_loop-done fuel i j xs h = let e : ltb i j ≡ false = ground arith in rw (e, swap_loop) refl

  swap_loop-step :
      (fuel i j : ℕ) (xs ys : List A)
      → i < j
      → swap i j xs ≡ some ys
      → swap_loop (suc fuel) i j xs ≡ swap_loop fuel (i + 1) (j - 1) ys
  unfolding swap_loop
  swap_loop-step fuel i j xs ys h s =
      let e : ltb i j ≡ true = ground arith in rw (e, swap_loop) (rw s refl)

  reverse_ends : (x y : A) (m : List A) → reverse (x ∷ (m ++ y ∷ [])) ≡ y ∷ (reverse m ++ x ∷ [])
  reverse_ends x y m = rw (reverse-cons x (m ++ y ∷ []), reverse-append m (y ∷ [])) refl

  -- A round brings the last entry of the middle behind the front, and the first before the back.
  swap_loop_round :
      (fuel : ℕ) (a m b : List A) (x y : A)
      → swap_loop fuel
          (length (a ++ y ∷ []))
          (length (a ++ y ∷ []) + length m - 1)
          ((a ++ y ∷ []) ++ (m ++ x ∷ b))
        ≡ some ((a ++ y ∷ []) ++ (reverse m ++ x ∷ b))
      → swap_loop (suc fuel) (length a) (length a + suc (length m)) (a ++ x ∷ (m ++ y ∷ b))
        ≡ some (a ++ y ∷ (reverse m ++ x ∷ b))
  swap_loop_round fuel a m b x y ih =
      let front : length (a ++ y ∷ []) ≡ length a + 1 = length-append a (y ∷ []) in
      swap_loop-step fuel _ _ _ _ (omega arith) (swap_ends a m b x y)
      ∙ ap (λ i. swap_loop fuel i (length a + suc (length m) - 1) (a ++ y ∷ (m ++ x ∷ b)))
          (sym front)
      ∙ ap (λ j. swap_loop fuel (length (a ++ y ∷ [])) j (a ++ y ∷ (m ++ x ∷ b)))
          (omega (arith, front))
      ∙ ap (swap_loop fuel (length (a ++ y ∷ [])) (length (a ++ y ∷ []) + length m - 1))
          (sym (append_assoc a (y ∷ []) (m ++ x ∷ b)))
      ∙ ih
      ∙ ap some (append_assoc a (y ∷ []) (reverse m ++ x ∷ b))

  swap_loop-reverse :
      (fuel : ℕ) (a m b : List A)
      → length m < fuel
      → swap_loop fuel (length a) (length a + length m - 1) (a ++ (m ++ b))
        ≡ some (a ++ (reverse m ++ b))
  swap_loop-reverse zero a m b h = absurd (omega arith)
  swap_loop-reverse (suc fuel) a [] b h = swap_loop-done fuel _ _ _ (omega arith)
  swap_loop-reverse (suc fuel) a (x ∷ m) b h = elim (last-cases m) [
    | inl e ↦ rw e (swap_loop-done fuel _ _ _ (omega arith))
    | inr (m', y, e) ↦
        let len : length m ≡ length m' + 1 = ap length e ∙ length-append m' (y ∷ []) in
        let middle : m ++ b ≡ m' ++ y ∷ b = ap (λ l. l ++ b) e ∙ append_assoc m' (y ∷ []) b in
        let turned : reverse (x ∷ m) ++ b ≡ y ∷ (reverse m' ++ x ∷ b) =
          ap (λ l. reverse (x ∷ l) ++ b) e
          ∙ ap (λ l. l ++ b) (reverse_ends x y m')
          ∙ ap (◌∷◌ y) (append_assoc (reverse m') (x ∷ []) b) in
        ap (λ j. swap_loop (suc fuel) (length a) j (a ++ x ∷ (m ++ b))) (omega arith)
        ∙ ap (λ l. swap_loop (suc fuel) (length a) (length a + suc (length m')) (a ++ x ∷ l)) middle
        ∙ swap_loop_round fuel a m' b x y
            (swap_loop-reverse fuel (a ++ y ∷ []) m' (x ∷ b) (omega arith))
        ∙ ap (λ l. some (a ++ l)) (sym turned)
  ]

-- strings.Join
unfoldable pub join : String → List String → String
join sep [] = ""
join sep (x ∷ []) = x
join sep (x ∷ y ∷ xs) = x <> (sep <> join sep (y ∷ xs))

unfoldable pub domain_path : String → Option String
unfolding swap_loop split join
domain_path domain =
    let components = map text (split b'.' (chars domain)) in
    elim (swap_loop (suc (length components)) 0 (length components - 1) components) [
      | none ↦ none
      | some reversed ↦ some ("/skydns/" <> join "/" reversed)
    ]

swap_all : (xs : List String) → swap_loop (suc (length xs)) 0 (length xs - 1) xs ≡ some (reverse xs)
swap_all xs =
    ap (λ j. swap_loop (suc (length xs)) 0 j xs) (omega arith)
    ∙ ap (swap_loop (suc (length xs)) 0 (0 + length xs - 1)) (sym (append-nil xs))
    ∙ swap_loop-reverse (suc (length xs)) [] xs [] (omega arith)
    ∙ ap some (append-nil (reverse xs))

-- The loop that swaps from both ends stays in range and ends, and turns the parts of the domain
-- round: for every domain the path is `/skydns/` and the parts from last to first, with slashes.
pub domain_path-reverse :
    (domain : String)
    → domain_path domain
      ≡ some ("/skydns/" <> join "/" (reverse (map text (split b'.' (chars domain)))))
unfolding domain_path
domain_path-reverse domain =
    let parts = map text (split b'.' (chars domain)) in rw (swap_all parts, domain_path) refl
