-- ===== src/Bridge/Tags/Scan.antt =====
-- The loop of recParseEscapedComma, bridge/util.go: where it stops, and with what.
use native.Mathlib.Numerals.{add-one}
use registrator.Common.{
  ℕ, zero, suc, ◌+◌, ◌-◌, ◌<◌, ◌≤◌, ◌≡◌, refl, sym, ap, ◌∙◌, ◌⊎◌, inl, inr, ◌≢◌, Char, true, false,
  none, some, List, [], ◌∷◌, ◌++◌, append_assoc, length, length-append, Bool-cases, arith,
}
use registrator.Common.Lists.{
  take, drop, take-length-append, drop-length-append, get_elem?-length-append, last-cases,
}
use registrator.Common.Text.{is}
use registrator.Bridge.Tags.{
  comma, backslash, index_of_comma, Piece, tag_and_rest, last_tag, scan_tag,
}
use registrator.Bridge.Tags.Reading.{
  emit, read_tags, NoComma, comma_view, read_plain, read_escaped, read_ended, read_comma,
}

-- What the loop returns, as the tags from here on.
abbrev pub finish : Piece → List (List Char)
finish (last_tag tag) = emit tag []
finish (tag_and_rest tag rest) = emit tag (read_tags [] rest)

-- The text behind a piece is shorter than the text that the loop had before it, and a piece's tag
-- is never empty.
abbrev pub Shorter : ℕ → Piece → Type 0
Shorter n (last_tag tag) = tag ≢ []
Shorter n (tag_and_rest tag rest) = (tag ≢ []) × (length rest < n)

-- The part of the text that the loop has passed ends in a comma, if there is any.
abbrev Passed : List Char → Type 0
Passed done =
    (done ≡ []) ⊎ ((ys : List Char) × (c : Char) × (done ≡ ys ++ c ∷ []) × (is comma c ≡ true))

abbrev Scanned : ℕ → List Char → List Char → Type 0
Scanned fuel done rest =
    (piece : Piece) × (scan_tag fuel (done ++ rest) (length done) ≡ some piece)
    × (read_tags done rest ≡ finish piece)
    × Shorter (length rest) piece

comma_not_backslash : (c : Char) → is comma c ≡ true → is backslash c ≡ false
comma_not_backslash c h = ground arith

-- One round at a comma: `x` is the text up to the character `b` in front of it.
module _ (fuel : ℕ) (x : List Char) (b c : Char) (post : List Char) (offset i : ℕ)
    (found : index_of_comma (drop offset (x ++ b ∷ c ∷ post)) ≡ some i)
    (at : offset + i ≡ suc (length x)) where
  length-snoc : length (x ++ b ∷ []) ≡ suc (length x)
  length-snoc = omega (arith, length-append x (b ∷ []))

  take_tag : take (suc (length x)) (x ++ b ∷ c ∷ post) ≡ x ++ b ∷ []
  take_tag =
      rw (← length-snoc, ← append_assoc x (b ∷ []) (c ∷ post))
        (take-length-append (x ++ b ∷ []) (c ∷ post))

  drop_tag : drop (suc (length x)) (x ++ b ∷ c ∷ post) ≡ c ∷ post
  drop_tag =
      rw (← length-snoc, ← append_assoc x (b ∷ []) (c ∷ post))
        (drop-length-append (x ++ b ∷ []) (c ∷ post))

  drop_rest : drop (suc (length x) + 1) (x ++ b ∷ c ∷ post) ≡ post
  drop_rest =
      rw (add-one, ← length-pair, ← append_assoc x (b ∷ c ∷ []) post)
        (drop-length-append (x ++ b ∷ c ∷ []) post)
    where
      length-pair : length (x ++ b ∷ c ∷ []) ≡ suc (suc (length x))
      length-pair = omega (arith, length-append x (b ∷ c ∷ []))

  before : suc (length x) - 1 ≡ length x
  before = omega arith

  scan_round_escaped :
      is backslash b ≡ true
      → scan_tag (suc fuel) (x ++ b ∷ c ∷ post) offset
        ≡ scan_tag fuel (x ++ c ∷ post) (suc (length x))
  unfolding scan_tag
  scan_round_escaped e =
      rw (found, scan_tag)
        (rw at (
          rw (get_elem?-length-append x b (c ∷ post), e)
            (rw (at, drop_tag, before, take-length-append x (b ∷ c ∷ post)) refl)))

  scan_round_ended :
      is backslash b ≡ false
      → scan_tag (suc fuel) (x ++ b ∷ c ∷ post) offset ≡ some (tag_and_rest (x ++ b ∷ []) post)
  unfolding scan_tag
  scan_round_ended e =
      rw (found, scan_tag)
        (rw at (rw (get_elem?-length-append x b (c ∷ post), e) (rw (at, take_tag, drop_rest) refl)))

-- A tag starts with a character other than a comma.
abbrev pub Started : List Char → List Char → Type 0
Started done rest =
    (done ≢ []) ⊎ ((c : Char) × (s : List Char) × (rest ≡ c ∷ s) × (is comma c ≡ false))

snoc-ne-nil : (xs : List Char) (y : Char) → xs ++ y ∷ [] ≢ []
snoc-ne-nil [] y e = cc
snoc-ne-nil (x ∷ xs) y e = cc

pub emit_kept : {s : List Char} → (ts : List (List Char)) → s ≢ [] → emit s ts ≡ s ∷ ts
emit_kept {s = []} ts h = absurd (h refl)
emit_kept {s = c ∷ s} ts h = refl

-- The rest of the text, by the place of its next comma.
scan_end :
    (fuel : ℕ) (done rest : List Char)
    → NoComma rest
    → index_of_comma rest ≡ none
    → done ++ rest ≢ []
    → Scanned (suc fuel) done rest
unfolding scan_tag
scan_end fuel done rest h i kept = (
  last_tag (done ++ rest),
  rw (scan_tag, drop-length-append done rest, i),
  read_plain done rest h,
  kept,
)

scan_at_start :
    (fuel : ℕ) (ys : List Char) (d c : Char) (post : List Char)
    → index_of_comma (c ∷ post) ≡ some 0
    → is comma c ≡ true
    → is comma d ≡ true
    → Scanned (suc fuel) (ys ++ d ∷ []) (c ∷ post)
scan_at_start fuel ys d c post i hc hd = (
  tag_and_rest (ys ++ d ∷ []) post,
  rw (append_assoc ys (d ∷ []) (c ∷ post)) (
      scan_round_ended fuel ys d c post (length (ys ++ d ∷ [])) 0
        (rw (← append_assoc ys (d ∷ []) (c ∷ post), drop-length-append (ys ++ d ∷ []) (c ∷ post)) i)
        (omega (arith, length-append ys (d ∷ []))) (comma_not_backslash d hd)),
  read_comma (ys ++ d ∷ []) c post hc,
  (snoc-ne-nil ys d, omega arith),
)

append_regroup :
    (done p : List Char) (b : Char) (s : List Char)
    → done ++ ((p ++ b ∷ []) ++ s) ≡ (done ++ p) ++ b ∷ s
append_regroup done p b s = rw (append_assoc p (b ∷ []) s) (sym (append_assoc done p (b ∷ s)))

NoComma-snoc : (p : List Char) (b : Char) → NoComma (p ++ b ∷ []) → NoComma p × (is comma b ≡ false)
NoComma-snoc [] b h = (tt, h.0)
NoComma-snoc (x ∷ p) b h = let (hp, hb) = NoComma-snoc p b h.1 in ((h.0, hp), hb)

Shorter-mono : (piece : Piece) {m n : ℕ} → Shorter m piece → m ≤ n → Shorter n piece
Shorter-mono (last_tag tag) h le = h
Shorter-mono (tag_and_rest tag rest) h le = (h.0, omega arith)

module _ (fuel : ℕ) (done p : List Char) (b c : Char) (post : List Char)
    (i : index_of_comma ((p ++ b ∷ []) ++ c ∷ post) ≡ some (length (p ++ b ∷ [])))
    (h : NoComma (p ++ b ∷ [])) (hc : is comma c ≡ true) where
  comma_found :
      index_of_comma (drop (length done) ((done ++ p) ++ b ∷ c ∷ post))
      ≡ some (length (p ++ b ∷ []))
  comma_found =
      rw (← append_regroup done p b (c ∷ post), drop-length-append done ((p ++ b ∷ []) ++ c ∷ post))
        i

  comma_at : length done + length (p ++ b ∷ []) ≡ suc (length (done ++ p))
  comma_at = omega (arith, length-append p (b ∷ []), length-append done p)

  post_shorter : length post ≤ length ((p ++ b ∷ []) ++ c ∷ post)
  post_shorter = omega (arith, length-append (p ++ b ∷ []) (c ∷ post))

  scan_escaped :
      is backslash b ≡ true
      → Scanned fuel ((done ++ p) ++ c ∷ []) post
      → Scanned (suc fuel) done ((p ++ b ∷ []) ++ c ∷ post)
  scan_escaped e (piece, runs, reads, shorter) = (
    piece,
    rw (append_regroup done p b (c ∷ post)) (
        scan_round_escaped fuel (done ++ p) b c post (length done) _ comma_found comma_at e
        ∙ runs'),
    rw (append_assoc p (b ∷ []) (c ∷ post)) (
        read_escaped done p b c post (NoComma-snoc p b h).0 (NoComma-snoc p b h).1 e hc
        ∙ rw (← append_assoc done p (c ∷ [])) reads),
    Shorter-mono piece shorter post_shorter,
  )
    where
      length_passed : length ((done ++ p) ++ c ∷ []) ≡ suc (length (done ++ p))
      length_passed = omega (arith, length-append (done ++ p) (c ∷ []))

      runs' : scan_tag fuel ((done ++ p) ++ c ∷ post) (suc (length (done ++ p))) ≡ some piece
      runs' = rw (← length_passed, ← append_assoc (done ++ p) (c ∷ []) post) runs

  scan_ended : is backslash b ≡ false → Scanned (suc fuel) done ((p ++ b ∷ []) ++ c ∷ post)
  scan_ended e = (
    tag_and_rest ((done ++ p) ++ b ∷ []) post,
    rw (append_regroup done p b (c ∷ post))
        (scan_round_ended fuel (done ++ p) b c post (length done) _ comma_found comma_at e),
    rw (append_assoc p (b ∷ []) (c ∷ post)) (
        read_ended done p b c post (NoComma-snoc p b h).0 (NoComma-snoc p b h).1 e hc
        ∙ ap (λ s. emit s (read_tags [] post)) (sym (append_assoc done p (b ∷ [])))),
    (
      snoc-ne-nil (done ++ p) b,
      omega (arith, length-append (p ++ b ∷ []) (c ∷ post), length-append p (b ∷ [])),
    ),
  )

append-ne-nil : (xs ys : List Char) → ys ≢ [] → xs ++ ys ≢ []
append-ne-nil [] ys h e = h e
append-ne-nil (x ∷ xs) ys h e = cc

Started-ne-nil : (done rest : List Char) → Started done rest → done ++ rest ≢ []
Started-ne-nil [] rest (inl h) = absurd (h refl)
Started-ne-nil (d ∷ done) rest (inl h) = λ e. cc
Started-ne-nil done rest (inr (c, s, eq, h)) = append-ne-nil done rest (λ e. ground arith)

-- A comma at the front: the passed text ends in a comma.
scan_front :
    (fuel : ℕ) (done : List Char) (c : Char) (post : List Char)
    → index_of_comma (c ∷ post) ≡ some 0
    → is comma c ≡ true
    → Passed done
    → Started done (c ∷ post)
    → Scanned (suc fuel) done (c ∷ post)
scan_front fuel done c post i hc (inl e) (inl s) = absurd (s e)
scan_front fuel done c post i hc (inl e) (inr (c', s, eq, nc)) = absurd (ground arith)
scan_front fuel done c post i hc (inr (ys, d, e, hd)) started =
    rw e (scan_at_start fuel ys d c post i hc hd)

-- The loop ends, within a fuel above the length of what is left, and its piece is what the reading
-- of the text from here on begins with.
pub scan_lem :
    (fuel : ℕ) (done rest : List Char)
    → length rest < fuel
    → Passed done
    → Started done rest
    → Scanned fuel done rest
scan_lem zero done rest lt passed started = absurd (omega arith)
scan_lem (suc fuel) done rest lt passed started = elim (comma_view rest) [
  | inl (h, i) ↦ scan_end fuel done rest h i (Started-ne-nil done rest started)
  | inr (pre, c, post, eq, i, h, hc) ↦ elim (last-cases pre) [
    | inl e ↦
        let eq' : rest ≡ c ∷ post = rw e at eq in
        let i' : index_of_comma rest ≡ some 0 = rw e at i in
        rw eq' (scan_front fuel done c post (rw eq' at i') hc passed (rw eq' at started))
    | inr (p, b, e) ↦
        let eq' : rest ≡ (p ++ b ∷ []) ++ c ∷ post = rw e at eq in
        let i' : index_of_comma rest ≡ some (length (p ++ b ∷ [])) = rw e at i in
        let h' : NoComma (p ++ b ∷ []) = rw e at h in
        let after =
          scan_lem fuel ((done ++ p) ++ c ∷ []) post
            (omega (arith, ap length eq', length-append (p ++ b ∷ []) (c ∷ post)))
            (inr (done ++ p, c, refl, hc)) (inl (snoc-ne-nil (done ++ p) c)) in
        rw eq' (elim (Bool-cases (is backslash b)) [
          | inl t ↦ scan_escaped fuel done p b c post (rw eq' at i') h' hc t after
          | inr t ↦ scan_ended fuel done p b c post (rw eq' at i') h' hc t
        ])
  ]
]
