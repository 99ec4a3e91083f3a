-- ===== src/Bridge/Tags/Reading.antt =====
-- A one-pass reading of the tags of a text, with no positions: what recParseEscapedComma of
-- bridge/util.go is measured against.
use registrator.Common.{
  ◌≡◌, refl, ap, ◌⊎◌, inl, inr, Char, String, true, false, ◌&&◌, none, some, List, [], ◌∷◌, ◌++◌,
  append_assoc, append-nil, map, length, All, if◌then◌else◌, Bool-cases, arith,
}
use registrator.Common.Text.{chars, text, is}
use registrator.Bridge.Tags.{comma, backslash, index_of_comma}

-- A tag is kept if it is not empty.
abbrev pub emit : List Char → List (List Char) → List (List Char)
emit [] tags = tags
emit (c ∷ s) tags = (c ∷ s) ∷ tags

-- The tags of a text, first to last, read from left to right: a comma ends the current tag, a
-- backslash in front of a comma makes it a part of the tag and is dropped.
unfoldable pub read_tags : List Char → List Char → List (List Char)
read_tags cur [] = emit cur []
read_tags cur (c ∷ []) = if is comma c then emit cur [] else emit (cur ++ c ∷ []) []
read_tags cur (c ∷ d ∷ s) =
    let escaped = read_tags (cur ++ d ∷ []) s in
    let ended = emit cur (read_tags [] (d ∷ s)) in
    let plain = read_tags (cur ++ c ∷ []) (d ∷ s) in
    if is comma c then ended else if is backslash c && is comma d then escaped else plain

unfoldable pub tags_of : String → List String
unfolding read_tags
tags_of str = map text (read_tags [] (chars str))

abbrev pub NoComma : List Char → Type 0
NoComma = All (λ c. is comma c ≡ false)

-- Where the next comma stands.
abbrev CommaView : List Char → Type 0
CommaView rest =
    (NoComma rest × (index_of_comma rest ≡ none))
    ⊎ ((pre : List Char) × (c : Char) × (post : List Char) × (rest ≡ pre ++ c ∷ post)
        × (index_of_comma rest ≡ some (length pre))
        × NoComma pre
        × (is comma c ≡ true))

pub comma_view : (rest : List Char) → CommaView rest
unfolding index_of_comma
comma_view [] = inl (tt, refl)
comma_view (c ∷ s) = elim (Bool-cases (is comma c)) [
  | inl e ↦ inr ([], c, s, refl, rw e, tt, e)
  | inr e ↦ elim (comma_view s) [
    | inl (h, i) ↦ inl ((e, h), rw (e, i))
    | inr (pre, d, post, eq, i, h, t) ↦ inr (c ∷ pre, d, post, ap (◌∷◌ c) eq, rw (e, i), (e, h), t)
  ]
]

-- Reading over characters without a comma.
pub read_plain : (cur p : List Char) → NoComma p → read_tags cur p ≡ emit (cur ++ p) []
unfolding read_tags
read_plain cur [] h = rw append-nil
read_plain cur (c ∷ []) h = rw h.0
read_plain cur (c ∷ d ∷ s) h =
    rw (h.0, h.1.0)
      (ground (arith, read_plain (cur ++ c ∷ []) (d ∷ s) h.1, append_assoc cur (c ∷ []) (d ∷ s)))

-- An escaped comma joins the tag.
pub read_escaped :
    (cur p : List Char) (b c : Char) (post : List Char)
    → NoComma p
    → is comma b ≡ false
    → is backslash b ≡ true
    → is comma c ≡ true
    → read_tags cur (p ++ b ∷ c ∷ post) ≡ read_tags (cur ++ (p ++ c ∷ [])) post
unfolding read_tags
read_escaped cur [] b c post h nb bb cc' = rw (nb, bb, cc')
read_escaped cur (x ∷ []) b c post h nb bb cc' =
    rw (h.0, nb)
      (ground (
        arith,
        read_escaped (cur ++ x ∷ []) [] b c post tt nb bb cc',
        append_assoc cur (x ∷ []) (c ∷ []),
      ))
read_escaped cur (x ∷ y ∷ p) b c post h nb bb cc' =
    rw (h.0, h.1.0)
      (ground (
        arith,
        read_escaped (cur ++ x ∷ []) (y ∷ p) b c post h.1 nb bb cc',
        append_assoc cur (x ∷ []) (y ∷ p ++ c ∷ []),
      ))

-- A comma with no backslash in front of it ends the tag.
pub read_ended :
    (cur p : List Char) (b c : Char) (post : List Char)
    → NoComma p
    → is comma b ≡ false
    → is backslash b ≡ false
    → is comma c ≡ true
    → read_tags cur (p ++ b ∷ c ∷ post) ≡ emit (cur ++ (p ++ b ∷ [])) (read_tags [] post)
unfolding read_tags
read_ended cur [] b c [] h nb bb cc' = rw (nb, bb, cc')
read_ended cur [] b c (d ∷ post) h nb bb cc' = rw (nb, bb, cc')
read_ended cur (x ∷ []) b c post h nb bb cc' =
    rw (h.0, nb)
      (ground (
        arith,
        read_ended (cur ++ x ∷ []) [] b c post tt nb bb cc',
        append_assoc cur (x ∷ []) (b ∷ []),
      ))
read_ended cur (x ∷ y ∷ p) b c post h nb bb cc' =
    rw (h.0, h.1.0)
      (ground (
        arith,
        read_ended (cur ++ x ∷ []) (y ∷ p) b c post h.1 nb bb cc',
        append_assoc cur (x ∷ []) (y ∷ p ++ b ∷ []),
      ))

-- A comma behind a comma ends the tag.
pub read_comma :
    (cur : List Char) (c : Char) (post : List Char)
    → is comma c ≡ true
    → read_tags cur (c ∷ post) ≡ emit cur (read_tags [] post)
unfolding read_tags
read_comma cur c [] h = rw h
read_comma cur c (d ∷ post) h = rw h
