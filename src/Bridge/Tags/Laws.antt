-- ===== src/Bridge/Tags/Laws.antt =====
-- recParseEscapedComma and combineTags of bridge/util.go compute the tags that a one-pass reading
-- finds.
use mathlib.Core.List.{reverse-cons, map-append}
use registrator.Common.{
  ℕ, zero, suc, ◌<◌, ◌≡◌, refl, sym, ap, ◌∙◌, inl, inr, Char, String, true, false, some, List, [],
  ◌∷◌, ◌++◌, append_assoc, append-nil, map, reverse, length, Bool-cases, arith,
}
use registrator.Common.Text.{chars, text, is}
use registrator.Bridge.Tags.{
  comma, Piece, tag_and_rest, last_tag, scan_tag, parse_tags, rec_parse_escaped_comma, combine_from,
  combine_tags,
}
use registrator.Bridge.Tags.Reading.{read_tags, tags_of, read_comma}
use registrator.Bridge.Tags.Scan.{Shorter, finish, scan_lem, emit_kept}

parse_comma :
    (fuel : ℕ) (c : Char) (s : List Char)
    → is comma c ≡ true
    → parse_tags (suc fuel) (c ∷ s) ≡ parse_tags fuel s
unfolding parse_tags
parse_comma fuel c s h = rw (h, parse_tags)

-- The parser's answer, from the loop's piece and the parser on the text behind it.
parse_piece :
    (fuel : ℕ) (c : Char) (s : List Char) (piece : Piece)
    → is comma c ≡ false
    → scan_tag (suc (length (c ∷ s))) (c ∷ s) 0 ≡ some piece
    → Shorter (length (c ∷ s)) piece
    → ((rest : List Char)
        → length rest < length (c ∷ s)
        → parse_tags fuel rest ≡ some (reverse (read_tags [] rest)))
    → parse_tags (suc fuel) (c ∷ s) ≡ some (reverse (finish piece))
unfolding parse_tags
parse_piece fuel c s (last_tag tag) h runs kept ih =
    rw (h, parse_tags) (rw (runs, emit_kept [] kept) refl)
parse_piece fuel c s (tag_and_rest tag rest) h runs (kept, lt) ih =
    rw (h, parse_tags)
      (rw (runs, ih rest lt, emit_kept (read_tags [] rest) kept)
        (ap some (sym (reverse-cons tag (read_tags [] rest)))))

parse_lem :
    (fuel : ℕ) (s : List Char)
    → length s < fuel
    → parse_tags fuel s ≡ some (reverse (read_tags [] s))
parse_lem zero s lt = absurd (omega arith)
parse_lem (suc fuel) [] lt = unfold parse_tags read_tags in refl
parse_lem (suc fuel) (c ∷ s) lt = elim (Bool-cases (is comma c)) [
  | inl h ↦ parse_comma fuel c s h ∙ rw (read_comma [] c s h) (parse_lem fuel s (omega arith))
  | inr h ↦
      let (piece, runs, reads, shorter) =
        scan_lem (suc (length (c ∷ s))) [] (c ∷ s) (omega arith) (inl refl) (inr (c, s, refl, h)) in
      rw reads
        (parse_piece fuel c s piece h runs shorter (λ rest lt'. parse_lem fuel rest (omega arith)))
]

map-reverse :
    (f : List Char → String) (xs : List (List Char)) → map f (reverse xs) ≡ reverse (map f xs)
map-reverse f [] = refl
map-reverse f (x ∷ xs) =
    rw (reverse-cons x xs, map-append, map-reverse f xs) (sym (reverse-cons (f x) (map f xs)))

-- For every text the parser stays in range and ends, and returns the text's tags: the commas that
-- are not escaped separate them, an escaped comma loses its backslash, empty tags are left out. They
-- come last to first.
pub rec_parse_escaped_comma-tags_of :
    (str : String) → rec_parse_escaped_comma str ≡ some (reverse (tags_of str))
unfolding rec_parse_escaped_comma tags_of
rec_parse_escaped_comma-tags_of str =
    rw (parse_lem (suc (length (chars str))) (chars str) (omega arith), rec_parse_escaped_comma)
      (ap some (map-reverse text (read_tags [] (chars str))))

-- The tags of all the parts, in the order of the parts.
pub tags_of_all : List String → List String
unfolding tags_of
tags_of_all [] = []
tags_of_all (part ∷ parts) = reverse (tags_of part) ++ tags_of_all parts

combine_from_lem :
    (tags parts : List String) → combine_from tags parts ≡ some (tags ++ tags_of_all parts)
unfolding combine_from tags_of_all
combine_from_lem tags [] = rw append-nil
combine_from_lem tags (part ∷ parts) =
    rw (rec_parse_escaped_comma-tags_of part, combine_from)
      (combine_from_lem (tags ++ reverse (tags_of part)) parts
        ∙ ap some (append_assoc tags (reverse (tags_of part)) (tags_of_all parts)))

-- Combining never fails, and gives the tags of each part in turn, those of a part last to first.
pub combine_tags_lem : (parts : List String) → combine_tags parts ≡ some (tags_of_all parts)
unfolding combine_tags
combine_tags_lem parts = combine_from_lem [] parts
