-- ===== src/Bridge/Tags.antt =====
-- recParseEscapedComma and combineTags of bridge/util.go. A text is the list of its characters; a
-- comma and a backslash are ASCII, so positions by character and by byte cut at the same places.
-- `none` is a slice out of range or a loop out of fuel; Tags/Laws shows that neither happens.
pub mod Reading
mod Scan
pub mod Laws
use registrator.Common.{
  ℕ, zero, suc, ◌+◌, ◌-◌, Char, code, String, Bool, true, false, Option, none, some, List, [], ◌∷◌,
  ◌++◌, map, length, if◌then◌else◌,
}
use registrator.Common.Lists.{get_elem?, take, drop}
use registrator.Common.Text.{chars, text, is}

abbrev pub comma : ℕ
comma = b','

abbrev pub backslash : ℕ
backslash = b'\\'

-- strings.Index(s, ",")
pub index_of_comma : List Char → Option ℕ
index_of_comma [] = none
index_of_comma (c ∷ s) =
    if is comma c then some 0 else elim (index_of_comma s) [ none ↦ none | some i ↦ some (suc i) ]

-- str[n-1:n], out of range at n = 0
abbrev char_before : ℕ → List Char → Option Char
char_before zero s = none
char_before (suc n) s = get_elem? s n

-- How the loop ends: at an unescaped comma with the tag before it and the text behind it, or at the
-- end of the text with the last tag.
pub data Piece : Type 0 where
  tag_and_rest : List Char → List Char → Piece
  last_tag : List Char → Piece

-- The loop `for len(str[offset:]) > 0`. A round that goes on has dropped one backslash.
pub scan_tag : ℕ → List Char → ℕ → Option Piece
scan_tag zero str offset = none
scan_tag (suc fuel) str offset = elim (index_of_comma (drop offset str)) [
  | none ↦ some (last_tag str)
  | some index ↦ elim (char_before (offset + index) str) [
    | none ↦ none
    | some c ↦ elim (is backslash c) [
      | true ↦
          scan_tag fuel (take (offset + index - 1) str ++ drop (offset + index) str)
            (offset + index)
      | false ↦ some (tag_and_rest (take (offset + index) str) (drop (offset + index + 1) str))
    ]
  ]
]

abbrev appended : Option (List (List Char)) → List Char → Option (List (List Char))
appended none tag = none
appended (some tags) tag = some (tags ++ tag ∷ [])

pub parse_tags : ℕ → List Char → Option (List (List Char))
parse_tags zero str = none
parse_tags (suc fuel) [] = some []
parse_tags (suc fuel) (c ∷ s) = elim (is comma c) [
  | true ↦ parse_tags fuel s
  | false ↦ elim (scan_tag (suc (length (c ∷ s))) (c ∷ s) 0) [
    | none ↦ none
    | some (last_tag tag) ↦ some (tag ∷ [])
    | some (tag_and_rest tag rest) ↦ appended (parse_tags fuel rest) tag
  ]
]

-- The fuel is the length of the text: each call is made on a shorter one.
unfoldable pub rec_parse_escaped_comma : String → Option (List String)
unfolding parse_tags scan_tag index_of_comma
rec_parse_escaped_comma str = elim (parse_tags (suc (length (chars str))) (chars str)) [
  | none ↦ none
  | some tags ↦ some (map text tags)
]

-- The loop over the parts, with the tags so far.
pub combine_from : List String → List String → Option (List String)
combine_from tags [] = some tags
combine_from tags (element ∷ parts) = elim (rec_parse_escaped_comma element) [
  | none ↦ none
  | some more ↦ combine_from (tags ++ more) parts
]

unfoldable pub combine_tags : List String → Option (List String)
unfolding combine_from rec_parse_escaped_comma
combine_tags parts = combine_from [] parts
