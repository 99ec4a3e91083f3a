-- ===== src/Examples/Tags.antt =====
-- The tag parser on the cases of TestEscapedComma in bridge/util_test.go.
use registrator.Common.{◌≡◌, refl, some, [], ◌∷◌, reverse}
use registrator.Bridge.Tags.{rec_parse_escaped_comma}
use registrator.Bridge.Tags.Reading.{tags_of}
use registrator.Bridge.Tags.Laws.{rec_parse_escaped_comma-tags_of}

escaped_comma_tests :
    (rec_parse_escaped_comma "" ≡ some [])
    × (rec_parse_escaped_comma "foo,bar" ≡ some ("bar" ∷ "foo" ∷ []))
    × (rec_parse_escaped_comma "foo\\,bar" ≡ some ("foo,bar" ∷ []))
    × (rec_parse_escaped_comma "foo,bar\\,baz" ≡ some ("bar,baz" ∷ "foo" ∷ []))
    × (rec_parse_escaped_comma "\\,foobar\\," ≡ some (",foobar," ∷ []))
    × (rec_parse_escaped_comma ",,,,foo,,,bar,,," ≡ some ("bar" ∷ "foo" ∷ []))
    × (rec_parse_escaped_comma ",,\\,," ≡ some ("," ∷ []))
unfolding rec_parse_escaped_comma
escaped_comma_tests = (refl, refl, refl, refl, refl, refl, refl)

rec_parse_escaped_comma-tags_of_example :
    rec_parse_escaped_comma "foo,bar\\,baz" ≡ some (reverse (tags_of "foo,bar\\,baz"))
rec_parse_escaped_comma-tags_of_example = rec_parse_escaped_comma-tags_of "foo,bar\\,baz"
