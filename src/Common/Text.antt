-- ===== src/Common/Text.antt =====
-- Go's strings package on the characters of a text. The separators are ASCII, so cutting at a
-- character and cutting at a byte agree. Lower case is that of ASCII.
use Prim.Native.Nat.{ℕ, ◌+◌, ◌-◌, ◌*◌, ◌^◌}
use Prim.Native.Char.{Char, code}
use Prim.Native.String.{String, char_at, ◌++◌ as ◌<>◌}
use Prim.Native.String.append
use mathlib.Core.Path.{◌≡◌, refl, ap, sym, ◌∙◌}
use mathlib.Core.Bool.{Bool, true, false, ◌&&◌}
use mathlib.Core.Option.{Option, none, some}
use mathlib.Core.List.{List, [], ◌∷◌, ◌++◌}
use registrator.Common.Tests.{ltb, leb, num_eq, if◌then◌else◌}
use registrator.Common.Int.{ℤ, pos, negsuc, sub_ℕ}

abbrev pub chars : String → List Char
chars String.[] = []
chars (String.◌∷◌ c s) = c ∷ chars s

abbrev pub text : List Char → String
text [] = String.[]
text (c ∷ cs) = String.◌∷◌ c (text cs)

pub text-chars : (s : String) → text (chars s) ≡ s
text-chars String.[] = refl
text-chars (String.◌∷◌ c s) = ap (String.◌∷◌ c) (text-chars s)

chars-text : (cs : List Char) → chars (text cs) ≡ cs
chars-text [] = refl
chars-text (c ∷ cs) = ap (◌∷◌ c) (chars-text cs)

-- Whether a character is the one with this code.
abbrev pub is : ℕ → Char → Bool
is n c = num_eq (code c) n

-- strings.Split with a separator of one character
unfoldable pub split_from : ℕ → List Char → List Char → List (List Char)
split_from sep cur [] = cur ∷ []
split_from sep cur (c ∷ s) = elim (is sep c) [
  | true ↦ cur ∷ split_from sep [] s
  | false ↦ split_from sep (cur ++ c ∷ []) s
]

unfoldable pub split : ℕ → List Char → List (List Char)
unfolding split_from
split sep s = split_from sep [] s

-- strings.SplitN(s, sep, 2): the text before the first separator, and what follows it if there is one
unfoldable pub cut : ℕ → List Char → List Char × Option (List Char)
cut sep [] = ([], none)
cut sep (c ∷ s) =
    let (before, after) = cut sep s in if is sep c then ([], some s) else (c ∷ before, after)

-- strings.HasPrefix and strings.TrimPrefix together
unfoldable pub strip_prefix : List Char → List Char → Option (List Char)
strip_prefix [] s = some s
strip_prefix (c ∷ p) [] = none
strip_prefix (c ∷ p) (d ∷ s) = if num_eq (code c) (code d) then strip_prefix p s else none

-- strings.Contains(s, p)
unfoldable pub contains : List Char → List Char → Bool
unfolding strip_prefix
contains p [] = elim (strip_prefix p []) [ none ↦ false | some _ ↦ true ]
contains p (c ∷ s) = elim (strip_prefix p (c ∷ s)) [ none ↦ contains p s | some _ ↦ true ]

abbrev lower_letters : String
lower_letters = "abcdefghijklmnopqrstuvwxyz"

unfoldable pub lower : Char → Char
lower c =
    if leb b'A' (code c) && leb (code c) b'Z' then char_at lower_letters (code c - b'A') else c

abbrev upper_letters : String
upper_letters = "ABCDEFGHIJKLMNOPQRSTUVWXYZ"

unfoldable pub upper : Char → Char
upper c =
    if leb b'a' (code c) && leb (code c) b'z' then char_at upper_letters (code c - b'a') else c

-- strings.ToLower
unfoldable pub to_lower : List Char → List Char
unfolding lower
to_lower [] = []
to_lower (c ∷ s) = lower c ∷ to_lower s

abbrev pub is_digit : Char → Bool
is_digit c = leb b'0' (code c) && leb (code c) b'9'

-- The value of decimal digits behind `n`.
unfoldable digits_value : ℕ → List Char → Option ℕ
digits_value n [] = some n
digits_value n (c ∷ s) = if is_digit c then digits_value (n * 10 + (code c - b'0')) s else none

-- One digit at least.
unfoldable magnitude : List Char → Option ℕ
unfolding digits_value
magnitude [] = none
magnitude (c ∷ s) = digits_value 0 (c ∷ s)

-- A value that a 64-bit int holds.
abbrev positive_int : Option ℕ → Option ℤ
positive_int none = none
positive_int (some n) = if ltb n (2 ^ 63) then some (pos n) else none

abbrev negative_int : Option ℕ → Option ℤ
negative_int none = none
negative_int (some n) = if leb n (2 ^ 63) then some (sub_ℕ 0 n) else none

-- strconv.Atoi, `none` for its error
unfoldable pub atoi : List Char → Option ℤ
unfolding magnitude
atoi [] = none
atoi (c ∷ s) =
    if is b'-' c
    then negative_int (magnitude s)
    else if is b'+' c
    then positive_int (magnitude s)
    else positive_int (magnitude (c ∷ s))

atoi_tests :
    (atoi (chars "8080") ≡ some (pos 8080))
    × (atoi (chars "-3") ≡ some (negsuc 2))
    × (atoi (chars "80x") ≡ none)
    × (atoi (chars "+") ≡ none)
unfolding atoi
atoi_tests = (refl, refl, refl, refl)

text_tests :
    (to_lower (chars "USE_Ports9") ≡ chars "use_ports9")
    × (split b'/' (chars "80/tcp") ≡ chars "80" ∷ chars "tcp" ∷ [])
    × (cut b'=' (chars "a=b=c") ≡ (chars "a", some (chars "b=c")))
    × (strip_prefix (chars "SERVICE_") (chars "SERVICE_ID") ≡ some (chars "ID"))
unfolding to_lower split cut strip_prefix
text_tests = (refl, refl, refl, refl)

pub chars-append : (s t : String) → chars (s <> t) ≡ chars s ++ chars t
chars-append String.[] t = rw append.nil refl
chars-append (String.◌∷◌ c s) t = rw append.cons (ap (◌∷◌ c) (chars-append s t))

append-cancel : (xs ys zs : List Char) → xs ++ ys ≡ xs ++ zs → ys ≡ zs
append-cancel [] ys zs e = e
append-cancel (x ∷ xs) ys zs e = append-cancel xs ys zs (ap rest e)
  where
    rest : List Char → List Char
    rest [] = []
    rest (c ∷ cs) = cs

-- Two texts with the same beginning.
pub key_cancel : (p s t : String) → p <> s ≡ p <> t → s ≡ t
key_cancel p s t e =
    sym (text-chars s)
    ∙ ap text (
        append-cancel (chars p) (chars s) (chars t)
          (sym (chars-append p s) ∙ ap chars e ∙ chars-append p t))
    ∙ text-chars t
