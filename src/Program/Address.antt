-- ===== src/Program/Address.antt =====
-- The regular expression `ipRegEx` of registrator.go: four numbers between dots, each of one to
-- three digits, without a leading zero and at most 255. No part holds a dot, so the text is cut at
-- its dots first.
use registrator.Common.{
  ℕ, ◌+◌, ◌*◌, ◌-◌, ◌≤◌, ◌≡◌, ◌↔◌, Char, code, String, Bool, true, false, ◌&&◌, ◌||◌, List, [], ◌∷◌,
  arith, leb,
}
use registrator.Common.Text.{chars, split}

-- A character class `[lo-hi]`
abbrev in_range : ℕ → ℕ → Char → Bool
in_range lo hi c = leb lo (code c) && leb (code c) hi

-- ([0-9]|[1-9][0-9]|1[0-9]{2}|2[0-4][0-9]|25[0-5]), as a whole part
unfoldable is_octet : List Char → Bool
is_octet (a ∷ []) = in_range b'0' b'9' a
is_octet (a ∷ b ∷ []) = in_range b'1' b'9' a && in_range b'0' b'9' b
is_octet (a ∷ b ∷ c ∷ []) =
    (in_range b'1' b'1' a && (in_range b'0' b'9' b && in_range b'0' b'9' c))
    || ((in_range b'2' b'2' a && (in_range b'0' b'4' b && in_range b'0' b'9' c))
        || (in_range b'2' b'2' a && (in_range b'5' b'5' b && in_range b'0' b'5' c)))
is_octet _ = false

abbrev four_octets : List (List Char) → Bool
four_octets (a ∷ b ∷ c ∷ d ∷ []) = is_octet a && (is_octet b && (is_octet c && is_octet d))
four_octets _ = false

unfoldable pub is_ipv4 : String → Bool
unfolding is_octet split
is_ipv4 s = four_octets (split b'.' (chars s))

-- A decimal numeral without a leading zero.
abbrev IsDigit : Char → Type 0
IsDigit c = (48 ≤ code c) × (code c ≤ 57)

abbrev IsNumeral : List Char → Type 0
IsNumeral [] = ⊥
IsNumeral (a ∷ []) = IsDigit a
IsNumeral (a ∷ b ∷ []) = IsDigit a × (49 ≤ code a) × IsDigit b
IsNumeral (a ∷ b ∷ c ∷ []) = IsDigit a × (49 ≤ code a) × IsDigit b × IsDigit c
IsNumeral (a ∷ b ∷ c ∷ d ∷ s) = ⊥

abbrev pub value : List Char → ℕ
value [] = 0
value (a ∷ []) = code a - 48
value (a ∷ b ∷ []) = (code a - 48) * 10 + (code b - 48)
value (a ∷ b ∷ c ∷ s) = (code a - 48) * 100 + ((code b - 48) * 10 + (code c - 48))

-- A part of an address is accepted exactly if it is a decimal numeral of one to three digits
-- without a leading zero whose value is at most 255.
is_octet_iff : (s : List Char) → (is_octet s ≡ true) ↔ (IsNumeral s × (value s ≤ 255))
unfolding is_octet
is_octet_iff [] = (λ e. cc, λ (h, _). absurd h)
is_octet_iff (a ∷ []) = (λ e. ground arith, λ h. ground arith)
is_octet_iff (a ∷ b ∷ []) = (λ e. ground arith, λ h. ground arith)
is_octet_iff (a ∷ b ∷ c ∷ []) = (λ e. ground arith, λ h. ground arith)
is_octet_iff (a ∷ b ∷ c ∷ d ∷ s) = (λ e. cc, λ (h, _). absurd h)
