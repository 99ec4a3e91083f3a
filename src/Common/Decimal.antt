-- ===== src/Common/Decimal.antt =====
-- strconv.Itoa, and Go's conversions of a 64-bit int to narrower and to unsigned numbers.
use Prim.Native.Nat.{ℕ, zero, suc, ◌+◌, ◌-◌, ◌*◌, ◌/◌, ◌%◌, ◌^◌}
use Prim.Native.Char.{Char, code}
use Prim.Native.String.{String, char_at, ◌++◌ as ◌<>◌}
use mathlib.Core.Option.{Option, none, some}
use mathlib.Core.List.{List, [], ◌∷◌, ◌++◌}
use registrator.Common.Tests.{ltb, leb, if◌then◌else◌}
use registrator.Common.Int.{ℤ, pos, negsuc, sub_ℕ}
use registrator.Common.Text.{text, is, is_digit}

-- strconv.Itoa: twenty digits are enough for 64 bits
unfoldable digits : ℕ → ℕ → List Char
digits zero n = []
digits (suc fuel) n =
    let rest = digits fuel (n / 10) in
    (if ltb n 10 then [] else rest) ++ char_at "0123456789" (n % 10) ∷ []

unfoldable pub itoa : ℤ → String
unfolding digits
itoa (pos n) = text (digits 20 n)
itoa (negsuc n) = "-" <> text (digits 20 (suc n))

-- int32(v)
abbrev wrapped : ℕ → ℤ
wrapped m = if ltb m (2 ^ 31) then pos m else negsuc (2 ^ 32 - m - 1)

unfoldable pub to_int32 : ℤ → ℤ
to_int32 (pos n) = wrapped (n % 2 ^ 32)
to_int32 (negsuc n) = wrapped (2 ^ 32 - 1 - n % 2 ^ 32)

-- uint64(v)
unfoldable pub to_uint64 : ℤ → ℕ
to_uint64 (pos n) = n % 2 ^ 64
to_uint64 (negsuc n) = 2 ^ 64 - 1 - n % 2 ^ 64

-- strconv.ParseUint for 64 bits: a number that is too large ends the digits.
unfoldable uint_value : ℕ → List Char → Option ℕ
uint_value n [] = some n
uint_value n (c ∷ s) =
    let m = n * 10 + (code c - b'0') in
    let rest = uint_value m s in
    if is_digit c then (if ltb m (2 ^ 64) then rest else some (2 ^ 64 - 1)) else none

abbrev some_digits : List Char → Option ℕ
some_digits [] = none
some_digits (c ∷ s) = uint_value 0 (c ∷ s)

abbrev int_above : Option ℕ → ℤ
int_above none = pos 0
int_above (some n) = if ltb n (2 ^ 63) then pos n else pos (2 ^ 63 - 1)

abbrev int_below : Option ℕ → ℤ
int_below none = pos 0
int_below (some n) = if leb n (2 ^ 63) then sub_ℕ 0 n else sub_ℕ 0 (2 ^ 63)

-- The number that strconv.Atoi returns with its error or without one.
unfoldable pub atoi_value : List Char → ℤ
unfolding uint_value
atoi_value [] = pos 0
atoi_value (c ∷ s) =
    if is b'-' c
    then int_below (some_digits s)
    else if is b'+' c
    then int_above (some_digits s)
    else int_above (some_digits (c ∷ s))
