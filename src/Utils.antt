-- ===== src/Utils.antt =====
-- src/utils.h: lower case, and the conversions that go through a `std::stringstream`. The library
-- calls are modelled as they behave in the "C" locale, which the program never leaves.
pub mod Decimal
use greylist.Base.{
  ℕ, zero, suc, ◌+◌, ◌-◌, ◌*◌, ◌/◌, ◌%◌, ◌^◌, ◌<◌, Bool, true, false, ◌&&◌, ◌||◌, List, [], ◌∷◌,
  ◌++◌, map, min, ltb, leb, ◌==◌, if◌then◌else◌, Bytes,
}
use greylist.Base.Int.{ℤ, pos, negsuc}

-- `std::tolower`.
unfoldable pub to_lower : ℕ → ℕ
to_lower c = if leb b'A' c && leb c b'Z' then c + 32 else c

unfoldable pub lowercase : Bytes → Bytes
unfolding to_lower
lowercase = map to_lower

-- `std::isspace`.
unfoldable pub is_space : ℕ → Bool
is_space c = c == b' ' || leb 9 c && leb c 13

unfoldable pub is_digit : ℕ → Bool
is_digit c = leb b'0' c && leb c b'9'

unfoldable pub skip_space : Bytes → Bytes
unfolding is_space
skip_space [] = []
skip_space (c ∷ s) = let rest = skip_space s in if is_space c then rest else c ∷ s

-- The number that the leading digits spell, behind those read already.
unfoldable pub read_digits : ℕ → Bytes → ℕ
unfolding is_digit
read_digits acc [] = acc
read_digits acc (c ∷ s) =
    let rest = read_digits (acc * 10 + (c - b'0')) s in if is_digit c then rest else acc

-- `stm << n` for an unsigned number: on fuel, which `suc n` is enough of.
unfoldable pub show_digits : ℕ → ℕ → Bytes → Bytes
show_digits zero n out = out
show_digits (suc fuel) n out =
    let rest = show_digits fuel (n / 10) ((b'0' + n % 10) ∷ out) in
    if ltb n 10 then (b'0' + n) ∷ out else rest

-- `StrmConvert` of an unsigned number to a string.
unfoldable pub show_unsigned : ℕ → Bytes
unfolding show_digits
show_unsigned n = show_digits (suc n) n []

abbrev pub uint_max : ℕ
uint_max = 2 ^ 32 - 1

abbrev pub int_max : ℕ
int_max = 2 ^ 31 - 1

-- What `stm >> val` stores for an `unsigned`, by the sign and the digits read. A value that does not
-- fit is stored as the largest; a minus sign negates modulo 2^32; no digits store 0.
abbrev store_unsigned : Bool → ℕ → ℕ
store_unsigned negative n =
    if ltb uint_max n then uint_max else if negative then (2 ^ 32 - n) % 2 ^ 32 else n

signed_tail : Bytes → (Bool → Bytes → ℕ) → ℕ
signed_tail [] k = k false []
signed_tail (c ∷ s) k =
    if c == b'-' then k true s else if c == b'+' then k false s else k false (c ∷ s)

extract_from : ℕ → Bytes → ℕ
unfolding signed_tail read_digits
extract_from val [] = val
extract_from val (c ∷ s) =
    signed_tail (c ∷ s) (λ negative t. store_unsigned negative (read_digits 0 t))

-- `stm >> val` for an `unsigned val`. With nothing but white space left, `val` stays as it was.
unfoldable pub extract_unsigned : ℕ → Bytes → ℕ
unfolding skip_space extract_from
extract_unsigned val s = extract_from val (skip_space s)

-- The same for an `int`: values out of range are stored as the nearest.
abbrev store_int : Bool → ℕ → ℤ
store_int false n = pos (min n int_max)
store_int true zero = pos 0
store_int true (suc n) = negsuc (min n int_max)

read_int : Bytes → ℤ
unfolding read_digits
read_int [] = pos 0
read_int (c ∷ s) =
    if c == b'-'
    then store_int true (read_digits 0 s)
    else if c == b'+'
    then store_int false (read_digits 0 s)
    else store_int false (read_digits 0 (c ∷ s))

-- `StrmConvert(const std::string)`; `T to = T()` makes 0 the value for text that is no number.
unfoldable pub convert_int : Bytes → ℤ
unfolding skip_space read_int
convert_int s = read_int (skip_space s)
