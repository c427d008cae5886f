-- ===== src/Utils/Decimal.antt =====
-- Numbers written by `<<` and read back by `>>`.
use greylist.Base.{
  ◌++◌, count_byte, ap, ◌∙◌, inr, inl, ℕ, zero, suc, ◌+◌, ◌*◌, ◌/◌, ◌%◌, ◌≤◌, ◌<◌, ◌≡◌, refl, true,
  false, [], ◌∷◌, arith, Bool-cases, ltb, Bytes,
}
use greylist.Base.Int.{pos}
use greylist.Utils.{
  to_lower, lowercase, is_digit, is_space, skip_space, read_digits, show_digits, show_unsigned,
  int_max, convert_int, extract_unsigned, uint_max, read_int, extract_from, signed_tail,
}

pub to_lower_idem : (c : ℕ) → to_lower (to_lower c) ≡ to_lower c
unfolding to_lower
to_lower_idem c = ground arith

pub lowercase_idem : (s : Bytes) → lowercase (lowercase s) ≡ lowercase s
unfolding lowercase
lowercase_idem [] = refl
lowercase_idem (c ∷ s) = cc (to_lower_idem c, lowercase_idem s)

read_digit :
    (acc d : ℕ) (s : Bytes)
    → d < 10
    → read_digits acc ((b'0' + d) ∷ s) ≡ read_digits (acc * 10 + d) s
unfolding read_digits
read_digit acc d s h = ground arith

read-show_digits :
    (fuel n : ℕ) (out : Bytes)
    → n < fuel
    → read_digits 0 (show_digits fuel n out) ≡ read_digits n out
unfolding show_digits
read-show_digits zero n out h = elim h [ ]
read-show_digits (suc fuel) n out h = elim (Bool-cases (ltb n 10)) [
  | inl e ↦ rw e (ground (arith, read_digit 0 n out))
  | inr e ↦ rw e (
      read-show_digits fuel (n / 10) ((b'0' + n % 10) ∷ out) (ground arith)
      ∙ read_digit (n / 10) (n % 10) out (omega arith)
      ∙ ap (λ k. read_digits k out) (omega arith))
]

-- The text of a number starts with a digit.
IsDigits : Bytes → Type 0
IsDigits [] = ⊥
IsDigits (c ∷ s) = is_digit c ≡ true

show_digits-IsDigits : (fuel n : ℕ) (out : Bytes) → n < fuel → IsDigits (show_digits fuel n out)
unfolding show_digits IsDigits is_digit
show_digits-IsDigits zero n out h = elim h [ ]
show_digits-IsDigits (suc fuel) n out h = elim (Bool-cases (ltb n 10)) [
  | inl e ↦ rw e (ground arith)
  | inr e ↦ rw e (show_digits-IsDigits fuel (n / 10) _ (ground arith))
]

read_int-digits :
    (s : Bytes)
    → IsDigits s
    → read_digits 0 s ≤ int_max
    → read_int (skip_space s) ≡ pos (read_digits 0 s)
unfolding read_int skip_space is_space IsDigits is_digit
read_int-digits [] d h = absurd d
read_int-digits (c ∷ s) d h = ground arith

-- An unsigned number that fits in an `int` survives the way through a string.
pub read-show_unsigned : (n : ℕ) → read_digits 0 (show_unsigned n) ≡ n
unfolding show_unsigned read_digits
read-show_unsigned n = read-show_digits (suc n) n [] (omega arith)

show_unsigned-IsDigits : (n : ℕ) → IsDigits (show_unsigned n)
unfolding show_unsigned
show_unsigned-IsDigits n = show_digits-IsDigits (suc n) n [] (omega arith)

-- A number of at most 2^31 - 1 is read back as an `int` from the text that it is converted to.
pub convert_int-show_unsigned : (n : ℕ) → n ≤ int_max → convert_int (show_unsigned n) ≡ pos n
unfolding convert_int
convert_int-show_unsigned n h =
    read_int-digits (show_unsigned n) (show_unsigned-IsDigits n)
      (omega (arith, read-show_unsigned n))
    ∙ ap pos (read-show_unsigned n)

extract_from-digits :
    (val : ℕ) (s : Bytes)
    → IsDigits s
    → read_digits 0 s ≤ uint_max
    → extract_from val (skip_space s) ≡ read_digits 0 s
unfolding extract_from signed_tail skip_space is_space IsDigits is_digit
extract_from-digits val [] d h = absurd d
extract_from-digits val (c ∷ s) d h = ground arith

-- A number of at most 2^32 - 1 is read back as an `unsigned` from the text that it is converted
-- to, whatever the variable held.
pub extract_unsigned-show_unsigned :
    (val n : ℕ) → n ≤ uint_max → extract_unsigned val (show_unsigned n) ≡ n
unfolding extract_unsigned
extract_unsigned-show_unsigned val n h =
    extract_from-digits val (show_unsigned n) (show_unsigned-IsDigits n)
      (omega (arith, read-show_unsigned n))
    ∙ read-show_unsigned n

show_digits-append :
    (fuel n : ℕ) (out t : Bytes)
    → n < fuel
    → show_digits fuel n out ++ t ≡ show_digits fuel n (out ++ t)
unfolding show_digits
show_digits-append zero n out t h = elim h [ ]
show_digits-append (suc fuel) n out t h = elim (Bool-cases (ltb n 10)) [
  | inl e ↦ rw e refl
  | inr e ↦ rw e (show_digits-append fuel (n / 10) ((b'0' + n % 10) ∷ out) t (ground arith))
]

-- No digit stands at the front of a text.
abbrev pub StopsDigits : Bytes → Type 0
StopsDigits [] = Unit {0}
StopsDigits (c ∷ s) = is_digit c ≡ false

read_digits-stop : (n : ℕ) (t : Bytes) → StopsDigits t → read_digits n t ≡ n
unfolding read_digits
read_digits-stop n [] h = refl
read_digits-stop n (c ∷ t) h = rw h refl

-- What follows the digits is not read.
pub extract_unsigned-append :
    (val n : ℕ) (t : Bytes)
    → n ≤ uint_max
    → StopsDigits t
    → extract_unsigned val (show_unsigned n ++ t) ≡ n
unfolding extract_unsigned show_unsigned
extract_unsigned-append val n t h k =
    let e = show_digits-append (suc n) n [] t (omega arith) in
    let r = read-show_digits (suc n) n t (omega arith) ∙ read_digits-stop n t k in
    rw e (
      extract_from-digits val (show_digits (suc n) n t)
        (show_digits-IsDigits (suc n) n t (omega arith)) (omega (arith, r))
      ∙ r)

count-show_digits :
    (c fuel n : ℕ) (out : Bytes)
    → is_digit c ≡ false
    → n < fuel
    → count_byte c (show_digits fuel n out) ≡ count_byte c out
unfolding show_digits is_digit
count-show_digits c zero n out d h = elim h [ ]
count-show_digits c (suc fuel) n out d h = elim (Bool-cases (ltb n 10)) [
  | inl e ↦ rw e (ground arith)
  | inr e ↦ rw e (count-show_digits c fuel (n / 10) _ d (ground arith) ∙ ground arith)
]

-- The text of a number is digits only.
pub count-show_unsigned : (c n : ℕ) → is_digit c ≡ false → count_byte c (show_unsigned n) ≡ 0
unfolding show_unsigned
count-show_unsigned c n d = count-show_digits c (suc n) n [] d (omega arith)
