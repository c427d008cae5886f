-- ===== src/Base/Find.antt =====
-- Laws of the searches in a text.
use greylist.Base.{
  sym, ℕ, zero, suc, ◌+◌, ◌-◌, ◌≤◌, ◌<◌, ◌≡◌, refl, ap, ◌∙◌, ◌⊎◌, inl, inr, List, [], ◌∷◌, ◌++◌,
  none, some, arith, Bool-cases, ◌==◌, Bytes, count_byte, find_byte, length, drop, take,
}
use native.Mathlib.Nat.{zero-add, suc-add}

drop_nil {ℓ} : {A : Type ℓ} (i : ℕ) → drop {A = A} i [] ≡ []
drop_nil zero = refl
drop_nil (suc i) = refl

pub drop-drop {ℓ} : {A : Type ℓ} (i j : ℕ) (xs : List A) → drop i (drop j xs) ≡ drop (j + i) xs
drop-drop i zero xs = rw zero-add
drop-drop i (suc j) [] = drop_nil i ∙ sym (drop_nil (suc j + i))
drop-drop i (suc j) (x ∷ xs) = rw suc-add (drop-drop i j xs)

-- Where the first `c` is, and what the rest holds.
pub find_byte-cases :
    (c : ℕ) (s : Bytes)
    → ((find_byte c s ≡ none) × (count_byte c s ≡ 0))
      ⊎ ((i : ℕ) × (find_byte c s ≡ some i)
          × (count_byte c s ≡ suc (count_byte c (drop (suc i) s)))
          × (length (drop (suc i) s) < length s))
unfolding find_byte
find_byte-cases c [] = inl (refl, refl)
find_byte-cases c (x ∷ s) = elim (Bool-cases (x == c)) [
  | inl e ↦ inr (0, ground arith, ground arith, omega arith)
  | inr e ↦ elim (find_byte-cases c s) [
    | inl h ↦ inl (ground arith, ground arith)
    | inr (i, h, k, l) ↦ inr (suc i, ground arith, ground arith, omega arith)
  ]
]

-- A text split by a byte that its first part does not hold.
pub find_byte-split :
    (c : ℕ) (key val : Bytes)
    → count_byte c key ≡ 0
    → find_byte c (key ++ c ∷ val) ≡ some (length key)
unfolding find_byte
find_byte-split c [] val h = ground arith
find_byte-split c (x ∷ key) val h = ground (arith, find_byte-split c key val)

pub take-split : (c : ℕ) (key val : Bytes) → take (length key) (key ++ c ∷ val) ≡ key
take-split c [] val = refl
take-split c (x ∷ key) val = ap (◌∷◌ x) (take-split c key val)

pub drop-split : (c : ℕ) (key val : Bytes) → drop (suc (length key)) (key ++ c ∷ val) ≡ val
drop-split c [] val = refl
drop-split c (x ∷ key) val = drop-split c key val

pub count_byte-append :
    (c : ℕ) (a b : Bytes) → count_byte c (a ++ b) ≡ count_byte c a + count_byte c b
count_byte-append c [] b = omega arith
count_byte-append c (x ∷ a) b = omega (arith, count_byte-append c a b)

pub find_byte-none : (c : ℕ) (s : Bytes) → count_byte c s ≡ 0 → find_byte c s ≡ none
unfolding find_byte
find_byte-none c [] h = refl
find_byte-none c (x ∷ s) h = ground (arith, find_byte-none c s)

-- The start of an appended text, from its second part on.
pub take-append_ge {ℓ} :
    {A : Type ℓ} (k : ℕ) (xs ys : List A)
    → length xs ≤ k
    → take k (xs ++ ys) ≡ xs ++ take (k - length xs) ys
take-append_ge k [] ys h = ap (λ n. take n ys) (omega arith)
take-append_ge zero (x ∷ xs) ys h = absurd (omega arith)
take-append_ge (suc k) (x ∷ xs) ys h =
    ap (◌∷◌ x) (take-append_ge k xs ys (omega arith) ∙ ap (λ n. xs ++ take n ys) (omega arith))
