-- ===== src/TokenList/Laws.antt =====
-- Positions and names: `addToken`, `findToken` and `getToken` of src/tokenlist.h.
use greylist.Base.{
  inr, inl, Option-cases, ℕ, suc, ◌<◌, ◌≤◌, ◌≡◌, refl, ◌≢◌, Bool, [], ◌∷◌, some, arith, length,
  Bytes, equal_iff, ok,
}
use greylist.Base.OrdMap.{OrdMap, nat_key, bytes_key, find, insert, place}
use greylist.TokenList.{TokenList, empty, size, add_token, find_token, get_token, find_position}

-- Every position is below `n`.
abbrev pub Below : ℕ → OrdMap Bytes ℕ → Type 0
Below n [] = Unit {0}
Below n ((t, i) ∷ m) = (i < n) × Below n m

-- No other entry has this position.
abbrev pub Free : ℕ → OrdMap Bytes ℕ → Type 0
Free n [] = Unit {0}
Free n ((t, i) ∷ m) = (i ≢ n) × Free n m

abbrev pub Distinct : OrdMap Bytes ℕ → Type 0
Distinct [] = Unit {0}
Distinct ((t, i) ∷ m) = Free i m × Distinct m

-- Names and positions are paired off: positions are below the size, each at one name.
pub record IsValid (l : TokenList) : Type 0 where
  pub below : Below (size l) l.token_map
  pub distinct : Distinct l.token_map

Below-mono : (k n : ℕ) (m : OrdMap Bytes ℕ) → k ≤ n → Below k m → Below n m
Below-mono k n [] h b = tt
Below-mono k n ((t, i) ∷ m) h b = (omega arith, Below-mono k n m h b.1)

Below-Free : (n : ℕ) (m : OrdMap Bytes ℕ) → Below n m → Free n m
Below-Free n [] b = tt
Below-Free n ((t, i) ∷ m) b = (omega arith, Below-Free n m b.1)

place-Below : (n i : ℕ) (t : Bytes) (m : OrdMap Bytes ℕ) → i < n → Below n m → Below n (place t i m)
unfolding place
place-Below n i t [] h b = (h, tt)
place-Below n i t ((u, j) ∷ m) h b = ground (arith, place-Below n i t m)

place-Free : (n i : ℕ) (t : Bytes) (m : OrdMap Bytes ℕ) → i ≢ n → Free n m → Free n (place t i m)
unfolding place
place-Free n i t [] h b = (h, tt)
place-Free n i t ((u, j) ∷ m) h b = ground (arith, place-Free n i t m)

place-Distinct :
    (i : ℕ) (t : Bytes) (m : OrdMap Bytes ℕ) → Free i m → Distinct m → Distinct (place t i m)
unfolding place
place-Distinct i t [] f d = (tt, tt)
place-Distinct i t ((u, j) ∷ m) f d = ground (arith, place-Distinct i t m, place-Free j i t m)

length-place : (i : ℕ) (t : Bytes) (m : OrdMap Bytes ℕ) → length (place t i m) ≡ suc (length m)
unfolding place
length-place i t [] = refl
length-place i t ((u, j) ∷ m) = ground (arith, length-place i t m)

pub empty-IsValid : IsValid empty
unfolding empty size
empty-IsValid = record { below = tt; distinct = tt }

-- `addToken` of any name keeps a token list valid: all its positions are below its size, and no
-- two names have the same.
pub add_token-IsValid :
    (l : TokenList) (t : Bytes) (b : Bool) → IsValid l → IsValid (add_token l t b)
unfolding add_token size insert
add_token-IsValid l t b v = elim (Option-cases (find t l.token_map)) [
  | inl e ↦
      let n = length l.token_map in
      rw e (record {
        below = rw (length-place n t l.token_map) (
            place-Below (suc n) n t l.token_map (omega arith)
              (Below-mono n (suc n) l.token_map (omega arith) v.below));
        distinct = place-Distinct n t l.token_map (Below-Free n l.token_map v.below) v.distinct;
      })
  | inr (i, e) ↦ rw e (record { below = v.below; distinct = v.distinct })
]

Free-find : (n : ℕ) (t : Bytes) (m : OrdMap Bytes ℕ) → Free n m → find t m ≢ some n
unfolding find
Free-find n t [] f = λ e. cc
Free-find n t ((u, j) ∷ m) f = λ e. ground (arith, Free-find n t m f.1)

find_position-find :
    (t : Bytes) (i : ℕ) (m : OrdMap Bytes ℕ)
    → Distinct m
    → find t m ≡ some i
    → find_position i m ≡ ok t
unfolding find find_position
find_position-find t i [] d e = cc
find_position-find t i ((u, j) ∷ m) d e =
    ground (arith, find_position-find t i m d.1, Free-find j t m d.0, equal_iff t u)

-- In a valid token list, if `findToken` of a name gives a position, `getToken` of the position
-- gives the name.
pub get_token-find_token :
    (l : TokenList) (t : Bytes) (i : ℕ) → IsValid l → find_token l t ≡ some i → get_token l i ≡ ok t
unfolding find_token get_token
get_token-find_token l t i v e = find_position-find t i l.token_map v.distinct e
