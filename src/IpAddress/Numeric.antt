-- ===== src/IpAddress/Numeric.antt =====
-- `initNumeric` and `getNumericIdx` of src/ipaddress.h, on well-formed and other addresses.
use greylist.Base.{
  codes, err, ok, ◌≢◌, append_assoc, sym, take, false, All, ap, ◌∙◌, substr, inr, length-append,
  inl, find_byte_from, count_byte, ℕ, zero, suc, ◌+◌, ◌≤◌, ◌<◌, ◌≡◌, refl, List, [], ◌∷◌, ◌++◌,
  some, arith, Bytes, length, drop,
}
use greylist.IpAddress.{
  at_index, extract_unsigned, Env, IpAddress, parse_numeric, numeric_loop, get_numeric_idx,
}
use greylist.Base.Find.{
  find_byte-split, drop-split, take-append_ge, find_byte-none, find_byte-cases, drop-drop,
}
use greylist.Utils.Decimal.{
  extract_unsigned-append, extract_unsigned-show_unsigned, count-show_unsigned, StopsDigits,
}
use greylist.Utils.{uint_max, show_unsigned, is_digit}

module _ (env : Env) where
  -- The fuel is enough, and each dot ends a piece.
  numeric_loop_returns :
      (fuel : ℕ) (str : Bytes) (startpos : ℕ) (numeric : List ℕ)
      → length (drop startpos str) < fuel
      → (xs : List ℕ) × (numeric_loop env fuel str startpos numeric ≡ some xs)
        × (length xs ≡ length numeric + count_byte b'.' (drop startpos str) + 1)
  unfolding numeric_loop find_byte_from
  numeric_loop_returns zero str startpos numeric h = elim h [ ]
  numeric_loop_returns (suc fuel) str startpos numeric h =
      elim (find_byte-cases b'.' (drop startpos str)) [
        | inl (e, k) ↦
            let piece = extract_unsigned env.unset (drop startpos str) in
            (
              numeric ++ piece ∷ [],
              rw (e, numeric_loop),
              omega (arith, length-append numeric (piece ∷ []), k),
            )
        | inr (i, e, k, l) ↦
            let piece = extract_unsigned env.unset (substr str startpos (i + startpos)) in
            let shift : drop (suc i) (drop startpos str) ≡ drop (i + startpos + 1) str =
              drop-drop (suc i) startpos str ∙ ap (λ n. drop n str) (omega arith) in
            let (xs, r, n) =
              numeric_loop_returns fuel str (i + startpos + 1) (numeric ++ piece ∷ [])
                (ground (arith, shift)) in
            (xs, rw (e, numeric_loop) r, ground (arith, shift, length-append numeric (piece ∷ [])))
      ]

  -- `initNumeric` finds one number more than there are dots.
  pub length-parse_numeric :
      (str : Bytes) → length (parse_numeric env str) ≡ count_byte b'.' str + 1
  unfolding parse_numeric
  length-parse_numeric str =
      let (xs, r, n) = numeric_loop_returns (suc (length str)) str 0 [] (omega arith) in
      rw r (omega arith)

-- Numbers written with dots between them.
abbrev pub dotted : List ℕ → Bytes
dotted [] = []
dotted (n ∷ []) = show_unsigned n
dotted (n ∷ m ∷ ns) = show_unsigned n ++ b'.' ∷ dotted (m ∷ ns)

take-dot-StopsDigits : (k : ℕ) (rest : Bytes) → StopsDigits (take k (b'.' ∷ rest))
unfolding is_digit
take-dot-StopsDigits zero rest = tt
take-dot-StopsDigits (suc k) rest = refl

dot_is_no_digit : is_digit b'.' ≡ false
unfolding is_digit
dot_is_no_digit = refl

module _ (env : Env) where
  -- A piece may run past its dot: the number read is the same.
  extract_piece :
      (n k : ℕ) (rest : Bytes)
      → n ≤ uint_max
      → length (show_unsigned n) ≤ k
      → extract_unsigned env.unset (take k (show_unsigned n ++ b'.' ∷ rest)) ≡ n
  extract_piece n k rest h l =
      rw (take-append_ge k (show_unsigned n) (b'.' ∷ rest) l)
        (extract_unsigned-append env.unset n _ h (take-dot-StopsDigits _ rest))

  numeric_loop-dotted :
      (fuel : ℕ) (str : Bytes) (startpos : ℕ) (numeric : List ℕ) (n : ℕ) (ns : List ℕ)
      → drop startpos str ≡ dotted (n ∷ ns)
      → length (dotted (n ∷ ns)) < fuel
      → All (λ m. m ≤ uint_max) (n ∷ ns)
      → numeric_loop env fuel str startpos numeric ≡ some (numeric ++ n ∷ ns)
  unfolding numeric_loop find_byte_from
  numeric_loop-dotted zero str startpos numeric n ns e h v = elim h [ ]
  numeric_loop-dotted (suc fuel) str startpos numeric n [] e h v =
      rw
        (
          e,
          numeric_loop,
          find_byte-none b'.' (show_unsigned n) (count-show_unsigned b'.' n dot_is_no_digit),
        )
        (rw (e, extract_unsigned-show_unsigned env.unset n v.0) refl)
  numeric_loop-dotted (suc fuel) str startpos numeric n (m ∷ ns) e h v =
      let text = show_unsigned n in
      let rest = dotted (m ∷ ns) in
      let piece = extract_unsigned env.unset (substr str startpos (length text + startpos)) in
      let read : piece ≡ n =
        rw e (extract_piece n (length text + startpos) rest v.0 (omega arith)) in
      let behind : drop (length text + startpos + 1) str ≡ rest =
        ap (λ k. drop k str) (omega arith)
        ∙ sym (drop-drop (suc (length text)) startpos str)
        ∙ ap (drop (suc (length text))) e
        ∙ drop-split b'.' text rest in
      let later =
        numeric_loop-dotted fuel str (length text + startpos + 1) (numeric ++ piece ∷ []) m ns
          behind (omega (arith, h, length-append text (b'.' ∷ rest))) v.1 in
      rw
        (
          e,
          numeric_loop,
          find_byte-split b'.' text rest (count-show_unsigned b'.' n dot_is_no_digit),
        )
        (later
          ∙ ap some
              (append_assoc numeric (piece ∷ []) (m ∷ ns) ∙ ap (λ k. numeric ++ k ∷ m ∷ ns) read))

  -- A dotted address is read back, number by number.
  pub parse_numeric-dotted :
      (n : ℕ) (ns : List ℕ)
      → All (λ m. m ≤ uint_max) (n ∷ ns)
      → parse_numeric env (dotted (n ∷ ns)) ≡ n ∷ ns
  unfolding parse_numeric
  parse_numeric-dotted n ns v =
      rw
        (numeric_loop-dotted (suc (length (dotted (n ∷ ns)))) (dotted (n ∷ ns)) 0 [] n ns refl
          (omega arith) v)
        refl

  -- For an address that is not parsed yet and is the dotted text of four numbers that each fit in
  -- an `unsigned`: `getNumericIdx` returns the number at the index, and keeps the four numbers.
  pub get_numeric_idx-dotted :
      (ip : IpAddress) (a b c d idx : ℕ)
      → ip.numeric ≡ []
      → ip.str ≡ dotted (a ∷ b ∷ c ∷ d ∷ [])
      → All (λ m. m ≤ uint_max) (a ∷ b ∷ c ∷ d ∷ [])
      → get_numeric_idx env idx ip
        ≡ (ok (at_index env (a ∷ b ∷ c ∷ d ∷ []) idx), record ip { numeric = a ∷ b ∷ c ∷ d ∷ [] })
  unfolding get_numeric_idx
  get_numeric_idx-dotted ip a b c d idx n s v =
      ground (arith, parse_numeric-dotted a (b ∷ c ∷ d ∷ []) v)

  -- For an address that is not parsed yet and has not exactly three dots: `getNumericIdx` throws,
  -- and the next call, for any index, does not throw but reads from the numbers that the first one
  -- kept.
  pub get_numeric_idx_refused :
      (ip : IpAddress) (idx later : ℕ)
      → ip.numeric ≡ []
      → count_byte b'.' ip.str ≢ 3
      → ((get_numeric_idx env idx ip).0 ≡ err (codes "Length of parsed IP address: " ++ ip.str))
        × ((get_numeric_idx env later (get_numeric_idx env idx ip).1).0
            ≡ ok (at_index env (parse_numeric env ip.str) later))
  unfolding get_numeric_idx
  get_numeric_idx_refused ip idx later n h = ground (arith, length-parse_numeric env ip.str)
