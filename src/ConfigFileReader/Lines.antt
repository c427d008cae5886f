-- ===== src/ConfigFileReader/Lines.antt =====
-- What one `getline` reads: a line with its newline, and the last line without one.
use greylist.Base.{
  ℕ, ◌+◌, ◌<◌, ◌≡◌, ◌≢◌, refl, ap, sym, ◌∙◌, true, false, [], ◌∷◌, ◌++◌, append_assoc, append-nil,
  reverse, reverse-append, reverse-reverse, length, All, some, arith, Bytes,
}
use greylist.ConfigFileReader.{
  Stream, Scan, fell, scan, step, ended, conclude, getline, start, trim, rtrim, plain, after_begin,
}
use greylist.Utils.{to_lower, lowercase}

-- A character of a key, and one of a value.
abbrev pub IsKeyByte : ℕ → Type 0
IsKeyByte c = (c ≢ b'=') × (to_lower c ≢ b' ') × (to_lower c ≢ b'#') × (to_lower c ≢ b'\n')

abbrev pub IsValueByte : ℕ → Type 0
IsValueByte c = (c ≢ b'#') × (c ≢ b'\n')

-- One character of a value.
scan-value_byte :
    (c : ℕ) (input : Bytes) (s : Scan)
    → s.begin ≡ false
    → s.comment ≡ false
    → IsValueByte c
    → scan (c ∷ input) s ≡ scan input (record s { str = s.str ++ c ∷ []; cnt = s.cnt + 1; c = c })
unfolding scan step plain ended
scan-value_byte c input s b k h = ground arith

scan-key_byte :
    (c : ℕ) (input : Bytes) (s : Scan)
    → s.begin ≡ true
    → s.comment ≡ false
    → IsKeyByte c
    → scan (c ∷ input) s
      ≡ scan input (record s { str = s.str ++ to_lower c ∷ []; cnt = s.cnt + 1; c = to_lower c })
unfolding scan step plain ended after_begin
scan-key_byte c input s b k h = ground arith

scan-equals :
    (input : Bytes) (s : Scan)
    → s.begin ≡ true
    → s.comment ≡ false
    → scan (b'=' ∷ input) s
      ≡ scan input (record s { str = s.str ++ b'=' ∷ []; cnt = s.cnt + 1; c = b'='; begin = false })
unfolding scan step plain ended after_begin
scan-equals input s b k = ground arith

-- A state in the value, or in the key.
abbrev in_value : Bytes → ℕ → ℕ → Scan
in_value str cnt c = record { str = str; cnt = cnt; begin = false; comment = false; c = c }

abbrev in_key : Bytes → ℕ → ℕ → Scan
in_key str cnt c = record { str = str; cnt = cnt; begin = true; comment = false; c = c }

scan-value :
    (v input str : Bytes) (cnt d : ℕ)
    → All IsValueByte v
    → (e : ℕ) × (scan (v ++ input) (in_value str cnt d)
        ≡ scan input (in_value (str ++ v) (cnt + length v) e))
scan-value [] input str cnt d h = (
  d,
  ap (λ t. scan input (in_value t cnt d)) (sym (append-nil str))
      ∙ ap (λ n. scan input (in_value (str ++ []) n d)) (omega arith),
)
scan-value (c ∷ v) input str cnt d h =
    let (e, p) = scan-value v input (str ++ c ∷ []) (cnt + 1) c h.1 in
    (
      e,
      scan-value_byte c (v ++ input) (in_value str cnt d) refl refl h.0
          ∙ p
          ∙ ap (λ t. scan input (in_value t (cnt + 1 + length v) e)) (append_assoc str (c ∷ []) v)
          ∙ ap (λ n. scan input (in_value (str ++ c ∷ v) n e)) (omega arith),
    )

scan-key :
    (k input str : Bytes) (cnt d : ℕ)
    → All IsKeyByte k
    → (e : ℕ) × (scan (k ++ input) (in_key str cnt d)
        ≡ scan input (in_key (str ++ lowercase k) (cnt + length k) e))
unfolding lowercase
scan-key [] input str cnt d h = (
  d,
  ap (λ t. scan input (in_key t cnt d)) (sym (append-nil str))
      ∙ ap (λ n. scan input (in_key (str ++ []) n d)) (omega arith),
)
scan-key (c ∷ k) input str cnt d h =
    let (e, p) = scan-key k input (str ++ to_lower c ∷ []) (cnt + 1) (to_lower c) h.1 in
    (
      e,
      scan-key_byte c (k ++ input) (in_key str cnt d) refl refl h.0
          ∙ p
          ∙ ap (λ t. scan input (in_key t (cnt + 1 + length k) e))
              (append_assoc str (to_lower c ∷ []) (lowercase k))
          ∙ ap (λ n. scan input (in_key (str ++ lowercase (c ∷ k)) n e)) (omega arith),
    )

trim-last : (l cnt : ℕ) (r : Bytes) → l ≢ b' ' → trim (l ∷ r) cnt ≡ (l ∷ r, cnt)
unfolding trim
trim-last l cnt r h = ground arith

-- A text that does not end in a space is not trimmed.
rtrim-last :
    (str : Bytes) (l cnt d : ℕ)
    → l ≢ b' '
    → rtrim (in_value (str ++ l ∷ []) cnt d) ≡ in_value (str ++ l ∷ []) cnt d
unfolding rtrim
rtrim-last str l cnt d h =
    let turned : reverse (str ++ l ∷ []) ≡ l ∷ reverse str = reverse-append str (l ∷ []) in
    ap (λ r. in_value (reverse (trim r cnt).0) (trim r cnt).1 d) turned
    ∙ ap (λ r. in_value (reverse r.0) r.1 d) (trim-last l cnt (reverse str) h)
    ∙ ap (λ r. in_value r cnt d) (sym (ap reverse turned) ∙ reverse-reverse (str ++ l ∷ []))

-- From the start of an entry to behind the last byte of its value.
scan-entry :
    (k v : Bytes) (l : ℕ) (input : Bytes)
    → All IsKeyByte k
    → All IsValueByte v
    → IsValueByte l
    → scan (k ++ b'=' ∷ (v ++ l ∷ input)) start
      ≡ scan input (in_value ((lowercase k ++ b'=' ∷ v) ++ l ∷ []) (length k + 1 + length v + 1) l)
unfolding start
scan-entry k v l input hk hv hl =
    let (d, p) = scan-key k (b'=' ∷ (v ++ l ∷ input)) [] 0 0 hk in
    let (e, q) = scan-value v (l ∷ input) (lowercase k ++ b'=' ∷ []) (length k + 1) b'=' hv in
    p
    ∙ ap (λ n. scan (b'=' ∷ (v ++ l ∷ input)) (in_key (lowercase k) n d)) (omega arith)
    ∙ scan-equals (v ++ l ∷ input) (in_key (lowercase k) (length k) d) refl refl
    ∙ q
    ∙ scan-value_byte l input
        (in_value ((lowercase k ++ b'=' ∷ []) ++ v) (length k + 1 + length v) e) refl refl hl
    ∙ ap (λ t. scan input (in_value (t ++ l ∷ []) (length k + 1 + length v + 1) l))
        (append_assoc (lowercase k) (b'=' ∷ []) v)

-- The newline that ends an entry, and the end of the file.
scan-newline :
    (str rest : Bytes) (cnt d : ℕ)
    → 0 < cnt
    → scan (b'\n' ∷ rest) (in_value str cnt d) ≡ fell (in_value str cnt b'\n') rest false
unfolding scan step plain ended
scan-newline str rest cnt d h = ground arith

scan-end :
    (str : Bytes) (cnt l : ℕ)
    → IsValueByte l
    → scan [] (in_value str cnt l) ≡ fell (in_value (str ++ l ∷ []) (cnt + 1) l) [] true
unfolding scan step plain ended
scan-end str cnt l h = ground arith

getline-open :
    (str : Bytes) (f : Stream) → f.eof ≡ false → getline str f ≡ conclude (scan f.input start)
unfolding getline
getline-open str f o = ground arith

conclude-newline :
    (str rest : Bytes) (l cnt d : ℕ)
    → l ≢ b' '
    → conclude (fell (in_value (str ++ l ∷ []) cnt d) rest false) ≡ record {
      count = some cnt;
      text = str ++ l ∷ [];
      stream = record { input = rest; eof = false };
    }
unfolding conclude
conclude-newline str rest l cnt d h =
    ap
      (λ t. record {
        count = some t.cnt;
        text = t.str;
        stream = record { input = rest; eof = false };
      })
      (rtrim-last str l cnt d h)

text-end :
    (str : Bytes) (l cnt d : ℕ)
    → l ≢ b' '
    → (conclude (fell (in_value (str ++ l ∷ []) cnt d) [] true)).text ≡ str ++ l ∷ []
unfolding conclude
text-end str l cnt d h = ap (λ t. t.str) (rtrim-last str l cnt d h)

module _ (f : Stream) (k v : Bytes) (l : ℕ) (str : Bytes) where
  -- On a stream that is not at its end and starts with a key, a `=`, a value and a newline, where
  -- no character of the key is a `=` or, in lower case, a space, `#` or newline, the value has no
  -- `#` and no newline, and does not end in a space and is not empty: `getline` returns the key in
  -- lower case, the `=` and the value, with their length, and leaves the stream behind the
  -- newline.
  pub getline-entry :
      (rest : Bytes)
      → All IsKeyByte k
      → All IsValueByte v
      → IsValueByte l
      → l ≢ b' '
      → f.eof ≡ false
      → f.input ≡ k ++ b'=' ∷ (v ++ l ∷ b'\n' ∷ rest)
      → getline str f ≡ record {
        count = some (length k + 1 + length v + 1);
        text = (lowercase k ++ b'=' ∷ v) ++ l ∷ [];
        stream = record { input = rest; eof = false };
      }
  getline-entry rest hk hv hl nl o i =
      getline-open str f o
      ∙ ap (λ t. conclude (scan t start)) i
      ∙ ap conclude (scan-entry k v l (b'\n' ∷ rest) hk hv hl)
      ∙ ap conclude (
          scan-newline ((lowercase k ++ b'=' ∷ v) ++ l ∷ []) rest (length k + 1 + length v + 1) l
            (omega arith))
      ∙ conclude-newline (lowercase k ++ b'=' ∷ v) rest l (length k + 1 + length v + 1) b'\n' nl

  -- If such an entry is the end of the file, without a newline, the string that `getline` returns
  -- has the last character of the value twice.
  pub getline-unfinished :
      All IsKeyByte k
      → All IsValueByte v
      → IsValueByte l
      → l ≢ b' '
      → f.eof ≡ false
      → f.input ≡ k ++ b'=' ∷ (v ++ l ∷ [])
      → (getline str f).text ≡ (lowercase k ++ b'=' ∷ v) ++ l ∷ l ∷ []
  getline-unfinished hk hv hl nl o i =
      let key_value = lowercase k ++ b'=' ∷ v in
      ap (λ t. t.text)
        (getline-open str f o
          ∙ ap (λ t. conclude (scan t start)) i
          ∙ ap conclude (scan-entry k v l [] hk hv hl)
          ∙ ap conclude (scan-end (key_value ++ l ∷ []) (length k + 1 + length v + 1) l hl))
      ∙ text-end (key_value ++ l ∷ []) l (length k + 1 + length v + 1 + 1) l nl
      ∙ append_assoc key_value (l ∷ []) (l ∷ [])
