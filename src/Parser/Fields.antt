-- ===== src/Parser/Fields.antt =====
-- What a map writer holds after the loop, and which required tokens are left.
use greylist.Base.{
  refl, inr, inl, Option-cases, ℕ, ◌+◌, ◌≡◌, Bool, List, [], ◌∷◌, Option, none, some, is_some,
  if◌then◌else◌, ◌==◌, Bytes, find_byte, take, drop, arith,
}
use greylist.Base.OrdMap.{
  OrdMap, nat_key, find, insert, find-insert, find-erase, Unique, Unique-erase,
}
use greylist.Parser.{Writer, parse_line}
use greylist.Parser.Loop.{parse_lines}
use greylist.TokenList.{TokenList, RequiredArray, find_token, parse}

-- A writer that keeps the first value of each position in a map.
pub record MapWriter (W : Type 0) : Type 0 where
  pub writer : Writer W
  pub view : W → OrdMap ℕ Bytes
  pub view-add : (i : ℕ) (v : Bytes) (w : W) → view (writer.add i v w) ≡ insert i v (view w)
  pub view-add_unknown : (k v : Bytes) (w : W) → view (writer.add_unknown k v w) ≡ view w

-- The key and the value of a line, split at its first `=`.
abbrev pub field : Bytes → Option (Bytes × Bytes)
field line = elim (find_byte b'=' line) [
  | none ↦ none
  | some eqpos ↦ some (take eqpos line, drop (eqpos + 1) line)
]

abbrev pub value_if : Option ℕ → ℕ → Bytes → Option Bytes
value_if none i val = none
value_if (some j) i val = if i == j then some val else none

-- The value that a line gives to position `i`.
abbrev pub value_in : TokenList → ℕ → Bytes → Option Bytes
value_in tokens i line = elim (field line) [
  | none ↦ none
  | some (key, val) ↦ value_if (find_token tokens key) i val
]

abbrev pub or_else {ℓ} : {A : Type ℓ} → Option A → Option A → Option A
or_else none b = b
or_else (some a) b = some a

-- The value of the first line for position `i`.
abbrev pub first_value : TokenList → ℕ → List Bytes → Option Bytes
first_value tokens i [] = none
first_value tokens i (line ∷ lines) = or_else (value_in tokens i line) (first_value tokens i lines)

module _ {W : Type 0} (mw : MapWriter W) (tokens : TokenList) (variablemode : Bool) where
  abbrev held : ℕ → W × RequiredArray → Option Bytes
  held i s = find i (mw.view s.0)

  held-parse_line :
      (i : ℕ) (line : Bytes) (s : W × RequiredArray)
      → held i (parse_line mw.writer tokens variablemode line s)
        ≡ or_else (held i s) (value_in tokens i line)
  unfolding parse_line parse
  held-parse_line i line s = elim (Option-cases (find_byte b'=' line)) [
    | inl e ↦ rw (e, parse_line) (ground arith)
    | inr (p, e) ↦ elim (Option-cases (find_token tokens (take p line))) [
      | inl t ↦ ground (arith, mw.view-add_unknown (take p line) (drop (p + 1) line) s.0)
      | inr (j, t) ↦ ground (
        arith,
        mw.view-add j (drop (p + 1) line) s.0,
        find-insert i j (drop (p + 1) line) (mw.view s.0),
      )
    ]
  ]

  left-parse_line :
      (i : ℕ) (line : Bytes) (s : W × RequiredArray)
      → Unique s.1
      → find i (parse_line mw.writer tokens variablemode line s).1
        ≡ (if is_some (value_in tokens i line) then none else find i s.1)
  unfolding parse_line parse
  left-parse_line i line s u = elim (Option-cases (find_byte b'=' line)) [
    | inl e ↦ rw (e, parse_line) (ground arith)
    | inr (p, e) ↦ elim (Option-cases (find_token tokens (take p line))) [
      | inl t ↦ ground arith
      | inr (j, t) ↦ ground (arith, find-erase i j s.1)
    ]
  ]

  Unique-parse_line :
      (line : Bytes) (s : W × RequiredArray)
      → Unique s.1
      → Unique (parse_line mw.writer tokens variablemode line s).1
  unfolding parse_line parse
  Unique-parse_line line s u = elim (Option-cases (find_byte b'=' line)) [
    | inl e ↦ rw (e, parse_line) u
    | inr (p, e) ↦ elim (Option-cases (find_token tokens (take p line))) [
      | inl t ↦ ground arith
      | inr (j, t) ↦ ground (arith, Unique-erase j s.1)
    ]
  ]

  -- With a writer that keeps the first value of each position: after some lines, a position holds
  -- what it held before, or, if that was nothing, the value of the first line whose key has that
  -- position.
  pub held-parse_lines :
      (i : ℕ) (lines : List Bytes) (s : W × RequiredArray)
      → find i (mw.view (parse_lines mw.writer tokens variablemode lines s).0)
        ≡ or_else (find i (mw.view s.0)) (first_value tokens i lines)
  held-parse_lines i [] s = ground arith
  held-parse_lines i (line ∷ lines) s =
      let s' = parse_line mw.writer tokens variablemode line s in
      ground (arith, held-parse_lines i lines s', held-parse_line i line s)

  -- If the required positions hold no position twice: after some lines, a position to which one of
  -- them gives a value is not required any more, and any other is required as before.
  pub left-parse_lines :
      (i : ℕ) (lines : List Bytes) (s : W × RequiredArray)
      → Unique s.1
      → find i (parse_lines mw.writer tokens variablemode lines s).1
        ≡ (if is_some (first_value tokens i lines) then none else find i s.1)
  left-parse_lines i [] s u = refl
  left-parse_lines i (line ∷ lines) s u =
      let s' = parse_line mw.writer tokens variablemode line s in
      ground (
        arith,
        left-parse_lines i lines s' (Unique-parse_line line s u),
        left-parse_line i line s u,
      )
