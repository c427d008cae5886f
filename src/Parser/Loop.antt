-- ===== src/Parser/Loop.antt =====
-- The reading loop, by the lines that its reader delivers.
use greylist.Base.{
  refl, inr, inl, Result, Option-cases, ℕ, zero, suc, ◌<◌, ◌≡◌, Bool, List, [], ◌∷◌, none, some,
  arith, Bytes,
}
use greylist.Parser.{conclude, finish, parse, Reader, Writer, parse_line, read_loop}
use greylist.TokenList.{copy_required, TokenList, RequiredArray}

-- The reader delivers these lines and then `none`, and is left as `r'`.
pub data Delivers {R : Type 0} (reader : Reader R) (r' : R) : R → List Bytes → Type 0 where
  stop : {r : R} → (reader.getline r).0 ≡ none → (reader.getline r).1 ≡ r' → Delivers reader r' r []
  more :
      {r : R} {line : Bytes} {lines : List Bytes}
      → (reader.getline r).0 ≡ some line
      → Delivers reader r' (reader.getline r).1 lines
      → Delivers reader r' r (line ∷ lines)

module _ {W : Type 0} (writer : Writer W) (tokens : TokenList) (variablemode : Bool) where
  abbrev pub parse_lines : List Bytes → W × RequiredArray → W × RequiredArray
  parse_lines [] s = s
  parse_lines (line ∷ lines) s = parse_lines lines (parse_line writer tokens variablemode line s)

  module _ {R : Type 0} (reader : Reader R) where
    read_loop-Delivers :
        (fuel : ℕ) (r r' : R) (lines : List Bytes) (s : W × RequiredArray)
        → reader.left r < fuel
        → Delivers reader r' r lines
        → read_loop writer tokens variablemode reader fuel r s ≡ some (r', parse_lines lines s)
    unfolding read_loop
    read_loop-Delivers zero r r' lines s h d = elim h [ ]
    read_loop-Delivers (suc fuel) r r' lines s h (stop e e') = rw (e, e', read_loop)
    read_loop-Delivers (suc fuel) r r' lines s h (more {line} {lines = rest} e d) =
        rw (e, read_loop)
          (read_loop-Delivers fuel (reader.getline r).1 r' rest _
            (omega (arith, reader.left-getline r line e)) d)

    -- Every reader delivers some lines.
    pub delivery :
        (fuel : ℕ) (r : R)
        → reader.left r < fuel
        → (lines : List Bytes) × (r' : R) × Delivers reader r' r lines
    delivery zero r h = elim h [ ]
    delivery (suc fuel) r h = elim (Option-cases (reader.getline r).0) [
      | inl e ↦ ([], (reader.getline r).1, stop e refl)
      | inr (line, e) ↦
          let (lines, r', d) =
            delivery fuel (reader.getline r).1 (omega (arith, reader.left-getline r line e)) in
          (line ∷ lines, r', more e d)
    ]

    pub parse-Delivers :
        (r r' : R) (lines : List Bytes) (w : W)
        → Delivers reader r' r lines
        → parse writer tokens variablemode reader r w
          ≡ some (
            r',
            finish writer tokens variablemode
                (reader.is_eof r')
                (parse_lines lines (w, copy_required tokens)),
          )
    unfolding parse
    parse-Delivers r r' lines w d = rw (
      read_loop-Delivers (suc (reader.left r)) r r' lines (w, copy_required tokens) (omega arith) d,
      conclude,
    )

    -- `parse` returns for every reader that gets shorter with each line, and every writer, token
    -- list and mode: its fuel, one more than what the reader has left, is enough.
    pub parse_returns :
        (r : R) (w : W)
        → (r' : R) × (o : Result W) × (parse writer tokens variablemode reader r w ≡ some (r', o))
    parse_returns r w =
        let (lines, r', d) = delivery (suc (reader.left r)) r (omega arith) in
        (r', _, parse-Delivers r r' lines w d)
