-- ===== src/Parser.antt =====
-- src/parser.h: `key=value` lines from any reader into any writer, against a list of tokens.
pub mod Loop
pub mod Fields
pub mod Required
use greylist.Base.{
  ℕ, zero, suc, ◌+◌, ◌<◌, ◌≡◌, Bool, true, false, List, [], ◌∷◌, ◌++◌, Option, none, some, is_empty,
  if◌then◌else◌, Bytes, codes, find_byte, take, drop, Result, ok, err, ◌>>=◌,
}
use greylist.TokenList.{TokenList, RequiredArray}
use greylist.TokenList

-- What the template asks of its reader. `getline` gives a line, or `none` for `npos` (-1). That
-- each line uses up some of the input is why the loop ends.
pub record Reader (R : Type 0) : Type 0 where
  pub getline : R → Option Bytes × R
  pub is_eof : R → Bool
  pub left : R → ℕ
  pub left-getline :
      (r : R) (line : Bytes) → (getline r).0 ≡ some line → left (getline r).1 < left r

-- Its writer: `add` of a position, and `add` of an unknown key.
pub record Writer (W : Type 0) : Type 0 where
  pub add : ℕ → Bytes → W → W
  pub add_unknown : Bytes → Bytes → W → W

module _ {W : Type 0} (writer : Writer W) (tokens : TokenList) (variablemode : Bool) where
  -- The body of the first loop, for one line.
  unfoldable pub parse_line : Bytes → W × RequiredArray → W × RequiredArray
  unfolding find_byte TokenList.parse
  parse_line line (w, required) = elim (find_byte b'=' line) [
    | none ↦ (w, required)
    | some eqpos ↦
        let key = take eqpos line in
        let val = drop (eqpos + 1) line in
        elim (TokenList.parse tokens key required).0 [
          | none ↦ (if variablemode then writer.add_unknown key val w else w, required)
          | some idx ↦ (writer.add idx val w, (TokenList.parse tokens key required).1)
        ]
  ]

  -- The loop over the required tokens that have a default; it stops at the first without.
  unfoldable pub fill_defaults : W → RequiredArray → W × RequiredArray
  fill_defaults w [] = (w, [])
  fill_defaults w ((i, b) ∷ required) =
      let val = TokenList.get_default tokens i in
      let rest = fill_defaults (writer.add i val w) required in
      if is_empty val then (w, (i, b) ∷ required) else rest

  -- The text of the exception.
  unfoldable pub missing : Bytes → RequiredArray → Result Bytes
  missing text [] = ok text
  missing text ((i, b) ∷ required) = do
    token ← TokenList.get_token tokens i
    missing (text ++ codes " " ++ token) required

  throw_missing : Result Bytes → Result W
  throw_missing (ok text) = err text
  throw_missing (err e) = err e

  -- What follows the first loop; the flag is `reader.isEof()`.
  unfoldable pub finish : Bool → W × RequiredArray → Result W
  unfolding fill_defaults missing throw_missing TokenList.have_defaults
  finish eof (w, required) =
      if is_empty required
      then ok w
      else let filled =
          if TokenList.have_defaults tokens then fill_defaults w required else (w, required) in
        if is_empty filled.1
        then ok filled.0
        else if eof
        then ok filled.0
        else throw_missing (missing (codes "Parser missing:") filled.1)

  module _ {R : Type 0} (reader : Reader R) where
    -- The first loop, on fuel: `none` means that the fuel ran out.
    unfoldable pub read_loop : ℕ → R → W × RequiredArray → Option (R × (W × RequiredArray))
    read_loop zero r s = none
    read_loop (suc fuel) r s = elim (reader.getline r).0 [
      | none ↦ some ((reader.getline r).1, s)
      | some line ↦ read_loop fuel (reader.getline r).1 (parse_line line s)
    ]

    conclude : Option (R × (W × RequiredArray)) → Option (R × Result W)
    conclude none = none
    conclude (some (r, s)) = some (r, finish (reader.is_eof r) s)

    -- The reader is left where the loop stopped, also when an exception is thrown.
    unfoldable pub parse : R → W → Option (R × Result W)
    unfolding read_loop parse_line finish conclude TokenList.copy_required
    parse r w = conclude (read_loop (suc (reader.left r)) r (w, TokenList.copy_required tokens))
