-- ===== src/Parser/Required.antt =====
-- The required tokens after a parse.
use greylist.Base.{suc, ◌⊎◌, ℕ, ◌≡◌, Bool, true, false, [], ◌∷◌, some, is_some, arith, ok}
use greylist.Base.OrdMap.{nat_key, find, Unique, find-insert}
use greylist.Parser.{Reader, parse, finish, fill_defaults}
use greylist.Parser.Loop.{parse_lines, parse-Delivers, delivery}
use greylist.Parser.Fields.{MapWriter, held-parse_lines, left-parse_lines}
use greylist.TokenList.{TokenList, RequiredArray, copy_required, get_default}

module _ {W : Type 0} (mw : MapWriter W) (tokens : TokenList) (variablemode : Bool) where
  abbrev has : ℕ → W → Bool
  has i w = is_some (find i (mw.view w))

  -- Defaults are only added.
  fill_defaults-keeps :
      (i : ℕ) (w : W) (q : RequiredArray)
      → has i w ≡ true
      → has i (fill_defaults mw.writer tokens variablemode w q).0 ≡ true
  unfolding fill_defaults
  fill_defaults-keeps i w [] h = h
  fill_defaults-keeps i w ((j, b) ∷ q) h =
      let val = get_default tokens j in
      ground (
        arith,
        fill_defaults-keeps i (mw.writer.add j val w) q,
        mw.view-add j val w,
        find-insert i j val (mw.view w),
      )

  -- What is no longer required has a value.
  fill_defaults-fills :
      (i : ℕ) (w : W) (q : RequiredArray)
      → (fill_defaults mw.writer tokens variablemode w q).1 ≡ []
      → is_some (find i q) ≡ true
      → has i (fill_defaults mw.writer tokens variablemode w q).0 ≡ true
  unfolding fill_defaults find
  fill_defaults-fills i w [] e h = ground arith
  fill_defaults-fills i w ((j, b) ∷ q) e h =
      let val = get_default tokens j in
      ground (
        arith,
        fill_defaults-fills i (mw.writer.add j val w) q,
        fill_defaults-keeps i (mw.writer.add j val w) q,
        mw.view-add j val w,
        find-insert i j val (mw.view w),
      )

  finish-gives :
      (s : W × RequiredArray) (w : W) (i : ℕ)
      → finish mw.writer tokens variablemode false s ≡ ok w
      → (has i s.0 ≡ true) ⊎ (is_some (find i s.1) ≡ true)
      → has i w ≡ true
  unfolding finish find
  finish-gives s w i e h =
      ground (arith, fill_defaults-fills i s.0 s.1, fill_defaults-keeps i s.0 s.1)

  module _ {R : Type 0} (reader : Reader R) where
    -- If the token list requires no position twice, and `parse` returns a writer while its reader
    -- is not at the end of its input, then every required position has a value in that writer,
    -- given or by default. The writer is one that keeps the first value of each position.
    pub parse-required :
        (r r' : R) (w w' : W) (i : ℕ)
        → Unique tokens.reqarr
        → parse mw.writer tokens variablemode reader r w ≡ some (r', ok w')
        → reader.is_eof r' ≡ false
        → is_some (find i tokens.reqarr) ≡ true
        → is_some (find i (mw.view w')) ≡ true
    unfolding copy_required
    parse-required r r' w w' i u e eof h =
        let (lines, last, d) =
          delivery writer tokens variablemode reader (suc (reader.left r)) r (omega arith) in
        let e' = parse-Delivers writer tokens variablemode reader r last lines w d in
        let s = parse_lines writer tokens variablemode lines (w, tokens.reqarr) in
        finish-gives s w' i (ground arith) (
          ground (
            arith,
            held-parse_lines mw tokens variablemode i lines (w, tokens.reqarr),
            left-parse_lines mw tokens variablemode i lines (w, tokens.reqarr) u,
          ))
      where
        open mw use {writer}
