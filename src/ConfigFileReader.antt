-- ===== src/ConfigFileReader.antt =====
-- src/configfilereader.h: the lines of a configuration file. The stream is the bytes that are left;
-- `get` at their end sets `eof` and leaves its character as it was. Closing keeps `eof`.
pub mod Lines
pub mod Shrink
pub mod Opening
use greylist.Base.{
  ℕ, ◌+◌, ◌-◌, ◌<◌, Bool, true, false, ◌&&◌, not, List, [], ◌∷◌, ◌++◌, reverse, Option, none, some,
  ltb, ◌==◌, if◌then◌else◌, Bytes,
}
use greylist.Utils.{to_lower}

pub record Stream : Type 0 where
  pub input : Bytes
  pub eof : Bool

-- The variables of `getline`.
pub record Scan : Type 0 where
  pub str : Bytes
  pub cnt : ℕ
  pub begin : Bool
  pub comment : Bool
  pub c : ℕ

unfoldable pub start : Scan
start = record { str = []; cnt = 0; begin = true; comment = false; c = 0 }

trim : Bytes → ℕ → Bytes × ℕ
trim [] cnt = ([], cnt)
trim (c ∷ s) cnt = let rest = trim s (cnt - 1) in if c == b' ' then rest else (c ∷ s, cnt)

unfoldable pub rtrim : Scan → Scan
unfolding trim
rtrim s = let r = trim (reverse s.str) s.cnt in record s { str = reverse r.0; cnt = r.1 }

-- How a round of the loop ends: `continue`, `break`, or `return cnt`.
pub data Next : Type 0 where
  go_on : Scan → Next
  leave : Scan → Next
  give : Scan → Next

in_comment : Scan → Next
unfolding rtrim
in_comment s =
    if s.c == b'\n'
    then (if ltb 0 (rtrim s).cnt
        then give (rtrim s)
        else go_on (record (rtrim s) { comment = false }))
    else go_on s

-- From the test for `#` on.
plain : Scan → Next
plain s =
    if s.c == b'#'
    then go_on (record s { comment = true })
    else if s.c == b'\n'
    then (if ltb 0 s.cnt then leave s else go_on s)
    else go_on (record s { str = s.str ++ s.c ∷ []; cnt = s.cnt + 1 })

-- The case is kept from the `=` on.
after_begin : Scan → Scan
after_begin s = if s.c == b'=' then record s { begin = false } else record s { c = to_lower s.c }

-- The body of the loop, behind `get`.
unfoldable pub step : Scan → Next
unfolding in_comment plain after_begin
step s =
    if s.comment
    then in_comment s
    else if s.begin
    then (if (after_begin s).c == b' ' then go_on (after_begin s) else plain (after_begin s))
    else plain s

-- The end of the loop, and what is left of the input. A failed `get` is followed by one more round.
pub data Ended : Type 0 where
  fell : Scan → Bytes → Bool → Ended
  gave : Scan → Bytes → Bool → Ended

ended : Next → Bytes → Bool → (Scan → Ended) → Ended
ended (go_on s) input eof more = more s
ended (leave s) input eof more = fell s input eof
ended (give s) input eof more = gave s input eof

unfoldable pub scan : Bytes → Scan → Ended
unfolding step ended
scan [] s = ended (step s) [] true (λ t. fell t [] true)
scan (c ∷ input) s = ended (step (record s { c = c })) input false (scan input)

-- The number returned, or `none` for -1, the string and the stream.
pub record Line : Type 0 where
  pub count : Option ℕ
  pub text : Bytes
  pub stream : Stream

-- What follows the loop.
conclude : Ended → Line
unfolding rtrim
conclude (gave s input eof) = record {
  count = some s.cnt;
  text = s.str;
  stream = record { input = input; eof = eof };
}
conclude (fell s input eof) =
    let t = rtrim s in
    record {
      count = if eof then (if ltb 0 t.cnt then some t.cnt else none) else some t.cnt;
      text = t.str;
      stream = record { input = input; eof = eof };
    }

-- At the end of the file the string is left as it was.
unfoldable pub getline : Bytes → Stream → Line
unfolding scan conclude start
getline str f =
    if f.eof then record { count = none; text = str; stream = f } else conclude (scan f.input start)

unfoldable pub is_eof : Stream → Bool
is_eof f = f.eof
