-- ===== src/Matchers/RegEx.antt =====
-- src/regexcpp.h: `RegEx` over the POSIX functions, which are parameters. The storage is shared and freed
-- with its last owner, so that a compiled expression is a value.
use greylist.Base.{ℕ, Bool, [], ◌∷◌, ◌++◌, if◌then◌else◌, ◌==◌, Bytes, codes, Result, ok, err}
use greylist.Matchers.{Regex}
use greylist.Utils.{show_unsigned}

-- `regcomp`, which returns 0 or an error number, `regexec`, and the text of `regerror`.
pub record Posix (R : Type 0) : Type 0 where
  pub regcomp : Bytes → ℕ × R
  pub regexec : R → Bytes → ℕ
  pub regerror : ℕ → Bytes

-- `c_str()`, as a function of C reads it: up to the first NUL.
unfoldable pub c_str : Bytes → Bytes
c_str [] = []
c_str (c ∷ s) = let rest = c_str s in if c == 0 then [] else c ∷ rest

module _ {R : Type 0} (posix : Posix R) where
  unfoldable pub match : R → Bytes → Bool
  unfolding c_str
  match r s = posix.regexec r (c_str s) == 0

  unfoldable pub compiled : Bytes → ℕ × R → Result (Bytes → Bool)
  unfolding match show_unsigned
  compiled expr (error, r) =
      if error == 0
      then ok (match r)
      else err (
          codes "Regex: "
          ++ posix.regerror error
          ++ codes "("
          ++ show_unsigned error
          ++ codes "), "
          ++ expr)

  -- The constructor, and `match` of the object.
  unfoldable pub regex_of : Regex
  unfolding compiled c_str
  regex_of expr = compiled expr (posix.regcomp (c_str expr))
