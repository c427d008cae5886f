-- ===== src/Matchers.antt =====
-- src/exactmatch.h, src/patternmatch.h, src/allmatcher.h and src/whitelist.h: the matchers without
-- a cache, and the policy of a whitelist.
pub mod Patterns
pub mod RegEx
use greylist.Base.{
  ℕ, Bool, true, false, List, [], ◌∷◌, ◌++◌, is_empty, if◌then◌else◌, Bytes, codes, Result, ok, err,
}
use greylist.Base.State.{Run, ◌>>=◌, ◌>>◌, pure, throw}
use greylist.Core.{ActionType, dunno, set_comment, set_prefix}
use greylist.DataSource.{Call, return_field, where_text, Row, DataSource}
use greylist.IpAddress.{Env}
use greylist.Session.{Session, on_triplet, on_world, on_extra}
use greylist.Triplet.{AnyMember, get_member}

-- `ExactMatch` and `PatternMatch` have the same fields.
pub record Match (W : Type 0) : Type 0 where
  pub ds : DataSource W
  pub column : Bytes
  pub member : AnyMember
  pub returnfield : Bytes

-- POSIX regular expressions, from the C library: `compile` is the error text for an expression that
-- does not compile, or what the compiled expression matches.
abbrev pub Regex : Type 0
Regex = Bytes → Result (Bytes → Bool)

module _ {W : Type 0} (env : Env) where
  abbrev pub exact_calls : Match W → Bytes → List Call
  exact_calls m text =
      (if is_empty m.returnfield then [] else return_field m.returnfield ∷ [])
      ++ where_text m.column text (codes "=") ∷ []

  abbrev pub exact_rows : Match W → List Row → Run (Session W) Bool
  exact_rows m [] = pure false
  exact_rows m (row ∷ rows) =
      if is_empty m.returnfield
      then pure true
      else (on_extra (set_comment (row.string 1)) >> pure true)

  unfoldable pub exact_match : Match W → Run (Session W) Bool
  unfolding get_member
  exact_match m = do
    text ← on_triplet (get_member env m.member)
    rows ← on_world (m.ds.lookup (exact_calls m text))
    exact_rows m rows

  module _ (regex : Regex) where
    abbrev pub on_text : (Bytes → Bool) → Row → Run (Session W) Bool → Bytes → Run (Session W) Bool
    on_text matches row rest text =
        if matches text then (on_extra (set_comment (row.string 2)) >> pure true) else rest

    -- The pattern is compiled before the member is asked for.
    unfoldable pub on_pattern :
        Match W → Row → Run (Session W) Bool → Result (Bytes → Bool) → Run (Session W) Bool
    unfolding get_member
    on_pattern m row rest (err e) = throw e
    on_pattern m row rest (ok matches) =
        on_triplet (get_member env m.member) >>= on_text matches row rest

    -- The loop over the rows.
    unfoldable pub pattern_rows : Match W → List Row → Run (Session W) Bool
    unfolding on_pattern
    pattern_rows m [] = pure false
    pattern_rows m (row ∷ rows) = on_pattern m row (pattern_rows m rows) (regex (row.string 1))

    unfoldable pub pattern_match : Match W → Run (Session W) Bool
    unfolding pattern_rows
    pattern_match m = do
      rows ← on_world (m.ds.lookup (return_field m.column ∷ return_field m.returnfield ∷ []))
      pattern_rows m rows

unfoldable pub all_match : {W : Type 0} → Run (Session W) Bool
all_match = pure true

unfoldable pub whitelist_decide : {W : Type 0} → Bytes → Run (Session W) ActionType
whitelist_decide name = do on_extra (set_prefix (codes "wl " ++ name)); pure dunno
