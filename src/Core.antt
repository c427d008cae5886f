-- ===== src/Core.antt =====
-- src/core.h and src/core.cpp: the chain of matchers and policies. A matcher and a policy get the
-- triplet and the `Extra` by reference, and reach the data sources: all of that is the state `S`,
-- which an exception does not roll back.
pub mod Chain
use greylist.Base.{ℕ, Bool, true, false, List, [], ◌∷◌, Bytes, Result, ok, err}

pub data ActionType : Type 0 where
  dunno defer cont error : ActionType

unfoldable pub action_index : ActionType → ℕ
action_index dunno = 0
action_index defer = 1
action_index cont = 2
action_index error = 3

pub record Extra : Type 0 where
  pub comment : Bytes
  pub prefix : Bytes
  pub diff : ℕ
  pub count : ℕ

unfoldable pub no_extra : Extra
no_extra = record { comment = []; prefix = []; diff = 0; count = 0 }

abbrev pub set_comment : Bytes → Extra → Extra
set_comment c e = record e { comment = c }

abbrev pub set_prefix : Bytes → Extra → Extra
set_prefix p e = record e { prefix = p }

abbrev pub set_status : Bytes → ℕ → ℕ → Extra → Extra
set_status p c t e = record e { prefix = p; count = c; diff = t }

-- A matcher with its policy.
pub record Module (S : Type 0) : Type 0 where
  pub match : S → Result Bool × S
  pub decide : S → Result ActionType × S

module _ {S : Type 0} where
  after_decide : (S → Result ActionType × S) → Result ActionType × S → Result ActionType × S
  after_decide rest (ok cont, s) = rest s
  after_decide rest (ok dunno, s) = (ok dunno, s)
  after_decide rest (ok defer, s) = (ok defer, s)
  after_decide rest (ok error, s) = (ok error, s)
  after_decide rest (err e, s) = (err e, s)

  after_match : Module S → (S → Result ActionType × S) → Result Bool × S → Result ActionType × S
  unfolding after_decide
  after_match m rest (ok true, s) = after_decide rest (m.decide s)
  after_match m rest (ok false, s) = rest s
  after_match m rest (err e, s) = (err e, s)

  -- `Core::process`: the first decision that is not `cont`, and `dunno` at the end of the chain.
  unfoldable pub process : List (Module S) → S → Result ActionType × S
  unfolding after_match
  process [] s = (ok dunno, s)
  process (m ∷ chain) s = after_match m (process chain) (m.match s)
