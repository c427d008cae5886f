-- ===== src/Action/Answers.antt =====
-- What an `Action` answers, for each outcome of the core.
use greylist.Base.{
  ◌==◌, ℕ, ◌≡◌, refl, Bool, [], ◌++◌, Option, none, some, Bytes, codes, ok, err, if◌then◌else◌,
  arith,
}
use greylist.Core.{ActionType, dunno, defer, cont, error, Extra, action_index}
use greylist.Action.{Action, create, process, starts_with, status_text, log_text}
use greylist.Triplet.{Triplet}
use greylist.Utils.{show_unsigned}

-- The text configured for an outcome; `cont` has none.
abbrev pub configured : Bytes → Bytes → Bytes → ActionType → Option Bytes
configured defer_text dunno_text onerror dunno = some dunno_text
configured defer_text dunno_text onerror defer = some defer_text
configured defer_text dunno_text onerror cont = none
configured defer_text dunno_text onerror error = some onerror

-- The status follows a text that starts with `defer_if_permit`, if it is asked for.
abbrev pub full_answer : Bool → Bytes → Extra → Bytes
full_answer deferwithstatus text extra =
    codes "action="
    ++ text
    ++ (if deferwithstatus
        then (if starts_with (codes "defer_if_permit") text
            then codes " " ++ status_text extra
            else [])
        else [])
    ++ codes "\n\n"

-- The constructor never throws.
pub create_returns :
    (b : Bool) (defer_text dunno_text onerror : Bytes) (level : ℕ)
    → (a : Action) × (create b defer_text dunno_text onerror level ≡ ok a)
unfolding create
create_returns b defer_text dunno_text onerror level = (_, refl)

-- For an `Action` that the constructor returned: for an outcome that has a configured text
-- (`dunno`, `defer` and `error` have), the answer is `action=`, the text, the status if it is
-- asked for and the text starts with `defer_if_permit`, and an empty line; the line for the log is
-- there if the level is `full`.
pub process_lem :
    (b : Bool) (defer_text dunno_text onerror : Bytes) (level : ℕ) (a : Action)
    → create b defer_text dunno_text onerror level ≡ ok a
    → (action : ActionType) (text : Bytes) (t : Triplet) (extra : Extra)
    → configured defer_text dunno_text onerror action ≡ some text
    → process a action t extra
      ≡ ok (full_answer b text extra, if level == 1 then some (log_text t extra) else none)
unfolding create process
process_lem b defer_text dunno_text onerror level a e dunno text t extra c = ground arith
process_lem b defer_text dunno_text onerror level a e defer text t extra c = ground arith
process_lem b defer_text dunno_text onerror level a e cont text t extra c = cc
process_lem b defer_text dunno_text onerror level a e error text t extra c = ground arith

-- For an `Action` that the constructor returned, the outcome `cont` throws.
pub process_cont :
    (b : Bool) (defer_text dunno_text onerror : Bytes) (level : ℕ) (a : Action)
    → create b defer_text dunno_text onerror level ≡ ok a
    → (t : Triplet) (extra : Extra) → process a cont t extra ≡ err (codes "Unexpected Action idx=2")
unfolding create process action_index show_unsigned
process_cont b defer_text dunno_text onerror level a e t extra = ground arith
