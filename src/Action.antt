-- ===== src/Action.antt =====
-- src/action.h: the answer to Postfix. The log line is returned beside the answer.
pub mod Answers
use greylist.Base.{
  less, ℕ, Bool, true, false, ◌&&◌, List, [], ◌∷◌, ◌++◌, Option, none, some, is_empty,
  if◌then◌else◌, ◌==◌, Bytes, codes, equal, take, length, Result, ok, err, ◌>>=◌,
}
use greylist.Base.OrdMap.{OrdMap, nat_key, find, insert}
use greylist.Core.{ActionType, action_index, dunno, defer, error, Extra}
use greylist.Tokens.{postfix_response_tokens}
use greylist.Tokens.Enums.{LogToken}
use greylist.Triplet.{Triplet}
use greylist.Utils.{show_unsigned}
use greylist.TokenList

pub record Action : Type 0 where
  pub deferwithstatus : Bool
  pub log_level : ℕ
  pub texts : OrdMap ℕ Bytes
  pub defers : OrdMap ℕ Bool

-- `compare(0, n, prefix) == 0` for an `n` that is the length of the prefix.
abbrev pub starts_with : Bytes → Bytes → Bool
starts_with prefix s = equal (take (length prefix) s) prefix

-- The loop of the constructor over the answers.
defer_map : Bytes → OrdMap ℕ Bytes → OrdMap ℕ Bool → OrdMap ℕ Bool
unfolding insert
defer_map prefix [] m = m
defer_map prefix ((a, text) ∷ rest) m = defer_map prefix rest (insert a (starts_with prefix text) m)

answer_texts : Bytes → Bytes → Bytes → OrdMap ℕ Bytes
unfolding insert action_index
answer_texts defer_text dunno_text onerror =
    insert (action_index error) onerror
      (insert (action_index defer) defer_text (insert (action_index dunno) dunno_text []))

unfoldable pub create : Bool → Bytes → Bytes → Bytes → ℕ → Result Action
unfolding answer_texts defer_map TokenList.get_token postfix_response_tokens equal less
create deferwithstatus defer_text dunno_text onerror loglevel = do
  deferprefix ← TokenList.get_token postfix_response_tokens 1
  ok (record {
    deferwithstatus = deferwithstatus;
    log_level = loglevel;
    texts = answer_texts defer_text dunno_text onerror;
    defers = defer_map deferprefix (answer_texts defer_text dunno_text onerror) [];
  })

abbrev pub status_text : Extra → Bytes
status_text extra =
    extra.prefix
    ++ codes ": ("
    ++ show_unsigned extra.count
    ++ codes ", "
    ++ show_unsigned extra.diff
    ++ codes " secs)"

-- `(*_deferMap.find(action)).second == true`.
is_defer : Option Bool → Bool
is_defer none = false
is_defer (some b) = b

abbrev comment_text : Bytes → Bytes
comment_text [] = []
comment_text (c ∷ s) = codes ": " ++ c ∷ s

abbrev client_text : Triplet → Bytes
client_text t =
    if equal t.client_address.clientname (codes "unknown")
    then t.client_address.str
    else t.client_address.clientname

-- Both branches on `getDiff()` log the same line.
unfoldable pub log_text : Triplet → Extra → Bytes
log_text t extra =
    extra.prefix
    ++ codes ": "
    ++ t.sender
    ++ codes " -> "
    ++ t.recipient
    ++ codes ", "
    ++ client_text t
    ++ codes " ("
    ++ show_unsigned extra.count
    ++ codes ", "
    ++ show_unsigned extra.diff
    ++ codes " secs)"
    ++ comment_text extra.comment

answer : Action → ActionType → Extra → Option Bytes → Result Bytes
unfolding is_defer find
answer a action extra none =
    err (codes "Unexpected Action idx=" ++ show_unsigned (action_index action))
answer a action extra (some text) =
    let status =
      if a.deferwithstatus && is_defer (find (action_index action) a.defers)
      then codes " " ++ status_text extra
      else [] in
    ok (codes "action=" ++ text ++ status ++ codes "\n\n")

-- The answer, and the line for the log if the level is `LT_full`.
unfoldable pub process : Action → ActionType → Triplet → Extra → Result (Bytes × Option Bytes)
unfolding answer log_text find
process a action t extra = do
  str ← answer a action extra (find (action_index action) a.texts)
  ok (str, if a.log_level == 1 then some (log_text t extra) else none)
