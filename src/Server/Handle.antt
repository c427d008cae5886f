-- ===== src/Server/Handle.antt =====
-- `Server::handle` of src/server.h: the requests of one connection. Its core is the one of the whole
-- server; `interrupted`, `signalled` and `write` stand for the thread, the signal and the socket.
pub mod Ends
pub mod Limit
use greylist.Tokens.Enums.{
  client_name, reverse_client_name, recipient, sender, client_address, postfix_index,
}
use greylist.Base.{
  ℕ, zero, suc, ◌+◌, ◌&&◌, ◌||◌, Bool, true, false, not, List, [], ◌∷◌, ◌++◌, Option, none, some,
  ltb, ◌==◌, if◌then◌else◌, Bytes, codes, Result, ok, err, length,
}
use greylist.Base.State.{Run}
use greylist.Action.{Action}
use greylist.Core.{ActionType, error, no_extra, set_comment}
use greylist.Parser.{parse}
use greylist.Server.SocketReader.{SocketReader, is_eof}
use greylist.Server.SocketReader.Lines.{socket_reader}
use greylist.Server.TripletWriter.{TripletWriter, member, triplet_writer}
use greylist.Session.{Session}
use greylist.Tokens.{postfix_tokens}
use greylist.Triplet.{Triplet}
use greylist.Action
use greylist.Server.TripletWriter
use greylist.Tokens.Enums
use greylist.Triplet

-- What goes to the log.
pub data LogEntry : Type 0 where
  decided : Bytes → LogEntry
  no_triplet : Bytes → LogEntry
  in_handler : Bytes → LogEntry
  in_write : LogEntry

-- One connection: its reader, the world behind the core, the requests answered here and by all
-- handlers together, the log, and whether the socket was shut down.
pub record Handler (W : Type 0) : Type 0 where
  pub reader : SocketReader
  pub world : W
  pub handled : ℕ
  pub all_handled : ℕ
  pub log : List LogEntry
  pub down : Bool

-- What the handler uses: the fields of the server, the thread, the signal and the socket.
pub record Setting (W : Type 0) : Type 0 where
  pub core : Run (Session W) ActionType
  pub action : Action
  pub max_requests : ℕ
  pub interrupted : W → Bool × W
  pub signalled : W → Bool
  pub write : Bytes → W → Bool × W

abbrev pub triplet_of : TripletWriter → Triplet
unfolding member
triplet_of w =
    Triplet.create (member (postfix_index client_address) w) (member (postfix_index sender) w)
      (member (postfix_index recipient) w) (member (postfix_index reverse_client_name) w)
      (member (postfix_index client_name) w)

module _ {W : Type 0} (setting : Setting W) where
  abbrev caught_text : Bytes → Bytes
  caught_text what = codes "Error: caught exception in core: " ++ what

  -- The handler of an exception in the core or the action.
  caught : Bytes → Session W → Result (Bytes × Option Bytes) × W
  unfolding Action.process
  caught what s = (
    Action.process setting.action error s.triplet (set_comment (caught_text what) s.extra),
    s.world,
  )

  or_caught : Result (Bytes × Option Bytes) → Session W → Result (Bytes × Option Bytes) × W
  unfolding caught
  or_caught (ok answer) s = (ok answer, s.world)
  or_caught (err what) s = caught what s

  after_core : Result ActionType × Session W → Result (Bytes × Option Bytes) × W
  unfolding or_caught Action.process
  after_core (ok a, s) = or_caught (Action.process setting.action a s.triplet s.extra) s
  after_core (err what, s) = caught what s

  -- The answer to a request, and the line that its action logs.
  unfoldable pub answer : TripletWriter → W → Result (Bytes × Option Bytes) × W
  unfolding after_core Triplet.create no_extra
  answer w world =
      after_core (setting.core (record { triplet = triplet_of w; extra = no_extra; world = world }))

  abbrev stop_with : LogEntry → Handler W → Bool × Handler W
  stop_with entry h = (false, record h { log = h.log ++ entry ∷ []; down = true })

  log_decided : Option Bytes → List LogEntry → List LogEntry
  log_decided none log = log
  log_decided (some text) log = log ++ decided text ∷ []

  -- After `write`.
  written : Bool × W → Handler W → Bool × Handler W
  written (false, world) h =
      if setting.signalled world
      then (false, record h { world = world; down = true })
      else stop_with in_write (record h { world = world })
  written (true, world) h = (
    not (ltb 0 setting.max_requests && (h.handled + 1) == setting.max_requests),
    record h { world = world; handled = h.handled + 1; all_handled = h.all_handled + 1 },
  )

  answered : Result (Bytes × Option Bytes) × W → Handler W → Bool × Handler W
  unfolding written log_decided
  answered (ok (str, line), world) h =
      written (setting.write str world) (record h { world = world; log = log_decided line h.log })
  answered (err what, world) h = stop_with (in_handler what) (record h { world = world })

  pub after_parse : SocketReader × Result TripletWriter → Handler W → Bool × Handler W
  unfolding answered answer is_eof
  after_parse (r, err what) h = stop_with (no_triplet what) (record h { reader = r })
  after_parse (r, ok w) h =
      if is_eof r
      then (false, record h { reader = r })
      else answered (answer w h.world) (record h { reader = r })

  -- One round of the loop: whether it goes on, and what it leaves.
  unfoldable pub round : Handler W → Option (Bool × Handler W)
  unfolding after_parse parse TripletWriter.empty
  round h =
      let (stop, world) = setting.interrupted h.world in
      if stop
      then some (false, record h { world = world })
      else elim (parse triplet_writer postfix_tokens false socket_reader h.reader
          TripletWriter.empty) [
            | none ↦ none
            | some p ↦ some (after_parse p (record h { world = world }))
          ]

  -- The loop, on fuel.
  unfoldable pub rounds : ℕ → Handler W → Option (Handler W)
  unfolding round
  rounds zero h = none
  rounds (suc fuel) h = if is_eof h.reader then some h else elim (round h) [
    | none ↦ none
    | some (go_on, h') ↦ elim go_on [ false ↦ some h' | true ↦ rounds fuel h' ]
  ]

  -- The whole connection.
  unfoldable pub handle : Handler W → Option (Handler W)
  unfolding rounds
  handle h = rounds (suc (length h.reader.input)) h
