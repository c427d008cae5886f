-- ===== src/Greylist.antt =====
-- src/greylist.h: the greylisting policy. Its table is behind a data source; the clock (`time`) and
-- the data source work on the world.
pub mod Keys
pub mod Decide
pub mod Blind
pub mod Table
use greylist.Base.{
  ℕ, zero, suc, ◌+◌, ◌-◌, ◌/◌, Bool, List, [], ◌∷◌, ◌++◌, Option, none, some, ltb, if◌then◌else◌,
  ◌%◌, ◌^◌, ◌&&◌, ◌||◌, is_empty, Bytes, codes, Result, ok,
}
use greylist.Base.State.{Run, ◌>>=◌, ◌>>◌, pure}
use greylist.Core.{ActionType, dunno, defer, set_prefix, set_status}
use greylist.DataSource.{
  Call, return_field, where_text, where_number, add_string, add_numeric, add_increment, add_set,
  Row, DataSource,
}
use greylist.IpAddress.{Env, default_length}
use greylist.Session.{Session, on_triplet, gets, on_world, reads, on_extra}
use greylist.Triplet.{Triplet, get_short_client_name, get_client_address_numeric_idx}
use greylist.Utils.{show_unsigned}

pub data ModeType : Type 0 where
  reverse weak normal init : ModeType

unfoldable pub mode_index : ModeType → ℕ
mode_index reverse = 0
mode_index weak = 1
mode_index normal = 2
mode_index init = 3

pub record Greylist (W : Type 0) : Type 0 where
  pub ds : DataSource W
  pub mode : ModeType
  pub verbose : Bool
  pub timeout : ℕ
  pub weakbytes : ℕ

-- What `findTriplet` returns by reference.
pub record Found : Type 0 where
  pub id : ℕ
  pub count : ℕ
  pub uts : ℕ

abbrev pub found : List Row → Option Found
found [] = none
found (row ∷ rows) =
    some (record { id = row.big_numeric 1; count = row.numeric 2; uts = row.numeric 3 })

-- The mode, or its fallback.
abbrev pub mode_for : ModeType → Bytes → ModeType
mode_for reverse [] = weak
mode_for m name = m

abbrev pub seconds_since : ℕ → ℕ → ℕ
seconds_since uts now = if ltb uts now then now - uts else 0

-- The row of a new triplet.
abbrev pub row_calls : Bytes → Bytes → Bytes → ℕ → ℕ → ℕ → ℕ → ℕ → List Call
row_calls name sender recipient ip64 ip32 ip16 ip8 now =
    add_string (codes "client_address") name
    ∷ add_string (codes "sender") sender
    ∷ add_string (codes "recipient") recipient
    ∷ add_numeric (codes "ip64") ip64
    ∷ add_numeric (codes "ip32") ip32
    ∷ add_numeric (codes "ip16") ip16
    ∷ add_numeric (codes "ip8") ip8
    ∷ add_numeric (codes "count") 0
    ∷ add_numeric (codes "uts") now
    ∷ []

module _ {W : Type 0} (env : Env) where
  -- The loop over the parts of the address; `j` is 64, 32, 16, 8, then on down to 0.
  unfoldable pub address_calls : ℕ → ℕ → ℕ → List Call → Run (Session W) (List Call)
  unfolding get_client_address_numeric_idx
  address_calls zero i j calls = pure calls
  address_calls (suc rounds) i j calls = do
    v ← on_triplet (get_client_address_numeric_idx env i)
    address_calls rounds (i + 1) (j / 2)
        (calls ++ where_number (codes "ip" ++ show_unsigned j) v (codes "=") ∷ [])

  -- `mode == reverse` is tested first: the other modes do not ask for the name here.
  unfoldable pub effective_mode : ModeType → Run (Session W) ModeType
  unfolding get_short_client_name
  effective_mode reverse = do name ← gets get_short_client_name; pure (mode_for reverse name)
  effective_mode m = pure m

  unfoldable pub mode_calls : ℕ → ModeType → List Call → Run (Session W) (List Call)
  unfolding address_calls get_short_client_name
  mode_calls weakbytes reverse calls = do
    name ← gets get_short_client_name
    pure (calls ++ where_text (codes "client_address") name (codes "=") ∷ [])
  mode_calls weakbytes weak calls = address_calls weakbytes 0 64 calls
  mode_calls weakbytes normal calls = address_calls default_length 0 64 calls
  mode_calls weakbytes init calls = pure calls

  abbrev pub first_calls : Session W → List Call
  first_calls s =
      return_field (codes "id")
      ∷ return_field (codes "count")
      ∷ return_field (codes "uts")
      ∷ where_text (codes "sender") s.triplet.sender (codes "=")
      ∷ where_text (codes "recipient") s.triplet.recipient (codes "=")
      ∷ []

  -- The query that `findTriplet` builds.
  unfoldable pub find_calls : Greylist W → Run (Session W) (List Call)
  unfolding effective_mode mode_calls
  find_calls g s = (do mode ← effective_mode g.mode; mode_calls g.weakbytes mode (first_calls s)) s

  unfoldable pub find_triplet : Greylist W → Run (Session W) (Option Found)
  unfolding find_calls
  find_triplet g = do calls ← find_calls g; rows ← on_world (g.ds.lookup calls); pure (found rows)

  -- The query that `insertTriplet` builds.
  unfoldable pub insert_calls : ℕ → Run (Session W) (List Call)
  unfolding get_short_client_name get_client_address_numeric_idx
  insert_calls now s =
      (do
        name ← gets get_short_client_name
        ip64 ← on_triplet (get_client_address_numeric_idx env 0)
        ip32 ← on_triplet (get_client_address_numeric_idx env 1)
        ip16 ← on_triplet (get_client_address_numeric_idx env 2)
        ip8 ← on_triplet (get_client_address_numeric_idx env 3)
        pure (row_calls name s.triplet.sender s.triplet.recipient ip64 ip32 ip16 ip8 now))
        s

module _ {W : Type 0} where
  -- `addSet` takes an `unsigned`, and the time is an `unsigned long`.
  unfoldable pub increment_triplet : Greylist W → ℕ → ℕ → Run (Session W) (Unit {0})
  increment_triplet g id now = on_world (
      g.ds.update (
        add_increment (codes "count") 1
        ∷ add_set (codes "uts") (now % 2 ^ 32)
        ∷ where_number (codes "id") id (codes "=")
        ∷ []))

  -- What `decide` does once the triplet is found, at the time `now`.
  unfoldable pub settle : Greylist W → Found → ℕ → Run (Session W) ActionType
  unfolding increment_triplet
  settle g t now =
      let diff = seconds_since t.uts now in
      if ltb 0 t.count || ltb g.timeout diff
      then (increment_triplet g t.id now
          >> on_extra (set_status (codes "ok") t.count diff)
          >> pure dunno)
      else (on_extra (set_status (codes "wait") t.count diff) >> pure defer)

module _ {W : Type 0} (env : Env) (clock : W → ℕ × W) where
  unfoldable pub insert_triplet : Greylist W → Run (Session W) (Unit {0})
  unfolding insert_calls
  insert_triplet g = do
    now ← reads clock
    calls ← insert_calls env now
    on_world (g.ds.insert calls)

  abbrev pub after_find : Greylist W → Option Found → Run (Session W) ActionType
  unfolding insert_triplet settle
  after_find g none = do insert_triplet g; on_extra (set_prefix (codes "new")); pure defer
  after_find g (some t) = do now ← reads clock; settle g t now

  unfoldable pub decide : Greylist W → Run (Session W) ActionType
  unfolding find_triplet
  decide g = do t ← find_triplet env g; after_find g t
