-- ===== src/Server/TripletWriter.antt =====
-- `TripletWriter` of src/server.h: the values of one request, by the position of their token.
pub mod Request
use greylist.Base.{ℕ, ◌≡◌, refl, List, [], Option, none, some, Bytes}
use greylist.Base.OrdMap.{OrdMap, nat_key, find, insert}
use greylist.Parser.{Writer}
use greylist.Parser.Fields.{MapWriter}

pub record TripletWriter : Type 0 where
  pub values : OrdMap ℕ Bytes

unfoldable pub empty : TripletWriter
empty = record { values = [] }

-- The first value of a position stays, since `std::map::insert` does not replace.
unfoldable pub add : ℕ → Bytes → TripletWriter → TripletWriter
add idx str w = record { values = insert idx str w.values }

-- Unknown tokens are dropped.
unfoldable pub add_unknown : Bytes → Bytes → TripletWriter → TripletWriter
add_unknown key str w = w

abbrev pub or_null : Option Bytes → Bytes
or_null none = []
or_null (some s) = s

unfoldable pub member : ℕ → TripletWriter → Bytes
member t w = or_null (find t w.values)

abbrev pub triplet_writer : Writer TripletWriter
triplet_writer = record { add = add; add_unknown = add_unknown }

pub view-add : (i : ℕ) (v : Bytes) (w : TripletWriter) → (add i v w).values ≡ insert i v w.values
unfolding add
view-add i v w = refl

pub view-add_unknown : (k v : Bytes) (w : TripletWriter) → (add_unknown k v w).values ≡ w.values
unfolding add_unknown
view-add_unknown k v w = refl

abbrev pub triplet_map_writer : MapWriter TripletWriter
triplet_map_writer = record {
  writer = triplet_writer;
  view = λ w. w.values;
  view-add = view-add;
  view-add_unknown = view-add_unknown;
}
