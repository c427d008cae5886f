-- ===== src/Tests/Memory.antt =====
-- A database with a table in memory, the data source on it, and the attempts of one triplet.
use greylist.Utils.{show_unsigned, read_digits}
use greylist.Utils.Decimal.{read-show_unsigned}
use greylist.DbDataSource.{Database, done, db_data_source, build}
use greylist.Greylist.Decide.{passing_update}
use greylist.Greylist.Keys.{IsQuad, Satisfies}
use greylist.Greylist.Table.{greylisted_all, attempts-greylisted, attempts, IsStore, entry}
use greylist.Core.{ActionType, no_extra}
use greylist.Triplet.{create}
use greylist.Base.{
  equal, All, ◌&&◌, ◌++◌, length, Bool-cases, inl, some-injective, inr, arith, Bytes, ◌%◌, ◌^◌, map,
  ◌==◌, if◌then◌else◌, false, ℕ, ◌+◌, List, [], ◌∷◌, Option, none, some, ok, Result, codes, refl,
  ◌≡◌,
}
use greylist.DataSource.{where_text, return_field, Call, Row, DataSource}
use greylist.IpAddress.{Env}
use greylist.Session.{Session}
use greylist.Greylist.{find_calls, found, Found, Greylist, reverse, row_calls}
use greylist.IpAddress

-- A row of the table, without the parts of the address.
record Stored : Type 0 where
  id : ℕ
  sender : Bytes
  recipient : Bytes
  name : Bytes
  count : ℕ
  uts : ℕ

record Memory : Type 0 where
  now : ℕ
  rows : List Stored

abbrev row_of : Stored → Row
row_of t = record {
  numeric = λ i. if i == 2 then t.count else t.uts;
  big_numeric = λ i. t.id;
  string = λ i. [];
}

-- The rows with this sender, recipient and name.
abbrev selected : Bytes → Bytes → Bytes → List Stored → List Row
selected sender recipient name [] = []
selected sender recipient name (t ∷ rows) =
    let rest = selected sender recipient name rows in
    if equal t.sender sender && equal t.recipient recipient && equal t.name name
    then row_of t ∷ rest
    else rest

abbrev answered : List Bytes → List Stored → List Row
answered (sender ∷ recipient ∷ name ∷ []) rows = selected sender recipient name rows
answered _ rows = []

-- The arguments of the insert are the fields of `row_calls`, with the count and the time at the end.
abbrev inserted : List Bytes → List Stored → List Stored
inserted (name ∷ sender ∷ recipient ∷ ip64 ∷ ip32 ∷ ip16 ∷ ip8 ∷ count ∷ uts ∷ []) rows =
    rows
    ++ record {
      id = length rows + 1;
      sender = sender;
      recipient = recipient;
      name = name;
      count = read_digits 0 count;
      uts = read_digits 0 uts;
    }
      ∷ []
inserted _ rows = rows

abbrev changed : ℕ → ℕ → ℕ → List Stored → List Stored
changed inc uts id [] = []
changed inc uts id (t ∷ rows) =
    (if t.id == id then record t { count = t.count + inc; uts = uts } else t)
    ∷ changed inc uts id rows

-- Those of the update are the increment of the count, the time and the id.
abbrev updated : List Bytes → List Stored → List Stored
updated (inc ∷ uts ∷ id ∷ []) rows =
    changed (read_digits 0 inc) (read_digits 0 uts) (read_digits 0 id) rows
updated _ rows = rows

-- The text starts with INSERT or with UPDATE.
abbrev executed : Bytes → List Bytes → List Stored → List Stored
executed [] args rows = rows
executed (c ∷ text) args rows = if c == b'I' then inserted args rows else updated args rows

abbrev database : Database Memory
database = record {
  get_resultf = λ text args w. (done (answered args w.rows), w);
  executef = λ text args w. (done tt, record w { rows = executed text args w.rows });
}

abbrev memory : DataSource Memory
memory = db_data_source database (codes "triplet")

-- A minute goes by with each look at the clock.
abbrev ticking : Memory → ℕ × Memory
ticking w = (w.now % 2 ^ 64, record w { now = w.now + 60 })

abbrev me : Bytes
me = codes "me@example.org"

abbrev you : Bytes
you = codes "you@example.net"

abbrev domain : Bytes
domain = codes "example.org"

abbrev query : List Call
query =
    return_field (codes "id")
    ∷ return_field (codes "count")
    ∷ return_field (codes "uts")
    ∷ where_text (codes "sender") me (codes "=")
    ∷ where_text (codes "recipient") you (codes "=")
    ∷ where_text (codes "client_address") domain (codes "=")
    ∷ []

abbrev seen : List Stored → Option Found
seen rows = found (selected me you domain rows)

abbrev view : Memory → Option Found
view w = seen w.rows

abbrev new_row : ℕ → ℕ → Stored
new_row id now = record {
  id = id;
  sender = me;
  recipient = you;
  name = domain;
  count = 0;
  uts = now;
}

seen-insert :
    (rows : List Stored) (id now : ℕ)
    → seen rows ≡ none
    → entry (seen (rows ++ new_row id now ∷ [])) ≡ some (0, now)
unfolding equal
seen-insert [] id now v = refl
seen-insert (t ∷ rows) id now v =
    elim (Bool-cases (equal t.sender me && equal t.recipient you && equal t.name domain)) [
      | inl e ↦ ground (arith, v, e)
      | inr e ↦ ground (arith, v, e, seen-insert rows id now)
    ]

seen-update :
    (rows : List Stored) (t : Found) (uts : ℕ)
    → seen rows ≡ some t
    → entry (seen (changed 1 uts t.id rows)) ≡ some (t.count + 1, uts)
seen-update [] t uts v = ground (arith, v)
seen-update (r ∷ rows) t uts v =
    elim (Bool-cases (equal r.sender me && equal r.recipient you && equal r.name domain)) [
      | inl e ↦ ground (arith, v, e)
      | inr e ↦ ground (arith, v, e, seen-update rows t uts)
    ]

memory_stores :
    (w : Memory) (name sender recipient : Bytes) (ip64 ip32 ip16 ip8 now : ℕ)
    → All (Satisfies (row_calls name sender recipient ip64 ip32 ip16 ip8 now)) query
    → view w ≡ none
    → entry (view (memory.insert (row_calls name sender recipient ip64 ip32 ip16 ip8 now) w).1)
      ≡ some (0, now)
unfolding db_data_source build equal
memory_stores w name sender recipient ip64 ip32 ip16 ip8 now
      (_, (_, (_, ((_, s), ((_, r), ((_, n), tt)))))) v =
    rw
      (
        some-injective s,
        some-injective r,
        some-injective n,
        read-show_unsigned 0,
        read-show_unsigned now,
      )
      (seen-insert w.rows (length w.rows + 1) now v)

mod_twice : (n : ℕ) → n % 2 ^ 32 % 2 ^ 32 ≡ n % 2 ^ 32
mod_twice n = omega arith

memory_updates :
    (w : Memory) (t : Found) (now : ℕ)
    → view w ≡ some t
    → entry (view (memory.update (passing_update t.id now) w).1) ≡ some (t.count + 1, now % 2 ^ 32)
unfolding db_data_source build
memory_updates w t now v =
    rw
      (
        read-show_unsigned t.id,
        read-show_unsigned 1,
        read-show_unsigned (now % 2 ^ 32 % 2 ^ 32),
        mod_twice now,
      )
      (seen-update w.rows t (now % 2 ^ 32) v)

memory-IsStore : IsStore memory ticking query view 1000
unfolding db_data_source build equal
memory-IsStore = record {
  lookup_returns = λ w. (selected me you domain w.rows, refl, refl);
  lookup_keeps = λ w. refl;
  clock_fits = λ w. omega arith;
  clock_keeps = λ w. refl;
  insert_returns = λ row w. refl;
  insert_stores = λ w name sender recipient ip64 ip32 ip16 ip8 now fits sat v.
      memory_stores w name sender recipient ip64 ip32 ip16 ip8 now sat v;
  update_returns = λ calls w. refl;
  update_stores = λ w t now below v. memory_updates w t now v;
}

abbrev waiting_policy : Greylist Memory
waiting_policy = record {
  ds = memory;
  mode = reverse;
  verbose = false;
  timeout = 100;
  weakbytes = 3;
}

-- The triplet of another client is known.
abbrev other_memory : Memory
other_memory = record {
  now = 0;
  rows = record { id = 1; sender = you; recipient = me; name = domain; count = 5; uts = 0 } ∷ [];
}

abbrev env : Env
env = record { getnameinfo = λ a. record { failure = some (codes "none"); buf = [] }; unset = 0 }

abbrev request : Session Memory
request = record {
  triplet =
      create (codes "192.0.2.17") (codes "me@example.org") (codes "you@example.net")
        (codes "mail.example.org") (codes "mail.example.org");
  extra = no_extra;
  world = other_memory;
}

abbrev asked : Session Memory
asked = (find_calls env waiting_policy request).1

request-query : find_calls env waiting_policy request ≡ (ok query, asked)
unfolding find_calls create greylist.IpAddress.create greylist.Utils.lowercase
    greylist.IpAddress.get_shortened_name
request-query = refl

request-IsQuad : IsQuad 192 0 2 17 request.triplet.client_address
unfolding create IpAddress.create show_unsigned
request-IsQuad = inr (refl, refl, (omega arith, (omega arith, (omega arith, (omega arith, tt)))))

-- At the times 0, 60 and 120.
abbrev three : List (ℕ × Result ActionType)
unfolding attempts
three =
    attempts env ticking waiting_policy query view 1000 memory-IsStore request asked 3 other_memory

attempts-greylisted_example : map (λ p. p.1) three ≡ greylisted_all 100 (map (λ p. p.0) three) none
unfolding three attempts equal
attempts-greylisted_example =
    attempts-greylisted env ticking waiting_policy query view 1000 memory-IsStore request asked 192
      0 2 17 3 other_memory (omega arith) (omega arith) request-IsQuad request-query
