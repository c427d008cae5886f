-- ===== src/Tests/Policy.antt =====
-- The policy and the matchers on small worlds: the world is the time.
use greylist.Greylist.Keys.{Satisfies, insert_calls-find_calls}
use greylist.Greylist.{insert_calls, find_calls, Greylist, reverse, find_triplet, insert_triplet}
use greylist.Core.{no_extra, set_comment}
use greylist.Base.{
  ◌==◌, equal, if◌then◌else◌, ℕ, ◌+◌, ◌≡◌, refl, inr, true, false, List, [], ◌∷◌, ok, codes, some,
  Bytes, arith, All,
}
use greylist.Matchers.{pattern_rows, Match, Regex}
use greylist.Utils.{show_unsigned, lowercase}
use greylist.IpAddress.{get_shortened_name, parse_numeric, Env}
use greylist.Triplet.{get_member, create, known, sender_member}
use greylist.DataSource.{DataSource, Row, Call}
use greylist.Matchers.Patterns.{pattern_rows-first}
use greylist.Session.{Session}
use greylist.IpAddress

abbrev env : Env
env = record { getnameinfo = λ a. record { failure = some (codes "none"); buf = [] }; unset = 0 }

abbrev clock : ℕ → ℕ × ℕ
clock time = (time, time + 1)

abbrev row : ℕ → Row
row count = record {
  numeric = λ i. if i == 2 then count else 1000;
  big_numeric = λ i. 7;
  string = λ i. codes "@example\\.org$";
}

-- A table with these rows for each lookup.
abbrev table : List Row → DataSource ℕ
table rows = record {
  lookup = λ calls time. (ok rows, time);
  insert = λ calls time. (ok tt, time);
  update = λ calls time. (ok tt, time);
}

abbrev policy : List Row → Greylist ℕ
policy rows = record {
  ds = table rows;
  mode = reverse;
  verbose = false;
  timeout = 300;
  weakbytes = 3;
}

abbrev session : ℕ → Session ℕ
session time = record {
  triplet =
      create (codes "192.0.2.17") (codes "me@example.org") (codes "you@example.net")
        (codes "mail.example.org") (codes "mail.example.org");
  extra = no_extra;
  world = time;
}

-- The policy at this time, on a table with these rows.
abbrev looked_up : List Row → ℕ → Session ℕ
unfolding find_triplet create
looked_up rows time = (find_triplet env (policy rows) (session time)).1

-- And after the insert of a new triplet.
abbrev inserted : ℕ → Session ℕ
unfolding find_triplet insert_triplet create
inserted time = (insert_triplet env clock (policy []) (looked_up [] time)).1

insert_calls-find_calls_example :
    (conditions : List Call) × (row : List Call) × (s' : Session ℕ) × (s'' : Session ℕ)
    × (find_calls env (policy []) (session 5) ≡ (ok conditions, s'))
    × (insert_calls env 5 s' ≡ (ok row, s''))
    × All (Satisfies row) conditions
unfolding create IpAddress.create show_unsigned
insert_calls-find_calls_example =
    insert_calls-find_calls env (policy []) 192 0 2 17 5 (session 5) (omega arith)
      (inr (refl, refl, (omega arith, (omega arith, (omega arith, (omega arith, tt))))))

-- A pattern matches the texts that it starts with.
abbrev regex : Regex
unfolding equal
regex pattern = ok (λ text. equal pattern text)

abbrev patterns : Match ℕ
patterns = record {
  ds = table [];
  column = codes "pattern";
  member = known sender_member;
  returnfield = codes "comment";
}

abbrev pattern : Bytes → Row
pattern text = record {
  numeric = λ i. 0;
  big_numeric = λ i. 0;
  string = λ i. if i == 1 then text else codes "note";
}

pattern_rows-first_example :
    pattern_rows env regex patterns
      (pattern (codes "x") ∷ pattern (codes "me@example.org") ∷ [])
      (session 0)
    ≡ (ok true, record (session 0) { extra = set_comment (codes "note") no_extra })
unfolding create IpAddress.create lowercase get_member equal
pattern_rows-first_example =
    pattern_rows-first env regex patterns (codes "me@example.org") (pattern (codes "x") ∷ [])
      (pattern (codes "me@example.org")) [] (session 0) refl ((_, refl, refl), tt) (_, refl, refl)
