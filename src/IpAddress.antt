-- ===== src/IpAddress.antt =====
-- src/ipaddress.h and src/ipaddress.cpp: the client's address and names. The getters fill caches, so
-- each returns the address object that it leaves behind.
pub mod Short
pub mod Caches
pub mod Numeric
use greylist.Base.{
  ℕ, zero, suc, ◌+◌, ◌-◌, ◌<◌, Bool, true, false, ◌&&◌, List, [], ◌∷◌, ◌++◌, Option, none, some,
  ltb, leb, ◌==◌, if◌then◌else◌, is_empty, not, Bytes, codes, Result, ok, err, find_byte_from,
  substr, length, take, drop, get_elem?,
}
use greylist.Utils.{lowercase, extract_unsigned}

-- What `getnameinfo` leaves: its error text, if it failed, and the string in the buffer. On failure
-- the buffer is one that nothing has written.
pub record NameInfo : Type 0 where
  pub failure : Option Bytes
  pub buf : Bytes

-- The resolver, and what an `unsigned` holds that was never set (or lies past the end of a vector).
pub record Env : Type 0 where
  pub getnameinfo : Bytes → NameInfo
  pub unset : ℕ

pub record IpAddress : Type 0 where
  pub str : Bytes
  pub numeric : List ℕ
  pub reverse : Bytes
  pub clientname : Bytes
  pub resolve_error : Bytes
  pub short_reverse : Bytes
  pub network : Bytes
  pub short_clientname : Bytes

abbrev pub default_length : ℕ
default_length = 4

-- The constructor, from `client_address`, `reverse_client_name` and `client_name`.
unfoldable pub create : Bytes → Bytes → Bytes → IpAddress
create c n cn = record {
  str = c;
  numeric = [];
  reverse = lowercase n;
  clientname = lowercase cn;
  resolve_error = [];
  short_reverse = [];
  network = [];
  short_clientname = [];
}

-- One step to the left in `getShortenedName`: a dot before `pos` counts for one part, and for two
-- if seven bytes or more stand behind it.
abbrev pub dot_before : Bytes → ℕ → Bool
dot_before name zero = false
dot_before name (suc k) = elim (get_elem? name k) [ none ↦ false | some c ↦ c == b'.' ]

abbrev parts_at : Bytes → ℕ → ℕ → ℕ
parts_at name pos parts =
    if dot_before name pos
    then (if leb 7 (length name - pos) then parts + 2 else parts + 1)
    else parts

-- The loop, at `pos` with `parts` counted; it ends at position 0 or with three parts.
shorten_loop : Bytes → ℕ → ℕ → ℕ × ℕ
shorten_loop name zero parts = (0, parts)
shorten_loop name (suc pos) parts =
    let rest = shorten_loop name pos (parts_at name pos parts) in
    if ltb parts 3 then rest else (suc pos, parts)

unfoldable pub get_shortened_name : Bytes → Bytes
unfolding shorten_loop
get_shortened_name name =
    let r = shorten_loop name (length name) 0 in if r.1 == 0 then [] else drop r.0 name

unfoldable pub get_short_client_name : IpAddress → Bytes × IpAddress
get_short_client_name ip =
    let short = get_shortened_name ip.clientname in
    if not (is_empty ip.short_clientname)
    then (ip.short_clientname, ip)
    else if is_empty ip.clientname
    then (ip.clientname, ip)
    else (short, record ip { short_clientname = short })

-- `std::string::rfind`.
unfoldable pub rfind_byte : ℕ → Bytes → Option ℕ
rfind_byte c [] = none
rfind_byte c (x ∷ s) = elim (rfind_byte c s) [
  | some i ↦ some (i + 1)
  | none ↦ if x == c then some 0 else none
]

network_of : Bytes → Bytes
unfolding rfind_byte
network_of str = elim (rfind_byte b'.' str) [ none ↦ str | some dotpos ↦ take (dotpos + 1) str ]

unfoldable pub get_network : IpAddress → Bytes × IpAddress
unfolding network_of
get_network ip =
    if not (is_empty ip.network)
    then (ip.network, ip)
    else (network_of ip.str, record ip { network = network_of ip.str })

module _ (env : Env) where
  -- The loop of `initNumeric` from `startpos`, on fuel: a round uses up one byte at least. The second
  -- argument of its `substr` is a position where a length is meant, so the piece may run past the dot.
  numeric_loop : ℕ → Bytes → ℕ → List ℕ → Option (List ℕ)
  numeric_loop zero str startpos numeric = none
  numeric_loop (suc fuel) str startpos numeric = elim (find_byte_from b'.' startpos str) [
    | none ↦ some (numeric ++ extract_unsigned env.unset (drop startpos str) ∷ [])
    | some dotpos ↦
        numeric_loop fuel str (dotpos + 1)
          (numeric ++ extract_unsigned env.unset (substr str startpos dotpos) ∷ [])
  ]

  abbrev or_empty : Option (List ℕ) → List ℕ
  or_empty none = []
  or_empty (some xs) = xs

  -- All the pieces; the fuel is enough for them.
  unfoldable pub parse_numeric : Bytes → List ℕ
  unfolding numeric_loop find_byte_from
  parse_numeric str = or_empty (numeric_loop (suc (length str)) str 0 [])

  -- `initNumeric` keeps the pieces even where it throws.
  unfoldable pub init_numeric : IpAddress → Result (Unit {0}) × IpAddress
  init_numeric ip =
      let numeric = ip.numeric ++ parse_numeric ip.str in
      (
        if length numeric == default_length
            then ok tt
            else err (codes "Length of parsed IP address: " ++ ip.str),
        record ip { numeric = numeric },
      )

  -- `_numeric[idx]`, which does not check `idx`.
  abbrev pub at_index : List ℕ → ℕ → ℕ
  at_index numeric idx = elim (get_elem? numeric idx) [ none ↦ env.unset | some n ↦ n ]

  abbrev after_init : ℕ → Result (Unit {0}) → IpAddress → Result ℕ × IpAddress
  after_init idx (ok u) ip = (ok (at_index ip.numeric idx), ip)
  after_init idx (err e) ip = (err e, ip)

  unfoldable pub get_numeric_idx : ℕ → IpAddress → Result ℕ × IpAddress
  unfolding init_numeric
  get_numeric_idx idx ip =
      if is_empty ip.numeric
      then after_init idx (init_numeric ip).0 (init_numeric ip).1
      else (ok (at_index ip.numeric idx), ip)

  abbrev resolve_failure : Bytes → Bytes → Option Bytes → Bytes
  resolve_failure old str none = old
  resolve_failure old str (some text) = codes "resolve " ++ str ++ codes ": " ++ text

  -- The buffer is taken as the name, and lowered, whether or not the resolver has filled it.
  unfoldable pub resolve : IpAddress → IpAddress
  resolve ip =
      let info = env.getnameinfo ip.str in
      record ip {
        resolve_error = resolve_failure ip.resolve_error ip.str info.failure;
        reverse = lowercase info.buf;
      }

  unfoldable pub get_reverse_name : IpAddress → Bytes × IpAddress
  unfolding resolve
  get_reverse_name ip =
      if not (is_empty ip.resolve_error)
      then (ip.reverse, ip)
      else if not (is_empty ip.reverse)
      then (ip.reverse, ip)
      else ((resolve ip).reverse, resolve ip)

  abbrev short_of_reverse : IpAddress → Bytes × IpAddress
  short_of_reverse ip =
      let short = get_shortened_name ip.reverse in
      if is_empty ip.reverse
      then (ip.short_reverse, ip)
      else (short, record ip { short_reverse = short })

  unfoldable pub get_short_reverse_name : IpAddress → Bytes × IpAddress
  unfolding resolve
  get_short_reverse_name ip =
      if not (is_empty ip.short_reverse)
      then (ip.short_reverse, ip)
      else if not (is_empty ip.resolve_error)
      then (ip.short_reverse, ip)
      else short_of_reverse (if is_empty ip.reverse then resolve ip else ip)
