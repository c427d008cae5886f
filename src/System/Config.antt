-- ===== src/System/Config.antt =====
-- `ConfigReader` and `ConfigWriter` of src/system.h: the lines of a configuration, section by
-- section, and the values of one section.
use greylist.Base.{
  ◌≤◌, ℕ, zero, suc, ◌<◌, ◌≡◌, refl, Bool, true, false, List, [], ◌∷◌, Option, none, some, ◌==◌,
  if◌then◌else◌, is_empty, length, Bytes, arith,
}
use greylist.Base.OrdMap.{OrdMap, nat_key, bytes_key, find, insert}
use greylist.ConfigFileReader.{Stream, getline}
use greylist.Parser.{Reader, Writer}
use greylist.Parser.Fields.{MapWriter}

-- The lines from `_itr` on. `failed` says that `line.at(0)` threw, on an empty line.
pub record ConfigReader : Type 0 where
  pub lines : List Bytes
  pub section_mode : Bool
  pub failed : Bool

-- The constructor's loop over the lines of the file, on fuel: `none` means that the fuel ran out.
unfoldable pub read_lines : ℕ → Bytes → Stream → Option (List Bytes × Stream)
unfolding getline
read_lines zero str f = none
read_lines (suc fuel) str f = elim (getline str f).count [
  | none ↦ some ([], (getline str f).stream)
  | some n ↦ elim (read_lines fuel (getline str f).text (getline str f).stream) [
    | none ↦ none
    | some (lines, f') ↦ some ((getline str f).text ∷ lines, f')
  ]
]

unfoldable pub read_config : Stream → Option (List Bytes × Stream)
unfolding read_lines
read_config f = read_lines (suc (suc (length f.input))) [] f

abbrev pub config_reader_on : List Bytes → ConfigReader
config_reader_on lines = record { lines = lines; section_mode = false; failed = false }

line_of : Bool → List Bytes → ConfigReader → Option Bytes × ConfigReader
line_of mode [] r = (none, r)
line_of false (line ∷ rest) r = (some line, record r { lines = rest })
line_of true ([] ∷ rest) r = (none, record r { failed = true })
line_of true ((c ∷ line) ∷ rest) r =
    if c == b'[' then (none, r) else (some (c ∷ line), record r { lines = rest })

-- In section mode a line that begins with `[` is not read. The number returned is the line's length.
unfoldable pub config_line : ConfigReader → Option Bytes × ConfigReader
unfolding line_of
config_line r = line_of r.section_mode r.lines r

line_of-left :
    (mode : Bool) (lines : List Bytes) (r : ConfigReader) (line : Bytes)
    → (line_of mode lines r).0 ≡ some line
    → length (line_of mode lines r).1.lines < length lines
unfolding line_of
line_of-left mode [] r line e = absurd (cc e)
line_of-left false (l ∷ rest) r line e = omega arith
line_of-left true ([] ∷ rest) r line e = absurd (cc e)
line_of-left true ((c ∷ l) ∷ rest) r line e = ground arith

pub config_line-left :
    (r : ConfigReader) (line : Bytes)
    → (config_line r).0 ≡ some line
    → length (config_line r).1.lines < length r.lines
unfolding config_line
config_line-left r line e = line_of-left r.section_mode r.lines r line e

line_of-shorter :
    (mode : Bool) (lines : List Bytes) (r : ConfigReader)
    → length r.lines ≤ length lines
    → length (line_of mode lines r).1.lines ≤ length lines
unfolding line_of
line_of-shorter mode [] r h = omega arith
line_of-shorter false (l ∷ rest) r h = omega arith
line_of-shorter true ([] ∷ rest) r h = omega arith
line_of-shorter true ((c ∷ l) ∷ rest) r h = ground arith

pub config_line-shorter : (r : ConfigReader) → length (config_line r).1.lines ≤ length r.lines
unfolding config_line
config_line-shorter r = line_of-shorter r.section_mode r.lines r (omega arith)

abbrev pub switch_section_mode : Bool → ConfigReader → ConfigReader
switch_section_mode b r = record r { section_mode = b }

abbrev pub at_end : ConfigReader → Bool
at_end r = is_empty r.lines

abbrev pub config_reader : Reader ConfigReader
config_reader = record {
  getline = config_line;
  is_eof = at_end;
  left = λ r. length r.lines;
  left-getline = config_line-left;
}

pub record ConfigWriter : Type 0 where
  pub values : OrdMap ℕ Bytes
  pub vars : OrdMap Bytes Bytes

abbrev pub no_values : ConfigWriter
no_values = record { values = []; vars = [] }

unfoldable pub add_value : ℕ → Bytes → ConfigWriter → ConfigWriter
add_value u str w = record w { values = insert u str w.values }

unfoldable pub add_var : Bytes → Bytes → ConfigWriter → ConfigWriter
add_var key str w = record w { vars = insert key str w.vars }

abbrev pub value_or_null : Option Bytes → Bytes
value_or_null none = []
value_or_null (some s) = s

unfoldable pub get_val : ℕ → ConfigWriter → Bytes
unfolding find
get_val u w = value_or_null (find u w.values)

abbrev pub config_writer : Writer ConfigWriter
config_writer = record { add = add_value; add_unknown = add_var }

pub view-add_value :
    (i : ℕ) (v : Bytes) (w : ConfigWriter) → (add_value i v w).values ≡ insert i v w.values
unfolding add_value
view-add_value i v w = refl

pub view-add_var : (k v : Bytes) (w : ConfigWriter) → (add_var k v w).values ≡ w.values
unfolding add_var
view-add_var k v w = refl

abbrev pub config_map_writer : MapWriter ConfigWriter
config_map_writer = record {
  writer = config_writer;
  view = λ w. w.values;
  view-add = view-add_value;
  view-add_unknown = view-add_var;
}

-- `copyVals`: a value that is there already stays.
unfoldable pub copy_vals : OrdMap ℕ Bytes → OrdMap ℕ Bytes → OrdMap ℕ Bytes
unfolding insert
copy_vals [] dest = dest
copy_vals ((u, str) ∷ values) dest = copy_vals values (insert u str dest)
