-- ===== src/DbDataSource.antt =====
-- src/dbdatasource.h: queries as SQL text with `%s` and `%d` for the arguments. The database library
-- (dbiwrapped) that fills in the arguments and runs the text is a parameter.
pub mod Marks
pub mod Placeholders
use greylist.Base.{
  ℕ, zero, suc, ◌+◌, ◌%◌, ◌^◌, Bool, true, false, not, List, [], ◌∷◌, ◌++◌, Option, none, some,
  is_empty, if◌then◌else◌, ◌==◌, Bytes, codes, equal, Result, ok, err,
}
use greylist.DataSource.{
  Call, return_field, where_text, where_number, add_string, add_numeric, add_increment, add_set,
  Row, DataSource,
}
use greylist.Utils.{show_unsigned}

pub record DbQuery : Type 0 where
  pub return_fields : Bytes
  pub where_clause : Bytes
  pub args : List Bytes
  pub ins_fields : Bytes
  pub values : Bytes
  pub upd_fields : Bytes

unfoldable pub create_query : DbQuery
create_query = record {
  return_fields = [];
  where_clause = [];
  args = [];
  ins_fields = [];
  values = [];
  upd_fields = [];
}

-- `text`, behind what is there and a separator.
abbrev pub joined : Bytes → Bytes → Bytes → Bytes
joined separator [] text = text
joined separator (c ∷ s) text = (c ∷ s) ++ separator ++ text

abbrev pub quoted : Bytes → Bytes
quoted field = codes "`" ++ field ++ codes "`"

unfoldable pub add_return_field : Bytes → DbQuery → DbQuery
add_return_field field q =
    if equal field (codes "*")
    then record q { return_fields = field }
    else record q { return_fields = joined (codes ",") q.return_fields (quoted field) }

unfoldable pub add_where_text : Bytes → Bytes → Bytes → DbQuery → DbQuery
add_where_text field val op q = record q {
  where_clause = joined (codes " AND ") q.where_clause (quoted field ++ op ++ codes "%s");
  args = q.args ++ val ∷ [];
}

unfoldable pub add_where_number : Bytes → ℕ → Bytes → DbQuery → DbQuery
add_where_number field val op q = record q {
  where_clause = joined (codes " AND ") q.where_clause (quoted field ++ op ++ codes "%d");
  args = q.args ++ show_unsigned val ∷ [];
}

-- A comma goes to the values exactly when one goes to the fields.
unfoldable pub add_value : Bytes → Bytes → Bytes → DbQuery → DbQuery
add_value field mark val q = record q {
  ins_fields = joined (codes ",") q.ins_fields (quoted field);
  values = if is_empty q.ins_fields then q.values ++ mark else q.values ++ codes "," ++ mark;
  args = q.args ++ val ∷ [];
}

unfoldable pub add_string_value : Bytes → Bytes → DbQuery → DbQuery
unfolding add_value
add_string_value field val = add_value field (codes "%s") val

unfoldable pub add_numeric_value : Bytes → ℕ → DbQuery → DbQuery
unfolding add_value
add_numeric_value field val = add_value field (codes "%d") (show_unsigned val)

unfoldable pub add_increment_of : Bytes → ℕ → DbQuery → DbQuery
add_increment_of field inc q = record q {
  upd_fields =
      joined (codes ",") q.upd_fields (quoted field ++ codes "=" ++ quoted field ++ codes "+%d");
  args = q.args ++ show_unsigned inc ∷ [];
}

-- The value is an `unsigned`.
unfoldable pub add_set_of : Bytes → ℕ → DbQuery → DbQuery
add_set_of field val q = record q {
  upd_fields = joined (codes ",") q.upd_fields (quoted field ++ codes "=%d");
  args = q.args ++ show_unsigned (val % 2 ^ 32) ∷ [];
}

unfoldable pub add_call : Call → DbQuery → DbQuery
unfolding add_return_field add_where_text add_where_number add_string_value add_numeric_value
    add_increment_of add_set_of
add_call (return_field field) q = add_return_field field q
add_call (where_text field val op) q = add_where_text field val op q
add_call (where_number field val op) q = add_where_number field val op q
add_call (add_string field val) q = add_string_value field val q
add_call (add_numeric field val) q = add_numeric_value field val q
add_call (add_increment field inc) q = add_increment_of field inc q
add_call (add_set field val) q = add_set_of field val q

unfoldable pub build : List Call → DbQuery → DbQuery
unfolding add_call
build [] q = q
build (c ∷ calls) q = build calls (add_call c q)

-- `lookup`: the quote behind the table's name is part of the WHERE clause.
unfoldable pub select_text : Bytes → DbQuery → Bytes
select_text table q =
    codes "SELECT "
    ++ (if is_empty q.return_fields then codes "COUNT(*)" else q.return_fields)
    ++ codes " FROM `"
    ++ table
    ++ (if is_empty q.where_clause then [] else codes "` WHERE (" ++ q.where_clause ++ codes ")")

unfoldable pub insert_text : Bytes → DbQuery → Bytes
insert_text table q =
    codes "INSERT INTO "
    ++ table
    ++ codes " ("
    ++ q.ins_fields
    ++ codes ")  VALUES("
    ++ q.values
    ++ codes ")"

unfoldable pub update_text : Bytes → DbQuery → Bytes
update_text table q =
    codes "UPDATE "
    ++ table
    ++ codes " SET "
    ++ q.upd_fields
    ++ codes " WHERE("
    ++ q.where_clause
    ++ codes ")"

-- What the library returns: rows, or an error with its number and text.
pub data DbOutcome (A : Type 0) : Type 0 where
  done : A → DbOutcome A
  failed : ℕ → Bytes → DbOutcome A

abbrev pub duplicate_entry : ℕ
duplicate_entry = 1062

thrown {ℓ} : {W : Type ℓ} {A : Type 0} → DbOutcome A × W → Result A × W
thrown (done a, w) = (ok a, w)
thrown (failed number text, w) = (err text, w)

-- An insert swallows the error for a duplicate.
thrown_unless_duplicate {ℓ} : {W : Type ℓ} → DbOutcome (Unit {0}) × W → Result (Unit {0}) × W
thrown_unless_duplicate (done a, w) = (ok a, w)
thrown_unless_duplicate (failed number text, w) =
    if number == duplicate_entry then (ok tt, w) else (err text, w)

-- `Query::get_resultf` and `Query::executef`, on a text and its arguments.
pub record Database (W : Type 0) : Type 0 where
  pub get_resultf : Bytes → List Bytes → W → DbOutcome (List Row) × W
  pub executef : Bytes → List Bytes → W → DbOutcome (Unit {0}) × W

unfoldable pub db_data_source : {W : Type 0} → Database W → Bytes → DataSource W
unfolding build create_query select_text insert_text update_text thrown thrown_unless_duplicate
db_data_source db table = record {
  lookup = λ calls w.
      let q = build calls create_query in thrown (db.get_resultf (select_text table q) q.args w);
  insert = λ calls w.
      let q = build calls create_query in
      thrown_unless_duplicate (db.executef (insert_text table q) q.args w);
  update = λ calls w.
      let q = build calls create_query in thrown (db.executef (update_text table q) q.args w);
}
