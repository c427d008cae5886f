-- ===== src/DataSource.antt =====
-- src/datasource.h: what the matchers and the greylist ask of a data source. A `BaseQuery` is given
-- as the calls that built it, in order; an implementation makes of them what it makes of the calls.
use greylist.Base.{ℕ, List, Bytes, Result}

pub data Call : Type 0 where
  return_field : Bytes → Call
  where_text : Bytes → Bytes → Bytes → Call
  where_number : Bytes → ℕ → Bytes → Call
  add_string : Bytes → Bytes → Call
  add_numeric : Bytes → ℕ → Call
  add_increment : Bytes → ℕ → Call
  add_set : Bytes → ℕ → Call

-- A row of a result, by the index of the column, which counts from 1.
pub record Row : Type 0 where
  pub numeric : ℕ → ℕ
  pub big_numeric : ℕ → ℕ
  pub string : ℕ → Bytes

-- The rows that `fetchRow` goes through; `numRows` is their number.
pub record DataSource (W : Type 0) : Type 0 where
  pub lookup : List Call → W → Result (List Row) × W
  pub insert : List Call → W → Result (Unit {0}) × W
  pub update : List Call → W → Result (Unit {0}) × W
