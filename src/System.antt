-- ===== src/System.antt =====
-- src/system.h and the creators it calls: a configuration turned into databases, data sources,
-- matchers and the chain of the core.
pub mod Config
pub mod Check
pub mod Create
pub mod Sections
pub mod Compile
pub mod Run
pub mod Policies
pub mod Invariant
pub mod Ends
pub mod Outcome
pub mod Reload
use greylist.Base.{ℕ, Bool, List, Bytes}
use greylist.Base.OrdMap.{OrdMap}
use greylist.Greylist.{ModeType}
use greylist.Triplet.{AnyMember}

-- `DBDataSource`: a database of the library, and a table.
pub record Source (D : Type 0) : Type 0 where
  pub database : D
  pub table : Bytes

pub data MatchKind : Type 0 where
  exact pattern cached_exact cached_pattern : MatchKind

-- The objects that a `Core::Matcher` and a `Core::Policy` point to.
pub data Matcher (D : Type 0) : Type 0 where
  column_matcher : MatchKind → Source D → Bytes → AnyMember → Bytes → Matcher D
  all_matcher : Matcher D

pub data Policy (D : Type 0) : Type 0 where
  whitelist_policy : Bytes → Policy D
  greylist_policy : Source D → ModeType → Bool → ℕ → ℕ → Policy D

-- The containers of `System`, the core and the settings that it is called with, and what goes to
-- the error stream.
pub record System (D : Type 0) : Type 0 where
  pub databases : OrdMap Bytes D
  pub datasources : OrdMap Bytes (Source D)
  pub matchers : OrdMap Bytes (Matcher D)
  pub core : List (Matcher D × Policy D)
  pub settings : OrdMap ℕ Bytes
  pub messages : List Bytes
