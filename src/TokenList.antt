-- ===== src/TokenList.antt =====
-- src/tokenlist.h: names with their positions, the positions that are required, and defaults.
-- `findToken` and `parse` return -1 for a name that is not there: `none` here.
pub mod Laws
use greylist.Base.{
  ℕ, Bool, true, ◌≡◌, List, [], ◌∷◌, ◌++◌, Option, none, some, length, is_some, is_empty, not, ◌==◌,
  if◌then◌else◌, Bytes, codes, Result, ok, err,
}
use greylist.Base.OrdMap.{OrdMap, nat_key, bytes_key, find, insert, erase}

abbrev pub RequiredArray : Type 0
RequiredArray = OrdMap ℕ Bool

pub record TokenList : Type 0 where
  pub token_map : OrdMap Bytes ℕ
  pub required : List Bool
  pub defaults : OrdMap ℕ Bytes
  pub reqarr : RequiredArray

unfoldable pub empty : TokenList
empty = record { token_map = []; required = []; defaults = []; reqarr = [] }

unfoldable pub size : TokenList → ℕ
size l = length l.token_map

find_position : ℕ → OrdMap Bytes ℕ → Result Bytes
find_position i [] = err (codes "TokenList getToken")
find_position i ((t, j) ∷ m) = if j == i then ok t else find_position i m

unfoldable pub get_token : TokenList → ℕ → Result Bytes
unfolding find_position
get_token l i = find_position i l.token_map

unfoldable pub add_token : TokenList → Bytes → Bool → TokenList
unfolding size insert
add_token l t b = record {
  token_map = insert t ipos l.token_map;
  required = l.required ++ b ∷ [];
  defaults = l.defaults;
  reqarr = if b then insert ipos true l.reqarr else l.reqarr;
}
  where
    ipos : ℕ
    ipos = size l

-- The overload with a default, which is kept for a required token only.
unfoldable pub add_token_default : TokenList → Bytes → Bool → Bytes → TokenList
unfolding size insert
add_token_default l t b def = record {
  token_map = insert t ipos l.token_map;
  required = l.required ++ b ∷ [];
  defaults = if b then insert ipos def l.defaults else l.defaults;
  reqarr = if b then insert ipos true l.reqarr else l.reqarr;
}
  where
    ipos : ℕ
    ipos = size l

unfoldable pub find_token : TokenList → Bytes → Option ℕ
unfolding find
find_token l t = find t l.token_map

unfoldable pub copy_required : TokenList → RequiredArray
copy_required l = l.reqarr

-- The position, and the container without it.
unfoldable pub parse : TokenList → Bytes → RequiredArray → Option ℕ × RequiredArray
unfolding find_token erase
parse l t container = elim (find_token l t) [
  | none ↦ (none, container)
  | some ipos ↦ (some ipos, erase ipos container)
]

unfoldable pub have_defaults : TokenList → Bool
have_defaults l = not (is_empty l.defaults)

abbrev or_null : Option Bytes → Bytes
or_null none = []
or_null (some s) = s

unfoldable pub get_default : TokenList → ℕ → Bytes
unfolding find
get_default l i = or_null (find i l.defaults)
