-- ===== src/Caches.antt =====
-- src/cacherefresh.h, src/cachehandler.h, src/cachedexactmatch.h and src/cachedpatternmatch.h: the
-- matchers that read a table once and keep it. A cache is never changed once it is made, so the
-- handler keeps its value; a data source is known by its address, a number here. The locks make each
-- operation on a handler one step.
pub mod Exact
pub mod Patterns
use greylist.Base.{
  ℕ, ◌+◌, Bool, true, false, List, [], ◌∷◌, ◌++◌, Option, none, some, is_some, not, if◌then◌else◌,
  Bytes, Result, ok, err, get_elem?, ◌≡◌, ◌>>=◌,
}
use greylist.Base.OrdMap.{OrdMap, nat_key, bytes_key, find, insert, erase}
use greylist.Base.State.{Run, pure}
use greylist.Base.State
use greylist.Core.{set_comment}
use greylist.DataSource.{Call, return_field, Row, DataSource}
use greylist.IpAddress.{Env}
use greylist.Matchers.{Match, Regex}
use greylist.Session.{Session, on_triplet, on_extra}
use greylist.Triplet.{get_member}
use greylist.Utils.{lowercase}

-- The functions to call on a refresh; they change a state `S`, in which the caches are.
pub record CacheRefresh (S : Type 0) : Type 0 where
  pub functions : OrdMap ℕ (S → S)
  pub countid : ℕ

module _ {S : Type 0} where
  unfoldable pub no_handlers : CacheRefresh S
  no_handlers = record { functions = []; countid = 0 }

  unfoldable pub register_handler : (S → S) → CacheRefresh S → ℕ × CacheRefresh S
  unfolding insert find
  register_handler f r =
      let pos = r.countid + 1 in
      (
        if is_some (find pos r.functions) then 0 else pos,
        record { functions = insert pos f r.functions; countid = pos },
      )

  run_functions : OrdMap ℕ (S → S) → S → S
  run_functions [] s = s
  run_functions ((i, f) ∷ functions) s = run_functions functions (f s)

  unfoldable pub run : CacheRefresh S → S → S
  unfolding run_functions
  run r s = run_functions r.functions s

  unfoldable pub unregister_handler : ℕ → CacheRefresh S → CacheRefresh S
  unfolding erase
  unregister_handler id r = record r { functions = erase id r.functions }

-- A handler's caches, beside the rest of the world.
pub record CacheWorld (C W : Type 0) : Type 0 where
  pub caches : OrdMap ℕ C
  pub world : W

module _ {C W : Type 0} where
  unfoldable pub clear : CacheWorld C W → CacheWorld C W
  clear w = record w { caches = [] }

  unfoldable pub get : ℕ → CacheWorld C W → Option C
  unfolding find
  get ds w = find ds w.caches

  stored : ℕ → OrdMap ℕ C → Result C × W → Result C × CacheWorld C W
  unfolding insert
  stored ds caches (ok c, w) = (ok c, record { caches = insert ds c caches; world = w })
  stored ds caches (err e, w) = (err e, record { caches = caches; world = w })

  -- The factory is asked under the lock, and only if the cache is still missing.
  unfoldable pub create : ℕ → (W → Result C × W) → CacheWorld C W → Result C × CacheWorld C W
  unfolding find stored
  create ds factory w = elim (find ds w.caches) [
    | some c ↦ (ok c, w)
    | none ↦ stored ds w.caches (factory w.world)
  ]

  -- How both matchers come by their cache.
  unfoldable pub get_or_create : ℕ → (W → Result C × W) → CacheWorld C W → Result C × CacheWorld C W
  unfolding get create
  get_or_create ds factory w = elim (get ds w) [ some c ↦ (ok c, w) | none ↦ create ds factory w ]

pub record ExactCache : Type 0 where
  pub data_rows : List Bytes
  pub index : OrdMap Bytes ℕ

-- The loop over the rows; `count` is the number of rows so far.
pub fill_exact : ℕ → List Row → ExactCache → ExactCache
unfolding insert lowercase
fill_exact count [] cache = cache
fill_exact count (row ∷ rows) cache = fill_exact (count + 1) rows (record {
  data_rows = cache.data_rows ++ lowercase (row.string 2) ∷ [];
  index = insert (lowercase (row.string 1)) count cache.index;
})

abbrev pub on_rows : {W C : Type 0} → (List Row → Result C) → Result (List Row) × W → Result C × W
on_rows make (ok rows, w) = (make rows, w)
on_rows make (err e, w) = (err e, w)

module _ {W : Type 0} where
  abbrev pub cache_calls : Match W → List Call
  cache_calls m = return_field m.column ∷ return_field m.returnfield ∷ []

  unfoldable pub exact_factory : Match W → W → Result ExactCache × W
  unfolding fill_exact
  exact_factory m w =
      on_rows (λ rows. ok (fill_exact 0 rows (record { data_rows = []; index = [] })))
        (m.ds.lookup (cache_calls m) w)

-- `_data[i]`, for an index that the cache itself has made.
abbrev pub value_at : List Bytes → ℕ → Bytes
value_at rows i = elim (get_elem? rows i) [ none ↦ [] | some v ↦ v ]

unfoldable pub exact_value : Bytes → ExactCache → Option Bytes
unfolding find
exact_value text cache = elim (find text cache.index) [
  | none ↦ none
  | some i ↦ some (value_at cache.data_rows i)
]

module _ {W C : Type 0} where
  abbrev pub on_caches :
      (CacheWorld C W → Result C × CacheWorld C W) → Run (Session (CacheWorld C W)) C
  on_caches call s = ((call s.world).0, record s { world = (call s.world).1 })

module _ {W : Type 0} (env : Env) where
  abbrev pub on_value : Option Bytes → Run (Session (CacheWorld ExactCache W)) Bool
  on_value none = pure false
  on_value (some comment) = State.◌>>◌ (on_extra (set_comment comment)) (pure true)

  unfoldable pub cached_exact_match : ℕ → Match W → Run (Session (CacheWorld ExactCache W)) Bool
  unfolding get_or_create exact_factory get_member exact_value
  cached_exact_match ds m = State.◌>>=◌ (on_caches (get_or_create ds (exact_factory m))) λ cache.
      State.◌>>=◌ (on_triplet (get_member env m.member)) λ text. on_value (exact_value text cache)

abbrev pub PatternCache : Type 0
PatternCache = List ((Bytes → Bool) × Bytes)

-- The loop over the rows: a pattern that does not compile throws.
unfoldable pub fill_patterns : Regex → List Row → Result PatternCache
fill_patterns regex [] = ok []
fill_patterns regex (row ∷ rows) = do
  matches ← regex (row.string 1)
  rest ← fill_patterns regex rows
  ok ((matches, row.string 2) ∷ rest)

unfoldable pub pattern_factory : {W : Type 0} → Regex → Match W → W → Result PatternCache × W
unfolding fill_patterns
pattern_factory regex m w = on_rows (fill_patterns regex) (m.ds.lookup (cache_calls m) w)

module _ {W : Type 0} where
  abbrev pub on_cached :
      (Bytes → Bool) → Bytes → Run (Session W) Bool → Bytes → Run (Session W) Bool
  on_cached matches comment rest text =
      if matches text then (State.◌>>◌ (on_extra (set_comment comment)) (pure true)) else rest

module _ {W X : Type 0} (env : Env) where
  unfoldable pub cached_rows : Match X → PatternCache → Run (Session W) Bool
  unfolding get_member
  cached_rows m [] = pure false
  cached_rows m ((matches, comment) ∷ rows) =
      State.◌>>=◌ (on_triplet (get_member env m.member))
        (on_cached matches comment (cached_rows m rows))

module _ {W : Type 0} (env : Env) (regex : Regex) where
  unfoldable pub cached_pattern_match : ℕ → Match W → Run (Session (CacheWorld PatternCache W)) Bool
  unfolding get_or_create pattern_factory cached_rows
  cached_pattern_match ds m =
      State.◌>>=◌ (on_caches (get_or_create ds (pattern_factory regex m))) (cached_rows env m)
