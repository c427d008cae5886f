-- ===== src/Caches/Exact.antt =====
-- The value of a text in a cache, and caches asked for again.
use greylist.Base.{
  ◌∙◌, sym, ap, Bool-cases, length-append, ℕ, zero, suc, ◌<◌, ◌≡◌, refl, List, [], ◌∷◌, ◌++◌,
  Option, none, some, inl, inr, length, arith, Option-cases, Result, ok, err, Bytes, equal,
  equal_iff, if◌then◌else◌,
}
use greylist.Base.OrdMap.{nat_key, bytes_key, find, insert, find-insert}
use greylist.DataSource.{Row}
use greylist.Caches.{
  CacheWorld, ExactCache, fill_exact, exact_value, value_at, get, create, stored, get_or_create,
}
use greylist.Parser.Fields.{or_else}
use greylist.Utils.{lowercase}

-- The value of the first row whose key is the text, both lowered.
abbrev pub first_comment : Bytes → List Row → Option Bytes
first_comment text [] = none
first_comment text (row ∷ rows) =
    if equal text (lowercase (row.string 1))
    then some (lowercase (row.string 2))
    else first_comment text rows

value_at-append :
    (rows : List Bytes) (v : Bytes) (i : ℕ)
    → i < length rows
    → value_at (rows ++ v ∷ []) i ≡ value_at rows i
value_at-append [] v i h = absurd (omega arith)
value_at-append (r ∷ rows) v zero h = refl
value_at-append (r ∷ rows) v (suc i) h = value_at-append rows v i (omega arith)

value_at-last : (rows : List Bytes) (v : Bytes) → value_at (rows ++ v ∷ []) (length rows) ≡ v
value_at-last [] v = refl
value_at-last (r ∷ rows) v = value_at-last rows v

module _ {C W : Type 0} where
  stored-get :
      (ds : ℕ) (w : CacheWorld C W) (r : Result C × W) (c : C) (w' : CacheWorld C W)
      → find ds w.caches ≡ none
      → stored ds w.caches r ≡ (ok c, w')
      → find ds w'.caches ≡ some c
  unfolding stored
  stored-get ds w (ok d, u) c w' n e = ground (arith, find-insert ds ds d w.caches)
  stored-get ds w (err x, u) c w' n e = ground arith

  -- Once a cache was found or made, asking for the cache of the same data source, whatever the
  -- factory, gives the same cache and changes nothing.
  pub get_or_create_again :
      (ds : ℕ) (factory other : W → Result C × W) (w w' : CacheWorld C W) (c : C)
      → get_or_create ds factory w ≡ (ok c, w')
      → get_or_create ds other w' ≡ (ok c, w')
  unfolding get_or_create create get
  get_or_create_again ds factory other w w' c e = elim (Option-cases (find ds w.caches)) [
    | inl n ↦ ground (arith, stored-get ds w (factory w.world) c w' n)
    | inr (d, f) ↦ ground arith
  ]

-- The positions of an index lie among the rows.
InRange : ExactCache → Type 0
InRange cache = (t : Bytes) (i : ℕ) → find t cache.index ≡ some i → i < length cache.data_rows

-- The cache with one more row.
abbrev with_row : ExactCache → Row → ExactCache
with_row cache row = record {
  data_rows = cache.data_rows ++ lowercase (row.string 2) ∷ [];
  index = insert (lowercase (row.string 1)) (length cache.data_rows) cache.index;
}

with_row-InRange : (cache : ExactCache) (row : Row) → InRange cache → InRange (with_row cache row)
unfolding InRange
with_row-InRange cache row h t i e = ground (
  arith,
  h t i,
  length-append cache.data_rows (lowercase (row.string 2) ∷ []),
  find-insert t (lowercase (row.string 1)) (length cache.data_rows) cache.index,
)

exact_value-with_row :
    (text : Bytes) (cache : ExactCache) (row : Row)
    → InRange cache
    → exact_value text (with_row cache row)
      ≡ or_else
          (exact_value text cache)
          (if equal text (lowercase (row.string 1)) then some (lowercase (row.string 2)) else none)
unfolding InRange exact_value
exact_value-with_row text cache row h =
    let key = lowercase (row.string 1) in
    let val = lowercase (row.string 2) in
    let stored = find-insert text key (length cache.data_rows) cache.index in
    elim (Option-cases (find text cache.index)) [
      | inl n ↦ elim (Bool-cases (equal text key)) [
        | inl e ↦ ground (arith, stored, value_at-last cache.data_rows val, equal_iff text key)
        | inr e ↦ ground (arith, stored)
      ]
      | inr (i, f) ↦
          ground
            (arith, stored, value_at-append cache.data_rows val i (h text i f), equal_iff text key)
    ]

-- From any cache in range, with its rows counted.
exact_value-fill_exact :
    (text : Bytes) (rows : List Row) (cache : ExactCache)
    → InRange cache
    → exact_value text (fill_exact (length cache.data_rows) rows cache)
      ≡ or_else (exact_value text cache) (first_comment text rows)
unfolding fill_exact
exact_value-fill_exact text [] cache h = ground arith
exact_value-fill_exact text (row ∷ rows) cache h =
    ap (λ n. exact_value text (fill_exact n rows (with_row cache row)))
      (sym (length-append cache.data_rows (lowercase (row.string 2) ∷ [])))
    ∙ exact_value-fill_exact text rows (with_row cache row) (with_row-InRange cache row h)
    ∙ ground (arith, exact_value-with_row text cache row h)

-- In the cache made of some rows, the value for a text is that of the first row whose key is the
-- text, key and value in lower case, or none.
pub exact_value-filled :
    (text : Bytes) (rows : List Row)
    → exact_value text (fill_exact 0 rows (record { data_rows = []; index = [] }))
      ≡ first_comment text rows
unfolding exact_value find InRange
exact_value-filled text rows =
    exact_value-fill_exact text rows (record { data_rows = []; index = [] })
      (λ t i e. absurd (cc e))
