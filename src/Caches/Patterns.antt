-- ===== src/Caches/Patterns.antt =====
-- The cached patterns against the rows that they were made from.
use greylist.Base.{
  ◌>>=◌, ◌≡◌, refl, ap, ◌∙◌, sym, Bool, List, [], ◌∷◌, inl, inr, ok, Result-cases, Bytes,
}
use greylist.DataSource.{Row}
use greylist.IpAddress.{Env}
use greylist.Matchers.{Match, Regex, pattern_rows, on_pattern}
use greylist.Caches.{PatternCache, fill_patterns, cached_rows}

ok-injective : {A : Type 0} {a b : A} → ok a ≡ ok b → a ≡ b
ok-injective e = cc

module _ {W : Type 0} (env : Env) (regex : Regex) (m : Match W) where
  fill_patterns-step :
      (row : Row) (rows : List Row) (matches : Bytes → Bool) (rest : PatternCache)
      → regex (row.string 1) ≡ ok matches
      → fill_patterns regex rows ≡ ok rest
      → fill_patterns regex (row ∷ rows) ≡ ok ((matches, row.string 2) ∷ rest)
  unfolding fill_patterns
  fill_patterns-step row rows matches rest c d =
      ap (λ r. r >>= λ f. fill_patterns regex rows >>= λ t. ok ((f, row.string 2) ∷ t)) c
      ∙ ap (λ r. r >>= λ t. ok ((matches, row.string 2) ∷ t)) d

  -- If the patterns of some rows compile, the loop over the cache that is made of them does what
  -- the loop over the rows does.
  pub cached_rows-fill_patterns :
      (rows : List Row) (cache : PatternCache)
      → fill_patterns regex rows ≡ ok cache
      → cached_rows env m cache ≡ pattern_rows env regex m rows
  unfolding fill_patterns cached_rows pattern_rows on_pattern
  cached_rows-fill_patterns [] cache e = rw (← ok-injective e) refl
  cached_rows-fill_patterns (row ∷ rows) cache e = elim (Result-cases (regex (row.string 1))) [
    | inl (f, c) ↦ elim (Result-cases (fill_patterns regex rows)) [
      | inl (rest, d) ↦
          ap (cached_rows env m) (ok-injective (sym e ∙ fill_patterns-step row rows f rest c d))
          ∙ ap (λ r. on_pattern env regex m row r (ok f)) (cached_rows-fill_patterns rows rest d)
          ∙ sym (ap (on_pattern env regex m row (pattern_rows env regex m rows)) c)
      | inr (x, d) ↦ absurd (
          cc (
            sym e
            ∙ ap (λ r. r >>= λ g. fill_patterns regex rows >>= λ t. ok ((g, row.string 2) ∷ t)) c
            ∙ ap (λ r. r >>= λ t. ok ((f, row.string 2) ∷ t)) d))
    ]
    | inr (x, c) ↦ absurd (
        cc (
          sym e
          ∙ ap (λ r. r >>= λ g. fill_patterns regex rows >>= λ t. ok ((g, row.string 2) ∷ t)) c))
  ]
