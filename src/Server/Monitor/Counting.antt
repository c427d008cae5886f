-- ===== src/Server/Monitor/Counting.antt =====
-- How often `monitor` calls `stats`.
use greylist.Base.{
  ℕ, suc, ◌+◌, ◌%◌, ◌*◌, ◌<◌, ◌≡◌, refl, sym, ◌∙◌, subst, ◌≢◌, inl, inr, List, [], ◌∷◌, arith,
  Bool-cases, length, ◌^◌,
}
use native.Mathlib.Nat.{add-mul}
use native.Mathlib.Decide.{ℕ_discrete}
use greylist.Signals.{Signal}
use greylist.Server.Monitor.{
  Tick, Intervals, Monitor, start, goes_on, refresh, sleep, count, Outcome, running, left, monitor,
}

wrap_none :
    (i : Intervals) (m : Monitor)
    → i.stats_every < 2 ^ 32
    → m.stats_counter < i.stats_every
    → (m.stats_counter + 1) % 2 ^ 32 ≡ m.stats_counter + 1
wrap_none i m k l = omega arith

count-called :
    (i : Intervals) (m : Monitor)
    → 0 < i.stats_every
    → (m.stats_counter + 1) % 2 ^ 32 ≡ i.stats_every
    → count i m ≡ record m { stats_counter = 0; stats_calls = m.stats_calls + 1 }
unfolding count
count-called i m h e = ground (arith, e)

count-waited :
    (i : Intervals) (m : Monitor)
    → 0 < i.stats_every
    → (m.stats_counter + 1) % 2 ^ 32 ≢ i.stats_every
    → count i m ≡ record m { stats_counter = (m.stats_counter + 1) % 2 ^ 32 }
unfolding count
count-waited i m h e = ground (arith, e)

-- The rounds that `stats` has counted, and those since its last call.
abbrev pub rounds_done : Intervals → Monitor → ℕ
rounds_done i m = m.stats_calls * i.stats_every + m.stats_counter

count-rounds :
    (i : Intervals) (m : Monitor)
    → i.stats_every < 2 ^ 32
    → m.stats_counter < i.stats_every
    → ((count i m).stats_counter < i.stats_every)
      × (rounds_done i (count i m) ≡ rounds_done i m + 1)
count-rounds i m k l =
    let c = wrap_none i m k l in
    elim (ℕ_discrete (m.stats_counter + 1) i.stats_every) [
      | yes e ↦
          rw (count-called i m (omega arith) (c ∙ e))
            (omega arith, omega (arith, add-mul m.stats_calls 1 i.stats_every))
      | no n ↦
          rw (count-waited i m (omega arith) (λ z. n (sym c ∙ z)), c) (omega arith, omega arith)
    ]

-- The first half of a round leaves both counters.
Same : Monitor → Monitor → Type 0
Same m m' = (m'.stats_counter ≡ m.stats_counter) × (m'.stats_calls ≡ m.stats_calls)

first_half :
    (i : Intervals) (t : Tick) (m : Monitor) → Same m (sleep t (refresh i t (goes_on t m).1))
unfolding Same sleep refresh goes_on
first_half i t m = (ground arith, ground arith)

-- So many rounds more are counted, if the loop goes on.
Counts : Intervals → Monitor → ℕ → Outcome → Type 0
Counts i m n (running m') =
    (m'.stats_counter < i.stats_every) × (rounds_done i m' ≡ rounds_done i m + n)
Counts i m n (left shut m') = Unit

Counts-suc :
    (i : Intervals) (m m' : Monitor) (n : ℕ) (o : Outcome)
    → rounds_done i m' ≡ rounds_done i m + 1
    → Counts i m' n o
    → Counts i m (suc n) o
unfolding Counts
Counts-suc i m m' n (running m'') e c = (c.0, omega (arith, e, c.1))
Counts-suc i m m' n (left shut m'') e c = tt

monitor-Counts :
    (i : Intervals) (ticks : List Tick) (m : Monitor)
    → i.stats_every < 2 ^ 32
    → m.stats_counter < i.stats_every
    → Counts i m (length ticks) (monitor i ticks m)
unfolding monitor Counts Same
monitor-Counts i [] m k l = (l, omega arith)
monitor-Counts i (t ∷ ticks) m k l = elim (Bool-cases (goes_on t m).0) [
  | inl g ↦
      let r = sleep t (refresh i t (goes_on t m).1) in
      let (same_counter, same_calls) = first_half i t m in
      let (below, more) = count-rounds i r k (rw same_counter l) in
      rw (g, monitor)
        (Counts-suc i m (count i r) (length ticks) _ (more ∙ rw (same_counter, same_calls) refl)
          (monitor-Counts i ticks (count i r) k below))
  | inr g ↦ rw (g, monitor) tt
]

-- If `_statsevery` is not 0 and fits in an `unsigned`: while the loop of `monitor` goes on, the
-- number of calls of `stats` times `_statsevery`, and `statscounter`, which is below it, add up to
-- the number of rounds.
pub monitor-rounds :
    (i : Intervals) (ticks : List Tick) (signal : Signal) (now : ℕ) (m : Monitor)
    → 0 < i.stats_every
    → i.stats_every < 2 ^ 32
    → monitor i ticks (start signal now) ≡ running m
    → (m.stats_counter < i.stats_every)
      × (m.stats_calls * i.stats_every + m.stats_counter ≡ length ticks)
unfolding start Counts
monitor-rounds i ticks signal now m h k e =
    let c =
      subst (Counts i (start signal now) (length ticks)) e
        (monitor-Counts i ticks (start signal now) k h) in
    (c.0, omega (arith, c.1))
