-- ===== src/Server/Monitor.antt =====
-- `monitor` and `stats` of src/server.h. `_signal` is `g_signal` of src/system.cpp, which a signal may
-- change before each read; the clock counts seconds.
pub mod Stopping
pub mod Counting
use greylist.Base.{
  ℕ, zero, suc, ◌+◌, ◌-◌, ◌%◌, ◌/◌, ◌*◌, ◌≤◌, ◌<◌, ◌≡◌, refl, sym, ap, ◌∙◌, subst, ◌≢◌, ◌⊎◌, inl,
  inr, Bool, true, false, not, ◌&&◌, ◌||◌, Option, none, some, List, [], ◌∷◌, ◌++◌, map, arith,
  if◌then◌else◌, ◌==◌, ==_iff, ltb, leb, Bool-cases, Option-cases, is_some, is_empty, Bytes, codes,
  Result, ok, err, length, AllSome, AllSome-some, some-injective, ◌^◌,
}
use greylist.Signals.{Signal, unset, sighup, sigquit, sigusr2, deliver}

-- What a round sees: the signals that arrive before `_signal` is compared with SIGQUIT, with SIGHUP and
-- with SIGUSR2; those that arrive from then on until it is compared again and reset, or, without a
-- refresh, until the sleep; those that arrive behind that, in the sleep and while `stats` runs;
-- whether the thread is interrupted; and the times before and behind the refresh.
pub record Tick : Type 0 where
  pub before_quit : List Signal
  pub before_hangup : List Signal
  pub before_check : List Signal
  pub before_reset : List Signal
  pub asleep : List Signal
  pub interrupted : Bool
  pub now : ℕ
  pub refreshed_at : ℕ

pub record Intervals : Type 0 where
  pub cache_refresh : ℕ
  pub stats_every : ℕ

-- The variables of the loop, `_signal`, and how often the caches were refreshed and `stats` called.
pub record Monitor : Type 0 where
  pub signal : Signal
  pub last_refresh : ℕ
  pub stats_counter : ℕ
  pub refreshes : ℕ
  pub stats_calls : ℕ

unfoldable pub start : Signal → ℕ → Monitor
start signal now = record {
  signal = signal;
  last_refresh = now;
  stats_counter = 0;
  refreshes = 0;
  stats_calls = 0;
}

abbrev is_quit : Signal → Bool
is_quit sigquit = true
is_quit _ = false

abbrev is_hangup : Signal → Bool
is_hangup sighup = true
is_hangup _ = false

abbrev is_usr2 : Signal → Bool
is_usr2 sigusr2 = true
is_usr2 _ = false

abbrev is_set : Signal → Bool
is_set unset = false
is_set _ = true

-- The condition of the loop.
unfoldable pub goes_on : Tick → Monitor → Bool × Monitor
unfolding deliver
goes_on tick m =
    let at_quit = deliver tick.before_quit m.signal in
    let at_hangup = deliver tick.before_hangup at_quit in
    if is_quit at_quit
    then (false, record m { signal = at_quit })
    else (not (is_hangup at_hangup) && not tick.interrupted, record m { signal = at_hangup })

-- The caches are refreshed on SIGUSR2, or when the interval has passed.
unfoldable pub is_due : Intervals → ℕ → Signal → ℕ → Bool
is_due i now signal last_refresh =
    is_usr2 signal || (ltb 0 i.cache_refresh && ltb (last_refresh + i.cache_refresh) now)

unfoldable pub refresh : Intervals → Tick → Monitor → Monitor
unfolding deliver is_due
refresh i tick m =
    let at_check = deliver tick.before_check m.signal in
    let at_reset = deliver tick.before_reset at_check in
    if is_due i tick.now at_check m.last_refresh
    then record m {
      signal = if is_usr2 at_reset then unset else at_reset;
      last_refresh = tick.refreshed_at;
      refreshes = m.refreshes + 1;
    }
    else record m { signal = at_reset }

-- `sleep`, and what arrives until the next round.
unfoldable pub sleep : Tick → Monitor → Monitor
unfolding deliver
sleep tick m = record m { signal = deliver tick.asleep m.signal }

-- Behind `sleep`. `statscounter` is an `unsigned`.
unfoldable pub count : Intervals → Monitor → Monitor
count i m =
    let counter = (m.stats_counter + 1) % 2 ^ 32 in
    if ltb 0 i.stats_every
    then (if counter == i.stats_every
        then record m { stats_counter = 0; stats_calls = m.stats_calls + 1 }
        else record m { stats_counter = counter })
    else m

-- The thread is in the loop, or has left it, having shut the listening socket down or not.
pub data Outcome : Type 0 where
  running : Monitor → Outcome
  left : Bool → Monitor → Outcome

unfoldable pub monitor : Intervals → List Tick → Monitor → Outcome
unfolding goes_on refresh sleep count
monitor i [] m = running m
monitor i (tick ∷ ticks) m =
    let (go_on, m') = goes_on tick m in
    let rest = monitor i ticks (count i (sleep tick (refresh i tick m'))) in
    if go_on then rest else left (is_set m'.signal) m'

-- `stats`: `numhandled`, and `lasthandled`, which all servers share. The difference of the 64-bit
-- numbers is cut to an `unsigned`.
unfoldable pub stats : ℕ → ℕ → ℕ × ℕ
stats handled last_handled = ((handled + 2 ^ 64 - last_handled) % 2 ^ 32, handled)
