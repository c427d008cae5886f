-- ===== src/Tests/Serving.antt =====
-- The server's threads at concrete states: one client is served, another waits in the queue.
use greylist.Base.{◌+◌, ◌*◌, ◌<◌, ◌≡◌, refl, inl, Bool, true, false, some, [], ◌∷◌, arith, All}
use greylist.Server.Sockets.{
  opening, entered, serving, leaving, gone, refusing, sweeping, draining, State, init, accept, fail,
  schedule, main_step, begin, handler_step,
}
use greylist.Server.Sockets.Steps.{accepts, fails, runs, begins, handles, Reach, start, later}
use greylist.Base.Totals.{occurrences}
use greylist.Base.OrdMap.{insert, find, nat_key, place}
use greylist.Server.Sockets.Owners.{IsOwned, ClosesRefused, ClosesServed, Reach-IsOwned}
use greylist.Server.Sockets.Registry.{IsRegistered, Reach-IsRegistered, Reach-sweep}
use greylist.Server.Sockets.Missed.{Reach-missed}
use greylist.Server.Monitor
use greylist.Server.Monitor.{
  Tick, Intervals, Monitor, goes_on, is_due, refresh, count, left, monitor, stats,
}
use greylist.Server.Monitor.Stopping.{monitor_leaves, monitor-usr2}
use greylist.Server.Monitor.Counting.{monitor-rounds}
use greylist.Signals.{sighup, unset, sigquit, sigusr2, deliver, signal_handler}

abbrev serving_one : State
serving_one = record init {
  descriptors = 4 ∷ [];
  sockets = (4, true) ∷ [];
  busy = 1;
  handlers = serving 4 true ∷ [];
}

serving_one-Reach : Reach serving_one
unfolding accept main_step schedule begin handler_step insert find place
serving_one-Reach =
    let queued = later (later start (accepts 4 refl refl)) (runs true refl) in
    let opened = later queued (begins 4 [] refl refl) in
    later (later opened (handles [] [] (opening 4) (entered 4 true) refl refl))
      (handles [] [] (entered 4 true) (serving 4 true) refl refl)

abbrev waiting_five : State
waiting_five = record serving_one { descriptors = 5 ∷ 4 ∷ []; queue = 5 ∷ [] }

waiting_five-Reach : Reach waiting_five
unfolding accept main_step schedule
waiting_five-Reach = later (later serving_one-Reach (accepts 5 refl refl)) (runs true refl)

abbrev stopped : State
stopped = record waiting_five { is_shutdown = true; main = sweeping }

stopped-Reach : Reach stopped
unfolding fail main_step
stopped-Reach = later (later waiting_five-Reach (fails refl)) (runs true refl)

-- The scheduler refuses the next client, and the first one is served.
abbrev refusing_six : State
refusing_six = record init {
  descriptors = 6 ∷ 4 ∷ [];
  sockets = (4, true) ∷ [];
  main = refusing 6;
  handlers = leaving 4 true ∷ [];
}

refusing_six-Reach : Reach refusing_six
unfolding accept main_step schedule handler_step
refusing_six-Reach =
    later (later (later serving_one-Reach (accepts 6 refl refl)) (runs false refl))
      (handles [] [] (serving 4 true) (leaving 4 true) refl refl)

Reach-IsOwned_example :
    IsOwned refusing_six
    × ClosesRefused refusing_six refusing_six.main
    × All (ClosesServed refusing_six) refusing_six.handlers
Reach-IsOwned_example = Reach-IsOwned refusing_six-Reach

Reach-IsRegistered_example : IsRegistered waiting_five
Reach-IsRegistered_example = Reach-IsRegistered waiting_five-Reach

Reach-sweep_example : 0 < occurrences 4 (4 ∷ [])
unfolding main_step
Reach-sweep_example =
    Reach-sweep {s' = record stopped { shut = 4 ∷ []; main = draining }} true [] [] (serving 4 true)
      4 stopped-Reach refl refl refl refl

Reach-missed_example :
    (s : State) × Reach s
    × (s.handlers ≡ gone ∷ serving 5 false ∷ [])
    × (s.shut ≡ [])
    × (s.main ≡ draining)
    × ((test : Bool) → main_step test s.main s ≡ some s)
Reach-missed_example = Reach-missed 5

-- The monitor, with `cacherefresh` 3600 and `statsevery` 2.
abbrev intervals : Intervals
intervals = record { cache_refresh = 3600; stats_every = 2 }

abbrev calm : Tick
calm = record {
  before_quit = [];
  before_hangup = [];
  before_check = [];
  before_reset = [];
  asleep = [];
  interrupted = false;
  now = 100;
  refreshed_at = 101;
}

-- SIGQUIT, then SIGUSR2, between the condition of the loop and the test for SIGUSR2; SIGHUP during the
-- sleep.
abbrev stopping_tick : Tick
stopping_tick = record calm { before_check = sigquit ∷ sigusr2 ∷ []; asleep = sighup ∷ [] }

abbrev started : Monitor
unfolding Monitor.start
started = Monitor.start unset 90

monitor_leaves_example :
    (m : Monitor) × (monitor intervals (stopping_tick ∷ calm ∷ []) started ≡ left true m)
    × (m.signal ≡ sigquit)
unfolding Monitor.start deliver signal_handler
monitor_leaves_example =
    monitor_leaves intervals stopping_tick calm [] started sigquit refl refl (inl refl) refl

-- SIGQUIT arrives before the caches are refreshed, and SIGHUP behind the reset.
monitor-usr2_example :
    (m : Monitor) × (monitor intervals
        (stopping_tick ∷ calm ∷ [])
        (record started { signal = sigusr2 })
      ≡ monitor intervals (calm ∷ []) m)
    × (m.signal ≡ sighup)
    × (m.refreshes ≡ 1)
unfolding Monitor.start deliver signal_handler
monitor-usr2_example =
    monitor-usr2 intervals stopping_tick (calm ∷ []) (record started { signal = sigusr2 }) refl refl

abbrev after_three : Monitor
after_three = record {
  signal = unset;
  last_refresh = 90;
  stats_counter = 1;
  refreshes = 0;
  stats_calls = 1;
}

monitor-rounds_example : (1 < 2) × (1 * 2 + 1 ≡ 3)
unfolding monitor goes_on refresh is_due count deliver Monitor.start
monitor-rounds_example =
    monitor-rounds intervals (calm ∷ calm ∷ calm ∷ []) unset 90 after_three (omega arith)
      (omega arith) refl

-- A new server answers 3 requests; the one before it had counted 10.
stats_reload : stats 3 10 ≡ (4294967289, 3)
unfolding stats
stats_reload = refl
