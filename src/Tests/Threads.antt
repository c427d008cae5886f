-- ===== src/Tests/Threads.antt =====
-- The scheduler at concrete states: one task is scheduled, and a worker takes it.
use greylist.Scheduler.Steps.{Works, Reach, start, later, work, serve, begin}
use greylist.Base.{ℕ, ◌≡◌, List, [], ◌∷◌, ◌++◌, ◌+◌, refl, false, arith}
use greylist.Scheduler.{
  State, starting, blocked, holding, between, working, deciding, ended, is_busy, init, worker_step,
  client_step, client_move, submit, spawn, take_front,
}
use greylist.Scheduler.Counters.{IsCounted, Reach-IsCounted, in_life}
use greylist.Base.Totals.{total}
use greylist.Scheduler.Tasks.{begun, in_hand, Reach-tasks}
use greylist.Scheduler.Progress.{Reach-taken}
use greylist.Scheduler.Limit.{Reach-crowded}

-- Task 7 is in the queue, and a thread was started for it.
abbrev one : State ℕ
one = record init { queue = 7 ∷ []; workers = starting ∷ [] }

one-Reach : Reach 1 2 (7 ∷ []) [] one
unfolding submit client_step client_move spawn
one-Reach =
    later (later (later (later start (begin 7 refl)) (serve refl)) (serve refl)) (serve refl)

-- The worker has taken the task and left `_waiting`; it is not in `_active` yet.
abbrev unseen : State ℕ
unseen = record init { workers = between 7 ∷ [] }

unseen-Reach : Reach 1 2 (7 ∷ []) (7 ∷ []) unseen
unfolding worker_step take_front
unseen-Reach =
    later
      (later (later one-Reach (work [] [] starting blocked refl refl))
        (work [] [] blocked (holding 7) refl refl))
      (work [] [] (holding 7) (between 7) refl refl)

-- The loop in `wait` would end here.
unseen-is_busy : is_busy unseen ≡ false
unfolding is_busy
unseen-is_busy = refl

abbrev seven : List ℕ
seven = 7 ∷ []

-- Without spare threads: task 8 comes while the only worker holds task 7 and still counts as waiting.
-- No thread is started for it, and the worker ends.
abbrev stranded : State ℕ
stranded = record init { queue = 8 ∷ []; workers = ended ∷ [] }

stranded-Reach : Reach 0 2 (7 ∷ 8 ∷ []) (7 ∷ []) stranded
unfolding submit client_step client_move spawn worker_step take_front
stranded-Reach =
    let r1 =
      later (later (later (later start (begin 7 refl)) (serve refl)) (serve refl)) (serve refl) in
    let r2 =
      later (later r1 (work [] [] starting blocked refl refl))
        (work [] [] blocked (holding 7) refl refl) in
    let r3 =
      later (later (later (later r2 (begin 8 refl)) (serve refl)) (serve refl)) (serve refl) in
    let r4 =
      later (later r3 (work [] [] (holding 7) (between 7) refl refl))
        (work [] [] (between 7) (working 7) refl refl) in
    later (later r4 (work [] [] (working 7) deciding refl refl))
      (work [] [] deciding ended refl refl)

-- The worker with task 7 has begun nothing yet.
Reach-tasks_example :
    (seven ++ unseen.queue ≡ seven)
    × ((f : ℕ → ℕ)
        → total f (begun unseen-Reach) + total (in_hand f) unseen.workers ≡ total f seven)
Reach-tasks_example = Reach-tasks unseen-Reach

Reach-IsCounted_example : IsCounted unseen
Reach-IsCounted_example = Reach-IsCounted unseen-Reach

Reach-taken_example : (s : State ℕ) × Works 1 one (7 ∷ []) s
Reach-taken_example = Reach-taken 7 [] (omega arith) one-Reach refl refl

Reach-crowded_example :
    (given taken : List ℕ) × (s : State ℕ) × Reach 1 2 given taken s
    × (total in_life s.workers ≡ 100)
Reach-crowded_example = Reach-crowded 1 2 100 7 (omega arith)
