-- ===== src/Scheduler.antt =====
-- src/simplescheduler.h: threads that take tasks from a queue. The program counter of a worker, or of
-- the thread that calls `schedule`, stands where the next access to a shared variable is. A section
-- under the lock is one step, and so is each access to a counter.
pub mod Steps
pub mod Counters
pub mod Order
pub mod Tasks
pub mod Life
pub mod Progress
pub mod Limit
use greylist.Base.{
  ℕ, ◌+◌, ◌-◌, Bool, true, false, ◌||◌, not, List, [], ◌∷◌, ◌++◌, Option, none, some, is_empty, leb,
  ◌==◌, if◌then◌else◌,
}

-- In `Worker::run` and `exec`: before `++_waiting`, at the wait, with a task before `--_waiting`,
-- before `++_active`, in the task, behind `--_active`, and at the thread's end.
pub data Pc (T : Type 0) : Type 0 where
  starting : Pc T
  blocked : Pc T
  holding : T → Pc T
  between : T → Pc T
  working : T → Pc T
  deciding : Pc T
  ended : Pc T

-- In `schedule`: outside, with `_waiting` read, past the first test, and before `push_back`.
pub data Client (T : Type 0) : Type 0 where
  idle : Client T
  counted : T → ℕ → Client T
  admitted : T → Client T
  pushing : T → Client T

pub record State (T : Type 0) : Type 0 where
  pub queue : List T
  pub active : ℕ
  pub waiting : ℕ
  pub is_shutdown : Bool
  pub client : Client T
  pub workers : List (Pc T)

module _ {T : Type 0} where
  -- The constructor.
  abbrev pub init : State T
  init = record {
    queue = [];
    active = 0;
    waiting = 0;
    is_shutdown = false;
    client = idle;
    workers = [];
  }

  -- `front` and `pop_front`; a worker waits while the queue is empty.
  unfoldable pub take_front : List T → State T → Option (Pc T × State T)
  take_front [] s = none
  take_front (t ∷ q) s = some (holding t, record s { queue = q })

  -- The next step of a worker of a scheduler with this `_maxSpare`; `none` if it cannot go on.
  unfoldable pub worker_step : ℕ → Pc T → State T → Option (Pc T × State T)
  unfolding take_front
  worker_step max_spare starting s = some (blocked, record s { waiting = s.waiting + 1 })
  worker_step max_spare blocked s =
      if s.is_shutdown
      then some (ended, record s { waiting = s.waiting - 1 })
      else take_front s.queue s
  worker_step max_spare (holding t) s = some (between t, record s { waiting = s.waiting - 1 })
  worker_step max_spare (between t) s = some (working t, record s { active = s.active + 1 })
  worker_step max_spare (working t) s = some (deciding, record s { active = s.active - 1 })
  worker_step max_spare deciding s =
      some (if leb max_spare s.waiting || s.is_shutdown then ended else starting, s)
  worker_step max_spare ended s = none

  -- The first step of `schedule`, which returns at once during a shutdown.
  unfoldable pub submit : T → State T → State T
  submit t s = if s.is_shutdown then s else record s { client = counted t s.waiting }

  -- A new thread if no worker waits or the queue is not empty.
  unfoldable pub spawn : State T → State T
  spawn s =
      if s.waiting == 0 || not (is_empty s.queue)
      then record s { workers = s.workers ++ starting ∷ [] }
      else s

  unfoldable pub client_move : ℕ → Client T → State T → Option (State T)
  unfolding spawn
  client_move max_workers idle s = none
  client_move max_workers (counted t n) s =
      some (record s { client = if leb max_workers (n + s.active) then idle else admitted t })
  client_move max_workers (admitted t) s = some (record (spawn s) { client = pushing t })
  client_move max_workers (pushing t) s =
      some (record s { client = idle; queue = s.queue ++ t ∷ [] })

  -- The next step in `schedule` of a scheduler with this `_maxWorkers`.
  unfoldable pub client_step : ℕ → State T → Option (State T)
  unfolding client_move
  client_step max_workers s = client_move max_workers s.client s

  unfoldable pub shutdown : State T → State T
  shutdown s = record s { is_shutdown = true }

  -- The condition of the loop in `wait`.
  unfoldable pub is_busy : State T → Bool
  is_busy s = not (s.active == 0) || not (s.waiting == 0)
