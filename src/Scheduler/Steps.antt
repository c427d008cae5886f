-- ===== src/Scheduler/Steps.antt =====
-- The threads of src/simplescheduler.h, interleaved in any order.
use greylist.Base.{ℕ, ◌≡◌, List, [], ◌∷◌, ◌++◌, some}
use greylist.Scheduler.{
  State, Pc, blocked, holding, Client, idle, pushing, init, worker_step, submit, client_step,
  shutdown,
}

-- The task that a worker takes from the queue in a step, and the task that `schedule` puts there.
abbrev pub taken_by : {T : Type 0} → Pc T → Pc T → List T
taken_by blocked (holding t) = t ∷ []
taken_by _ _ = []

abbrev pub given_by : {T : Type 0} → Client T → List T
given_by (pushing t) = t ∷ []
given_by _ = []

-- A step, with the tasks that are put into the queue and those that are taken.
pub data Step {T : Type 0} (max_spare max_workers : ℕ) (s : State T)
    : List T → List T → State T → Type 0 where
  work :
      (xs ys : List (Pc T)) (p p' : Pc T) {s' : State T}
      → s.workers ≡ xs ++ p ∷ ys
      → worker_step max_spare p s ≡ some (p', s')
      → Step max_spare max_workers s [] (taken_by p p') (record s' { workers = xs ++ p' ∷ ys })
  serve :
      {s' : State T}
      → client_step max_workers s ≡ some s'
      → Step max_spare max_workers s (given_by s.client) [] s'
  begin : (t : T) → s.client ≡ idle → Step max_spare max_workers s [] [] (submit t s)
  stop : s.client ≡ idle → Step max_spare max_workers s [] [] (shutdown s)

-- The states of a scheduler, with all tasks that were put into its queue and taken.
pub data Reach {T : Type 0} (max_spare max_workers : ℕ) : List T → List T → State T → Type 0 where
  start : Reach max_spare max_workers [] [] init
  later :
      {given given' taken taken' : List T} {s s' : State T}
      → Reach max_spare max_workers given taken s
      → Step max_spare max_workers s given' taken' s'
      → Reach max_spare max_workers (given ++ given') (taken ++ taken') s'

-- Steps of the workers alone, with the tasks that they take.
pub data Works {T : Type 0} (max_spare : ℕ) : State T → List T → State T → Type 0 where
  rest : {s : State T} → Works max_spare s [] s
  next :
      {s : State T} (xs ys : List (Pc T)) (p p' : Pc T) {s' s'' : State T} {taken : List T}
      → s.workers ≡ xs ++ p ∷ ys
      → worker_step max_spare p s ≡ some (p', s')
      → Works max_spare (record s' { workers = xs ++ p' ∷ ys }) taken s''
      → Works max_spare s (taken_by p p' ++ taken) s''
