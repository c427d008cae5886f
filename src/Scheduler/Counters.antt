-- ===== src/Scheduler/Counters.antt =====
-- The counters `_active` and `_waiting` against the workers that they count.
use greylist.Base.{
  leb, ℕ, ◌+◌, ◌≤◌, ◌≡◌, List, [], ◌∷◌, ◌++◌, some, refl, arith, AllSome, AllSome-some, Bool-cases,
  inl, inr, ◌==◌, ◌||◌, not, is_empty,
}
use greylist.Base.Totals.{total, total-append, total-split}
use greylist.Scheduler.{
  Pc, State, Client, starting, blocked, holding, between, working, deciding, ended, idle, counted,
  admitted, pushing, worker_step, take_front, client_move, client_step, spawn, submit, shutdown,
}
use greylist.Scheduler.Steps.{Step, Reach, work, serve, begin, stop, start, later}

module _ {T : Type 0} where
  -- The workers that `_waiting` counts, those that `_active` counts, and those that still run.
  abbrev pub in_waiting : Pc T → ℕ
  in_waiting blocked = 1
  in_waiting (holding t) = 1
  in_waiting _ = 0

  abbrev pub in_active : Pc T → ℕ
  in_active (working t) = 1
  in_active _ = 0

  abbrev pub in_life : Pc T → ℕ
  in_life ended = 0
  in_life _ = 1

  pub record IsCounted (s : State T) : Type 0 where
    pub waiting_eq : s.waiting ≡ total in_waiting s.workers
    pub active_eq : s.active ≡ total in_active s.workers

  -- The counters change by what the worker adds to them.
  Moves : State T → Pc T → Pc T × State T → Type 0
  Moves s p r =
      (r.1.waiting + in_waiting p ≡ s.waiting + in_waiting r.0)
      × (r.1.active + in_active p ≡ s.active + in_active r.0)

  take_front-Moves : (q : List T) (s : State T) → AllSome (Moves s blocked) (take_front q s)
  unfolding take_front Moves
  take_front-Moves [] s = tt
  take_front-Moves (t ∷ q) s = (refl, refl)

  worker_step-Moves :
      (max_spare : ℕ) (p : Pc T) (s : State T)
      → in_waiting p ≤ s.waiting
      → in_active p ≤ s.active
      → AllSome (Moves s p) (worker_step max_spare p s)
  unfolding worker_step Moves
  worker_step-Moves m starting s h k = (omega arith, omega arith)
  worker_step-Moves m blocked s h k = elim (Bool-cases s.is_shutdown) [
    | inl e ↦ rw (e, worker_step) (omega arith, omega arith)
    | inr e ↦ rw (e, worker_step) (take_front-Moves s.queue _)
  ]
  worker_step-Moves m (holding t) s h k = (omega arith, omega arith)
  worker_step-Moves m (between t) s h k = (omega arith, omega arith)
  worker_step-Moves m (working t) s h k = (omega arith, omega arith)
  worker_step-Moves m deciding s h k = elim (Bool-cases (leb m s.waiting || s.is_shutdown)) [
    | inl e ↦ rw (e, worker_step) (refl, refl)
    | inr e ↦ rw (e, worker_step) (refl, refl)
  ]
  worker_step-Moves m ended s h k = tt

  work-IsCounted :
      (max_spare : ℕ) (s s' : State T) (xs ys : List (Pc T)) (p p' : Pc T)
      → s.workers ≡ xs ++ p ∷ ys
      → worker_step max_spare p s ≡ some (p', s')
      → IsCounted s
      → IsCounted (record s' { workers = xs ++ p' ∷ ys })
  unfolding Moves
  work-IsCounted m s s' xs ys p p' e e' c =
      let w = total-split in_waiting s.workers xs ys p e in
      let a = total-split in_active s.workers xs ys p e in
      let (h, k) = AllSome-some (Moves s p) e' (
        worker_step-Moves m p s (omega (arith, c.waiting_eq, w)) (omega (arith, c.active_eq, a))) in
      record {
        waiting_eq = omega (arith, h, w, c.waiting_eq, total-append in_waiting xs (p' ∷ ys));
        active_eq = omega (arith, k, a, c.active_eq, total-append in_active xs (p' ∷ ys));
      }

  spawn-IsCounted : (s : State T) → IsCounted s → IsCounted (spawn s)
  unfolding spawn
  spawn-IsCounted s c = elim (Bool-cases (s.waiting == 0 || not (is_empty s.queue))) [
    | inl e ↦
        rw (e, spawn)
          (record {
            waiting_eq =
                omega (arith, c.waiting_eq, total-append in_waiting s.workers (starting ∷ []));
            active_eq =
                omega (arith, c.active_eq, total-append in_active s.workers (starting ∷ []));
          })
    | inr e ↦ rw (e, spawn) c
  ]

  client_move-IsCounted :
      (max_workers : ℕ) (c : Client T) (s : State T)
      → IsCounted s
      → AllSome IsCounted (client_move max_workers c s)
  unfolding client_move
  client_move-IsCounted m idle s c = tt
  client_move-IsCounted m (counted t n) s c = record {
    waiting_eq = c.waiting_eq;
    active_eq = c.active_eq;
  }
  client_move-IsCounted m (admitted t) s c = record {
    waiting_eq = (spawn-IsCounted s c).waiting_eq;
    active_eq = (spawn-IsCounted s c).active_eq;
  }
  client_move-IsCounted m (pushing t) s c = record {
    waiting_eq = c.waiting_eq;
    active_eq = c.active_eq;
  }

  submit-IsCounted : (t : T) (s : State T) → IsCounted s → IsCounted (submit t s)
  unfolding submit
  submit-IsCounted t s c = elim (Bool-cases s.is_shutdown) [
    | inl e ↦ rw (e, submit) (record { waiting_eq = c.waiting_eq; active_eq = c.active_eq })
    | inr e ↦ rw (e, submit) (record { waiting_eq = c.waiting_eq; active_eq = c.active_eq })
  ]

  Step-IsCounted :
      {max_spare max_workers : ℕ} {s s' : State T} {given taken : List T}
      → Step max_spare max_workers s given taken s'
      → IsCounted s
      → IsCounted s'
  unfolding client_step shutdown
  Step-IsCounted {max_spare} {s} (work xs ys p p' {s'} e e') c =
      work-IsCounted max_spare s s' xs ys p p' e e' c
  Step-IsCounted {max_workers} {s} (serve e) c =
      AllSome-some IsCounted e (client_move-IsCounted max_workers s.client s c)
  Step-IsCounted {s} (begin t e) c = submit-IsCounted t s c
  Step-IsCounted (stop e) c = record { waiting_eq = c.waiting_eq; active_eq = c.active_eq }

  -- In every state that the threads can reach, `_waiting` is the number of workers that wait, or
  -- have taken a task and are still before `--_waiting`, and `_active` the number of those behind
  -- `++_active` and before `--_active`; a worker between `--_waiting` and `++_active` has a task
  -- and is in neither.
  pub Reach-IsCounted :
      {max_spare max_workers : ℕ} {given taken : List T} {s : State T}
      → Reach max_spare max_workers given taken s
      → IsCounted s
  Reach-IsCounted start = record { waiting_eq = refl; active_eq = refl }
  Reach-IsCounted (later r d) = Step-IsCounted d (Reach-IsCounted r)
