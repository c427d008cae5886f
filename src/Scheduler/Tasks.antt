-- ===== src/Scheduler/Tasks.antt =====
-- What becomes of the tasks that are taken.
use greylist.Base.{
  ℕ, ◌+◌, ◌≡◌, refl, inl, inr, not, ◌||◌, List, [], ◌∷◌, ◌++◌, arith, ◌==◌, leb, Bool-cases,
  is_empty, AllSome, AllSome-some,
}
use greylist.Base.Totals.{total, total-append, total-split}
use greylist.Scheduler.{
  Client, shutdown, take_front, client_move, submit, client_step, spawn, State, Pc, worker_step,
  starting, blocked, holding, between, working, deciding, ended, idle, counted, admitted, pushing,
}
use greylist.Scheduler.Steps.{Reach, work, serve, begin, stop, start, later, taken_by}
use greylist.Scheduler.Order.{Reach-queue}

-- The task that a worker begins in a step: `++_active`, and then the call.
abbrev pub begun_by : {T : Type 0} → Pc T → Pc T → List T
begun_by (between t) (working t') = t' ∷ []
begun_by _ _ = []

module _ {T : Type 0} {max_spare max_workers : ℕ} where
  -- The tasks that the workers have begun on the way to a state, in that order.
  pub begun :
      {given taken : List T} {s : State T} → Reach max_spare max_workers given taken s → List T
  begun start = []
  begun (later r (work xs ys p p' e e')) = begun r ++ begun_by p p'
  begun (later r (serve e)) = begun r
  begun (later r (begin t e)) = begun r
  begun (later r (stop e)) = begun r

module _ {T : Type 0} (f : T → ℕ) where
  -- The task that a worker has taken and not begun.
  abbrev pub in_hand : Pc T → ℕ
  in_hand (holding t) = f t
  in_hand (between t) = f t
  in_hand _ = 0

  -- A worker hands on what it takes to what it begins.
  Hands : Pc T → Pc T × State T → Type 0
  Hands p r = total f (begun_by p r.0) + in_hand r.0 ≡ total f (taken_by p r.0) + in_hand p

  take_front-Hands : (q : List T) (s : State T) → AllSome (Hands blocked) (take_front q s)
  unfolding take_front Hands
  take_front-Hands [] s = tt
  take_front-Hands (t ∷ q) s = omega arith

  worker_step-Hands :
      (max_spare : ℕ) (p : Pc T) (s : State T) → AllSome (Hands p) (worker_step max_spare p s)
  unfolding worker_step Hands
  worker_step-Hands m starting s = refl
  worker_step-Hands m blocked s = elim (Bool-cases s.is_shutdown) [
    | inl e ↦ rw (e, worker_step) refl
    | inr e ↦ rw (e, worker_step) (take_front-Hands s.queue _)
  ]
  worker_step-Hands m (holding t) s = refl
  worker_step-Hands m (between t) s = omega arith
  worker_step-Hands m (working t) s = refl
  worker_step-Hands m deciding s = elim (Bool-cases (leb m s.waiting || s.is_shutdown)) [
    | inl e ↦ rw (e, worker_step) refl
    | inr e ↦ rw (e, worker_step) refl
  ]
  worker_step-Hands m ended s = tt

  spawn-in_hand : (s : State T) → total in_hand (spawn s).workers ≡ total in_hand s.workers
  unfolding spawn
  spawn-in_hand s = elim (Bool-cases (s.waiting == 0 || not (is_empty s.queue))) [
    | inl e ↦ rw (e, spawn) (omega (arith, total-append in_hand s.workers (starting ∷ [])))
    | inr e ↦ rw (e, spawn) refl
  ]

  client_move-in_hand :
      (max_workers : ℕ) (c : Client T) (s : State T)
      → AllSome
          (λ s'. total in_hand s'.workers ≡ total in_hand s.workers)
          (client_move max_workers c s)
  unfolding client_move
  client_move-in_hand m idle s = tt
  client_move-in_hand m (counted t n) s = refl
  client_move-in_hand m (admitted t) s = spawn-in_hand s
  client_move-in_hand m (pushing t) s = refl

  submit-in_hand :
      (t : T) (s : State T) → total in_hand (submit t s).workers ≡ total in_hand s.workers
  unfolding submit
  submit-in_hand t s = elim (Bool-cases s.is_shutdown) [
    | inl e ↦ rw (e, submit) refl
    | inr e ↦ rw (e, submit) refl
  ]

  module _ {max_spare max_workers : ℕ} where
    begun-in_hand :
        {given taken : List T} {s : State T} (r : Reach max_spare max_workers given taken s)
        → total f (begun r) + total in_hand s.workers ≡ total f taken
    unfolding begun client_step shutdown Hands
    begun-in_hand start = refl
    begun-in_hand (later {taken} {s} r (work xs ys p p' {s'} e e')) = omega (
      arith,
      begun-in_hand r,
      AllSome-some (Hands p) e' (worker_step-Hands max_spare p s),
      total-split in_hand s.workers xs ys p e,
      total-append in_hand xs (p' ∷ ys),
      total-append f (begun r) (begun_by p p'),
      total-append f taken (taken_by p p'),
    )
    begun-in_hand (later {taken} {s} r (serve {s'} e)) = omega (
      arith,
      begun-in_hand r,
      total-append f taken [],
      AllSome-some (λ s'. total in_hand s'.workers ≡ total in_hand s.workers) e
          (client_move-in_hand max_workers s.client s),
    )
    begun-in_hand (later {taken} {s} r (begin t e)) =
        omega (arith, begun-in_hand r, total-append f taken [], submit-in_hand t s)
    begun-in_hand (later {taken} r (stop e)) =
        omega (arith, begun-in_hand r, total-append f taken [])

-- Whatever the interleaving of the threads: the tasks that were taken, followed by the queue, are
-- the tasks that were put into the queue, in that order; and for every weight of the tasks, the
-- weights of the tasks that a worker has begun (`++_active` and the call) and of those that a
-- worker has taken and not begun add up to the weight of the tasks that were taken.
pub Reach-tasks :
    {T : Type 0} {max_spare max_workers : ℕ} {given taken : List T} {s : State T}
    (r : Reach max_spare max_workers given taken s)
    → (taken ++ s.queue ≡ given)
      × ((f : T → ℕ) → total f (begun r) + total (in_hand f) s.workers ≡ total f taken)
Reach-tasks r = (Reach-queue r, λ f. begun-in_hand f r)
