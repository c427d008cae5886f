-- ===== src/Scheduler/Order.antt =====
-- What is put into the queue and what is taken.
use greylist.Base.{
  ◌==◌, ◌||◌, not, is_empty, ℕ, ◌≡◌, List, [], ◌∷◌, ◌++◌, append_assoc, append-nil, sym, ap, ◌∙◌,
  refl, AllSome, AllSome-some, Bool-cases, inl, inr,
}
use greylist.Scheduler.{
  Client, shutdown, take_front, client_move, submit, client_step, spawn, State, Pc, worker_step,
  starting, blocked, holding, between, working, deciding, ended, idle, counted, admitted, pushing,
}
use greylist.Scheduler.Steps.{
  Step, Reach, work, serve, begin, stop, start, later, taken_by, given_by,
}

module _ {T : Type 0} where
  take_front-queue :
      (q : List T) (s : State T)
      → AllSome (λ r. taken_by blocked r.0 ++ r.1.queue ≡ q) (take_front q s)
  unfolding take_front
  take_front-queue [] s = tt
  take_front-queue (t ∷ q) s = refl

  worker_step-queue :
      (max_spare : ℕ) (p : Pc T) (s : State T)
      → AllSome (λ r. taken_by p r.0 ++ r.1.queue ≡ s.queue) (worker_step max_spare p s)
  unfolding worker_step
  worker_step-queue m starting s = refl
  worker_step-queue m blocked s = elim (Bool-cases s.is_shutdown) [
    | inl e ↦ rw (e, worker_step) refl
    | inr e ↦ rw (e, worker_step) (take_front-queue s.queue _)
  ]
  worker_step-queue m (holding t) s = refl
  worker_step-queue m (between t) s = refl
  worker_step-queue m (working t) s = refl
  worker_step-queue m deciding s = refl
  worker_step-queue m ended s = tt

  spawn-queue : (s : State T) → (spawn s).queue ≡ s.queue
  unfolding spawn
  spawn-queue s = elim (Bool-cases (s.waiting == 0 || not (is_empty s.queue))) [
    | inl e ↦ rw (e, spawn) refl
    | inr e ↦ rw (e, spawn) refl
  ]

  client_move-queue :
      (max_workers : ℕ) (c : Client T) (s : State T)
      → AllSome (λ s'. s'.queue ≡ s.queue ++ given_by c) (client_move max_workers c s)
  unfolding client_move
  client_move-queue m idle s = tt
  client_move-queue m (counted t n) s = sym (append-nil s.queue)
  client_move-queue m (admitted t) s = spawn-queue s ∙ sym (append-nil s.queue)
  client_move-queue m (pushing t) s = refl

  submit-queue : (t : T) (s : State T) → (submit t s).queue ≡ s.queue
  unfolding submit
  submit-queue t s = elim (Bool-cases s.is_shutdown) [
    | inl e ↦ rw (e, submit) refl
    | inr e ↦ rw (e, submit) refl
  ]

  pub Step-queue :
      {max_spare max_workers : ℕ} {s s' : State T} {given taken : List T}
      → Step max_spare max_workers s given taken s'
      → taken ++ s'.queue ≡ s.queue ++ given
  unfolding client_step shutdown
  Step-queue {max_spare} {s} (work xs ys p p' e e') =
      AllSome-some (λ r. taken_by p r.0 ++ r.1.queue ≡ s.queue) e' (worker_step-queue max_spare p s)
      ∙ sym (append-nil s.queue)
  Step-queue {max_workers} {s} (serve e) =
      AllSome-some (λ s'. s'.queue ≡ s.queue ++ given_by s.client) e
        (client_move-queue max_workers s.client s)
  Step-queue {s} (begin t e) = submit-queue t s ∙ sym (append-nil s.queue)
  Step-queue {s} (stop e) = sym (append-nil s.queue)

  -- Whatever the interleaving of the threads, the tasks that were taken, followed by the queue,
  -- are the tasks that were put into the queue, in that order: the scheduler is a queue, which
  -- loses no task, runs none twice and keeps the order.
  pub Reach-queue :
      {max_spare max_workers : ℕ} {given taken : List T} {s : State T}
      → Reach max_spare max_workers given taken s
      → taken ++ s.queue ≡ given
  Reach-queue start = refl
  Reach-queue (later {given} {given'} {taken} {taken'} {s} {s'} r d) =
      append_assoc taken taken' s'.queue
      ∙ ap (λ q. taken ++ q) (Step-queue d)
      ∙ sym (append_assoc taken s.queue given')
      ∙ ap (λ q. q ++ given') (Reach-queue r)
