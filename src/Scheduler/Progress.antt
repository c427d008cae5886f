-- ===== src/Scheduler/Progress.antt =====
-- Tasks are taken: what the workers still have to do gets less with each of their steps.
use greylist.Scheduler.Steps.{Works, rest, next, Step, Reach, work, later, taken_by}
use greylist.Base.{
  ◌==◌, some_value, Returns, false, ℕ, zero, suc, ◌<◌, ◌≡◌, ◌⊎◌, List, [], ◌∷◌, ◌++◌, refl, arith,
  Bool-cases, inl, inr, ◌||◌, leb, ap, sym, ◌∙◌, append-nil, subst,
}
use greylist.Scheduler.{
  Pc, State, starting, blocked, holding, between, working, deciding, ended, worker_step, take_front,
}
use greylist.Scheduler.Counters.{in_life}
use greylist.Base.Totals.{total, total-append, total-split}
use greylist.Scheduler.Life.{Reach-IsServed}
use greylist.Scheduler.Order.{Step-queue}

module _ {T : Type 0} where
  -- The steps up to the next task, at most.
  abbrev rank : Pc T → ℕ
  rank (holding t) = 6
  rank (between t) = 5
  rank (working t) = 4
  rank deciding = 3
  rank starting = 2
  rank blocked = 1
  rank ended = 0

  -- A step takes a task or comes closer to the next one, and starts no shutdown.
  Closer : State T → Pc T → Pc T × State T → Type 0
  Closer s p r =
      (r.1.is_shutdown ≡ s.is_shutdown)
      × (((t : T) × (taken_by p r.0 ≡ t ∷ [])) ⊎ ((taken_by p r.0 ≡ []) × (rank r.0 < rank p)))

  -- A worker that has not ended can go on while the queue is not empty.
  goes_on :
      (max_spare : ℕ) (p : Pc T) (s : State T) (t : T) (q : List T)
      → s.queue ≡ t ∷ q
      → s.is_shutdown ≡ false
      → 0 < in_life p
      → Returns (Closer s p) (worker_step max_spare p s)
  unfolding worker_step take_front Closer
  goes_on m starting s t q e k l = (refl, inr (refl, omega arith))
  goes_on m blocked s t q e k l = rw (k, e, worker_step, take_front) (refl, inl (t, refl))
  goes_on m (holding u) s t q e k l = (refl, inr (refl, omega arith))
  goes_on m (between u) s t q e k l = (refl, inr (refl, omega arith))
  goes_on m (working u) s t q e k l = (refl, inr (refl, omega arith))
  goes_on m deciding s t q e k l = elim (Bool-cases (leb m s.waiting || s.is_shutdown)) [
    | inl h ↦ rw (h, worker_step) (refl, inr (refl, omega arith))
    | inr h ↦ rw (h, worker_step) (refl, inr (refl, omega arith))
  ]
  goes_on m ended s t q e k l = omega arith

  someone :
      (ws : List (Pc T))
      → 0 < total in_life ws
      → (xs : List (Pc T)) × (p : Pc T) × (ys : List (Pc T)) × (ws ≡ xs ++ p ∷ ys) × (0 < in_life p)
  someone [] h = absurd (omega arith)
  someone (p ∷ ws) h = elim (Bool-cases (in_life p == 0)) [
    | inl e ↦
        let (xs, p', ys, e', l) = someone ws (ground arith) in
        (p ∷ xs, p', ys, ap (λ ws. p ∷ ws) e', l)
    | inr e ↦ ([], p, ws, refl, ground arith)
  ]

  Reach-along :
      {max_spare max_workers : ℕ} {given given' taken taken' : List T} {s : State T}
      → given ≡ given'
      → taken ≡ taken'
      → Reach max_spare max_workers given taken s
      → Reach max_spare max_workers given' taken' s
  Reach-along {max_spare} {max_workers} {given'} {taken} {s} e e' r =
      subst (λ k. Reach max_spare max_workers given' k s) e'
        (subst (λ g. Reach max_spare max_workers g taken s) e r)

  -- The first task of the queue is the one that is taken.
  first : (u t : T) (q q' : List T) → u ∷ q' ≡ (t ∷ q) ++ [] → u ≡ t
  first u t q q' e = cc

  taken_within :
      (fuel : ℕ) {max_spare max_workers : ℕ} {given taken : List T} {s : State T} (t : T)
      (q : List T)
      → 0 < max_spare
      → Reach max_spare max_workers given taken s
      → s.is_shutdown ≡ false
      → s.queue ≡ t ∷ q
      → total rank s.workers < fuel
      → (s' : State T) × Works max_spare s (t ∷ []) s'
  unfolding Closer
  taken_within zero t q h r k e f = elim f [ ]
  taken_within (suc fuel) {max_spare} {max_workers} {given} {taken} {s} t q h r k e f =
      let (xs, p, ys, e', l) = someone s.workers ((Reach-IsServed h r).served k (rw e refl)) in
      let ((p', s'), e2, closer) =
        some_value (Closer s p) (worker_step max_spare p s) (goes_on max_spare p s t q e k l) in
      let s1 = record s' { workers = xs ++ p' ∷ ys } in
      let step : Step max_spare max_workers s [] (taken_by p p') s1 = work xs ys p p' e' e2 in
      let queue = Step-queue step in
      elim closer.1 [
        | inl (u, e3) ↦
            let same =
              first u t q s'.queue
                (ap (λ l. l ++ s'.queue) (sym e3) ∙ queue ∙ ap (λ k. k ++ []) e) in
            (
              s1,
              subst (λ k. Works max_spare s k s1) (ap (λ l. l ++ []) e3 ∙ ap (λ x. x ∷ []) same)
                  (next xs ys p p' e' e2 rest),
            )
        | inr (e3, less) ↦
            let (s'', w) =
              taken_within fuel t q h
                (Reach-along (append-nil given) (ap (λ k. taken ++ k) e3 ∙ append-nil taken)
                  (later r step))
                (closer.0 ∙ k) (ap (λ l. l ++ s'.queue) (sym e3) ∙ queue ∙ append-nil s.queue ∙ e)
                (omega (
                  arith,
                  f,
                  less,
                  total-split rank s.workers xs ys p e',
                  total-append rank xs (p' ∷ ys),
                )) in
            (
              s'',
              subst (λ k. Works max_spare s k s'') (ap (λ l. l ++ t ∷ []) e3)
                  (next xs ys p p' e' e2 w),
            )
      ]

  -- If `_maxSpare` is not 0, then in every state that the threads can reach without a shutdown, if
  -- the queue has a first task, there are steps of the workers alone from this state, in which
  -- they take this task and no other.
  pub Reach-taken :
      {max_spare max_workers : ℕ} {given taken : List T} {s : State T} (t : T) (q : List T)
      → 0 < max_spare
      → Reach max_spare max_workers given taken s
      → s.is_shutdown ≡ false
      → s.queue ≡ t ∷ q
      → (s' : State T) × Works max_spare s (t ∷ []) s'
  Reach-taken {s} t q h r k e = taken_within (suc (total rank s.workers)) t q h r k e (omega arith)
