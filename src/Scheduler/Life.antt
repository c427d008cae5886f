-- ===== src/Scheduler/Life.antt =====
-- The workers that are left while there is something to do.
use greylist.Base.{
  if◌then◌else◌, ◌∙◌, sym, true, false, Bool, ℕ, ◌+◌, ◌≤◌, ◌<◌, ◌≡◌, ◌⊎◌, List, [], ◌∷◌, ◌++◌, some,
  refl, arith, AllSome, AllSome-some, Bool-cases, inl, inr, ◌==◌, ◌||◌, not, is_empty, leb,
}
use greylist.Scheduler.{
  Pc, State, Client, starting, blocked, holding, between, working, deciding, ended, idle, counted,
  admitted, pushing, worker_step, take_front, client_move, client_step, spawn, submit, shutdown,
}
use greylist.Scheduler.Steps.{Step, Reach, work, serve, begin, stop, start, later}
use greylist.Scheduler.Counters.{in_waiting, in_life, IsCounted, Reach-IsCounted}
use greylist.Base.Totals.{total, total-append, total-split, total_mono}

module _ {T : Type 0} where
  -- A task waits in the queue or is about to be put there.
  abbrev pub is_pushing : Client T → Bool
  is_pushing (pushing t) = true
  is_pushing _ = false

  abbrev pub is_pending : List T → Client T → Bool
  is_pending q c = not (is_empty q) || is_pushing c

  pub record IsServed (s : State T) : Type 0 where
    pub served :
        s.is_shutdown ≡ false → is_pending s.queue s.client ≡ true → 0 < total in_life s.workers

  -- Without a shutdown a worker ends only while another one waits.
  Stays : State T → List T → Pc T → Pc T × State T → Type 0
  Stays s q p r =
      (r.1.is_shutdown ≡ s.is_shutdown)
      × (is_pending r.1.queue r.1.client ≡ true → is_pending q s.client ≡ true)
      × (s.is_shutdown ≡ false → (in_life p ≤ in_life r.0) ⊎ ((in_waiting p ≡ 0) × (0 < s.waiting)))

  take_front-Stays : (q : List T) (s : State T) → AllSome (Stays s q blocked) (take_front q s)
  unfolding take_front Stays
  take_front-Stays [] s = tt
  take_front-Stays (t ∷ q) s = (refl, (λ h. refl), (λ h. inl (omega arith)))

  deciding-stays :
      (max_spare : ℕ) (s : State T)
      → 0 < max_spare
      → s.is_shutdown ≡ false
      → (in_life {T = T} deciding
          ≤ in_life {T = T} (if leb max_spare s.waiting || s.is_shutdown then ended else starting))
        ⊎ ((in_waiting {T = T} deciding ≡ 0) × (0 < s.waiting))
  deciding-stays m s h k = elim (Bool-cases (leb m s.waiting)) [
    | inl e ↦ inr (refl, ground arith)
    | inr e ↦ inl (rw (e, k) (omega arith))
  ]

  worker_step-Stays :
      (max_spare : ℕ) (p : Pc T) (s : State T)
      → 0 < max_spare
      → AllSome (Stays s s.queue p) (worker_step max_spare p s)
  unfolding worker_step Stays
  worker_step-Stays m starting s h = (refl, (λ k. k), (λ k. inl (omega arith)))
  worker_step-Stays m blocked s h = elim (Bool-cases s.is_shutdown) [
    | inl e ↦ rw (e, worker_step) (refl, (λ k. k), (λ k. absurd (cc k)))
    | inr e ↦ rw (e, worker_step) (take_front-Stays s.queue _)
  ]
  worker_step-Stays m (holding t) s h = (refl, (λ k. k), (λ k. inl (omega arith)))
  worker_step-Stays m (between t) s h = (refl, (λ k. k), (λ k. inl (omega arith)))
  worker_step-Stays m (working t) s h = (refl, (λ k. k), (λ k. inl (omega arith)))
  worker_step-Stays m deciding s h = (refl, (λ k. k), (λ k. deciding-stays m s h k))
  worker_step-Stays m ended s h = tt

  in_waiting-in_life : (p : Pc T) → in_waiting p ≤ in_life p
  in_waiting-in_life starting = omega arith
  in_waiting-in_life blocked = omega arith
  in_waiting-in_life (holding t) = omega arith
  in_waiting-in_life (between t) = omega arith
  in_waiting-in_life (working t) = omega arith
  in_waiting-in_life deciding = omega arith
  in_waiting-in_life ended = omega arith

  work-IsServed :
      (max_spare : ℕ) (s s' : State T) (xs ys : List (Pc T)) (p p' : Pc T)
      → 0 < max_spare
      → s.workers ≡ xs ++ p ∷ ys
      → worker_step max_spare p s ≡ some (p', s')
      → IsCounted s
      → IsServed s
      → IsServed (record s' { workers = xs ++ p' ∷ ys })
  unfolding Stays
  work-IsServed m s s' xs ys p p' h e e' c v =
      let (same, back, stays) = AllSome-some (Stays s s.queue p) e' (worker_step-Stays m p s h) in
      let w = total-split in_waiting s.workers xs ys p e in
      let l = total-split in_life s.workers xs ys p e in
      let l' = total-append in_life xs (p' ∷ ys) in
      let mx = total_mono in_waiting in_life xs in_waiting-in_life in
      let my = total_mono in_waiting in_life ys in_waiting-in_life in
      record {
        served = λ k pend.
            let before = v.served (sym same ∙ k) (back pend) in
            elim (stays (sym same ∙ k)) [
              | inl o ↦ omega (arith, before, l, l', o)
              | inr (z, o) ↦ omega (arith, l', w, c.waiting_eq, z, o, mx, my)
            ];
      }

  spawn-life : (s : State T) → IsCounted s → 0 < total in_life (spawn s).workers
  unfolding spawn
  spawn-life s c = elim (Bool-cases (s.waiting == 0 || not (is_empty s.queue))) [
    | inl e ↦ rw (e, spawn) (omega (arith, total-append in_life s.workers (starting ∷ [])))
    | inr e ↦
        rw (e, spawn)
          (ground
            (arith, c.waiting_eq, total_mono in_waiting in_life s.workers in_waiting-in_life, e))
  ]

  client_move-IsServed :
      (max_workers : ℕ) (c : Client T) (s : State T)
      → s.client ≡ c
      → IsCounted s
      → IsServed s
      → AllSome IsServed (client_move max_workers c s)
  unfolding client_move
  client_move-IsServed m idle s e c v = tt
  client_move-IsServed m (counted t n) s e c v = record {
    served = λ k pend. v.served k (
        rw e (elim (Bool-cases (leb m (n + s.active))) [
          | inl h ↦ (rw h at pend)
          | inr h ↦ (rw h at pend)
        ]));
  }
  client_move-IsServed m (admitted t) s e c v = record { served = λ k pend. spawn-life s c }
  client_move-IsServed m (pushing t) s e c v = record {
    served = λ k pend. v.served k (rw e (ground arith));
  }

  submit-IsServed : (t : T) (s : State T) → s.client ≡ idle → IsServed s → IsServed (submit t s)
  unfolding submit
  submit-IsServed t s e v = elim (Bool-cases s.is_shutdown) [
    | inl h ↦ rw (h, submit) (record { served = λ k pend. absurd (cc k) })
    | inr h ↦ rw (h, submit) (record { served = λ k pend. v.served h (rw e pend) })
  ]

  Step-IsServed :
      {max_spare max_workers : ℕ} {s s' : State T} {given taken : List T}
      → 0 < max_spare
      → Step max_spare max_workers s given taken s'
      → IsCounted s
      → IsServed s
      → IsServed s'
  unfolding client_step shutdown
  Step-IsServed {max_spare} {s} h (work xs ys p p' {s'} e e') c v =
      work-IsServed max_spare s s' xs ys p p' h e e' c v
  Step-IsServed {max_workers} {s} h (serve e) c v =
      AllSome-some IsServed e (client_move-IsServed max_workers s.client s refl c v)
  Step-IsServed {s} h (begin t e) c v = submit-IsServed t s e v
  Step-IsServed h (stop e) c v = record { served = λ k pend. absurd (cc k) }

  pub Reach-IsServed :
      {max_spare max_workers : ℕ} {given taken : List T} {s : State T}
      → 0 < max_spare
      → Reach max_spare max_workers given taken s
      → IsServed s
  Reach-IsServed h start = record { served = λ k pend. absurd (cc pend) }
  Reach-IsServed h (later r d) = Step-IsServed h d (Reach-IsCounted r) (Reach-IsServed h r)
