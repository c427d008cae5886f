-- ===== src/Scheduler/Limit.antt =====
-- How many workers `schedule` may start before one of them is counted.
use greylist.Base.{
  ap, ℕ, zero, suc, ◌+◌, ◌<◌, ◌≡◌, List, [], ◌∷◌, ◌++◌, some, refl, arith, false, leb,
  if◌then◌else◌,
}
use greylist.Scheduler.{
  Pc, State, starting, Client, idle, counted, admitted, client_step, client_move, submit, spawn,
}
use greylist.Scheduler.Steps.{Reach, serve, begin, start, later}
use greylist.Scheduler.Counters.{in_life}
use greylist.Base.Totals.{total, total-append}

refused : (max_workers : ℕ) → 0 < max_workers → leb max_workers (0 + 0) ≡ false
refused max_workers h = ground arith

module _ {T : Type 0} where
  -- No worker has been counted yet.
  uncounted : Client T → List T → List (Pc T) → State T
  uncounted c q ws = record {
    queue = q;
    active = 0;
    waiting = 0;
    is_shutdown = false;
    client = c;
    workers = ws;
  }

  admit :
      (max_workers : ℕ) (t : T) (q : List T) (ws : List (Pc T))
      → 0 < max_workers
      → client_step max_workers (uncounted (counted t 0) q ws) ≡ some (uncounted (admitted t) q ws)
  unfolding client_step client_move uncounted
  admit max_workers t q ws h =
      ap (λ b. some (uncounted (if b then idle else admitted t) q ws)) (refused max_workers h)

  schedule_once :
      {max_spare max_workers : ℕ} {given taken : List T} (t : T) (q : List T) (ws : List (Pc T))
      → 0 < max_workers
      → Reach max_spare max_workers given taken (uncounted idle q ws)
      → (given' : List T) × (taken' : List T) × Reach max_spare max_workers given' taken'
          (uncounted idle (q ++ t ∷ []) (ws ++ starting ∷ []))
  unfolding submit client_step client_move spawn uncounted
  schedule_once {max_workers} t q ws h r =
      let r1 = later r (begin t refl) in
      let r2 = later r1 (serve (admit max_workers t q ws h)) in
      let r3 = later r2 (serve refl) in (_, _, later r3 (serve refl))

  crowd :
      (max_spare max_workers n : ℕ) (t : T)
      → 0 < max_workers
      → (given taken q : List T) × (ws : List (Pc T)) × Reach max_spare max_workers given taken
          (uncounted idle q ws)
        × (total in_life ws ≡ n)
  unfolding uncounted
  crowd max_spare max_workers zero t h = ([], [], [], [], start, refl)
  crowd max_spare max_workers (suc n) t h =
      let (given, taken, q, ws, r, e) = crowd max_spare max_workers n t h in
      let (given', taken', r') = schedule_once t q ws h r in
      (
        given',
        taken',
        q ++ t ∷ [],
        ws ++ starting ∷ [],
        r',
        omega (arith, e, total-append in_life ws (starting ∷ [])),
      )

  -- If `_maxWorkers` is not 0, then for every number there is a state, which the threads can
  -- reach, with as many workers, so that `_maxWorkers` is no bound on them.
  pub Reach-crowded :
      (max_spare max_workers n : ℕ) (t : T)
      → 0 < max_workers
      → (given taken : List T) × (s : State T) × Reach max_spare max_workers given taken s
        × (total in_life s.workers ≡ n)
  unfolding uncounted
  Reach-crowded max_spare max_workers n t h =
      let (given, taken, q, ws, r, e) = crowd max_spare max_workers n t h in
      (given, taken, uncounted idle q ws, r, e)
