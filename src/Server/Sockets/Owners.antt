-- ===== src/Server/Sockets/Owners.antt =====
-- Who owns a client's descriptor: the thread in `run`, a task in the queue, or a handler.
use greylist.Base.{
  ℕ, ◌+◌, ◌≤◌, ◌<◌, ◌≡◌, refl, ap, inl, inr, Bool, true, false, some, List, [], ◌∷◌, ◌++◌, arith,
  ltb, Bool-cases, AllSome, AllSome-some, All,
}
use greylist.Server.Sockets.{
  Pc, opening, entered, serving, leaving, erasing, gone, Main, accepting, offering, refusing,
  stopping, sweeping, draining, waiting, returned, State, accept, fail, schedule, drain, main_step,
  begin, handler_step,
}
use greylist.Server.Sockets.Steps.{Step, accepts, fails, runs, begins, handles, Reach, start, later}
use greylist.Base.Totals.{
  total, total-append, total-split, is_same, occurrences, without, occurrences-without,
}

-- The places that are to close the descriptor.
abbrev pub main_holds : ℕ → Main → ℕ
main_holds a (offering fd) = is_same a fd
main_holds a (refusing fd) = is_same a fd
main_holds a _ = 0

abbrev pub holds : ℕ → Pc → ℕ
holds a (opening fd) = is_same a fd
holds a (entered fd inserted) = is_same a fd
holds a (serving fd inserted) = is_same a fd
holds a (leaving fd inserted) = is_same a fd
holds a _ = 0

abbrev pub owners : ℕ → State → ℕ
owners a s = main_holds a s.main + occurrences a s.queue + total (holds a) s.handlers

-- Each open descriptor has one owner, and only open ones have.
pub record IsOwned (s : State) : Type 0 where
  pub owned : (a : ℕ) → occurrences a s.descriptors ≡ owners a s
  pub single : (a : ℕ) → occurrences a s.descriptors ≤ 1

-- A step keeps the handlers, and what the descriptors have more than the thread and the queue.
Keeps : State → State → Type 0
Keeps s t =
    (t.handlers ≡ s.handlers)
    × ((a : ℕ) → occurrences a t.descriptors ≤ occurrences a s.descriptors)
    × ((a : ℕ)
        → occurrences a t.descriptors + (main_holds a s.main + occurrences a s.queue)
          ≡ occurrences a s.descriptors + (main_holds a t.main + occurrences a t.queue))

Keeps-IsOwned : (s t : State) → Keeps s t → IsOwned s → IsOwned t
unfolding Keeps
Keeps-IsOwned s t (same, less, k) o = record {
  owned = λ a. omega (arith, k a, o.owned a, ap (total (holds a)) same);
  single = λ a. omega (arith, less a, o.single a);
}

-- Closing a descriptor that is open.
closing :
    (fd : ℕ) (s : State)
    → 0 < occurrences fd s.descriptors
    → (a : ℕ)
    → occurrences a (without fd s.descriptors) + is_same a fd ≡ occurrences a s.descriptors
closing fd s h a = occurrences-without a fd s.descriptors h

schedule-Keeps :
    (test : Bool) (fd : ℕ) (s : State) → s.main ≡ offering fd → Keeps s (schedule test fd s)
unfolding schedule Keeps
schedule-Keeps true fd s e = (
  refl,
  (λ a. omega arith),
  (λ a. rw e (omega (arith, total-append (is_same a) s.queue (fd ∷ [])))),
)
schedule-Keeps false fd s e = (refl, (λ a. omega arith), (λ a. rw e refl))

main_step-Keeps :
    (test : Bool) (m : Main) (s : State)
    → s.main ≡ m
    → IsOwned s
    → AllSome (Keeps s) (main_step test m s)
unfolding main_step Keeps drain
main_step-Keeps test accepting s e o = tt
main_step-Keeps test (offering fd) s e o = schedule-Keeps test fd s e
main_step-Keeps test (refusing fd) s e o =
    let c = closing fd s (rw (o.owned fd, e) (ground arith)) in
    (refl, (λ a. omega (arith, c a)), (λ a. rw e (omega (arith, c a))))
main_step-Keeps test stopping s e o = (refl, (λ a. omega arith), (λ a. rw e refl))
main_step-Keeps test sweeping s e o = (refl, (λ a. omega arith), (λ a. rw e refl))
main_step-Keeps test draining s e o = elim (Bool-cases (ltb 0 s.busy)) [
  | inl h ↦ rw (h, drain) (refl, (λ a. omega arith), (λ a. refl))
  | inr h ↦ rw (h, drain) (refl, (λ a. omega arith), (λ a. rw e refl))
]
main_step-Keeps true waiting s e o = (refl, (λ a. omega arith), (λ a. rw e refl))
main_step-Keeps false waiting s e o = tt
main_step-Keeps test returned s e o = tt

-- A handler changes the descriptors by what it holds.
Moves : State → Pc → Pc × State → Type 0
Moves s p r =
    (r.1.main ≡ s.main)
    × (r.1.queue ≡ s.queue)
    × ((a : ℕ) → occurrences a r.1.descriptors ≤ occurrences a s.descriptors)
    × ((a : ℕ)
        → occurrences a r.1.descriptors + holds a p ≡ occurrences a s.descriptors + holds a r.0)

handler_step-Moves :
    (p : Pc) (s : State)
    → ((a : ℕ) → holds a p ≤ occurrences a s.descriptors)
    → AllSome (Moves s p) (handler_step p s)
unfolding handler_step Moves
handler_step-Moves (opening fd) s h = (refl, refl, (λ a. omega arith), (λ a. refl))
handler_step-Moves (entered fd i) s h = (refl, refl, (λ a. omega arith), (λ a. refl))
handler_step-Moves (serving fd i) s h = (refl, refl, (λ a. omega arith), (λ a. refl))
handler_step-Moves (leaving fd i) s h =
    let c = closing fd s (ground (arith, h fd)) in
    (refl, refl, (λ a. omega (arith, c a)), (λ a. omega (arith, c a)))
handler_step-Moves (erasing fd true) s h = (refl, refl, (λ a. omega arith), (λ a. refl))
handler_step-Moves (erasing fd false) s h = (refl, refl, (λ a. omega arith), (λ a. refl))
handler_step-Moves gone s h = tt

handles-IsOwned :
    (s s' : State) (xs ys : List Pc) (p p' : Pc)
    → s.handlers ≡ xs ++ p ∷ ys
    → handler_step p s ≡ some (p', s')
    → IsOwned s
    → IsOwned (record s' { handlers = xs ++ p' ∷ ys })
unfolding Moves
handles-IsOwned s s' xs ys p p' e e' o =
    let split = λ (a : ℕ). total-split (holds a) s.handlers xs ys p e in
    let (main_eq, queue_eq, less, k) =
      AllSome-some (Moves s p) e'
        (handler_step-Moves p s (λ a. omega (arith, split a, o.owned a))) in
    record {
      owned = λ a. omega (
        arith,
        k a,
        split a,
        o.owned a,
        total-append (holds a) xs (p' ∷ ys),
        ap (main_holds a) main_eq,
        ap (occurrences a) queue_eq,
      );
      single = λ a. omega (arith, less a, o.single a);
    }

accept-IsOwned :
    (fd : ℕ) (s : State)
    → s.main ≡ accepting
    → occurrences fd s.descriptors ≡ 0
    → IsOwned s
    → IsOwned (accept fd s)
unfolding accept
accept-IsOwned fd s e h o = record {
  owned = λ a. omega (arith, o.owned a, ap (main_holds a) e);
  single = λ a. ground (arith, o.single a, h);
}

begin-IsOwned :
    (fd : ℕ) (q : List ℕ) (s : State) → s.queue ≡ fd ∷ q → IsOwned s → IsOwned (begin fd q s)
unfolding begin
begin-IsOwned fd q s e o = record {
  owned = λ a.
      omega (
        arith,
        o.owned a,
        ap (occurrences a) e,
        total-append (holds a) s.handlers (opening fd ∷ []),
      );
  single = o.single;
}

Step-IsOwned : {s s' : State} → Step s s' → IsOwned s → IsOwned s'
unfolding fail
Step-IsOwned {s} (accepts fd e h) o = accept-IsOwned fd s e h o
Step-IsOwned {s} (fails e) o = record {
  owned = λ a. omega (arith, o.owned a, ap (main_holds a) e);
  single = o.single;
}
Step-IsOwned {s} (runs test {s'} e) o =
    Keeps-IsOwned s s' (AllSome-some (Keeps s) e (main_step-Keeps test s.main s refl o)) o
Step-IsOwned {s} (begins fd q e h) o = begin-IsOwned fd q s e o
Step-IsOwned {s} (handles xs ys p p' {s'} e e') o = handles-IsOwned s s' xs ys p p' e e' o

Reach-owners : {s : State} → Reach s → IsOwned s
Reach-owners start = record { owned = λ a. refl; single = λ a. omega arith }
Reach-owners (later r d) = Step-IsOwned d (Reach-owners r)

-- A client that the scheduler has refused: the next step of `run` is taken, and closes its descriptor,
-- which is open once.
abbrev pub ClosesRefused : State → Main → Type 0
ClosesRefused s (refusing fd) =
    (occurrences fd s.descriptors ≡ 1)
    × ((test : Bool)
        → (s' : State) × (main_step test (refusing fd) s ≡ some s')
          × (s'.main ≡ accepting)
          × (occurrences fd s'.descriptors ≡ 0))
ClosesRefused s _ = Unit

-- And the same of a handler that is behind its loop.
abbrev pub ClosesServed : State → Pc → Type 0
ClosesServed s (leaving fd inserted) =
    (occurrences fd s.descriptors ≡ 1)
    × (s' : State) × (handler_step (leaving fd inserted) s ≡ some (erasing fd inserted, s'))
    × (occurrences fd s'.descriptors ≡ 0)
ClosesServed s _ = Unit

-- Closing what is open once.
closed_once :
    (fd : ℕ) (s : State)
    → IsOwned s
    → 0 < occurrences fd s.descriptors
    → (occurrences fd s.descriptors ≡ 1) × (occurrences fd (without fd s.descriptors) ≡ 0)
closed_once fd s o h =
    (omega (arith, o.single fd, h), ground (arith, o.single fd, h, closing fd s h fd))

IsOwned-ClosesRefused : (s : State) (m : Main) → s.main ≡ m → IsOwned s → ClosesRefused s m
unfolding main_step
IsOwned-ClosesRefused s (refusing fd) e o =
    let (one, zero) = closed_once fd s o (rw (o.owned fd, e) (ground arith)) in
    (one, λ test. (_, refl, refl, zero))
IsOwned-ClosesRefused s accepting e o = tt
IsOwned-ClosesRefused s (offering fd) e o = tt
IsOwned-ClosesRefused s stopping e o = tt
IsOwned-ClosesRefused s sweeping e o = tt
IsOwned-ClosesRefused s draining e o = tt
IsOwned-ClosesRefused s waiting e o = tt
IsOwned-ClosesRefused s returned e o = tt

IsOwned-ClosesServed :
    (s : State) (p : Pc)
    → ((a : ℕ) → holds a p ≤ occurrences a s.descriptors)
    → IsOwned s
    → ClosesServed s p
unfolding handler_step
IsOwned-ClosesServed s (leaving fd inserted) h o =
    let (one, zero) = closed_once fd s o (ground (arith, h fd)) in (one, _, refl, zero)
IsOwned-ClosesServed s (opening fd) h o = tt
IsOwned-ClosesServed s (entered fd inserted) h o = tt
IsOwned-ClosesServed s (serving fd inserted) h o = tt
IsOwned-ClosesServed s (erasing fd inserted) h o = tt
IsOwned-ClosesServed s gone h o = tt

All-ClosesServed :
    (s : State) (ps : List Pc)
    → ((a : ℕ) → total (holds a) ps ≤ occurrences a s.descriptors)
    → IsOwned s
    → All (ClosesServed s) ps
All-ClosesServed s [] h o = tt
All-ClosesServed s (p ∷ ps) h o = (
  IsOwned-ClosesServed s p (λ a. omega (arith, h a)) o,
  All-ClosesServed s ps (λ a. omega (arith, h a)) o,
)

-- Whatever the interleaving of `run`, the scheduler's workers and the handlers, if `accept` never
-- returns a descriptor that is open: an open descriptor of a client has exactly one owner, which
-- is `run`, a task in the queue or a handler that has not closed it, and none of these has a
-- descriptor that is not open. If `run` has a client that the scheduler has refused, its
-- descriptor is open once, and the next step of `run` is taken, goes back to `accept` and leaves
-- the descriptor closed; and for every handler behind its loop, its descriptor is open once, and
-- its next step is taken and leaves the descriptor closed.
pub Reach-IsOwned :
    {s : State} → Reach s → IsOwned s × ClosesRefused s s.main × All (ClosesServed s) s.handlers
Reach-IsOwned {s} r =
    let o = Reach-owners r in
    (
      o,
      IsOwned-ClosesRefused s s.main refl o,
      All-ClosesServed s s.handlers (λ a. omega (arith, o.owned a)) o,
    )
