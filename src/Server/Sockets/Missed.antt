-- ===== src/Server/Sockets/Missed.antt =====
-- `~SocketReader` runs before `~SocketWrapper`: between them, the kernel may give the descriptor to
-- a new client while `_sockets` still names the old one.
use greylist.Base.{ℕ, ◌≡◌, refl, Bool, true, false, some, List, [], ◌∷◌, ◌++◌, arith, ◌==◌}
use greylist.Server.Sockets.{
  Pc, opening, entered, serving, leaving, erasing, gone, draining, State, init, accept, fail,
  schedule, drain, main_step, begin, handler_step,
}
use greylist.Server.Sockets.Steps.{accepts, fails, runs, begins, handles, Reach, start, later}
use greylist.Base.OrdMap.{OrdMap, insert, find, erase, nat_key, place}

same_eq : (a : ℕ) → (a == a) ≡ true
same_eq a = ground arith

-- The first handler has closed its descriptor.
abbrev closed : ℕ → State
closed fd = record init { sockets = (fd, true) ∷ []; handlers = erasing fd true ∷ [] }

-- The client's task is in the queue, with these handlers and sockets.
abbrev queued : ℕ → OrdMap ℕ Bool → List Pc → State
queued fd sockets handlers = record init {
  descriptors = fd ∷ [];
  sockets = sockets;
  queue = fd ∷ [];
  handlers = handlers;
}

abbrev idle : OrdMap ℕ Bool → List Pc → State
idle sockets handlers = record init { sockets = sockets; handlers = handlers }

idle-queued :
    (fd : ℕ) (sockets : OrdMap ℕ Bool) (handlers : List Pc)
    → Reach (idle sockets handlers)
    → Reach (queued fd sockets handlers)
unfolding accept main_step schedule
idle-queued fd sockets handlers r = later (later r (accepts fd refl refl)) (runs true refl)

queued-begun :
    (fd : ℕ) (sockets : OrdMap ℕ Bool) (handlers : List Pc)
    → Reach (queued fd sockets handlers)
    → Reach
        (record (queued fd sockets handlers) { queue = []; handlers = handlers ++ opening fd ∷ [] })
unfolding begin
queued-begun fd sockets handlers r = later r (begins fd [] refl refl)

begun :
    (fd : ℕ) (sockets : OrdMap ℕ Bool) (handlers : List Pc)
    → Reach (idle sockets handlers)
    → Reach
        (record (queued fd sockets handlers) { queue = []; handlers = handlers ++ opening fd ∷ [] })
begun fd sockets handlers r = queued-begun fd sockets handlers (idle-queued fd sockets handlers r)

closed-Reach : (fd : ℕ) → Reach (closed fd)
unfolding handler_step insert place find
closed-Reach fd =
    let r1 = begun fd [] [] start in
    let r2 = later r1 (handles [] [] (opening fd) (entered fd true) refl refl) in
    let r3 = later r2 (handles [] [] (entered fd true) (serving fd true) refl refl) in
    let r4 = later r3 (handles [] [] (serving fd true) (leaving fd true) refl refl) in
    later r4 (
      handles [] [] (leaving fd true) (erasing fd true)
        {s' = record init { sockets = (fd, true) ∷ []; handlers = leaving fd true ∷ [] }} refl
        (ground (arith, same_eq fd)))

-- The second client is served, is in no table, and `run` waits for it.
abbrev missed : ℕ → State
missed fd = record init {
  descriptors = fd ∷ [];
  busy = 1;
  is_shutdown = true;
  main = draining;
  handlers = gone ∷ serving fd false ∷ [];
}

missed-Reach : (fd : ℕ) → Reach (missed fd)
unfolding handler_step insert find erase main_step fail
missed-Reach fd =
    let b = record (queued fd ((fd, true) ∷ []) []) {
      queue = [];
      handlers = erasing fd true ∷ opening fd ∷ [];
    } in
    let r1 = begun fd ((fd, true) ∷ []) (erasing fd true ∷ []) (closed-Reach fd) in
    let r2 = later r1 (
      handles (erasing fd true ∷ []) [] (opening fd) (entered fd false) {s' = b} refl
        (ground (arith, same_eq fd))) in
    let r3 = later r2 (
      handles [] (entered fd false ∷ []) (erasing fd true) gone
        {s' = record b { sockets = []; handlers = erasing fd true ∷ entered fd false ∷ [] }} refl
        (ground (arith, same_eq fd))) in
    let r4 = later r3 (handles (gone ∷ []) [] (entered fd false) (serving fd false) refl refl) in
    later (later (later r4 (fails refl)) (runs true refl)) (runs true refl)

-- For every descriptor, the threads can reach a state where a handler serves a client on it, no
-- socket was shut down, and `run` is behind the shutdown of the sockets and stays in its loop on
-- `_busyHandlers`: the handler's descriptor was given to a new client while `_sockets` still had
-- it for the old one.
pub Reach-missed :
    (fd : ℕ)
    → (s : State) × Reach s
      × (s.handlers ≡ gone ∷ serving fd false ∷ [])
      × (s.shut ≡ [])
      × (s.main ≡ draining)
      × ((test : Bool) → main_step test s.main s ≡ some s)
unfolding main_step drain
Reach-missed fd = (missed fd, missed-Reach fd, refl, refl, refl, (λ test. refl))
