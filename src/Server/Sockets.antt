-- ===== src/Server/Sockets.antt =====
-- The threads of src/server.h around the sockets of the clients: `run`, and the handlers with their
-- `SocketWrapper` and `SocketReader`. A program counter stands where the next access to something
-- shared is; the rounds of a handler, which are Server.Handle, are one place of it.
pub mod Steps
pub mod Owners
pub mod Registry
pub mod Missed
use greylist.Base.{
  ℕ, zero, suc, ◌+◌, ◌-◌, ◌%◌, ◌/◌, ◌*◌, ◌≤◌, ◌<◌, ◌≡◌, refl, sym, ap, ◌∙◌, subst, ◌≢◌, ◌⊎◌, inl,
  inr, Bool, true, false, not, ◌&&◌, ◌||◌, Option, none, some, List, [], ◌∷◌, ◌++◌, map, arith,
  if◌then◌else◌, ◌==◌, ==_iff, ltb, leb, Bool-cases, Option-cases, is_some, is_empty, Bytes, codes,
  Result, ok, err, length, AllSome, AllSome-some, some-injective,
}
use greylist.Base.OrdMap.{OrdMap, insert, find, erase, nat_key}
use greylist.Base.Totals.{without}

-- A handler and its `clientfd`: before the constructor of the `SocketWrapper`; with `_inserted`,
-- before `++_busyHandlers`, in the loop, before `~SocketReader` and before `~SocketWrapper`, which
-- run in this order; and behind.
pub data Pc : Type 0 where
  opening : ℕ → Pc
  entered : ℕ → Bool → Pc
  serving : ℕ → Bool → Pc
  leaving : ℕ → Bool → Pc
  erasing : ℕ → Bool → Pc
  gone : Pc

-- `run`: at `accept`, with a descriptor before `schedule` and before `close`; before the shutdown of
-- the scheduler, before that of the sockets, in the loop on `_busyHandlers`, in `_scheduler.wait()`,
-- and behind.
pub data Main : Type 0 where
  accepting : Main
  offering : ℕ → Main
  refusing : ℕ → Main
  stopping : Main
  sweeping : Main
  draining : Main
  waiting : Main
  returned : Main

-- The fields that these threads share; the tasks of the scheduler, which are descriptors; the clients'
-- descriptors that are open in the kernel; and those that `shutdownSocket` was called with.
pub record State : Type 0 where
  pub descriptors : List ℕ
  pub sockets : OrdMap ℕ Bool
  pub busy : ℕ
  pub queue : List ℕ
  pub is_shutdown : Bool
  pub main : Main
  pub handlers : List Pc
  pub shut : List ℕ

-- The constructor, and the start of `run`.
abbrev pub init : State
init = record {
  descriptors = [];
  sockets = [];
  busy = 0;
  queue = [];
  is_shutdown = false;
  main = accepting;
  handlers = [];
  shut = [];
}

-- `accept` returns a descriptor, which the kernel has opened, or fails.
unfoldable pub accept : ℕ → State → State
accept fd s = record s { descriptors = fd ∷ s.descriptors; main = offering fd }

unfoldable pub fail : State → State
fail s = record s { main = stopping }

-- The scheduler takes the task, or refuses it.
unfoldable pub schedule : Bool → ℕ → State → State
schedule true fd s = record s { queue = s.queue ++ fd ∷ []; main = accepting }
schedule false fd s = record s { main = refusing fd }

-- The loop on `_busyHandlers`.
unfoldable pub drain : State → State
drain s = if ltb 0 s.busy then s else record s { main = waiting }

-- The next step of `run` behind `accept`; the test is the scheduler's answer to `schedule`, and
-- whether `_scheduler.wait()` ends.
unfoldable pub main_step : Bool → Main → State → Option State
unfolding schedule drain
main_step test accepting s = none
main_step test (offering fd) s = some (schedule test fd s)
main_step test (refusing fd) s =
    some (record s { descriptors = without fd s.descriptors; main = accepting })
main_step test stopping s = some (record s { is_shutdown = true; main = sweeping })
main_step test sweeping s =
    some (record s { shut = s.shut ++ map (λ p. p.0) s.sockets; main = draining })
main_step test draining s = some (drain s)
main_step test waiting s = if test then some (record s { main = returned }) else none
main_step test returned s = none

-- A worker of the scheduler takes a task from the queue and calls `handle`.
unfoldable pub begin : ℕ → List ℕ → State → State
begin fd q s = record s { queue = q; handlers = s.handlers ++ opening fd ∷ [] }

-- The next step of a handler.
unfoldable pub handler_step : Pc → State → Option (Pc × State)
unfolding insert find erase
handler_step (opening fd) s = some (
  entered fd (not (is_some (find fd s.sockets))),
  record s { sockets = insert fd true s.sockets },
)
handler_step (entered fd inserted) s = some (serving fd inserted, record s { busy = s.busy + 1 })
handler_step (serving fd inserted) s = some (leaving fd inserted, record s { busy = s.busy - 1 })
handler_step (leaving fd inserted) s =
    some (erasing fd inserted, record s { descriptors = without fd s.descriptors })
handler_step (erasing fd true) s = some (gone, record s { sockets = erase fd s.sockets })
handler_step (erasing fd false) s = some (gone, s)
handler_step gone s = none
