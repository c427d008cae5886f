-- ===== src/Server/Sockets/Steps.antt =====
-- The threads of Server.Sockets, interleaved in any order.
use greylist.Base.{ℕ, ◌≡◌, Bool, false, some, List, ◌∷◌, ◌++◌}
use greylist.Server.Sockets.{
  Pc, accepting, State, init, accept, fail, main_step, begin, handler_step,
}
use greylist.Base.Totals.{occurrences}

pub data Step (s : State) : State → Type 0 where
  -- The kernel returns a descriptor that is not open.
  accepts : (fd : ℕ) → s.main ≡ accepting → occurrences fd s.descriptors ≡ 0 → Step s (accept fd s)
  fails : s.main ≡ accepting → Step s (fail s)
  runs : (test : Bool) {s' : State} → main_step test s.main s ≡ some s' → Step s s'
  begins : (fd : ℕ) (q : List ℕ) → s.queue ≡ fd ∷ q → s.is_shutdown ≡ false → Step s (begin fd q s)
  handles :
      (xs ys : List Pc) (p p' : Pc) {s' : State}
      → s.handlers ≡ xs ++ p ∷ ys
      → handler_step p s ≡ some (p', s')
      → Step s (record s' { handlers = xs ++ p' ∷ ys })

pub data Reach : State → Type 0 where
  start : Reach init
  later : {s s' : State} → Reach s → Step s s' → Reach s'
