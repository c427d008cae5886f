-- ===== src/Server/Sockets/Registry.antt =====
-- What `_busyHandlers` counts, and which handlers `_sockets` names.
use greylist.Base.{
  ℕ, ◌+◌, ◌≤◌, ◌<◌, ◌≡◌, refl, sym, ap, ◌∙◌, subst, inl, inr, Bool, true, false, not, some, List,
  [], ◌∷◌, ◌++◌, map, arith, if◌then◌else◌, ltb, Bool-cases, is_some, AllSome, AllSome-some,
  some-injective,
}
use greylist.Server.Sockets.{
  Pc, opening, entered, serving, leaving, erasing, gone, Main, accepting, offering, refusing,
  stopping, sweeping, draining, waiting, returned, State, accept, fail, schedule, drain, main_step,
  begin, handler_step,
}
use greylist.Server.Sockets.Steps.{Step, accepts, fails, runs, begins, handles, Reach, start, later}
use greylist.Base.Totals.{total, total-append, total-split, is_same, occurrences}
use greylist.Base.OrdMap.{
  OrdMap, insert, find, erase, nat_key, find-insert, find-erase, insert-Unique, Unique-erase,
  Unique,
}

abbrev pub in_busy : Pc → ℕ
in_busy (serving fd inserted) = 1
in_busy _ = 0

-- The handler has put its descriptor into `_sockets` and not taken it out.
abbrev pub if_inserted : ℕ → ℕ → Bool → ℕ
if_inserted a fd inserted = if inserted then is_same a fd else 0

abbrev pub registers : ℕ → Pc → ℕ
registers a (entered fd inserted) = if_inserted a fd inserted
registers a (serving fd inserted) = if_inserted a fd inserted
registers a (leaving fd inserted) = if_inserted a fd inserted
registers a (erasing fd inserted) = if_inserted a fd inserted
registers a _ = 0

-- 1 for a descriptor that `_sockets` has.
abbrev pub listed : ℕ → State → ℕ
listed a s = if is_some (find a s.sockets) then 1 else 0

pub record IsRegistered (s : State) : Type 0 where
  pub busy_eq : s.busy ≡ total in_busy s.handlers
  pub listed_eq : (a : ℕ) → listed a s ≡ total (registers a) s.handlers
  pub unique : Unique s.sockets

-- A step changes nothing of this.
Keeps : State → State → Type 0
Keeps s t = (t.busy ≡ s.busy) × (t.sockets ≡ s.sockets) × (t.handlers ≡ s.handlers)

main_step-Keeps : (test : Bool) (m : Main) (s : State) → AllSome (Keeps s) (main_step test m s)
unfolding main_step Keeps drain schedule
main_step-Keeps test accepting s = tt
main_step-Keeps true (offering fd) s = (refl, refl, refl)
main_step-Keeps false (offering fd) s = (refl, refl, refl)
main_step-Keeps test (refusing fd) s = (refl, refl, refl)
main_step-Keeps test stopping s = (refl, refl, refl)
main_step-Keeps test sweeping s = (refl, refl, refl)
main_step-Keeps test draining s = elim (Bool-cases (ltb 0 s.busy)) [
  | inl h ↦ rw (h, drain) (refl, refl, refl)
  | inr h ↦ rw (h, drain) (refl, refl, refl)
]
main_step-Keeps true waiting s = (refl, refl, refl)
main_step-Keeps false waiting s = tt
main_step-Keeps test returned s = tt

Keeps-IsRegistered : (s t : State) → Keeps s t → IsRegistered s → IsRegistered t
unfolding Keeps
Keeps-IsRegistered s t (b, k, h) r = record {
  busy_eq = b ∙ r.busy_eq ∙ sym (ap (total in_busy) h);
  listed_eq = λ a. rw (k, h) (r.listed_eq a);
  unique = subst Unique (sym k) r.unique;
}

-- A handler changes both by what it counts for.
Moves : State → Pc → Pc × State → Type 0
Moves s p r =
    (r.1.busy + in_busy p ≡ s.busy + in_busy r.0)
    × ((a : ℕ) → listed a r.1 + registers a p ≡ listed a s + registers a r.0)
    × Unique r.1.sockets

opening-Moves :
    (fd : ℕ) (s : State) (a : ℕ)
    → (if is_some (find a (insert fd true s.sockets)) then 1 else 0)
      ≡ listed a s + if_inserted a fd (not (is_some (find fd s.sockets)))
opening-Moves fd s a = ground (arith, find-insert a fd true s.sockets)

erasing-Moves :
    (fd : ℕ) (s : State)
    → Unique s.sockets
    → 0 < listed fd s
    → (a : ℕ) → (if is_some (find a (erase fd s.sockets)) then 1 else 0) + is_same a fd ≡ listed a s
erasing-Moves fd s u h a = ground (arith, find-erase a fd s.sockets u)

handler_step-Moves :
    (p : Pc) (s : State)
    → in_busy p ≤ s.busy
    → ((a : ℕ) → registers a p ≤ listed a s)
    → Unique s.sockets
    → AllSome (Moves s p) (handler_step p s)
unfolding handler_step Moves
handler_step-Moves (opening fd) s b h u =
    (refl, (λ a. omega (arith, opening-Moves fd s a)), insert-Unique fd true s.sockets u)
handler_step-Moves (entered fd i) s b h u = (omega arith, (λ a. refl), u)
handler_step-Moves (serving fd i) s b h u = (omega arith, (λ a. refl), u)
handler_step-Moves (leaving fd i) s b h u = (refl, (λ a. refl), u)
handler_step-Moves (erasing fd true) s b h u =
    let e = erasing-Moves fd s u (ground (arith, h fd)) in
    (refl, (λ a. omega (arith, e a)), Unique-erase fd s.sockets u)
handler_step-Moves (erasing fd false) s b h u = (refl, (λ a. refl), u)
handler_step-Moves gone s b h u = tt

handles-IsRegistered :
    (s s' : State) (xs ys : List Pc) (p p' : Pc)
    → s.handlers ≡ xs ++ p ∷ ys
    → handler_step p s ≡ some (p', s')
    → IsRegistered s
    → IsRegistered (record s' { handlers = xs ++ p' ∷ ys })
unfolding Moves
handles-IsRegistered s s' xs ys p p' e e' r =
    let split = λ (a : ℕ). total-split (registers a) s.handlers xs ys p e in
    let counted = total-split in_busy s.handlers xs ys p e in
    let (b, k, u) = AllSome-some (Moves s p) e' (
      handler_step-Moves p s (omega (arith, counted, r.busy_eq))
        (λ a. omega (arith, split a, r.listed_eq a)) r.unique) in
    record {
      busy_eq = omega (arith, b, counted, r.busy_eq, total-append in_busy xs (p' ∷ ys));
      listed_eq =
          λ a. omega (arith, k a, split a, r.listed_eq a, total-append (registers a) xs (p' ∷ ys));
      unique = u;
    }

Step-IsRegistered : {s s' : State} → Step s s' → IsRegistered s → IsRegistered s'
unfolding fail accept begin
Step-IsRegistered {s} (accepts fd e h) r = record {
  busy_eq = r.busy_eq;
  listed_eq = r.listed_eq;
  unique = r.unique;
}
Step-IsRegistered {s} (fails e) r = record {
  busy_eq = r.busy_eq;
  listed_eq = r.listed_eq;
  unique = r.unique;
}
Step-IsRegistered {s} (runs test {s'} e) r =
    Keeps-IsRegistered s s' (AllSome-some (Keeps s) e (main_step-Keeps test s.main s)) r
Step-IsRegistered {s} (begins fd q e h) r = record {
  busy_eq = omega (arith, r.busy_eq, total-append in_busy s.handlers (opening fd ∷ []));
  listed_eq =
      λ a. omega (arith, r.listed_eq a, total-append (registers a) s.handlers (opening fd ∷ []));
  unique = r.unique;
}
Step-IsRegistered {s} (handles xs ys p p' {s'} e e') r = handles-IsRegistered s s' xs ys p p' e e' r

-- In every state that the threads can reach, `_busyHandlers` is the number of handlers in their
-- loop, and `_sockets` has each descriptor once, and has it if and only if there is one handler,
-- and then only one, whose `SocketWrapper` has inserted it and not erased it yet.
pub Reach-IsRegistered : {s : State} → Reach s → IsRegistered s
unfolding find
Reach-IsRegistered start = record { busy_eq = refl; listed_eq = λ a. refl; unique = tt }
Reach-IsRegistered (later r d) = Step-IsRegistered d (Reach-IsRegistered r)

listed-occurrences :
    (a : ℕ) (m : OrdMap ℕ Bool)
    → (if is_some (find a m) then 1 else 0) ≤ occurrences a (map (λ p. p.0) m)
unfolding find
listed-occurrences a [] = omega arith
listed-occurrences a ((b, v) ∷ m) = ground (arith, listed-occurrences a m)

-- In every state that the threads can reach, if `run` is to shut the sockets down, its step calls
-- `shutdownSocket` with the descriptor of every handler whose `SocketWrapper` has inserted it and
-- not erased it.
pub Reach-sweep :
    {s s' : State} (test : Bool) (xs ys : List Pc) (p : Pc) (a : ℕ)
    → Reach s
    → s.main ≡ sweeping
    → main_step test s.main s ≡ some s'
    → s.handlers ≡ xs ++ p ∷ ys
    → registers a p ≡ 1
    → 0 < occurrences a s'.shut
unfolding main_step
Reach-sweep {s} {s'} test xs ys p a r e e' h k =
    let t = total-split (registers a) s.handlers xs ys p h in
    let l = listed-occurrences a s.sockets in
    let ap_shut = total-append (is_same a) s.shut (map (λ p. p.0) s.sockets) in
    let q = (Reach-IsRegistered r).listed_eq a in
    subst (λ (t : State). 0 < occurrences a t.shut) (some-injective (rw e at e'))
      (omega (arith, t, l, ap_shut, q, k))
