-- ===== src/Core/Chain.antt =====
-- The chain against a description of its runs.
use greylist.Base.{
  ◌∙◌, ◌≡◌, ◌≢◌, ◌↔◌, subst, refl, Bool, true, false, List, [], ◌∷◌, Result, ok, err, arith, Bytes,
}
use greylist.Core.{
  ActionType, dunno, defer, cont, error, Module, process, after_match, after_decide,
}

module _ {S : Type 0} where
  -- The module lets the state pass on, changed to `t`: no match, or a decision to continue.
  pub data Passes (m : Module S) (s t : S) : Type 0 where
    no_match : m.match s ≡ (ok false, t) → Passes m s t
    continues : (u : S) → m.match s ≡ (ok true, u) → m.decide u ≡ (ok cont, t) → Passes m s t

  -- The module ends the run, with this result.
  pub data Ends (m : Module S) (s : S) (r : Result ActionType) (t : S) : Type 0 where
    decides :
        (u : S) (a : ActionType)
        → m.match s ≡ (ok true, u)
        → m.decide u ≡ (ok a, t)
        → a ≢ cont
        → r ≡ ok a
        → Ends m s r t
    match_throws : (e : Bytes) → m.match s ≡ (err e, t) → r ≡ err e → Ends m s r t
    decide_throws :
        (u : S) (e : Bytes)
        → m.match s ≡ (ok true, u)
        → m.decide u ≡ (err e, t)
        → r ≡ err e
        → Ends m s r t

  -- A run goes past modules that let it pass, to one that ends it or to the end of the chain.
  pub data Run (r : Result ActionType) (t : S) : List (Module S) → S → Type 0 where
    through : {s : S} → r ≡ ok dunno → t ≡ s → Run r t [] s
    past :
        {m : Module S} {chain : List (Module S)} {s : S} (u : S)
        → Passes m s u
        → Run r t chain u
        → Run r t (m ∷ chain) s
    ended : {m : Module S} {chain : List (Module S)} {s : S} → Ends m s r t → Run r t (m ∷ chain) s

  process-Run-cases :
      (m : Module S) (chain : List (Module S)) (s : S)
      → ((u : S) → Run (process chain u).0 (process chain u).1 chain u)
      → Run (process (m ∷ chain) s).0 (process (m ∷ chain) s).1 (m ∷ chain) s
  unfolding process
  process-Run-cases m chain s ih = matched (m.match s) refl
    where
      decided :
          (u : S) (r : Result ActionType × S)
          → m.match s ≡ (ok true, u)
          → m.decide u ≡ r
          → Run (after_decide (process chain) r).0 (after_decide (process chain) r).1 (m ∷ chain) s
      decided u (ok cont, t) p e = past t (continues u p e) (ih t)
      decided u (ok dunno, t) p e = ended (decides u dunno p e (λ x. cc) refl)
      decided u (ok defer, t) p e = ended (decides u defer p e (λ x. cc) refl)
      decided u (ok error, t) p e = ended (decides u error p e (λ x. cc) refl)
      decided u (err x, t) p e = ended (decide_throws u x p e refl)

      matched :
          (r : Result Bool × S)
          → m.match s ≡ r
          → Run
              (after_match m (process chain) r).0
              (after_match m (process chain) r).1
              (m ∷ chain)
              s
      matched (ok true, u) p = decided u (m.decide u) p refl
      matched (ok false, u) p = past u (no_match p) (ih u)
      matched (err x, u) p = ended (match_throws x p refl)

  -- For every chain and every start state, the result and the final state of `process` are those
  -- of a run of the chain: past each module in turn that does not match, or that matches and
  -- decides `cont`, to the first that decides something else or throws, or to `dunno` behind the
  -- last.
  pub process-Run :
      (chain : List (Module S)) (s : S) → Run (process chain s).0 (process chain s).1 chain s
  unfolding process
  process-Run [] s = through refl refl
  process-Run (m ∷ chain) s = process-Run-cases m chain s (process-Run chain)

  Passes-process :
      (m : Module S) (chain : List (Module S)) {s u : S}
      → Passes m s u
      → process (m ∷ chain) s ≡ process chain u
  unfolding process
  Passes-process m chain (no_match p) = rw (p, after_match) refl
  Passes-process m chain (continues v p d) = rw (p, after_match, d) refl

  after_decide-ne :
      (rest : S → Result ActionType × S) (a : ActionType) (t : S)
      → a ≢ cont
      → after_decide rest (ok a, t) ≡ (ok a, t)
  unfolding after_decide
  after_decide-ne rest cont t n = absurd (n refl)
  after_decide-ne rest _ t n = refl

  Ends-process :
      (m : Module S) (chain : List (Module S)) {s t : S} {r : Result ActionType}
      → Ends m s r t
      → process (m ∷ chain) s ≡ (r, t)
  unfolding process
  Ends-process m chain (decides u a p d n e) =
      rw (p, after_match, d, e) (after_decide-ne (process chain) a _ n)
  Ends-process m chain (match_throws x p e) = rw (p, after_match, e) refl
  Ends-process m chain (decide_throws u x p d e) = rw (p, after_match, d, e) refl

  -- Any run of the chain, by that description, has the result and the final state that `process`
  -- returns.
  pub Run-process :
      {r : Result ActionType} {t : S} {chain : List (Module S)} {s : S}
      → Run r t chain s
      → process chain s ≡ (r, t)
  unfolding process
  Run-process (through e f) = rw (e, f) refl
  Run-process (past {m} {chain} u p run) = Passes-process m chain p ∙ Run-process run
  Run-process (ended {m} {chain} e) = Ends-process m chain e

  -- For every chain and every start state: a result and a final state are those that `process`
  -- returns, if and only if there is a run of the chain to them: past each module in turn that
  -- does not match, or that matches and decides `cont`, to the first that decides something else
  -- or throws, or to `dunno` behind the last.
  pub Run-iff-process :
      (r : Result ActionType) (t : S) (chain : List (Module S)) (s : S)
      → Run r t chain s ↔ (process chain s ≡ (r, t))
  Run-iff-process r t chain s =
      (Run-process, λ e. subst (λ p. Run p.0 p.1 chain s) e (process-Run chain s))

  -- `process` never returns `cont`.
  pub process-ne-cont : (chain : List (Module S)) (s : S) → (process chain s).0 ≢ ok cont
  process-ne-cont chain s = Run-ne (process-Run chain s)
    where
      Run-ne :
          {r : Result ActionType} {t : S} {c : List (Module S)} {u : S} → Run r t c u → r ≢ ok cont
      Run-ne (through e f) = λ h. cc
      Run-ne (past u p run) = Run-ne run
      Run-ne (ended (decides u a p d n e)) = λ h. n (ground arith)
      Run-ne (ended (match_throws x p e)) = λ h. cc
      Run-ne (ended (decide_throws u x p d e)) = λ h. cc
