-- ===== src/Main/Rounds.antt =====
-- How `System::run` ends, by the signals that it gets.
use greylist.Base.{
  ℕ, ◌≡◌, refl, sym, ap, ◌∙◌, subst, ◌⊎◌, inl, inr, Option, none, some, List, [], ◌∷◌, ◌++◌,
  Option-cases, Bytes, Result, AllSome, AllSome-some, All, Result-cases,
}
use greylist.Base.Int.{pos, negsuc}
use greylist.Base.OrdMap.{OrdMap}
use greylist.ConfigFileReader.{Stream}
use greylist.System.{System}
use greylist.System.Compile.{compile_config, build_server, ServerArgs}
use greylist.System.Run.{
  Signal, unset, quit, hangup, Outcome, returned, threw, running, Event, run, rounds, round, reload,
  try_new, try_previous, restart, retrying, compile_new,
}

module _ {L : Type 0} where
  abbrev pub IsHangup : Event L → Type 0
  IsHangup e = e.signal ≡ hangup

  -- The first signal that is no hangup.
  pub record Reaches (signal : Signal) (events : List (Event L)) : Type 0 where
    pub before : List (Event L)
    pub event : Event L
    pub after : List (Event L)
    pub events_eq : events ≡ before ++ event ∷ after
    pub hangups : All IsHangup before
    pub signal_eq : event.signal ≡ signal

  later :
      (signal : Signal) (e : Event L) (events : List (Event L))
      → IsHangup e
      → Reaches signal events
      → Reaches signal (e ∷ events)
  later signal e events h r = record {
    before = e ∷ r.before;
    event = r.event;
    after = r.after;
    events_eq = ap (λ (xs : List (Event L)). e ∷ xs) r.events_eq;
    hangups = (h, r.hangups);
    signal_eq = r.signal_eq;
  }

  here :
      (signal : Signal) (e : Event L) (events : List (Event L))
      → e.signal ≡ signal
      → Reaches signal (e ∷ events)
  here signal e events h = record {
    before = [];
    event = e;
    after = events;
    events_eq = refl;
    hangups = tt;
    signal_eq = h;
  }

module _ {D L : Type 0} where
  -- How `run` ends behind these events.
  unfoldable pub Ends : List (Event L) → Outcome D L → Type 0
  Ends events (running srv) = All IsHangup events
  Ends events (returned code) = (code ≡ negsuc 1) ⊎ ((code ≡ pos 0) × Reaches quit events)
  Ends events (threw text) = Reaches unset events

  later-Ends :
      (e : Event L) (events : List (Event L)) (o : Outcome D L)
      → IsHangup e
      → Ends events o
      → Ends (e ∷ events) o
  unfolding Ends
  later-Ends e events (running srv) h k = (h, k)
  later-Ends e events (returned code) h (inl k) = inl k
  later-Ends e events (returned code) h (inr k) = inr (k.0, later quit e events h k.1)
  later-Ends e events (threw text) h k = later unset e events h k

  -- A reload goes on, or gives up with -2.
  Reloads : Outcome D L × System D → Type 0
  Reloads (running srv, s) = Unit
  Reloads (returned code, s) = code ≡ negsuc 1
  Reloads (threw text, s) = ⊥

  -- A round goes on for a hangup alone.
  Round : Event L → Outcome D L × System D → Type 0
  Round event (running srv, s) = IsHangup event
  Round event (returned code, s) = (code ≡ negsuc 1) ⊎ ((code ≡ pos 0) × (event.signal ≡ quit))
  Round event (threw text, s) = event.signal ≡ unset

  reloaded-Round :
      (event : Event L) (o : Option (Outcome D L × System D))
      → IsHangup event
      → AllSome Reloads o
      → AllSome (Round event) o
  unfolding Round Reloads
  reloaded-Round event none h k = tt
  reloaded-Round event (some (running srv, s)) h k = h
  reloaded-Round event (some (returned code, s)) h k = inl k
  reloaded-Round event (some (threw text, s)) h k = elim k [ ]

  later-AllSome :
      (event : Event L) (events : List (Event L)) (o : Option (Outcome D L × System D))
      → IsHangup event
      → AllSome (λ t. Ends events t.0) o
      → AllSome (λ t. Ends (event ∷ events) t.0) o
  later-AllSome event events none h k = tt
  later-AllSome event events (some (o, s)) h k = later-Ends event events o h k

  -- `run` behind a startup that works, or not.
  unfoldable pub RunEnds : List (Event L) → Outcome D L → Type 0
  RunEnds events o = (o ≡ returned (negsuc 0)) ⊎ Ends events o

  in_RunEnds :
      (events : List (Event L)) (o : Option (Outcome D L × System D))
      → AllSome (λ t. Ends events t.0) o
      → AllSome (λ t. RunEnds events t.0) o
  unfolding RunEnds
  in_RunEnds events none h = tt
  in_RunEnds events (some t) h = inr h

  module _ (out_of_range : Bytes) (new_database : OrdMap Bytes Bytes → ℕ → Result D) where
    previous-Reloads :
        (event : Event L) (s : System D) (text : Bytes) (s' : System D)
        → AllSome Reloads (try_previous out_of_range new_database event s text s')
    unfolding try_previous restart compile_config Reloads
    previous-Reloads event s text s' =
        elim (Result-cases
          (build_server event.open_previous
            (retrying text (record s' { core = s.core; settings = s.settings }))).0) [
              | inl (srv, e) ↦ rw (e, try_previous, restart) tt
              | inr (t, e) ↦ rw (e, try_previous, restart) refl
            ]

    reload-Reloads :
        (event : Event L) (s : System D)
        → AllSome Reloads (reload out_of_range new_database event s)
    unfolding reload Reloads
    reload-Reloads event s = elim (Option-cases (try_new out_of_range new_database event s)) [
      | inl e ↦ rw (e, reload) tt
      | inr ((o, s'), e) ↦ elim (Result-cases o) [
        | inl (srv, e') ↦ rw (e ∙ ap (λ o. some (o, s')) e', reload) tt
        | inr (text, e') ↦
            rw (e ∙ ap (λ o. some (o, s')) e', reload) (previous-Reloads event s text s')
      ]
    ]

    pub round_hangup :
        (event : Event L) (s : System D)
        → IsHangup event
        → round out_of_range new_database event s ≡ reload out_of_range new_database event s
    unfolding round
    round_hangup event s e = rw (e, round) refl

    round-Round :
        (event : Event L) (s : System D) (signal : Signal)
        → event.signal ≡ signal
        → AllSome (Round event) (round out_of_range new_database event s)
    unfolding round Round
    round-Round event s unset e = rw (e, round) refl
    round-Round event s quit e = rw (e, round) (inr (refl, refl))
    round-Round event s hangup e =
        subst (AllSome (Round event)) (sym (round_hangup event s e))
          (reloaded-Round event _ e (reload-Reloads event s))

    continued :
        (event : Event L) (events : List (Event L)) (srv : ServerArgs D L) (s s' : System D)
        (o : Outcome D L)
        → round out_of_range new_database event s ≡ some (o, s')
        → Round event (o, s')
        → ((srv : ServerArgs D L) (s : System D)
            → AllSome (λ t. Ends events t.0) (rounds out_of_range new_database events srv s))
        → AllSome
            (λ t. Ends (event ∷ events) t.0)
            (rounds out_of_range new_database (event ∷ events) srv s)
    unfolding rounds Ends Round
    continued event events srv s s' (returned code) e (inl c) h = rw (e, rounds) (inl c)
    continued event events srv s s' (returned code) e (inr (c, k)) h =
        rw (e, rounds) (inr (c, here quit event events k))
    continued event events srv s s' (threw text) e k h = rw (e, rounds) (here unset event events k)
    continued event events srv s s' (running srv') e k h =
        rw (e, rounds) (later-AllSome event events _ k (h srv' s'))

    rounds-Ends :
        (events : List (Event L)) (srv : ServerArgs D L) (s : System D)
        → AllSome (λ t. Ends events t.0) (rounds out_of_range new_database events srv s)
    unfolding rounds Ends
    rounds-Ends [] srv s = tt
    rounds-Ends (event ∷ events) srv s =
        elim (Option-cases (round out_of_range new_database event s)) [
          | inl e ↦ rw (e, rounds) tt
          | inr ((o, s'), e) ↦
              continued event events srv s s' o e
                (AllSome-some (Round event) e (round-Round event s event.signal refl))
                (rounds-Ends events)
        ]

    pub run-RunEnds :
        (f : Stream) (opening : Bytes → Bytes → Result L) (events : List (Event L)) (s : System D)
        → AllSome (λ t. RunEnds events t.0) (run out_of_range new_database f opening events s)
    unfolding run RunEnds
    run-RunEnds f opening events s =
        elim (Option-cases (compile_new out_of_range new_database f opening s)) [
          | inl e ↦ rw (e, run) tt
          | inr ((o, s'), e) ↦ elim (Result-cases o) [
            | inl (srv, e') ↦
                rw (e ∙ ap (λ o. some (o, s')) e', run)
                  (in_RunEnds events _ (rounds-Ends events srv s'))
            | inr (text, e') ↦ rw (e ∙ ap (λ o. some (o, s')) e', run) (inl refl)
          ]
        ]
