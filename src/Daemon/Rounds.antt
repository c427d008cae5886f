-- ===== src/Daemon/Rounds.antt =====
-- The daemon with its world is the one of System.Run, with sockets that open as the world has it.
use greylist.Base.{
  ℕ, ◌≡◌, refl, ap, ◌∙◌, inl, inr, Option, none, some, List, [], ◌∷◌, Option-cases, Bytes, Result,
  ok, err,
}
use greylist.Base.OrdMap.{OrdMap, bytes_key, nat_key}
use greylist.ConfigFileReader.{Stream}
use greylist.System.{System}
use greylist.System.Config.{read_config}
use greylist.System.Compile.{ServerArgs, build_server, compile_config, after_parsing}
use greylist.System.Run.{
  Signal, unset, quit, hangup, Outcome, returned, threw, running, retrying, Event, round, rounds,
  reload, try_new, try_previous, restart, compile_new,
}
use greylist.TcpListener.{TcpListener, Calls}
use greylist.Main.Rounds.{round_hangup}
use greylist.Daemon.{
  Change, opening, build_in, after_parsing_in, rebuilt, previous_in, or_previous, compile_new_in,
  try_new_in, round_in, after_run, rounds_in,
}

-- The world is left out.
abbrev pub forget : {A W : Type 0} → Option (A × W) → Option A
forget none = none
forget (some (a, w)) = some a

forget-rebuilt :
    {D W : Type 0} (b : Result (ServerArgs D TcpListener) × System D) (w : W)
    → restart (some b) ≡ forget (rebuilt (b, w))
unfolding rebuilt restart
forget-rebuilt (ok srv, t) w = refl
forget-rebuilt (err e, t) w = refl

module _ {D W : Type 0} (os : Calls W) where
  rebuilt-try_previous :
      (out_of_range : Bytes) (new_database : OrdMap Bytes Bytes → ℕ → Result D)
      (event : Event TcpListener) (s : System D) (e : Bytes) (s' : System D) (w : W)
      → try_previous out_of_range new_database event s e s'
        ≡ forget (
            rebuilt (
              build_server event.open_previous
                  (retrying e (record s' { core = s.core; settings = s.settings })),
              w,
            ))
  unfolding try_previous compile_config
  rebuilt-try_previous out_of_range new_database event s e s' w =
      forget-rebuilt
        (build_server event.open_previous
          (retrying e (record s' { core = s.core; settings = s.settings })))
        w

  forget-previous_in :
      (out_of_range : Bytes) (new_database : OrdMap Bytes Bytes → ℕ → Result D)
      (event : Event TcpListener) (s : System D) (e : Bytes) (s' : System D) (w : W)
      → event.open_previous ≡ opening os w
      → try_previous out_of_range new_database event s e s' ≡ forget (previous_in os s e s' w)
  unfolding previous_in build_in
  forget-previous_in out_of_range new_database event s e s' w p =
      let t = retrying e (record s' { core = s.core; settings = s.settings }) in
      rebuilt-try_previous out_of_range new_database event s e s' (build_in os t w).1
      ∙ ap (λ q. forget (rebuilt (build_server q t, (build_in os t w).1))) p

  module _ (out_of_range : Bytes) (new_database : OrdMap Bytes Bytes → ℕ → Result D) where
    forget-after_parsing_in :
        (r : Option (Result (Unit {0}) × System D)) (w : W)
        → after_parsing out_of_range new_database (opening os w) r
          ≡ forget (after_parsing_in os r w)
    unfolding after_parsing after_parsing_in build_in
    forget-after_parsing_in none w = refl
    forget-after_parsing_in (some (ok u, s)) w = refl
    forget-after_parsing_in (some (err e, s)) w = refl

    forget-compile_new_in :
        (f : Stream) (s : System D) (w : W)
        → compile_new out_of_range new_database f (opening os w) s
          ≡ forget (compile_new_in os out_of_range new_database f s w)
    unfolding compile_new compile_new_in compile_config
    forget-compile_new_in f s w = elim (Option-cases (read_config f)) [
      | inl e ↦ rw (e, compile_new, compile_new_in) refl
      | inr ((lines, f'), e) ↦ rw (e, compile_new, compile_new_in) (forget-after_parsing_in _ w)
    ]

    forget-try_new_in :
        (r : Result Stream) (event : Event TcpListener) (s : System D) (w : W)
        → event.reloaded ≡ r
        → event.open_new ≡ opening os w
        → try_new out_of_range new_database event s
          ≡ forget (try_new_in os out_of_range new_database r s w)
    unfolding try_new try_new_in
    forget-try_new_in (ok f) event s w e p = rw (e, p, try_new) (forget-compile_new_in f s w)
    forget-try_new_in (err x) event s w e p = rw (e, try_new) refl

    -- The world in which the previous address is opened.
    world_behind : W → Option ((Result (ServerArgs D TcpListener) × System D) × W) → W
    world_behind w none = w
    world_behind w (some (r, w')) = w'

    forget-or_previous :
        (event : Event TcpListener) (s : System D) (w : W)
        (b : Option ((Result (ServerArgs D TcpListener) × System D) × W))
        → try_new out_of_range new_database event s ≡ forget b
        → event.open_previous ≡ opening os (world_behind w b)
        → reload out_of_range new_database event s ≡ forget (or_previous os s b)
    unfolding reload or_previous world_behind
    forget-or_previous event s w none e p = rw (e, reload) refl
    forget-or_previous event s w (some ((ok srv, s'), w')) e p = rw (e, reload) refl
    forget-or_previous event s w (some ((err x, s'), w')) e p =
        rw (e, reload) (forget-previous_in out_of_range new_database event s x s' w' p)

    -- What the round is in System.Run.
    event_of : Change W → System D → W → Event TcpListener
    event_of c s w = record {
      signal = c.signal;
      socket_error = c.socket_error;
      reloaded = c.reloaded;
      open_new = opening os w;
      open_previous =
          opening os (world_behind w (try_new_in os out_of_range new_database c.reloaded s w));
    }

    forget-hangup :
        (c : Change W) (s : System D) (w : W)
        → c.signal ≡ hangup
        → round out_of_range new_database (event_of c s w) s
          ≡ forget (or_previous os s (try_new_in os out_of_range new_database c.reloaded s w))
    unfolding event_of
    forget-hangup c s w e =
        round_hangup out_of_range new_database (event_of c s w) s e
        ∙ forget-or_previous (event_of c s w) s w _
            (forget-try_new_in c.reloaded (event_of c s w) s w refl refl) refl

    forget-round_in :
        (signal : Signal) (c : Change W) (s : System D) (w : W)
        → c.signal ≡ signal
        → round out_of_range new_database (event_of c s w) s
          ≡ forget (round_in os out_of_range new_database signal c s w)
    unfolding round round_in event_of
    forget-round_in unset c s w e = rw (e, round) refl
    forget-round_in quit c s w e = rw (e, round) refl
    forget-round_in hangup c s w e = forget-hangup c s w e

    -- The events of System.Run that have the same result.
    Simulates : List (Change W) → ServerArgs D TcpListener → System D → W → Type 0
    Simulates changes srv s w =
        (events : List (Event TcpListener)) × (rounds out_of_range new_database events srv s
          ≡ forget (rounds_in os out_of_range new_database changes srv s w))

    continued :
        (c : Change W) (changes : List (Change W)) (srv : ServerArgs D TcpListener) (s : System D)
        (w : W) (r : (Outcome D TcpListener × System D) × W)
        → round_in os out_of_range new_database c.signal c s (after_run os c srv w) ≡ some r
        → round out_of_range new_database (event_of c s (after_run os c srv w)) s ≡ some r.0
        → ((srv : ServerArgs D TcpListener) (s : System D) (w : W) → Simulates changes srv s w)
        → Simulates (c ∷ changes) srv s w
    unfolding rounds rounds_in Simulates
    continued c changes srv s w ((running srv', s'), w') e f ih =
        let (events, k) = ih srv' s' w' in
        (event_of c s (after_run os c srv w) ∷ events, rw (f, e, rounds, rounds_in) k)
    continued c changes srv s w ((returned code, s'), w') e f ih =
        (event_of c s (after_run os c srv w) ∷ [], rw (f, e, rounds, rounds_in) refl)
    continued c changes srv s w ((threw x, s'), w') e f ih =
        (event_of c s (after_run os c srv w) ∷ [], rw (f, e, rounds, rounds_in) refl)

    -- Whatever the system calls do: the loop of `System::run` with its sockets and the world has
    -- the outcome and the system of the loop where the opening of a socket is a parameter, for
    -- some sequence of events.
    pub rounds_in-rounds :
        (changes : List (Change W)) (srv : ServerArgs D TcpListener) (s : System D) (w : W)
        → (events : List (Event TcpListener)) × (rounds out_of_range new_database events srv s
            ≡ forget (rounds_in os out_of_range new_database changes srv s w))
    unfolding rounds rounds_in Simulates
    rounds_in-rounds [] srv s w = ([], refl)
    rounds_in-rounds (c ∷ changes) srv s w =
        let f = forget-round_in c.signal c s (after_run os c srv w) refl in
        elim (Option-cases
          (round_in os out_of_range new_database c.signal c s (after_run os c srv w))) [
            | inl e ↦ (
              event_of c s (after_run os c srv w) ∷ [],
              rw (f ∙ ap forget e, e, rounds, rounds_in) refl,
            )
            | inr (r, e) ↦
                continued c changes srv s w r e (f ∙ ap forget e)
                  (λ srv s w. rounds_in-rounds changes srv s w)
          ]
