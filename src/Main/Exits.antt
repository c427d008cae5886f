-- ===== src/Main/Exits.antt =====
-- Which code `main` returns, by the signals that the daemon gets.
use greylist.Base.{
  ℕ, ◌≡◌, refl, ◌⊎◌, inl, inr, Bool, some, List, Bytes, codes, Result, ok, err, AllSome-some, All,
}
use greylist.Base.Int.{pos, negsuc}
use greylist.Base.OrdMap.{OrdMap}
use greylist.ConfigFileReader.Opening.{Files, ConfigFileReader, create}
use greylist.System.Run.{quit, Outcome, returned, threw, running, Event}
use greylist.System.Reload.{run_returns}
use greylist.Signals.{setup_signal_handlers}
use greylist.Main.{
  after_signals, started, exit_of, caught, Exit, exits, serves, ended, new_system, main,
}
use greylist.Main.Rounds.{IsHangup, Reaches, Ends, RunEnds, run-RunEnds}

module _ {L : Type 0} where
  -- The exit code, and what it tells of the signals.
  pub Fits : List (Event L) → Exit → Type 0
  Fits events (exits code text) =
      ((code ≡ pos 0) × Reaches quit events) ⊎ ((code ≡ negsuc 0) ⊎ (code ≡ negsuc 1))
  Fits events serves = All IsHangup events

module _ {D L : Type 0} where
  caught-Fits :
      (events : List (Event L)) (o : Outcome D L) → RunEnds events o → Fits events (exit_of o)
  unfolding RunEnds Ends Fits
  caught-Fits events (running srv) (inr h) = h
  caught-Fits events (running srv) (inl e) = absurd (cc e)
  caught-Fits events (returned code) (inl e) = inr (inl (cc e))
  caught-Fits events (returned code) (inr (inl e)) = inr (inr e)
  caught-Fits events (returned code) (inr (inr h)) = inl h
  caught-Fits events (threw text) h = inr (inl refl)

  module _ (out_of_range : Bytes) (new_database : OrdMap Bytes Bytes → ℕ → Result D) where
    after_signals-Fits :
        (r : Result (Unit {0})) (reader : ConfigFileReader) (opening : Bytes → Bytes → Result L)
        (events : List (Event L))
        → (x : Exit) × (after_signals out_of_range new_database r reader opening events ≡ some x)
          × Fits events x
    unfolding after_signals ended Fits
    after_signals-Fits (err e) reader opening events = (caught e, refl, inr (inl refl))
    after_signals-Fits (ok u) reader opening events =
        let ((o, s), e) =
          run_returns out_of_range new_database reader.stream opening events new_system in
        (
          exit_of o,
          rw (e, after_signals, ended) refl,
          caught-Fits events o (
              AllSome-some (λ t. RunEnds events t.0) e
                (run-RunEnds out_of_range new_database reader.stream opening events new_system)),
        )

  module _ {W : Type 0} (files : Files W) (hup_ok quit_ok usr2_ok : Bool) (out_of_range : Bytes)
      (new_database : OrdMap Bytes Bytes → ℕ → Result D) where
    started-Fits :
        (opening : Bytes → Bytes → Result L) (events : List (Event L))
        (r : Result ConfigFileReader × W)
        → (x : Exit) × (started files hup_ok quit_ok usr2_ok out_of_range new_database opening
              events r
            ≡ some x)
          × Fits events x
    unfolding started Fits
    started-Fits opening events (err e, w) = (caught e, refl, inr (inl refl))
    started-Fits opening events (ok reader, w) =
        after_signals-Fits out_of_range new_database (setup_signal_handlers hup_ok quit_ok usr2_ok)
          reader opening events

    -- For every configuration file, outcome of the system calls and sequence of events, each with
    -- the file that is read again: `main` gets to the end of the sequence, or ends before; in the
    -- first case all signals are hangups; in the second it returns 0, and then the first signal
    -- that is no hangup is SIGQUIT, or -1, or -2.
    pub main-Fits :
        (opening : Bytes → Bytes → Result L) (events : List (Event L)) (w : W)
        → (x : Exit) × (main files hup_ok quit_ok usr2_ok out_of_range new_database opening events w
            ≡ some x)
          × Fits events x
    unfolding main
    main-Fits opening events w =
        started-Fits opening events (create files (codes "/etc/greylist.cfg") w)
