-- ===== src/Main.antt =====
-- `main` of src/main.cpp, from the opening of the configuration file on. What comes before it only
-- warns of a large stack.
pub mod Rounds
pub mod Exits
use greylist.Base.{
  ℕ, zero, suc, ◌+◌, ◌-◌, ◌%◌, ◌/◌, ◌*◌, ◌≤◌, ◌<◌, ◌≡◌, refl, sym, ap, ◌∙◌, subst, ◌≢◌, ◌⊎◌, inl,
  inr, Bool, true, false, not, ◌&&◌, ◌||◌, Option, none, some, List, [], ◌∷◌, ◌++◌, map, arith,
  if◌then◌else◌, ◌==◌, ==_iff, ltb, leb, Bool-cases, Option-cases, is_some, is_empty, Bytes, codes,
  Result, ok, err, length, AllSome, AllSome-some, some-injective,
}
use greylist.Base.Int.{ℤ, pos, negsuc}
use greylist.Base.OrdMap.{OrdMap}
use greylist.ConfigFileReader.Opening.{Files, ConfigFileReader, create}
use greylist.Signals.{setup_signal_handlers}
use greylist.System.{System}
use greylist.System.Run.{Outcome, returned, threw, running, Event, run}

-- What `main` returns with what it wrote to `cerr`, or the daemon still runs.
pub data Exit : Type 0 where
  exits : ℤ → Bytes → Exit
  serves : Exit

abbrev pub caught : Bytes → Exit
caught e = exits (negsuc 0) (codes "Exception caught: " ++ e)

-- The system is new.
unfoldable pub new_system : {D : Type 0} → System D
new_system = record {
  databases = [];
  datasources = [];
  matchers = [];
  core = [];
  settings = [];
  messages = [];
}

module _ {D L : Type 0} where
  abbrev pub exit_of : Outcome D L → Exit
  exit_of (returned code) = exits code []
  exit_of (threw e) = caught e
  exit_of (running srv) = serves

  unfoldable pub ended : Option (Outcome D L × System D) → Option Exit
  ended none = none
  ended (some (o, s)) = some (exit_of o)

  -- `system.run`, behind `setupSignalHandlers`.
  module _ (out_of_range : Bytes) (new_database : OrdMap Bytes Bytes → ℕ → Result D) where
    unfoldable pub after_signals :
        Result (Unit {0})
        → ConfigFileReader
        → (Bytes → Bytes → Result L)
        → List (Event L)
        → Option Exit
    unfolding ended run new_system
    after_signals (err e) reader opening events = some (caught e)
    after_signals (ok u) reader opening events =
        ended (run out_of_range new_database reader.stream opening events new_system)

  -- Whether each call of `sigaction` returns 0.
  module _ {W : Type 0} (files : Files W) (hup_ok quit_ok usr2_ok : Bool) (out_of_range : Bytes)
      (new_database : OrdMap Bytes Bytes → ℕ → Result D) where
    unfoldable pub started :
        (Bytes → Bytes → Result L) → List (Event L) → Result ConfigFileReader × W → Option Exit
    unfolding after_signals setup_signal_handlers
    started opening events (err e, w) = some (caught e)
    started opening events (ok reader, w) =
        after_signals out_of_range new_database (setup_signal_handlers hup_ok quit_ok usr2_ok)
          reader opening events

    unfoldable pub main : (Bytes → Bytes → Result L) → List (Event L) → W → Option Exit
    unfolding started create
    main opening events w = started opening events (create files (codes "/etc/greylist.cfg") w)
