-- ===== src/System/Run.antt =====
-- `System::run` of src/system.h, as a loop over what happens to it: each round is a run of the
-- server that has ended. Signals are those of src/system.cpp.
use greylist.Base.{
  none, some, true, false, ok, err, [], ◌++◌, ◌∷◌, codes, Option, List, ℕ, Result, Bytes,
}
use greylist.System.Config.{config_reader_on, read_config}
use greylist.System.Sections.{message}
use greylist.System.Compile.{compile_config, ServerArgs}
use greylist.System.{System}
use greylist.ConfigFileReader.{Stream}
use greylist.Base.OrdMap.{OrdMap}
use greylist.Base.Int.{ℤ, pos, negsuc}

-- `globalSignal`: 0, SIGQUIT, or one of the others (SIGHUP and SIGUSR2).
pub data Signal : Type 0 where
  unset quit hangup : Signal

-- A round: the signal and the socket's error (its text and number) when `srv->run()` returned, the stream
-- that `reader.reload()` opens, or its exception, and how the socket opens with the new
-- configuration and with the previous one.
pub record Event (L : Type 0) : Type 0 where
  pub signal : Signal
  pub socket_error : Bytes
  pub reloaded : Result Stream
  pub open_new : Bytes → Bytes → Result L
  pub open_previous : Bytes → Bytes → Result L

-- `run` has returned, or thrown, or still runs this server.
pub data Outcome (D L : Type 0) : Type 0 where
  returned : ℤ → Outcome D L
  threw : Bytes → Outcome D L
  running : ServerArgs D L → Outcome D L

unfoldable pub retrying : {D : Type 0} → Bytes → System D → System D
retrying e s =
    message
      (codes "Error in new configuration: \n"
        ++ e
        ++ codes "\nRetrying with previous configuration")
      s

-- The server that was compiled, or the end of `run`.
unfoldable pub restart :
    {D L : Type 0} → Option (Result (ServerArgs D L) × System D) → Option (Outcome D L × System D)
restart none = none
restart (some (ok srv, t)) = some (running srv, t)
restart (some (err e, t)) =
    some (returned (negsuc 1), message (codes "Error in configuration, exiting: \n" ++ e) t)

module _ {D L : Type 0} (out_of_range : Bytes)
    (new_database : OrdMap Bytes Bytes → ℕ → Result D) where
  -- The construction of a `ConfigReader` and `compileConfig` with a new core and new settings.
  unfoldable pub compile_new :
      Stream → (Bytes → Bytes → Result L) → System D → Option (Result (ServerArgs D L) × System D)
  unfolding read_config compile_config
  compile_new f opening s = elim (read_config f) [
    | none ↦ none
    | some (lines, f') ↦
        compile_config out_of_range new_database opening false (config_reader_on lines)
          (record s { core = []; settings = [] })
  ]

  -- `reader.reload()` and `compileConfig`, of which either may throw.
  unfoldable pub try_new : Event L → System D → Option (Result (ServerArgs D L) × System D)
  unfolding compile_new
  try_new event s = elim event.reloaded [
    | ok f ↦ compile_new f event.open_new s
    | err e ↦ some (err e, s)
  ]

  -- The handler: the previous core and settings again, with the containers as they are.
  unfoldable pub try_previous :
      Event L → System D → Bytes → System D → Option (Outcome D L × System D)
  unfolding compile_config retrying restart
  try_previous event s e s' = restart (
      compile_config out_of_range new_database event.open_previous true (config_reader_on [])
        (retrying e (record s' { core = s.core; settings = s.settings })))

  unfoldable pub reload : Event L → System D → Option (Outcome D L × System D)
  unfolding try_new try_previous
  reload event s = elim (try_new event s) [
    | none ↦ none
    | some (ok srv, s') ↦ some (running srv, s')
    | some (err e, s') ↦ try_previous event s e s'
  ]

  -- The loop's body, behind `srv->run()`.
  unfoldable pub round : Event L → System D → Option (Outcome D L × System D)
  unfolding reload
  round event s = elim event.signal [
    | unset ↦ some (threw (codes "Got unexepected error: " ++ event.socket_error), s)
    | quit ↦ some (returned (pos 0), s)
    | hangup ↦ reload event s
  ]

  unfoldable pub rounds :
      List (Event L) → ServerArgs D L → System D → Option (Outcome D L × System D)
  unfolding round
  rounds [] srv s = some (running srv, s)
  rounds (event ∷ events) srv s = elim (round event s) [
    | none ↦ none
    | some (running srv', s') ↦ rounds events srv' s'
    | some (returned code, s') ↦ some (returned code, s')
    | some (threw e, s') ↦ some (threw e, s')
  ]

  unfoldable pub run :
      Stream
      → (Bytes → Bytes → Result L)
      → List (Event L)
      → System D
      → Option (Outcome D L × System D)
  unfolding compile_new rounds
  run f opening events s = elim (compile_new f opening s) [
    | none ↦ none
    | some (ok srv, s') ↦ rounds events srv s'
    | some (err e, s') ↦ some (returned (negsuc 0), message (codes "Error in startup: \n" ++ e) s')
  ]
