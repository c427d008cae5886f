-- ===== src/Daemon.antt =====
-- The daemon with its listening socket: `System::run` of src/system.h, as in System.Run, with the world
-- that `TCPListener::open` and `close` change, from one server to the next.
pub mod Rounds
pub mod Table
use greylist.Base.{
  ℕ, zero, suc, ◌+◌, ◌-◌, ◌%◌, ◌/◌, ◌*◌, ◌≤◌, ◌<◌, ◌≡◌, refl, sym, ap, ◌∙◌, subst, ◌≢◌, ◌⊎◌, inl,
  inr, Bool, true, false, not, ◌&&◌, ◌||◌, Option, none, some, List, [], ◌∷◌, ◌++◌, map, arith,
  if◌then◌else◌, ◌==◌, ==_iff, ltb, leb, Bool-cases, Option-cases, is_some, is_empty, Bytes, codes,
  Result, ok, err, length, AllSome, AllSome-some, some-injective,
}
use greylist.Base.Int.{ℤ, pos, negsuc}
use greylist.Base.OrdMap.{OrdMap, bytes_key, nat_key}
use greylist.ConfigFileReader.{Stream}
use greylist.System.{System}
use greylist.System.Config.{config_reader_on, read_config}
use greylist.System.Sections.{message, parse_configuration_sections}
use greylist.System.Compile.{ServerArgs, build_server, listen_of, port_of}
use greylist.System.Run.{Signal, unset, quit, hangup, Outcome, returned, threw, running, retrying}
use greylist.TcpListener.{TcpListener, Calls, create, open_listener, close_listener}

-- What happens while a server runs: the signal and the error that end it, the file that is read
-- again, and what the rest of the process does to the world before the socket is closed.
pub record Change (W : Type 0) : Type 0 where
  pub signal : Signal
  pub socket_error : Bytes
  pub reloaded : Result Stream
  pub serve : W → W

module _ {W : Type 0} (os : Calls W) where
  -- `compileConfig` creates a listener for the address and opens it.
  unfoldable pub opening : W → Bytes → Bytes → Result TcpListener
  unfolding open_listener create
  opening w listen port = (open_listener os (create listen port) w).0

module _ {D W : Type 0} where
  unfoldable pub rebuilt :
      (Result (ServerArgs D TcpListener) × System D) × W
      → Option ((Outcome D TcpListener × System D) × W)
  rebuilt ((ok srv, t), w) = some ((running srv, t), w)
  rebuilt ((err e, t), w) =
      some ((returned (negsuc 1), message (codes "Error in configuration, exiting: \n" ++ e) t), w)

module _ {D W : Type 0} (os : Calls W) where
  unfoldable pub build_in : System D → W → (Result (ServerArgs D TcpListener) × System D) × W
  unfolding build_server opening open_listener create
  build_in s w =
      (build_server (opening os w) s, (open_listener os (create (listen_of s) (port_of s)) w).1)

  unfoldable pub after_parsing_in :
      Option (Result (Unit {0}) × System D)
      → W
      → Option ((Result (ServerArgs D TcpListener) × System D) × W)
  unfolding build_in
  after_parsing_in none w = none
  after_parsing_in (some (ok u, s)) w = some (build_in s w)
  after_parsing_in (some (err e, s)) w = some ((err e, s), w)

  -- The previous core and settings again.
  unfoldable pub previous_in :
      System D → Bytes → System D → W → Option ((Outcome D TcpListener × System D) × W)
  unfolding rebuilt build_in retrying
  previous_in s e s' w =
      rebuilt (build_in (retrying e (record s' { core = s.core; settings = s.settings })) w)

  unfoldable pub or_previous :
      System D
      → Option ((Result (ServerArgs D TcpListener) × System D) × W)
      → Option ((Outcome D TcpListener × System D) × W)
  unfolding previous_in
  or_previous s none = none
  or_previous s (some ((ok srv, s'), w)) = some ((running srv, s'), w)
  or_previous s (some ((err e, s'), w)) = previous_in s e s' w

  -- The world behind `srv->run()`, which closes the listening socket.
  abbrev pub after_run : Change W → ServerArgs D TcpListener → W → W
  unfolding close_listener
  after_run c srv w = (close_listener os srv.listener (c.serve w)).1

  module _ (out_of_range : Bytes) (new_database : OrdMap Bytes Bytes → ℕ → Result D) where
    unfoldable pub compile_new_in :
        Stream → System D → W → Option ((Result (ServerArgs D TcpListener) × System D) × W)
    unfolding after_parsing_in read_config parse_configuration_sections
    compile_new_in f s w = elim (read_config f) [
      | none ↦ none
      | some (lines, f') ↦
          after_parsing_in
            (parse_configuration_sections out_of_range new_database (config_reader_on lines)
              (record s { core = []; settings = [] }))
            w
    ]

    unfoldable pub try_new_in :
        Result Stream → System D → W → Option ((Result (ServerArgs D TcpListener) × System D) × W)
    unfolding compile_new_in
    try_new_in (ok f) s w = compile_new_in f s w
    try_new_in (err e) s w = some ((err e, s), w)

    -- The loop's body, behind `srv->run()`.
    unfoldable pub round_in :
        Signal → Change W → System D → W → Option ((Outcome D TcpListener × System D) × W)
    unfolding or_previous try_new_in
    round_in unset c s w = some ((threw (codes "Got unexepected error: " ++ c.socket_error), s), w)
    round_in quit c s w = some ((returned (pos 0), s), w)
    round_in hangup c s w = or_previous s (try_new_in c.reloaded s w)

    unfoldable pub rounds_in :
        List (Change W)
        → ServerArgs D TcpListener
        → System D
        → W
        → Option ((Outcome D TcpListener × System D) × W)
    unfolding round_in close_listener
    rounds_in [] srv s w = some ((running srv, s), w)
    rounds_in (c ∷ changes) srv s w = elim (round_in c.signal c s (after_run c srv w)) [
      | none ↦ none
      | some ((running srv', s'), w') ↦ rounds_in changes srv' s' w'
      | some ((returned code, s'), w') ↦ some ((returned code, s'), w')
      | some ((threw e, s'), w') ↦ some ((threw e, s'), w')
    ]
