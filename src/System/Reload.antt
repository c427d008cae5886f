-- ===== src/System/Reload.antt =====
-- Starting, and reloading the configuration: `System::run` of src/system.h.
use greylist.Base.{
  Returns, some_value, All, sym, ap, is_ok, ◌∙◌, length, Bytes, ℕ, zero, suc, ◌<◌, ◌≡◌, refl, List,
  [], ◌∷◌, arith, Option-cases, Result-cases, inl, inr, some, ok, err, true, Result,
}
use greylist.System.Run.{
  run, round, rounds, retrying, try_previous, restart, reload, try_new, compile_new, Event, Signal,
  unset, quit, hangup, Outcome, running, returned, threw,
}
use greylist.System.Compile.{
  build_server, ServerArgs, after_parsing, compile_config, build_server-is_ok, build_server-core,
  build_server-blank,
}
use greylist.System.Config.{config_reader_on, read_config, read_lines}
use greylist.System.{System}
use greylist.ConfigFileReader.{getline, Stream}
use greylist.Base.OrdMap.{OrdMap, bytes_key}
use greylist.ConfigFileReader.Shrink.{remaining, getline-remaining}
use greylist.System.Ends.{parse_configuration_sections_returns}

read_lines-Returns :
    (fuel : ℕ) (str : Bytes) (f : Stream)
    → remaining f < fuel
    → Returns (λ t. Unit {0}) (read_lines fuel str f)
unfolding read_lines
read_lines-Returns zero str f h = elim h [ ]
read_lines-Returns (suc fuel) str f h = elim (Option-cases (getline str f).count) [
  | inl e ↦ rw (e, read_lines) tt
  | inr (n, e) ↦
      let (t, e', u) =
        some_value (λ t. Unit {0}) (read_lines fuel (getline str f).text (getline str f).stream)
          (read_lines-Returns fuel (getline str f).text (getline str f).stream
            (omega (arith, getline-remaining str f n e))) in
      rw (e, e', read_lines) tt
]

-- The constructor of `ConfigReader` reads to the end of every file.
read_config-Returns : (f : Stream) → Returns (λ t. Unit {0}) (read_config f)
unfolding read_config
read_config-Returns f = read_lines-Returns (suc (suc (length f.input))) [] f (ground arith)

-- The previous core and settings.
restored : {D : Type 0} → Bytes → System D → System D → System D
unfolding retrying
restored e s s' = retrying e (record s' { core = s.core; settings = s.settings })

-- SIGHUP, and the socket opens again for the previous settings.
abbrev pub Reopens : {L : Type 0} → Event L → Type 0
Reopens event =
    (event.signal ≡ hangup)
    × ((listen port : Bytes) → is_ok (event.open_previous listen port) ≡ true)

module _ {D L : Type 0} (out_of_range : Bytes)
    (new_database : OrdMap Bytes Bytes → ℕ → Result D) where
  compile_new-Returns :
      (f : Stream) (opening : Bytes → Bytes → Result L) (s : System D)
      → Returns (λ t. Unit {0}) (compile_new out_of_range new_database f opening s)
  unfolding compile_new compile_config after_parsing
  compile_new-Returns f opening s =
      let ((lines, f'), e, u) =
        some_value (λ t. Unit {0}) (read_config f) (read_config-Returns f) in
      let ((o, s'), e') =
        parse_configuration_sections_returns out_of_range new_database (config_reader_on lines)
          (record s { core = []; settings = [] }) in
      elim (Result-cases o) [
        | inl (v, e2) ↦
            rw (e, e' ∙ ap (λ o. some (o, s')) e2, compile_new, compile_config, after_parsing) tt
        | inr (t, e2) ↦
            rw (e, e' ∙ ap (λ o. some (o, s')) e2, compile_new, compile_config, after_parsing) tt
      ]

  try_new-Returns :
      (event : Event L) (s : System D)
      → Returns (λ t. Unit {0}) (try_new out_of_range new_database event s)
  unfolding try_new
  try_new-Returns event s = elim (Result-cases event.reloaded) [
    | inl (f, e) ↦ rw (e, try_new) (compile_new-Returns f event.open_new s)
    | inr (t, e) ↦ rw (e, try_new) tt
  ]

  -- If the new configuration cannot be loaded, for whatever reason, and the socket opens again for
  -- every address, then the reload goes on to run a server, the one that `compileConfig` builds
  -- from the previous core and settings, and the core is the previous one.
  pub reload-previous :
      (event : Event L) (s s' : System D) (text : Bytes)
      → try_new out_of_range new_database event s ≡ some (err text, s')
      → ((listen port : Bytes) → is_ok (event.open_previous listen port) ≡ true)
      → (srv : ServerArgs D L) × (t : System D) × (reload out_of_range new_database event s
          ≡ some (running srv, t))
        × ((build_server event.open_previous s).0 ≡ ok srv)
        × (t.core ≡ s.core)
  unfolding reload try_previous restart compile_config restored
  reload-previous event s s' text e h =
      let p = event.open_previous in
      let u = restored text s s' in
      let same = build_server-blank p u ∙ sym (build_server-blank p s) in
      elim (Result-cases (build_server p u).0) [
        | inl (srv, e') ↦ (
          srv,
          (build_server p u).1,
          rw (e, e', reload, try_previous, restart) refl,
          sym same ∙ e',
          build_server-core p u,
        )
        | inr (t, e') ↦ absurd (cc (build_server-is_ok p u h, e'))
      ]

  reload-running :
      (event : Event L) (s : System D)
      → ((listen port : Bytes) → is_ok (event.open_previous listen port) ≡ true)
      → (srv : ServerArgs D L) × (t : System D) × (reload out_of_range new_database event s
          ≡ some (running srv, t))
  unfolding reload
  reload-running event s h =
      let ((o, s'), e, u) =
        some_value (λ t. Unit {0}) (try_new out_of_range new_database event s)
          (try_new-Returns event s) in
      elim (Result-cases o) [
        | inl (srv, e') ↦ (srv, s', rw (e ∙ ap (λ o. some (o, s')) e', reload) refl)
        | inr (text, e') ↦
            let (srv, t, e2, e3, e4) =
              reload-previous event s s' text (e ∙ ap (λ o. some (o, s')) e') h in
            (srv, t, e2)
      ]

  round-hangup :
      (event : Event L) (s : System D)
      → event.signal ≡ hangup
      → round out_of_range new_database event s ≡ reload out_of_range new_database event s
  unfolding round
  round-hangup event s h = rw (h, round) refl

  -- If each signal is a hangup and the socket opens again for every address with the previous
  -- settings, then after any number of reloads, of whatever configurations, the daemon still runs
  -- a server.
  pub rounds-running :
      (events : List (Event L)) (srv : ServerArgs D L) (s : System D)
      → All Reopens events
      → (srv' : ServerArgs D L) × (t : System D) × (rounds out_of_range new_database events srv s
          ≡ some (running srv', t))
  unfolding rounds
  rounds-running [] srv s h = (srv, s, refl)
  rounds-running (event ∷ events) srv s h =
      let (srv1, s1, e) = reload-running event s h.0.1 in
      let (srv', t, e') = rounds-running events srv1 s1 h.1 in
      (srv', t, rw (round-hangup event s h.0.0 ∙ e, rounds) e')

  reload-Returns :
      (event : Event L) (s : System D)
      → Returns (λ t. Unit {0}) (reload out_of_range new_database event s)
  unfolding reload try_previous restart compile_config restored
  reload-Returns event s =
      let ((o, s'), e, u) =
        some_value (λ t. Unit {0}) (try_new out_of_range new_database event s)
          (try_new-Returns event s) in
      elim (Result-cases o) [
        | inl (srv, e') ↦ rw (e ∙ ap (λ o. some (o, s')) e', reload) tt
        | inr (text, e') ↦
            let p = event.open_previous in
            elim (Result-cases (build_server p (restored text s s')).0) [
              | inl (srv, e2) ↦
                  rw (e ∙ ap (λ o. some (o, s')) e', e2, reload, try_previous, restart) tt
              | inr (t, e2) ↦
                  rw (e ∙ ap (λ o. some (o, s')) e', e2, reload, try_previous, restart) tt
            ]
      ]

  round-Returns :
      (event : Event L) (s : System D) (signal : Signal)
      → event.signal ≡ signal
      → Returns (λ t. Unit {0}) (round out_of_range new_database event s)
  unfolding round
  round-Returns event s unset e = rw (e, round) tt
  round-Returns event s quit e = rw (e, round) tt
  round-Returns event s hangup e = rw (e, round) (reload-Returns event s)

  continued :
      (event : Event L) (events : List (Event L)) (srv : ServerArgs D L) (s s' : System D)
      (o : Outcome D L)
      → round out_of_range new_database event s ≡ some (o, s')
      → ((srv : ServerArgs D L) (s : System D)
          → Returns (λ t. Unit {0}) (rounds out_of_range new_database events srv s))
      → Returns (λ t. Unit {0}) (rounds out_of_range new_database (event ∷ events) srv s)
  unfolding rounds
  continued event events srv s s' (returned code) e h = rw (e, rounds) tt
  continued event events srv s s' (threw text) e h = rw (e, rounds) tt
  continued event events srv s s' (running srv') e h = rw (e, rounds) (h srv' s')

  pub rounds-Returns :
      (events : List (Event L)) (srv : ServerArgs D L) (s : System D)
      → Returns (λ t. Unit {0}) (rounds out_of_range new_database events srv s)
  unfolding rounds
  rounds-Returns [] srv s = tt
  rounds-Returns (event ∷ events) srv s =
      let ((o, s'), e, u) =
        some_value (λ t. Unit {0}) (round out_of_range new_database event s)
          (round-Returns event s event.signal refl) in
      continued event events srv s s' o e (rounds-Returns events)

  run-Returns :
      (f : Stream) (opening : Bytes → Bytes → Result L) (events : List (Event L)) (s : System D)
      → Returns (λ t. Unit {0}) (run out_of_range new_database f opening events s)
  unfolding run
  run-Returns f opening events s =
      let ((o, s'), e, u) =
        some_value (λ t. Unit {0}) (compile_new out_of_range new_database f opening s)
          (compile_new-Returns f opening s) in
      elim (Result-cases o) [
        | inl (srv, e') ↦ rw (e ∙ ap (λ o. some (o, s')) e', run) (rounds-Returns events srv s')
        | inr (text, e') ↦ rw (e ∙ ap (λ o. some (o, s')) e', run) tt
      ]

  -- For every configuration file and every sequence of events, each with the file that is read
  -- again, `run` gets to the end of the sequence or ends before: the fuel for the lines of the
  -- files and for the sections is enough.
  pub run_returns :
      (f : Stream) (opening : Bytes → Bytes → Result L) (events : List (Event L)) (s : System D)
      → (t : Outcome D L × System D) × (run out_of_range new_database f opening events s ≡ some t)
  run_returns f opening events s =
      let (t, e, u) =
        some_value (λ t. Unit {0}) (run out_of_range new_database f opening events s)
          (run-Returns f opening events s) in
      (t, e)
