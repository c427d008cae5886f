-- ===== src/Daemon/Table.antt =====
-- The descriptors of the process, from one server to the next.
use greylist.Base.{
  ℕ, ◌≡◌, refl, ap, ◌∙◌, subst, inl, inr, Option, none, some, List, [], ◌∷◌, arith, Option-cases,
  Bytes, Result, ok, err, AllSome, AllSome-some, All, Returns,
}
use greylist.Base.Int.{pos}
use greylist.Base.OrdMap.{OrdMap, bytes_key, nat_key}
use greylist.ConfigFileReader.{Stream}
use greylist.System.{System}
use greylist.System.Config.{read_config}
use greylist.System.Compile.{ServerArgs, listen_of, port_of, Carries, build_server-Carries}
use greylist.System.Run.{Signal, unset, quit, hangup, Outcome, returned, threw, running, retrying}
use greylist.TcpListener.{TcpListener, Calls, create, open_listener, close_listener}
use greylist.TcpListener.Descriptors.{IsLawful, Owns, open_listener-Owns}
use greylist.System.Reload.{rounds-Returns}
use greylist.Daemon.Rounds.{forget, rounds_in-rounds}
use greylist.Daemon.{
  Change, opening, build_in, after_parsing_in, rebuilt, previous_in, or_previous, compile_new_in,
  try_new_in, round_in, after_run, rounds_in,
}

module _ {D W : Type 0} (descriptors : W → List ℕ) (fds : List ℕ) where
  -- The server's listening socket is the only descriptor more.
  abbrev pub Listens : ServerArgs D TcpListener → W → Type 0
  Listens srv w = (fd : ℕ) × (srv.listener.fd ≡ pos fd) × (descriptors w ≡ fd ∷ fds)

  Built : (Result (ServerArgs D TcpListener) × System D) × W → Type 0
  Built ((ok srv, s), w) = Listens srv w
  Built ((err e, s), w) = descriptors w ≡ fds

  -- With a server that runs, its listening socket is the only descriptor more; without one, there
  -- is none.
  pub Ended : (Outcome D TcpListener × System D) × W → Type 0
  Ended ((running srv, s), w) = Listens srv w
  Ended ((returned code, s), w) = descriptors w ≡ fds
  Ended ((threw e, s), w) = descriptors w ≡ fds

-- Apart from the listening socket, a server leaves the table as it was.
abbrev pub IsNeutral : {W : Type 0} → (W → List ℕ) → Change W → Type 0
IsNeutral {W} descriptors c = (w : W) → descriptors (c.serve w) ≡ descriptors w

forget-some :
    {A W : Type 0} (o : Option (A × W))
    → Returns (λ t. Unit {0}) (forget o)
    → (r : A × W) × (o ≡ some r)
forget-some none h = elim h [ ]
forget-some (some r) h = (r, refl)

module _ {D W : Type 0} {os : Calls W} {descriptors : W → List ℕ} (h : IsLawful os descriptors)
    (fds : List ℕ) where
  carried :
      (r : Result TcpListener × W) (b : Result (ServerArgs D TcpListener)) (s : System D)
      → Owns os descriptors fds r
      → Carries r.0 b
      → Built descriptors fds ((b, s), r.1)
  unfolding Owns Built
  carried (ok l, w) (ok srv) s (fd, e, t, closed) c = (fd, ap (λ (x : TcpListener). x.fd) c ∙ e, t)
  carried (ok l, w) (err e) s o c = elim c [ ]
  carried (err e, w) (ok srv) s o c = elim c [ ]
  carried (err e, w) (err e') s o c = o

  build_in-Built :
      (s : System D) (w : W) → descriptors w ≡ fds → Built descriptors fds (build_in os s w)
  unfolding build_in opening
  build_in-Built s w e =
      let l = create (listen_of s) (port_of s) in
      carried (open_listener os l w) _ _
        (subst (λ f. Owns os descriptors f (open_listener os l w)) e (open_listener-Owns h l w))
        (build_server-Carries (opening os w) s)

  after_parsing_in-Built :
      (r : Option (Result (Unit {0}) × System D)) (w : W)
      → descriptors w ≡ fds
      → AllSome (Built descriptors fds) (after_parsing_in os r w)
  unfolding after_parsing_in Built
  after_parsing_in-Built none w e = tt
  after_parsing_in-Built (some (ok u, s)) w e = build_in-Built s w e
  after_parsing_in-Built (some (err x, s)) w e = e

  rebuilt-Ended :
      (b : (Result (ServerArgs D TcpListener) × System D) × W)
      → Built descriptors fds b
      → AllSome (Ended descriptors fds) (rebuilt b)
  unfolding rebuilt Built Ended
  rebuilt-Ended ((ok srv, t), w) k = k
  rebuilt-Ended ((err e, t), w) k = k

  or_previous-Ended :
      (s : System D) (b : Option ((Result (ServerArgs D TcpListener) × System D) × W))
      → AllSome (Built descriptors fds) b
      → AllSome (Ended descriptors fds) (or_previous os s b)
  unfolding or_previous previous_in Built Ended
  or_previous-Ended s none k = tt
  or_previous-Ended s (some ((ok srv, t), w)) k = k
  or_previous-Ended s (some ((err e, t), w)) k =
      rebuilt-Ended _
        (build_in-Built (retrying e (record t { core = s.core; settings = s.settings })) w k)

  closing :
      (c : Change W) (srv : ServerArgs D TcpListener) (w : W)
      → IsNeutral descriptors c
      → Listens descriptors fds srv w
      → descriptors (after_run os c srv w) ≡ fds
  unfolding close_listener
  closing c srv w n (fd, e, t) = rw e (h.close_eq fd (c.serve w) ∙ rw (n w, t) (ground arith))

  module _ (out_of_range : Bytes) (new_database : OrdMap Bytes Bytes → ℕ → Result D) where
    compile_new_in-Built :
        (f : Stream) (s : System D) (w : W)
        → descriptors w ≡ fds
        → AllSome (Built descriptors fds) (compile_new_in os out_of_range new_database f s w)
    unfolding compile_new_in
    compile_new_in-Built f s w e = elim (Option-cases (read_config f)) [
      | inl e' ↦ rw (e', compile_new_in) tt
      | inr ((lines, f'), e') ↦ rw (e', compile_new_in) (after_parsing_in-Built _ w e)
    ]

    try_new_in-Built :
        (r : Result Stream) (s : System D) (w : W)
        → descriptors w ≡ fds
        → AllSome (Built descriptors fds) (try_new_in os out_of_range new_database r s w)
    unfolding try_new_in Built
    try_new_in-Built (ok f) s w e = compile_new_in-Built f s w e
    try_new_in-Built (err x) s w e = e

    round_in-Ended :
        (signal : Signal) (c : Change W) (s : System D) (w : W)
        → descriptors w ≡ fds
        → AllSome (Ended descriptors fds) (round_in os out_of_range new_database signal c s w)
    unfolding round_in Ended
    round_in-Ended unset c s w e = e
    round_in-Ended quit c s w e = e
    round_in-Ended hangup c s w e = or_previous-Ended s _ (try_new_in-Built c.reloaded s w e)

    continued :
        (c : Change W) (changes : List (Change W)) (srv : ServerArgs D TcpListener) (s : System D)
        (w : W) (r : (Outcome D TcpListener × System D) × W)
        → round_in os out_of_range new_database c.signal c s (after_run os c srv w) ≡ some r
        → Ended descriptors fds r
        → ((srv : ServerArgs D TcpListener) (s : System D) (w : W)
            → Listens descriptors fds srv w
            → AllSome
                (Ended descriptors fds)
                (rounds_in os out_of_range new_database changes srv s w))
        → AllSome
            (Ended descriptors fds)
            (rounds_in os out_of_range new_database (c ∷ changes) srv s w)
    unfolding rounds_in Ended
    continued c changes srv s w ((running srv', s'), w') e k ih =
        rw (e, rounds_in) (ih srv' s' w' k)
    continued c changes srv s w ((returned code, s'), w') e k ih = rw (e, rounds_in) k
    continued c changes srv s w ((threw x, s'), w') e k ih = rw (e, rounds_in) k

    kept :
        (changes : List (Change W)) (srv : ServerArgs D TcpListener) (s : System D) (w : W)
        → All (IsNeutral descriptors) changes
        → Listens descriptors fds srv w
        → AllSome (Ended descriptors fds) (rounds_in os out_of_range new_database changes srv s w)
    unfolding rounds_in Ended
    kept [] srv s w n k = k
    kept (c ∷ changes) srv s w (n, ns) k =
        elim (Option-cases
          (round_in os out_of_range new_database c.signal c s (after_run os c srv w))) [
            | inl e ↦ rw (e, rounds_in) tt
            | inr (r, e) ↦
                continued c changes srv s w r e
                  (AllSome-some (Ended descriptors fds) e
                    (round_in-Ended c.signal c s _ (closing c srv w n k)))
                  (λ srv s w. kept changes srv s w ns)
          ]

    -- If the calls of the system change the table of open descriptors as `IsLawful` says, and each
    -- server leaves it as it was, apart from its listening socket: for every sequence of signals
    -- and files, whichever reloads fail, and at whatever point, the loop of `System::run` gets to
    -- the end of the sequence or ends before; a server that then runs has a listening socket, the
    -- only descriptor more than the rest; and when `run` has ended there is none.
    pub rounds_in-Ended :
        (changes : List (Change W)) (srv : ServerArgs D TcpListener) (s : System D) (w : W)
        → All (IsNeutral descriptors) changes
        → Listens descriptors fds srv w
        → (r : (Outcome D TcpListener × System D) × W) × (rounds_in os out_of_range new_database
              changes srv s w
            ≡ some r)
          × Ended descriptors fds r
    rounds_in-Ended changes srv s w n k =
        let (events, e) = rounds_in-rounds os out_of_range new_database changes srv s w in
        let (r, e') = forget-some _ (
          subst (Returns (λ t. Unit {0})) e
            (rounds-Returns out_of_range new_database events srv s)) in
        (r, e', AllSome-some (Ended descriptors fds) e' (kept changes srv s w n k))
