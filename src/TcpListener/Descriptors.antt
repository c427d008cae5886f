-- ===== src/TcpListener/Descriptors.antt =====
-- The descriptors that `TCPListener::open` and `close` leave open.
use greylist.Base.{
  ℕ, ◌≡◌, refl, ◌∙◌, inl, inr, Bool, true, false, Option, none, some, List, [], ◌∷◌, arith,
  Option-cases, Bytes, Result, ok, err,
}
use greylist.Base.Totals.{without}
use greylist.TcpListener.{
  resolved, Attempt, open_listener, conclude, try_addresses, or_next, close_listener, Calls,
  TcpListener, Address, Resolved, failed, found, bound, exhausted,
}
use greylist.Base.Int.{pos}

-- The table after a call of `socket`.
abbrev pub with_socket : Option ℕ → List ℕ → List ℕ
with_socket none fds = fds
with_socket (some fd) fds = fd ∷ fds

-- What the calls do to the table of open descriptors of the process, newest first.
pub record IsLawful {W : Type 0} (os : Calls W) (descriptors : W → List ℕ) : Type 0 where
  pub getaddrinfo_eq :
      (host : Option Bytes) (port : Bytes) (w : W)
      → descriptors (os.getaddrinfo host port w).1 ≡ descriptors w
  pub freeaddrinfo_eq : (w : W) → descriptors (os.freeaddrinfo w) ≡ descriptors w
  pub socket_eq :
      (a : Address) (w : W)
      → descriptors (os.socket a w).1 ≡ with_socket (os.socket a w).0 (descriptors w)
  pub setsockopt_eq : (fd : ℕ) (w : W) → descriptors (os.setsockopt fd w) ≡ descriptors w
  pub bind_eq : (fd : ℕ) (a : Address) (w : W) → descriptors (os.bind fd a w).1 ≡ descriptors w
  pub listen_eq : (fd n : ℕ) (w : W) → descriptors (os.listen fd n w) ≡ descriptors w
  pub close_eq : (fd : ℕ) (w : W) → descriptors (os.close (pos fd) w).1 ≡ without fd (descriptors w)

-- A bound socket is the only descriptor more.
Holds : {W : Type 0} → (W → List ℕ) → List ℕ → Attempt × W → Type 0
Holds descriptors fds (bound fd a, w) = descriptors w ≡ fd ∷ fds
Holds descriptors fds (exhausted op error, w) = descriptors w ≡ fds

-- The listener has the only descriptor more, and closing it gives the table back.
unfoldable pub Owns :
    {W : Type 0} → Calls W → (W → List ℕ) → List ℕ → Result TcpListener × W → Type 0
unfolding close_listener
Owns os descriptors fds (ok l, w) =
    (fd : ℕ) × (l.fd ≡ pos fd)
    × (descriptors w ≡ fd ∷ fds)
    × (descriptors (close_listener os l w).1 ≡ fds)
Owns os descriptors fds (err e, w) = descriptors w ≡ fds

module _ {W : Type 0} {os : Calls W} {descriptors : W → List ℕ} (h : IsLawful os descriptors) where
  or_next-Holds :
      (fd : ℕ) (a : Address) (fds : List ℕ) (r : Bool × W) (next : W → Attempt × W)
      → descriptors r.1 ≡ fd ∷ fds
      → ((w : W) → descriptors w ≡ fds → Holds descriptors fds (next w))
      → Holds descriptors fds (or_next os fd a r next)
  unfolding or_next Holds
  or_next-Holds fd a fds (true, w) next e k = e
  or_next-Holds fd a fds (false, w) next e k = k _ (ground (arith, h.close_eq fd w))

  try_addresses-Holds :
      (rest : List Address) (op : Bytes) (error : ℕ) (fds : List ℕ) (w : W)
      → descriptors w ≡ fds
      → Holds descriptors fds (try_addresses os op error rest w)
  unfolding try_addresses Holds
  try_addresses-Holds [] op error fds w e = e
  try_addresses-Holds (a ∷ rest) op error fds w e = elim (Option-cases (os.socket a w).0) [
    | inl e' ↦
        rw (e', try_addresses)
          (try_addresses-Holds rest _ _ fds _ (ground (arith, h.socket_eq a w)))
    | inr (fd, e') ↦
        rw (e', try_addresses)
          (or_next-Holds fd a fds _ _
            (ground (
              arith,
              h.socket_eq a w,
              h.setsockopt_eq fd (os.socket a w).1,
              h.bind_eq fd a (os.setsockopt fd (os.socket a w).1),
            ))
            (try_addresses-Holds rest _ _ fds))
  ]

  conclude-Owns :
      (l : TcpListener) (fds : List ℕ) (r : Attempt × W)
      → Holds descriptors fds r
      → Owns os descriptors fds (conclude os l r)
  unfolding conclude Holds Owns close_listener
  conclude-Owns l fds (bound fd a, w) k =
      let e = h.freeaddrinfo_eq (os.listen fd l.backlog w) ∙ h.listen_eq fd l.backlog w ∙ k in
      (fd, refl, e, ground (arith, h.close_eq fd (os.freeaddrinfo (os.listen fd l.backlog w))))
  conclude-Owns l fds (exhausted op error, w) k = k

  resolved-Owns :
      (l : TcpListener) (fds : List ℕ) (r : Resolved × W)
      → descriptors r.1 ≡ fds
      → Owns os descriptors fds (resolved os l r)
  unfolding resolved Owns
  resolved-Owns l fds (failed n, w) e = e
  resolved-Owns l fds (found a rest, w) e =
      conclude-Owns l fds _ (try_addresses-Holds (a ∷ rest) _ _ fds w e)

  -- If the calls change the table of open descriptors as `IsLawful` says: when `open` throws, the
  -- table is as it was; otherwise it has one descriptor more, the listener's, and `close` gives
  -- back the table as it was. The sockets that could not be bound are closed.
  pub open_listener-Owns :
      (l : TcpListener) (w : W) → Owns os descriptors (descriptors w) (open_listener os l w)
  unfolding open_listener
  open_listener-Owns l w = resolved-Owns l _ _ (h.getaddrinfo_eq _ l.port w)
