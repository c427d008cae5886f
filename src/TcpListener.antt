-- ===== src/TcpListener.antt =====
-- src/tcplistener.cpp and src/filedescriptor.h: the socket that the server accepts connections on. The
-- calls of the operating system are parameters, over a world that each of them may change.
pub mod Descriptors
pub mod Choice
use greylist.Base.{
  [], true, false, none, some, ok, err, suc, ◌∷◌, codes, is_empty, if◌then◌else◌, List, ◌++◌, ℕ,
  Result, Bytes, Option, Bool,
}
use greylist.Base.Int.{negsuc, pos, ℤ}
use greylist.Utils.{show_unsigned}

-- An element of the list that `getaddrinfo` returns.
pub record Address : Type 0 where
  pub family : ℕ
  pub socktype : ℕ
  pub protocol : ℕ
  pub addr : Bytes
  pub addrlen : ℕ

-- What `getaddrinfo` returns: an error number, or a list with at least one address.
pub data Resolved : Type 0 where
  failed : ℤ → Resolved
  found : Address → List Address → Resolved

-- The calls. `socket` gives no descriptor when it fails; `bind` and `close` return whether they
-- returned 0. The results of `setsockopt` and `listen` are not read.
pub record Calls (W : Type 0) : Type 0 where
  pub getaddrinfo : Option Bytes → Bytes → W → Resolved × W
  pub freeaddrinfo : W → W
  pub socket : Address → W → Option ℕ × W
  pub setsockopt : ℕ → W → W
  pub bind : ℕ → Address → W → Bool × W
  pub listen : ℕ → ℕ → W → W
  pub close : ℤ → W → Bool × W
  pub errno : W → ℕ
  pub strerror : ℕ → Bytes
  pub gai_strerror : ℤ → Bytes

-- `TCPListener` with its `FileDescriptor`, whose `_fd` is -1 until it is set.
pub record TcpListener : Type 0 where
  pub host : Bytes
  pub port : Bytes
  pub backlog : ℕ
  pub addrlen : Option ℕ
  pub fd : ℤ

-- The constructor.
unfoldable pub create : Bytes → Bytes → TcpListener
create host port = record {
  host = host;
  port = port;
  backlog = 1024;
  addrlen = none;
  fd = negsuc 0;
}

-- How the loop ends: with a bound socket, or with `res` at the end of the list and `op` and `error`.
pub data Attempt : Type 0 where
  bound : ℕ → Address → Attempt
  exhausted : Bytes → ℕ → Attempt

-- `host`: `NULL` for an empty string.
abbrev pub null_if_empty : Bytes → Option Bytes
null_if_empty host = if is_empty host then none else some host

-- An `int` in a stream.
abbrev show_int : ℤ → Bytes
unfolding show_unsigned
show_int (pos n) = show_unsigned n
show_int (negsuc n) = codes "-" ++ show_unsigned (suc n)

module _ {W : Type 0} (os : Calls W) where
  -- From the call of `bind` on.
  unfoldable pub or_next : ℕ → Address → Bool × W → (W → Attempt × W) → Attempt × W
  or_next fd a (true, w) next = (bound fd a, w)
  or_next fd a (false, w) next = next (os.close (pos fd) w).1

  -- The loop, from the element at `res` on.
  unfoldable pub try_addresses : Bytes → ℕ → List Address → W → Attempt × W
  unfolding or_next
  try_addresses op error [] w = (exhausted op error, w)
  try_addresses op error (a ∷ rest) w =
      let (s, w') = os.socket a w in
      elim s [
        | none ↦ try_addresses (codes "listen") (os.errno w') rest w'
        | some fd ↦ or_next fd a (os.bind fd a (os.setsockopt fd w')) (try_addresses op error rest)
      ]

  -- The text of the exceptions.
  unfoldable pub failure : Bytes → TcpListener → Bytes → Bytes → Bytes
  failure op l text number =
      op
      ++ codes " error for "
      ++ l.host
      ++ codes ":"
      ++ l.port
      ++ codes ": "
      ++ text
      ++ codes "("
      ++ number
      ++ codes ")"

  -- What follows the loop.
  unfoldable pub conclude : TcpListener → Attempt × W → Result TcpListener × W
  unfolding failure show_unsigned
  conclude l (bound fd a, w) = (
    ok (record l { addrlen = some a.addrlen; fd = pos fd }),
    os.freeaddrinfo (os.listen fd l.backlog w),
  )
  conclude l (exhausted op error, w) =
      (err (failure op l (os.strerror error) (show_unsigned error)), w)

  unfoldable pub resolved : TcpListener → Resolved × W → Result TcpListener × W
  unfolding failure conclude try_addresses
  resolved l (failed n, w) =
      (err (failure (codes "tcp_listen getaddrinfo") l (os.gai_strerror n) (show_int n)), w)
  resolved l (found a rest, w) =
      conclude l (try_addresses (codes "getaddrinfo") (os.errno w) (a ∷ rest) w)

  -- `open`. The assertion that `_fd` is -1 is not a step of its own: the only caller has just
  -- created the listener.
  unfoldable pub open_listener : TcpListener → W → Result TcpListener × W
  unfolding resolved
  open_listener l w = resolved l (os.getaddrinfo (null_if_empty l.host) l.port w)

  -- `close`; an error is reported on `cerr`, and `_fd` stays.
  unfoldable pub close_listener : TcpListener → W → Bool × W
  close_listener l w = os.close l.fd w
