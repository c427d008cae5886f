-- ===== src/Tests/Listening.antt =====
-- The listening socket on a machine where `localhost` has an IPv6 and an IPv4 address.
use greylist.Base.{
  ℕ, ◌+◌, ◌≡◌, refl, Bool, true, false, not, ◌&&◌, Option, none, some, List, [], ◌∷◌, arith,
  if◌then◌else◌, ◌==◌, codes, ok, err, length, Bytes, Result,
}
use greylist.System.{System}
use greylist.Base.OrdMap.{OrdMap}
use greylist.System.Compile.{ServerArgs}
use greylist.System.Run.{hangup, quit, Outcome}
use greylist.Main.{new_system}
use greylist.Daemon.{Change, rounds_in}
use greylist.Daemon.Table.{Ended, rounds_in-Ended}
use greylist.Base.Totals.{without}
use greylist.TcpListener.{TcpListener, Calls, Address, found, create, open_listener, failure}
use greylist.Base.Int.{ℤ, pos, negsuc}
use greylist.Utils.{show_unsigned}
use greylist.TcpListener.Descriptors.{IsLawful, Owns, with_socket, open_listener-Owns}
use greylist.TcpListener.Choice.{Opened, open_listener-Opened, open_listener-refused}

abbrev v6 : Address
v6 = record { family = 10; socktype = 1; protocol = 6; addr = codes "::1"; addrlen = 28 }

abbrev v4 : Address
v4 = record { family = 2; socktype = 1; protocol = 6; addr = codes "127.0.0.1"; addrlen = 16 }

-- The table of descriptors and `errno`.
record Machine : Type 0 where
  descriptors : List ℕ
  errno : ℕ

-- `EAFNOSUPPORT` without IPv6.
abbrev socket : Bool → Address → Machine → Option ℕ × Machine
socket has_v6 a m = if a.family == 10 && not has_v6 then (none, record m { errno = 97 }) else (
  some (length m.descriptors + 3),
  record m { descriptors = (length m.descriptors + 3) ∷ m.descriptors },
)

-- `EADDRINUSE` on a port that is taken.
abbrev bind : Bool → Machine → Bool × Machine
bind is_free m = if is_free then (true, m) else (false, record m { errno = 98 })

abbrev close : ℤ → Machine → Bool × Machine
close (pos fd) m = (true, record m { descriptors = without fd m.descriptors })
close (negsuc n) m = (false, record m { errno = 9 })

abbrev machine_calls : Bool → Bool → Calls Machine
machine_calls has_v6 is_free = record {
  getaddrinfo = λ host port m. (found v6 (v4 ∷ []), m);
  freeaddrinfo = λ m. m;
  socket = socket has_v6;
  setsockopt = λ fd m. m;
  bind = λ fd a. bind is_free;
  listen = λ fd n m. m;
  close = close;
  errno = λ m. m.errno;
  strerror = λ n. codes "Success";
  gai_strerror = λ n. codes "";
}

socket_eq :
    (has_v6 : Bool) (a : Address) (m : Machine)
    → (socket has_v6 a m).1.descriptors ≡ with_socket (socket has_v6 a m).0 m.descriptors
socket_eq has_v6 a m = ground arith

machine_calls-IsLawful :
    (has_v6 is_free : Bool) → IsLawful (machine_calls has_v6 is_free) (λ m. m.descriptors)
machine_calls-IsLawful has_v6 is_free = record {
  getaddrinfo_eq = λ host port m. refl;
  freeaddrinfo_eq = λ m. refl;
  socket_eq = socket_eq has_v6;
  setsockopt_eq = λ fd m. refl;
  bind_eq = λ fd a m. ground arith;
  listen_eq = λ fd n m. refl;
  close_eq = λ fd m. refl;
}

abbrev booted : Machine
booted = record { descriptors = 0 ∷ []; errno = 0 }

abbrev local : TcpListener
local = create (codes "localhost") (codes "10023")

-- Without IPv6 the listener has the first descriptor on the second address.
local_open : open_listener (machine_calls false true) local booted ≡ (
  ok (record local { addrlen = some 16; fd = pos 4 }),
  record { descriptors = 4 ∷ 0 ∷ []; errno = 97 },
)
unfolding open_listener
local_open = refl

open_listener-Owns_example :
    Owns
      (machine_calls true true)
      (λ m. m.descriptors)
      (0 ∷ [])
      (open_listener (machine_calls true true) local booted)
open_listener-Owns_example = open_listener-Owns (machine_calls-IsLawful true true) local booted

open_listener-Opened_example :
    Opened
      (machine_calls false true)
      local
      (v6 ∷ v4 ∷ [])
      booted
      (open_listener (machine_calls false true) local booted)
open_listener-Opened_example =
    open_listener-Opened (machine_calls false true) local booted booted v6 (v4 ∷ []) refl

-- The port is taken: the message has the number 0 that `errno` had before.
open_listener-refused_example :
    (open_listener (machine_calls true false) local booted).0
    ≡ err (codes "getaddrinfo error for localhost:10023: Success(0)")
unfolding create failure show_unsigned
open_listener-refused_example =
    open_listener-refused (machine_calls true false) local booted booted v6 (v4 ∷ []) refl
      (λ a w. (length w.descriptors + 3, ground arith)) (λ fd a w. refl)

-- The daemon with a socket on this machine: SIGHUP with a file that is gone, then SIGQUIT.
abbrev hangs_up : Change Machine
hangs_up = record {
  signal = hangup;
  socket_error = [];
  reloaded = err (codes "gone");
  serve = λ m. m;
}

abbrev quits : Change Machine
quits = record hangs_up { signal = quit }

abbrev no_database : OrdMap Bytes Bytes → ℕ → Result ℕ
no_database vars dbi = err (codes "no driver")

abbrev on_four : ServerArgs ℕ TcpListener
on_four = record {
  listener = record local { addrlen = some 28; fd = pos 4 };
  core = [];
  spare = 2;
  maximum = 150;
  monitor_refresh = 5;
  cache_refresh = 600;
  max_requests = 0;
  defer_with_status = true;
  defer = [];
  dunno = [];
  on_error = [];
  log_level = 1;
  stats_every = 120;
}

abbrev listening : Machine
listening = record { descriptors = 4 ∷ 0 ∷ []; errno = 0 }

rounds_in-Ended_example :
    (r : (Outcome ℕ TcpListener × System ℕ) × Machine) × (rounds_in
        (machine_calls true true)
        (codes "at")
        no_database
        (hangs_up ∷ quits ∷ [])
        on_four
        new_system
        listening
      ≡ some r)
    × Ended (λ m. m.descriptors) (0 ∷ []) r
rounds_in-Ended_example =
    rounds_in-Ended (machine_calls-IsLawful true true) (0 ∷ []) (codes "at") no_database
      (hangs_up ∷ quits ∷ []) on_four new_system listening ((λ m. refl), ((λ m. refl), tt))
      (4, refl, refl)
