-- ===== src/Server/SocketReader.antt =====
-- `SocketReader` of src/server.h. The socket is the bytes that its peer will still send, and how it
-- ends: closed by the peer (`read` returns 0), or failed (`read` returns -1 and sets `errno`).
pub mod Lines
use greylist.Base.{
  ℕ, ◌+◌, ◌≡◌, Bool, true, false, List, [], ◌∷◌, ◌++◌, Option, none, some, ◌==◌, if◌then◌else◌,
  Bytes,
}

pub data End : Type 0 where
  closed : End
  failed : ℕ → End

pub record SocketReader : Type 0 where
  pub input : Bytes
  pub end : End
  pub eof : Bool
  pub errno : Option ℕ

-- What `getline` returns, the string that it fills, and the reader after it.
pub record Line : Type 0 where
  pub count : Option ℕ
  pub str : Bytes
  pub reader : SocketReader

unfoldable pub open_socket : Bytes → End → SocketReader
open_socket input end = record { input = input; end = end; eof = false; errno = none }

unfoldable pub is_eof : SocketReader → Bool
is_eof s = s.eof

set_errno : End → Option ℕ → Option ℕ
set_errno closed errno = errno
set_errno (failed e) errno = some e

-- `n`, or `npos` for nothing read.
abbrev pub npos_if_zero : ℕ → Option ℕ
npos_if_zero n = if n == 0 then none else some n

pub read_bytes : SocketReader → Bytes → ℕ → Bytes → Line
unfolding set_errno
read_bytes s str n [] = record {
  count = npos_if_zero n;
  str = str;
  reader = record s { input = []; eof = true; errno = set_errno s.end s.errno };
}
read_bytes s str n (c ∷ input) =
    let rest = read_bytes s (str ++ c ∷ []) (n + 1) input in
    if c == b'\n'
    then record { count = npos_if_zero n; str = str; reader = record s { input = input } }
    else rest

unfoldable pub getline : SocketReader → Line
unfolding read_bytes
getline s = read_bytes s [] 0 s.input
