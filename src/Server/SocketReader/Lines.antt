-- ===== src/Server/SocketReader/Lines.antt =====
-- What one `getline` takes off the socket.
use greylist.Base.{
  refl, ◌⊎◌, inr, inl, Option-cases, append-nil, ℕ, ◌+◌, ◌<◌, ◌≤◌, ◌≡◌, true, [], ◌∷◌, ◌++◌,
  append_assoc, Option, none, some, Bytes, length, arith, count_byte,
}
use greylist.Parser.{Reader}
use greylist.Server.SocketReader.{SocketReader, getline, read_bytes, is_eof, npos_if_zero}

read_bytes-line :
    (s : SocketReader) (str : Bytes) (n : ℕ) (line rest : Bytes)
    → count_byte b'\n' line ≡ 0
    → read_bytes s str n (line ++ b'\n' ∷ rest) ≡ record {
      count = npos_if_zero (n + length line);
      str = str ++ line;
      reader = record s { input = rest };
    }
unfolding read_bytes
read_bytes-line s str n [] rest h = ground (arith, append-nil str)
read_bytes-line s str n (c ∷ line) rest h =
    ground
      (arith, read_bytes-line s (str ++ c ∷ []) (n + 1) line rest, append_assoc str (c ∷ []) line)

read_bytes-closed :
    (s : SocketReader) (str : Bytes) (n : ℕ) (line : Bytes)
    → count_byte b'\n' line ≡ 0
    → ((read_bytes s str n line).count ≡ npos_if_zero (n + length line))
      × ((read_bytes s str n line).str ≡ str ++ line)
      × ((read_bytes s str n line).reader.eof ≡ true)
      × ((read_bytes s str n line).reader.input ≡ [])
unfolding read_bytes
read_bytes-closed s str n [] h = ground (arith, append-nil str)
read_bytes-closed s str n (c ∷ line) h =
    ground (arith, read_bytes-closed s (str ++ c ∷ []) (n + 1) line, append_assoc str (c ∷ []) line)

-- If the input is a line without a newline, a newline and a rest, `getline` returns the line and
-- its length, or `npos` for an empty line, and leaves a reader that differs in the input alone,
-- which is the rest.
pub getline-line :
    (s : SocketReader) (line rest : Bytes)
    → count_byte b'\n' line ≡ 0
    → s.input ≡ line ++ b'\n' ∷ rest
    → getline s ≡ record {
      count = npos_if_zero (length line);
      str = line;
      reader = record s { input = rest };
    }
unfolding getline
getline-line s line rest h e = rw e (rw (read_bytes-line s [] 0 line rest h) (ground arith))

-- If the input has no newline, `getline` returns all of it and its length, or `npos` for no input,
-- notes the end, and leaves no input.
pub getline-last :
    (s : SocketReader)
    → count_byte b'\n' s.input ≡ 0
    → ((getline s).count ≡ npos_if_zero (length s.input))
      × ((getline s).str ≡ s.input)
      × ((getline s).reader.eof ≡ true)
      × ((getline s).reader.input ≡ [])
unfolding getline
getline-last s h = ground (arith, read_bytes-closed s [] 0 s.input)

-- The input only shrinks, and by what is read at least.
read_bytes-left :
    (s : SocketReader) (str : Bytes) (n : ℕ) (input : Bytes) (k : ℕ)
    → (read_bytes s str n input).count ≡ some k
    → length (read_bytes s str n input).reader.input + k ≤ length input + n
unfolding read_bytes
read_bytes-left s str n [] k e = ground arith
read_bytes-left s str n (c ∷ input) k e =
    ground (arith, read_bytes-left s (str ++ c ∷ []) (n + 1) input k)

read_bytes-pos :
    (s : SocketReader) (str : Bytes) (n : ℕ) (input : Bytes) (k : ℕ)
    → (read_bytes s str n input).count ≡ some k
    → 0 < k
unfolding read_bytes
read_bytes-pos s str n [] k e = ground arith
read_bytes-pos s str n (c ∷ input) k e =
    ground (arith, read_bytes-pos s (str ++ c ∷ []) (n + 1) input k)

-- A line is read to its newline, or to the end of the input.
pub read_bytes-progress :
    (s : SocketReader) (str : Bytes) (n : ℕ) (input : Bytes)
    → ((read_bytes s str n input).reader.eof ≡ true)
      ⊎ (length (read_bytes s str n input).reader.input < length input)
unfolding read_bytes
read_bytes-progress s str n [] = inl refl
read_bytes-progress s str n (c ∷ input) =
    ground (arith, read_bytes-progress s (str ++ c ∷ []) (n + 1) input)

-- What the parser sees of `getline`.
line_read : Option ℕ → Bytes → Option Bytes
line_read none str = none
line_read (some n) str = some str

unfoldable pub next_line : SocketReader → Option Bytes × SocketReader
unfolding line_read getline
next_line s = (line_read (getline s).count (getline s).str, (getline s).reader)

pub next_line-left :
    (s : SocketReader) (line : Bytes)
    → (next_line s).0 ≡ some line
    → length (next_line s).1.input < length s.input
unfolding next_line
next_line-left s line e = elim (Option-cases (getline s).count) [
  | inl h ↦ cc (rw h at e)
  | inr (k, h) ↦
      unfold getline in
      omega (arith, read_bytes-left s [] 0 s.input k h, read_bytes-pos s [] 0 s.input k h)
]

abbrev pub socket_reader : Reader SocketReader
socket_reader = record {
  getline = next_line;
  is_eof = is_eof;
  left = λ s. length s.input;
  left-getline = next_line-left;
}
