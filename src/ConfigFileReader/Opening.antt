-- ===== src/ConfigFileReader/Opening.antt =====
-- The constructor and `reload` of src/configfilereader.h. Opening a file is the library's: a parameter
-- over a world, which gives a stream at the start of the file, or none for a stream that failed.
use greylist.Base.{ℕ, Option, none, some, [], ◌++◌, Bytes, codes, Result, ok, err}
use greylist.ConfigFileReader.{Stream}
use greylist.Utils.{show_unsigned}

pub record Files (W : Type 0) : Type 0 where
  pub open_file : Bytes → W → Option Stream × W
  pub errno : W → ℕ

pub record ConfigFileReader : Type 0 where
  pub stream : Stream
  pub filename : Bytes

-- `errmsg`: `reserve` leaves the size at 0, so that `strerror_r` gets room for nothing, and the string
-- stays empty whatever is written.
unfoldable pub errmsg : ℕ → Bytes
errmsg error = []

unfoldable pub opening_error : Bytes → ℕ → Bytes
unfolding errmsg show_unsigned
opening_error filename error =
    codes "Error opening '"
    ++ filename
    ++ codes "'"
    ++ errmsg error
    ++ codes " ("
    ++ show_unsigned error
    ++ codes ")"

module _ {W : Type 0} (files : Files W) where
  created : Bytes → Option Stream × W → Result ConfigFileReader × W
  unfolding opening_error
  created filename (some f, w) = (ok (record { stream = f; filename = filename }), w)
  created filename (none, w) = (err (opening_error filename (files.errno w)), w)

  -- The constructor.
  unfoldable pub create : Bytes → W → Result ConfigFileReader × W
  unfolding created
  create filename w = created filename (files.open_file filename w)

  reloaded : ConfigFileReader → Option Stream × W → (Result (Unit {0}) × ConfigFileReader) × W
  unfolding opening_error
  reloaded r (some f, w) = ((ok tt, record r { stream = f }), w)
  reloaded r (none, w) = (
    (
      err (opening_error r.filename (files.errno w)),
      record r { stream = record { input = []; eof = r.stream.eof } },
    ),
    w,
  )

  -- A stream that failed to open has nothing to read, and keeps `eof`.
  unfoldable pub reload : ConfigFileReader → W → (Result (Unit {0}) × ConfigFileReader) × W
  unfolding reloaded
  reload r w = reloaded r (files.open_file r.filename w)
