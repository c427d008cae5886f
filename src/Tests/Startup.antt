-- ===== src/Tests/Startup.antt =====
-- The daemon from its start to its end, on a disk with one file.
use greylist.Base.{
  ℕ, ◌≡◌, refl, true, false, Option, none, some, [], ◌∷◌, Bytes, codes, Result, ok, err,
}
use mathlib.Core.Option
use greylist.Base.Int.{negsuc}
use greylist.Base.OrdMap.{OrdMap}
use greylist.ConfigFileReader.Opening.{Files, opening_error}
use greylist.System.Run.{quit, hangup, Event}
use greylist.Main.{Exit, exits, main}
use greylist.Main.Exits.{Fits, main-Fits}
use greylist.Utils.{show_unsigned}

-- The text of the file, if there is one.
abbrev disk : Files (Option Bytes)
disk = record {
  open_file = λ filename w. (Option.map (λ text. record { input = text; eof = false }) w, w);
  errno = λ w. 2;
}

abbrev no_database : OrdMap Bytes Bytes → ℕ → Result ℕ
no_database vars dbi = err (codes "no driver")

abbrev port_of : Bytes → Bytes → Result Bytes
port_of listen port = ok port

abbrev hangs_up : Event Bytes
hangs_up = record {
  signal = hangup;
  socket_error = [];
  reloaded = err (codes "gone");
  open_new = port_of;
  open_previous = port_of;
}

abbrev quits : Event Bytes
quits = record hangs_up { signal = quit }

-- Without a file.
no_file :
    main disk true true true (codes "at") no_database port_of [] none
    ≡ some (exits (negsuc 0) (codes "Exception caught: Error opening '/etc/greylist.cfg' (2)"))
unfolding main opening_error show_unsigned
no_file = refl

main-Fits_example :
    (x : Exit) × (main disk true true true
        (codes "at")
        no_database
        port_of
        (hangs_up ∷ quits ∷ [])
        (some (codes "# all\n"))
      ≡ some x)
    × Fits (hangs_up ∷ quits ∷ []) x
main-Fits_example =
    main-Fits disk true true true (codes "at") no_database port_of (hangs_up ∷ quits ∷ [])
      (some (codes "# all\n"))
