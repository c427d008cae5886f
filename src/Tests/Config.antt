-- ===== src/Tests/Config.antt =====
-- An entry with its newline, and one at the end of its file.
use greylist.Base.{◌≡◌, refl, false, [], some, codes, arith, All}
use greylist.ConfigFileReader.{getline}
use greylist.ConfigFileReader.Lines.{IsKeyByte, IsValueByte, getline-entry, getline-unfinished}
use greylist.Utils.{to_lower, lowercase}

letter : IsKeyByte b'D'
unfolding to_lower
letter = (omega arith, omega arith, omega arith, omega arith)

value : All IsValueByte (codes "A ")
value = ((omega arith, omega arith), ((omega arith, omega arith), tt))

getline-entry_example : getline [] (record { input = codes "D=A b\nrest"; eof = false }) ≡ record {
  count = some 5;
  text = codes "d=A b";
  stream = record { input = codes "rest"; eof = false };
}
unfolding lowercase
getline-entry_example =
    getline-entry (record { input = codes "D=A b\nrest"; eof = false }) (codes "D") (codes "A ")
      b'b' [] (codes "rest") (letter, tt) value (omega arith, omega arith) (omega arith) refl refl

getline-unfinished_example :
    (getline [] (record { input = codes "D=A b"; eof = false })).text ≡ codes "d=A bb"
unfolding lowercase
getline-unfinished_example =
    getline-unfinished (record { input = codes "D=A b"; eof = false }) (codes "D") (codes "A ") b'b'
      [] (letter, tt) value (omega arith, omega arith) (omega arith) refl refl
