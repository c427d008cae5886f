-- ===== src/Base/Text.antt =====
-- Text as its bytes: what the source uses of `std::string`. Positions are counted from 0, and
-- `std::string::npos` is `none`.
use Prim.Native.Char.{code}
use Prim.Native.Nat.{ℕ, ◌+◌}
use Prim.Native.String.{String}
use mathlib.Core.Bool.{Bool, true, false, ◌&&◌}
use mathlib.Core.List.{List, [], ◌∷◌}
use mathlib.Core.Logic.{◌↔◌}
use mathlib.Core.Option
use mathlib.Core.Option.{Option, none, some}
use mathlib.Core.Path.{◌≡◌}
use native.Mathlib.Omega.{arith}
use greylist.Base.Tests.{ltb, ◌==◌, if◌then◌else◌}
use greylist.Base.Lists.{drop, take}

abbrev pub Bytes : Type 0
Bytes = List ℕ

-- The code points of a literal, which are its bytes: every literal of the source is ASCII.
abbrev pub codes : String → Bytes
codes String.[] = []
codes (String.◌∷◌ c s) = code c ∷ codes s

unfoldable pub equal : Bytes → Bytes → Bool
equal [] [] = true
equal (x ∷ xs) (y ∷ ys) = x == y && equal xs ys
equal _ _ = false

pub equal_iff : (s t : Bytes) → (equal s t ≡ true) ↔ (s ≡ t)
unfolding equal
equal_iff [] [] = ground arith
equal_iff [] (d ∷ t) = ground arith
equal_iff (c ∷ s) [] = ground arith
equal_iff (c ∷ s) (d ∷ t) = ground (arith, equal_iff s t)

-- The order of `std::map<std::string, …>`.
unfoldable pub less : Bytes → Bytes → Bool
less a [] = false
less [] (y ∷ ys) = true
less (x ∷ xs) (y ∷ ys) = if x == y then less xs ys else ltb x y

-- `find(c)`: the position of the first `c`.
unfoldable pub find_byte : ℕ → Bytes → Option ℕ
find_byte c [] = none
find_byte c (x ∷ xs) = if x == c then some 0 else Option.map (λ i. i + 1) (find_byte c xs)

-- `find(c, pos)`.
unfoldable pub find_byte_from : ℕ → ℕ → Bytes → Option ℕ
unfolding find_byte
find_byte_from c pos s = Option.map (λ i. i + pos) (find_byte c (drop pos s))

-- `substr(pos, count)`, for a `pos` within the string.
abbrev pub substr : Bytes → ℕ → ℕ → Bytes
substr s pos count = take count (drop pos s)

-- The number of times that a byte occurs.
abbrev pub count_byte : ℕ → Bytes → ℕ
count_byte c [] = 0
count_byte c (x ∷ xs) = (if x == c then 1 else 0) + count_byte c xs
