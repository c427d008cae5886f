-- ===== src/Base/OrdMap.antt =====
-- `std::map`: an association list in the order of the keys.
use mathlib.Core.Bool.{false, Bool, true}
use mathlib.Core.List.{List, [], ◌∷◌}
use mathlib.Core.Logic.{◌↔◌}
use mathlib.Core.Option.{Option, none, some}
use mathlib.Core.Path.{◌≡◌, refl}
use native.Mathlib.Omega.{arith}
use Prim.Native.Nat.{ℕ}
use greylist.Base.Tests.{ltb, ◌==◌, ==_iff, if◌then◌else◌, is_some}
use greylist.Base.Text.{Bytes, equal, equal_iff, less}

pub record Key (K : Type 0) : Type 0 where
  pub before : K → K → Bool
  pub same : K → K → Bool
  pub same_iff : (a b : K) → (same a b ≡ true) ↔ (a ≡ b)

instance abbrev pub nat_key : Key ℕ
nat_key = record { before = ltb; same = ◌==◌; same_iff = ==_iff }

instance abbrev pub bytes_key : Key Bytes
bytes_key = record { before = less; same = equal; same_iff = equal_iff }

abbrev pub OrdMap : Type 0 → Type 0 → Type 0
OrdMap K V = List (K × V)

module _ {K V : Type 0} ⦃k : Key K⦄ where
  -- `find`, with `end()` as `none`.
  unfoldable pub find : K → OrdMap K V → Option V
  find a [] = none
  find a ((b, v) ∷ m) = if k.same a b then some v else find a m

  unfoldable pub place : K → V → OrdMap K V → OrdMap K V
  place a v [] = (a, v) ∷ []
  place a v ((b, w) ∷ m) = if k.before a b then (a, v) ∷ (b, w) ∷ m else (b, w) ∷ place a v m

  -- `insert`: the pair is put in its place, unless the key is there already.
  unfoldable pub insert : K → V → OrdMap K V → OrdMap K V
  unfolding find place
  insert a v m = if is_some (find a m) then m else place a v m

  -- `erase` by the key.
  unfoldable pub erase : K → OrdMap K V → OrdMap K V
  erase a [] = []
  erase a ((b, w) ∷ m) = if k.same a b then m else (b, w) ∷ erase a m

  pub find-place :
      (a b : K) (v : V) (m : OrdMap K V)
      → find b m ≡ none
      → find a (place b v m) ≡ (if k.same a b then some v else find a m)
  unfolding find place
  find-place a b v [] h = refl
  find-place a b v ((c, w) ∷ m) h =
      ground (arith, find-place a b v m, k.same_iff a b, k.same_iff a c, k.same_iff b c)

  -- The first value stays.
  pub find-insert :
      (a b : K) (v : V) (m : OrdMap K V)
      → find a (insert b v m)
        ≡ (if is_some (find b m) then find a m else if k.same a b then some v else find a m)
  unfolding insert
  find-insert a b v m = ground (arith, find-place a b v m)

  -- Each key once.
  abbrev pub Unique : OrdMap K V → Type 0
  Unique [] = Unit
  Unique ((b, w) ∷ m) = (find b m ≡ none) × Unique m

  find-erase_ne : (a b : K) (m : OrdMap K V) → k.same a b ≡ false → find a (erase b m) ≡ find a m
  unfolding find erase
  find-erase_ne a b [] h = refl
  find-erase_ne a b ((c, w) ∷ m) h =
      ground (arith, find-erase_ne a b m, k.same_iff a b, k.same_iff a c, k.same_iff b c)

  find-erase_self : (a : K) (m : OrdMap K V) → Unique m → find a (erase a m) ≡ none
  unfolding find erase
  find-erase_self a [] u = refl
  find-erase_self a ((c, w) ∷ m) u = ground (arith, find-erase_self a m u.1, k.same_iff a c)

  pub find-erase :
      (a b : K) (m : OrdMap K V)
      → Unique m
      → find a (erase b m) ≡ (if k.same a b then none else find a m)
  find-erase a b m u = ground (arith, find-erase_self a m u, find-erase_ne a b m, k.same_iff a b)

  pub Unique-erase : (a : K) (m : OrdMap K V) → Unique m → Unique (erase a m)
  unfolding erase
  Unique-erase a [] u = tt
  Unique-erase a ((c, w) ∷ m) u =
      ground (arith, Unique-erase a m u.1, find-erase_ne c a m, k.same_iff c a, k.same_iff a c)

  place-Unique :
      (a : K) (v : V) (m : OrdMap K V) → find a m ≡ none → Unique m → Unique (place a v m)
  unfolding find place
  place-Unique a v [] h u = ground arith
  place-Unique a v ((c, w) ∷ m) h u =
      ground (arith, place-Unique a v m, find-place c a v m, k.same_iff c a, k.same_iff a c)

  -- Insertion keeps the keys apart.
  pub insert-Unique : (a : K) (v : V) (m : OrdMap K V) → Unique m → Unique (insert a v m)
  unfolding insert
  insert-Unique a v m u = ground (arith, place-Unique a v m)

  pub find_nothing : (m : OrdMap K V) → ((a : K) → find a m ≡ none) → m ≡ []
  unfolding find
  find_nothing [] h = refl
  find_nothing ((c, w) ∷ m) h = ground (arith, h c, k.same_iff c c)
