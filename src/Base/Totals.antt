-- ===== src/Base/Totals.antt =====
-- Sums of a weight over a list.
use Prim.Native.Nat.{ℕ, ◌+◌, ◌≤◌, ◌<◌}
use greylist.Base.Tests.{◌==◌, if◌then◌else◌}
use mathlib.Core.Path.{◌≡◌, ap}
use mathlib.Core.List.{List, [], ◌∷◌, ◌++◌}
use native.Mathlib.Omega.{arith}

module _ {ℓ} {A : Type ℓ} where
  abbrev pub total : (A → ℕ) → List A → ℕ
  total f [] = 0
  total f (p ∷ ps) = f p + total f ps

  pub total-append : (f : A → ℕ) (ps qs : List A) → total f (ps ++ qs) ≡ total f ps + total f qs
  total-append f [] qs = omega arith
  total-append f (p ∷ ps) qs = omega (arith, total-append f ps qs)

  pub total_mono : (f g : A → ℕ) (ps : List A) → ((p : A) → f p ≤ g p) → total f ps ≤ total g ps
  total_mono f g [] h = omega arith
  total_mono f g (p ∷ ps) h = omega (arith, h p, total_mono f g ps h)

  pub total-split :
      (f : A → ℕ) (ws xs ys : List A) (p : A)
      → ws ≡ xs ++ p ∷ ys
      → total f ws ≡ total f xs + f p + total f ys
  total-split f ws xs ys p e = omega (arith, ap (total f) e, total-append f xs (p ∷ ys))

-- The number of times that a number occurs.
abbrev pub is_same : ℕ → ℕ → ℕ
is_same a x = if x == a then 1 else 0

abbrev pub occurrences : ℕ → List ℕ → ℕ
occurrences a = total (is_same a)

-- One occurrence fewer.
abbrev pub without : ℕ → List ℕ → List ℕ
without a [] = []
without a (x ∷ xs) = if x == a then xs else x ∷ without a xs

pub occurrences-without :
    (a b : ℕ) (xs : List ℕ)
    → 0 < occurrences b xs
    → occurrences a (without b xs) + is_same a b ≡ occurrences a xs
occurrences-without a b [] h = absurd (omega arith)
occurrences-without a b (x ∷ xs) h = ground (arith, occurrences-without a b xs)
