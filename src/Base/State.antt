-- ===== src/Base/State.antt =====
-- Calls that change a state and may throw. An exception keeps what was written before it.
use mathlib.Core.Path.{◌≡◌, refl}
use mathlib.Core.List.{List}
use Prim.Native.Nat.{ℕ}
use greylist.Base.Throw.{Result, ok, err}

abbrev pub Run : Type 0 → Type 0 → Type 0
Run S A = S → Result A × S

infixl 5 ◌>>=◌ ◌>>◌
abbrev pub ◌>>=◌ : {S A B : Type 0} → Run S A → (A → Run S B) → Run S B
◌>>=◌ m f s = let (r, s') = m s in elim r [ ok a ↦ f a s' | err e ↦ (err e, s') ]

abbrev pub ◌>>◌ : {S A B : Type 0} → Run S A → Run S B → Run S B
m >> k = m >>= λ _. k

module _ {S A : Type 0} where
  abbrev pub pure : A → Run S A
  pure a s = (ok a, s)

  abbrev pub throw : List ℕ → Run S A
  throw e s = (err e, s)

abbrev pub modify : {S : Type 0} → (S → S) → Run S (Unit {0})
modify f s = (ok tt, f s)

-- A check, and a look at the state.
abbrev pub lift : {S A : Type 0} → Result A → Run S A
lift r s = (r, s)

abbrev pub asks : {S A : Type 0} → (S → A) → Run S A
asks f s = (ok (f s), s)

-- The call keeps the property, whether it throws or not.
pub record IsKept {S A : Type 0} (I : S → Type 0) (m : Run S A) : Type 0 where
  pub at : (s : S) → I s → I (m s).1

module _ {S : Type 0} {I : S → Type 0} where
  bound :
      {A B : Type 0} {f : A → Run S B} (r : Result A × S)
      → I r.1
      → ((a : A) → IsKept I (f a))
      → I (((λ s. r) >>= f) r.1).1
  bound (ok a, s) i h = (h a).at s i
  bound (err e, s) i h = i

  pub >>=-IsKept :
      {A B : Type 0} {m : Run S A} {f : A → Run S B}
      → IsKept I m
      → ((a : A) → IsKept I (f a))
      → IsKept I (m >>= f)
  >>=-IsKept {m} {f} k h = record { at = λ s i. bound (m s) (k.at s i) h }

  pub lift-IsKept :
      {A B : Type 0} {r : Result A} {f : A → Run S B}
      → ((a : A) → r ≡ ok a → IsKept I (f a))
      → IsKept I (lift r >>= f)
  lift-IsKept {r = ok a} {f} h = record { at = (h a refl).at }
  lift-IsKept {r = err e} {f} h = record { at = λ s i. i }

  pub asks-IsKept :
      {A B : Type 0} {g : S → A} {f : A → Run S B}
      → ((a : A) → IsKept I (f a))
      → IsKept I (asks g >>= f)
  asks-IsKept {g} h = record { at = λ s i. (h (g s)).at s i }

  pub modify-IsKept :
      {B : Type 0} {g : S → S} {k : Run S B}
      → ((s : S) → I s → I (g s))
      → IsKept I k
      → IsKept I (modify g >> k)
  modify-IsKept {g} h k = record { at = λ s i. k.at (g s) (h s i) }

  pub pure-IsKept : {A : Type 0} {a : A} → IsKept I (pure a)
  pure-IsKept = record { at = λ s i. i }

  pub throw-IsKept : {A : Type 0} {e : List ℕ} → IsKept I (throw {A = A} e)
  throw-IsKept = record { at = λ s i. i }
