-- ===== src/Base/Options.antt =====
-- Predicates on options.
use mathlib.Core.Option.{Option, none, some}
use mathlib.Core.Path.{◌≡◌, refl, subst}

pub some-injective {ℓ} : {A : Type ℓ} {a b : A} → some a ≡ some b → a ≡ b
some-injective e = cc

-- The predicate holds of the value, if there is one.
abbrev pub AllSome : {A : Type 0} → (A → Type 0) → Option A → Type 0
AllSome P none = Unit {0}
AllSome P (some a) = P a

-- There is a value, and the predicate holds of it.
abbrev pub Returns : {A : Type 0} → (A → Type 0) → Option A → Type 0
Returns P none = ⊥
Returns P (some a) = P a

pub some_value :
    {A : Type 0} (P : A → Type 0) (o : Option A) → Returns P o → (a : A) × (o ≡ some a) × P a
some_value P none h = elim h [ ]
some_value P (some a) h = (a, refl, h)

pub AllSome-some :
    {A : Type 0} (P : A → Type 0) {o : Option A} {a : A} → o ≡ some a → AllSome P o → P a
AllSome-some P e h = subst (AllSome P) e h
