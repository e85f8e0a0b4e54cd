-- ===== src/Prelude/Results.antt =====
-- Calls that may fail: `none` is the failure.
use mathlib.Core.Option.{Option, none, some}

infixl 5 ◌>>=◌
abbrev pub ◌>>=◌ {ℓ κ} : {A : Type ℓ} {B : Type κ} → Option A → (A → Option B) → Option B
none >>= f = none
some a >>= f = f a

-- What an option holds, if anything, has the property.
abbrev pub Yields {ℓ κ} : {A : Type ℓ} → Option A → (A → Type κ) → Type κ
Yields none P = Unit
Yields (some a) P = P a

pub Yields-bind {ℓ κ μ ν} :
    {A : Type ℓ} {B : Type κ} (o : Option A) (f : A → Option B) (Q : A → Type μ) (P : B → Type ν)
    → Yields o Q
    → ((a : A) → Q a → Yields (f a) P)
    → Yields (o >>= f) P
Yields-bind none f Q P h g = tt
Yields-bind (some a) f Q P h g = g a h

pub Yields-any {ℓ} : {A : Type ℓ} (o : Option A) → Yields o (λ a. Unit {0})
Yields-any none = tt
Yields-any (some a) = tt
