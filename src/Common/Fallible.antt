-- ===== src/Common/Fallible.antt =====
-- A call that returns a value or an error, with its `do` notation.
use mathlib.Core.Path.{◌≡◌, refl}

pub data Result {ℓ} (E : Type 0) (A : Type ℓ) : Type ℓ where
  ok : A → Result E A
  err : E → Result E A

infixl 5 ◌>>=◌
abbrev pub ◌>>=◌ {ℓ κ} :
    {E : Type 0} {A : Type ℓ} {B : Type κ} → Result E A → (A → Result E B) → Result E B
ok a >>= f = f a
err e >>= f = err e

-- A chain that succeeds has a first step that succeeds.
pub bind-eq-ok {ℓ κ} :
    {E : Type 0} {A : Type ℓ} {B : Type κ} (first : Result E A) (next : A → Result E B) {b : B}
    → first >>= next ≡ ok b
    → (mid : A) × (first ≡ ok mid) × (next mid ≡ ok b)
bind-eq-ok (ok mid) next done = (mid, refl, done)
bind-eq-ok (err e) next done = cc

-- A chain that fails does so in its first step, or behind it.
pub data Failure {ℓ κ} {E : Type 0} {A : Type ℓ} {B : Type κ} (first : Result E A)
    (next : A → Result E B) (e : E) : Type (ℓ ⊔ κ) where
  fails_first : first ≡ err e → Failure first next e
  fails_next : (mid : A) → first ≡ ok mid → next mid ≡ err e → Failure first next e

pub bind-eq-err {ℓ κ} :
    {E : Type 0} {A : Type ℓ} {B : Type κ} (first : Result E A) (next : A → Result E B) {e : E}
    → first >>= next ≡ err e
    → Failure first next e
bind-eq-err (ok mid) next failed = fails_next mid refl failed
bind-eq-err (err e) next failed = fails_first (cc failed)
