-- ===== src/Base/Calls.antt =====
-- How a call of the kernel ends, and the monad of such calls.
use mathlib.Core.Path.{◌≡◌, refl}
use mathlib.Core.Bool.{Bool, true, false}

-- `halted`: an ASSERT failed or EXCEPTION_REPORT was reached, and `exception_report` loops for
-- ever with interrupts off. `stuck`: a loop of the model was given too little fuel, or what a
-- blocked thread waits for never comes, or memory is written that the model does not have.
pub data Run {ℓ} (A : Type ℓ) : Type ℓ where
  ok : A → Run A
  halted : Run A
  stuck : Run A

infixl 5 ◌>>=◌ ◌>>◌
abbrev pub ◌>>=◌ {ℓ κ} : {A : Type ℓ} {B : Type κ} → Run A → (A → Run B) → Run B
ok a >>= f = f a
halted >>= f = halted
stuck >>= f = stuck

abbrev pub ◌>>◌ {ℓ} : {B : Type ℓ} → Run (Unit {0}) → Run B → Run B
m >> k = m >>= λ _. k

-- ASSERT(CONDITION)
abbrev pub assert : Bool → Run (Unit {0})
assert true = ok tt
assert false = halted

-- Total correctness: the call returns, and what it returns has the property.
abbrev pub Returns {ℓ} : {A : Type ℓ} → Run A → (A → Type 0) → Type 0
Returns (ok a) P = P a
Returns halted P = ⊥
Returns stuck P = ⊥

pub Returns-bind {ℓ κ} :
    {A : Type ℓ} {B : Type κ} (m : Run A) (f : A → Run B) (P : A → Type 0) (Q : B → Type 0)
    → Returns m P
    → ((a : A) → P a → Returns (f a) Q)
    → Returns (m >>= f) Q
Returns-bind (ok a) f P Q h g = g a h
Returns-bind halted f P Q h g = elim h [ ]
Returns-bind stuck f P Q h g = elim h [ ]

pub Returns-mono {ℓ} :
    {A : Type ℓ} (m : Run A) (P Q : A → Type 0) → Returns m P → ((a : A) → P a → Q a) → Returns m Q
Returns-mono (ok a) P Q h g = g a h
Returns-mono halted P Q h g = elim h [ ]
Returns-mono stuck P Q h g = elim h [ ]

pub Returns-and {ℓ} :
    {A : Type ℓ} (m : Run A) (P Q : A → Type 0)
    → Returns m P
    → Returns m Q
    → Returns m (λ a. P a × Q a)
Returns-and (ok a) P Q h g = (h, g)
Returns-and halted P Q h g = h
Returns-and stuck P Q h g = h

-- What stops after a call that returns stops.
pub bind-halted {ℓ κ} :
    {A : Type ℓ} {B : Type κ} (m : Run A) (f : A → Run B) (P : A → Type 0)
    → Returns m P
    → ((a : A) → P a → f a ≡ halted)
    → (m >>= f) ≡ halted
bind-halted (ok a) f P h g = g a h
bind-halted halted f P h g = refl
bind-halted stuck f P h g = elim h [ ]

-- If both calls return, the first one does, with a result from which the second one does.
pub Returns-split {ℓ κ} :
    {A : Type ℓ} {B : Type κ} (m : Run A) (f : A → Run B) (P : B → Type 0)
    → Returns (m >>= f) P
    → Returns m (λ a. Returns (f a) P)
Returns-split (ok a) f P h = h
Returns-split halted f P h = elim h [ ]
Returns-split stuck f P h = elim h [ ]
