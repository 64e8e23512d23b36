-- ===== src/Prelude/Panics.antt =====
-- Code that may panic: `expect`, `unwrap` and an index out of range end in `panic`.
use mathlib.Core.Path.{◌≡◌, refl}
use mathlib.Core.Option.{Option, none, some}

pub data Outcome {ℓ} (A : Type ℓ) : Type ℓ where
  ok : A → Outcome A
  panic : Outcome A

infixl 5 ◌>>=◌
abbrev pub ◌>>=◌ {ℓ κ} : {A : Type ℓ} {B : Type κ} → Outcome A → (A → Outcome B) → Outcome B
ok a >>= f = f a
panic >>= f = panic

-- `Option::expect` and `Option::unwrap`
abbrev pub expect {ℓ} : {A : Type ℓ} → Option A → Outcome A
expect none = panic
expect (some a) = ok a

-- Inversion of a run that did not panic.
pub >>=-eq-ok {ℓ κ} :
    {A : Type ℓ} {B : Type κ} (m : Outcome A) (f : A → Outcome B) (b : B)
    → (m >>= f) ≡ ok b
    → (a : A) × (m ≡ ok a) × (f a ≡ ok b)
>>=-eq-ok (ok a) f b h = (a, refl, h)
>>=-eq-ok panic f b h = cc

-- What holds of the result, if there is one.
abbrev pub IfOk {ℓ κ} : {A : Type ℓ} → Outcome A → (A → Type κ) → Type κ
IfOk (ok a) P = P a
IfOk panic P = Unit

pub IfOk-bind {ℓ κ μ ν} :
    {A : Type ℓ} {B : Type κ} (P : A → Type μ) (Q : B → Type ν) (m : Outcome A) (f : A → Outcome B)
    → IfOk m P
    → ((a : A) → P a → IfOk (f a) Q)
    → IfOk (m >>= f) Q
IfOk-bind P Q (ok a) f h k = k a h
IfOk-bind P Q panic f h k = tt

-- Nothing needs to be known of the first run.
pub IfOk-then {ℓ κ ν} :
    {A : Type ℓ} {B : Type κ} (Q : B → Type ν) (m : Outcome A) (f : A → Outcome B)
    → ((a : A) → IfOk (f a) Q)
    → IfOk (m >>= f) Q
IfOk-then Q (ok a) f k = k a
IfOk-then Q panic f k = tt

pub IfOk-result {ℓ κ} :
    {A : Type ℓ} (P : A → Type κ) (m : Outcome A) (a : A) → IfOk m P → m ≡ ok a → P a
IfOk-result P m a h e = rw e at h

pub IfOk-mono {ℓ κ ν} :
    {A : Type ℓ} (P : A → Type κ) (Q : A → Type ν) (m : Outcome A)
    → IfOk m P
    → ((a : A) → P a → Q a)
    → IfOk m Q
IfOk-mono P Q (ok a) h k = k a h
IfOk-mono P Q panic h k = tt
