-- ===== src/Treap/Scheduler/Outcome.antt =====
-- What holds of the outcome of a step.
use contreap.Prelude.{◌≡◌, refl}
use contreap.Treap.Scheduler.Store.{Result, ok, waits, fault, ◌>>=◌}

-- What holds of the result, if there is one.
abbrev pub Then {ℓ κ} : {A : Type ℓ} → (A → Type κ) → Result A → Type κ
Then P (ok a) = P a
Then P waits = Unit
Then P fault = Unit

pub Then-bind {ℓ κ λ'} :
    {A : Type ℓ} {B : Type κ} (P : B → Type λ') (r : Result A) (f : A → Result B)
    → ((a : A) → Then P (f a))
    → Then P (r >>= f)
Then-bind P (ok a) f h = h a
Then-bind P waits f h = tt
Then-bind P fault f h = tt

pub Then-chain {ℓ κ λ' μ} :
    {A : Type ℓ} {B : Type κ} (P : A → Type λ') (Q : B → Type μ) (r : Result A) (f : A → Result B)
    → ((a : A) → P a → Then Q (f a))
    → Then P r
    → Then Q (r >>= f)
Then-chain P Q (ok a) f h p = h a p
Then-chain P Q waits f h p = tt
Then-chain P Q fault f h p = tt

-- The continuation may use where its argument comes from.
pub Then-bind_from {ℓ κ λ'} :
    {A : Type ℓ} {B : Type κ} (P : B → Type λ') (r : Result A) (f : A → Result B)
    → ((a : A) → r ≡ ok a → Then P (f a))
    → Then P (r >>= f)
Then-bind_from P (ok a) f h = h a refl
Then-bind_from P waits f h = tt
Then-bind_from P fault f h = tt

pub Then-both {ℓ κ λ'} :
    {A : Type ℓ} (P : A → Type κ) (Q : A → Type λ') (r : Result A)
    → Then P r
    → Then Q r
    → Then (λ a. P a × Q a) r
Then-both P Q (ok a) p q = (p, q)
Then-both P Q waits p q = tt
Then-both P Q fault p q = tt
