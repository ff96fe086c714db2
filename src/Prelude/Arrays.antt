-- ===== src/Prelude/Arrays.antt =====
-- Arrays whose slots are written once they are needed, and chains of steps that may fault.
use Prim.Native.Nat.{ℕ, ◌<◌}
use mathlib.Core.Path.{◌≡◌, refl}
use mathlib.Core.Logic.{◌≢◌}
use mathlib.Core.Option.{Option, none, some}
use native.Mathlib.Omega.{arith}
use contreap.Prelude.Tests.{ltb, ◌==◌, if◌then◌else◌}

infixl 5 ◌>>=◌
abbrev pub ◌>>=◌ {ℓ κ} : {A : Type ℓ} {B : Type κ} → Option A → (A → Option B) → Option B
none >>= f = none
some a >>= f = f a

-- An array of `len` slots, as `new T[len]` makes it: a slot that was never written has no value.
pub record Slots {ℓ} (A : Type ℓ) : Type ℓ where
  pub len : ℕ
  pub at : ℕ → Option A

module _ {ℓ} {A : Type ℓ} where
  abbrev pub new_slots : ℕ → Slots A
  new_slots n = record { len = n; at = λ i. none }

  -- An access out of bounds, or to a slot that was never written, is a fault.
  unfoldable pub read : Slots A → ℕ → Option A
  read a i = if ltb i a.len then a.at i else none

  unfoldable pub write : Slots A → ℕ → A → Option (Slots A)
  write a i x =
      if ltb i a.len then some (record a { at = λ j. if j == i then some x else a.at j }) else none

  -- What a write in bounds leaves behind.
  pub record IsWritten (a a' : Slots A) (i : ℕ) (x : A) : Type ℓ where
    pub len : a'.len ≡ a.len
    pub self : read a' i ≡ some x
    pub others : (j : ℕ) → j ≢ i → read a' j ≡ read a j

  pub write_lem :
      (a : Slots A) (i : ℕ) (x : A)
      → i < a.len
      → (a' : Slots A) × (write a i x ≡ some a') × IsWritten a a' i x
  unfolding write read
  write_lem a i x h = (
    record a { at = λ j. if j == i then some x else a.at j },
    ground arith,
    record { len = refl; self = ground arith; others = λ j n. ground arith },
  )
