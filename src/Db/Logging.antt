-- ===== src/Db/Logging.antt =====
-- The messages of the backends that show the sum `t->aug` of a tree: a build that prints them reads it
-- through a null pointer where the tree is empty.
use contreap.Prelude.{
  ℕ, ◌≡◌, ◌<◌, ◌⊎◌, inl, inr, refl, arith, Bool, true, false, Option, none, some,
}
use contreap.Tree.{Tree, null, node, Keyed, bag}
use contreap.Log.{enabled, debug}

abbrev pub read_aug {ℓ κ} : {C : Type ℓ} {A : Type κ} → Bool → Tree C → A → Option A
read_aug false t a = some a
read_aug true null a = none
read_aug true (node c l r) a = some a

-- `log_debug` of `t->aug`, and what comes after it.
abbrev pub log_aug {ℓ κ} : {C : Type ℓ} {A : Type κ} → ℕ → Tree C → A → Option A
log_aug log_level t a = read_aug (enabled log_level debug) t a

-- The messages can be printed: either the build leaves them out, or the database has a key.
abbrev pub CanLog : ℕ → (ℕ → ℕ) → Type 0
CanLog log_level copies = (enabled log_level debug ≡ false) ⊎ ((j : ℕ) × (0 < copies j))

read_aug-some {ℓ κ} :
    {C : Type ℓ} {A : Type κ} ⦃k : Keyed C⦄ (shown : Bool) (t : Tree C) (a : A) (j : ℕ)
    → 0 < bag t j
    → read_aug shown t a ≡ some a
read_aug-some false t a j h = refl
read_aug-some true null a j h = absurd (omega (arith, h))
read_aug-some true (node c l r) a j h = refl

pub log_aug-some {ℓ κ} :
    {C : Type ℓ} {A : Type κ} ⦃k : Keyed C⦄ (log_level : ℕ) (copies : ℕ → ℕ) (t : Tree C) (a : A)
    → ((j : ℕ) → bag t j ≡ copies j)
    → CanLog log_level copies
    → log_aug log_level t a ≡ some a
log_aug-some log_level copies t a holds (inl off) = rw (off, read_aug) refl
log_aug-some log_level copies t a holds (inr (j, pos)) =
    read_aug-some (enabled log_level debug) t a j (omega (arith, holds j, pos))
