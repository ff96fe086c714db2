-- ===== src/Db/Interface.antt =====
-- db/include/interface.hpp, and what a sequence of its calls means.
use contreap.Prelude.{ℕ, zero, suc, List, [], ◌∷◌}
use contreap.Treap.Update.{plus, minus}

-- The calls that change or read a database once it is initialised.
pub data Call : Type 0 where
  query : ℕ → ℕ → Call
  insert delete : ℕ → Call

-- The abstract database: a number of copies for each key.
abbrev pub apply : Call → (ℕ → ℕ) → ℕ → ℕ
apply (query l r) copies = copies
apply (insert k) copies = plus copies k
apply (delete k) copies = minus copies k

-- Each call makes a version: `history copies calls v` is the database after the first `v` calls.
unfoldable pub history : (ℕ → ℕ) → List Call → ℕ → ℕ → ℕ
history copies calls zero = copies
history copies [] (suc v) = copies
history copies (c ∷ calls) (suc v) = history (apply c copies) calls v
