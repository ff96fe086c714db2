-- ===== src/Db/Contreap/Contents.antt =====
-- The versions that a sequence of calls asks the scheduler for hold what the calls say.
use contreap.Prelude.{ℕ, zero, suc, ◌+◌, ◌≡◌, ◌<◌, ◌≤◌, refl, arith, List, [], ◌∷◌, length, u64_mod}
use mathlib.Core.Path.{subst}
use contreap.Tree.{Tree, bag, total}
use contreap.Tree.Order.{IsInjective, IsTreap}
use contreap.Tree.Canonical.{Positive}
use contreap.Treap.Node.{Cell, cell_keyed}
use contreap.Treap.Update.{bag-le-total}
use contreap.Treap.SearchInsert.Invariant.{search_insert-IsTreap}
use contreap.Treap.SearchInsert.Contents.{
  bag-search_insert, total-search_insert, search_insert-Positive,
}
use contreap.Treap.SearchDelete.Invariant.{search_delete-IsTreap}
use contreap.Treap.SearchDelete.Contents.{
  bag-search_delete, total-search_delete, search_delete-Positive,
}
use contreap.Treap.Scheduler.Task.{op_none, op_insert, op_delete}
use contreap.Treap.Scheduler.Machine.{Request}
use contreap.Treap.Scheduler.Protocol.{perform, version_of}
use contreap.Db.Interface.{Call, apply, history}

-- The request of a call, and of the call after so many others; where there is none, no update.
abbrev pub request_of : Call → Request
request_of (Call.query l r) = record { op = op_none; elem = 0 }
request_of (Call.insert k) = record { op = op_insert; elem = k }
request_of (Call.delete k) = record { op = op_delete; elem = k }

unfoldable pub request_at : List Call → ℕ → Request
request_at [] i = record { op = op_none; elem = 0 }
request_at (c ∷ calls) zero = request_of c
request_at (c ∷ calls) (suc i) = request_at calls i

-- The tasks are counted from 1.
abbrev pub program_of : List Call → ℕ → Request
program_of calls zero = record { op = op_none; elem = 0 }
program_of calls (suc i) = request_at calls i

-- A treap that holds these copies; its sums may still be missing.
pub record Stores (hash : ℕ → ℕ) (copies : ℕ → ℕ) (n : ℕ) (t : Tree Cell) : Type 0 where
  pub treap : IsTreap hash t
  pub positive : Positive t
  pub size : total t ≤ n
  pub holds : (j : ℕ) → bag t j ≡ copies j

-- The call after so many others: its request, and what it does to the history.
call_at :
    (calls : List Call) (i : ℕ)
    → i < length calls
    → (c : Call) × (request_at calls i ≡ request_of c)
      × ((copies : ℕ → ℕ) → history copies calls (suc i) ≡ apply c (history copies calls i))
unfolding request_at history
call_at [] i lt = absurd (omega arith)
call_at (c ∷ []) zero lt = (c, refl, λ copies. refl)
call_at (c ∷ d ∷ calls) zero lt = (c, refl, λ copies. refl)
call_at (c ∷ calls) (suc i) lt =
    let (d, asked, history_suc) = call_at calls i (omega arith) in
    (d, asked, λ copies. history_suc (apply c copies))

module _ (hash : ℕ → ℕ) (injective : IsInjective hash) where
  perform-Stores :
      (c : Call) (ver : ℕ) {copies : ℕ → ℕ} {n : ℕ} (t : Tree Cell)
      → n + 1 < u64_mod
      → Stores hash copies n t
      → Stores hash
          (apply c copies)
          (n + 1)
          (perform hash (request_of c).op (request_of c).elem ver t)
  perform-Stores (Call.query l r) ver t w v = record {
    treap = v.treap;
    positive = v.positive;
    size = omega (arith, v.size);
    holds = v.holds;
  }
  perform-Stores (Call.insert key) ver {copies} {n} t w v =
      let room : bag t key + 1 < u64_mod = omega (arith, bag-le-total t key, v.size) in
      record {
        treap = search_insert-IsTreap hash ver key t injective v.treap;
        positive = search_insert-Positive ver (hash key) key t room v.positive;
        size = omega (arith, total-search_insert ver (hash key) key t, v.size);
        holds = λ j. ground (arith, bag-search_insert ver (hash key) key t j room, v.holds j);
      }
  perform-Stores (Call.delete key) ver {copies} {n} t w v =
      let room : total t < u64_mod = omega (arith, v.size) in
      record {
        treap = search_delete-IsTreap hash ver key t injective v.treap;
        positive = search_delete-Positive hash ver key t room v.positive;
        size = omega (arith, total-search_delete hash ver key t room v.positive, v.size);
        holds = λ j. ground (
          arith,
          bag-search_delete hash ver key t j injective v.treap v.positive room,
          v.holds j,
        );
      }

  pub version_of-Stores :
      (calls : List Call) (copies : ℕ → ℕ) (n : ℕ) (t0 : Tree Cell) (i : ℕ)
      → i ≤ length calls
      → n + length calls < u64_mod
      → Stores hash copies n t0
      → Stores hash (history copies calls i) (n + i) (version_of hash (program_of calls) t0 i)
  unfolding version_of history
  version_of-Stores calls copies n t0 zero le w v = record {
    treap = v.treap;
    positive = v.positive;
    size = omega (arith, v.size);
    holds = v.holds;
  }
  version_of-Stores calls copies n t0 (suc i) le w v =
      let (c, asked, history_suc) = call_at calls i (omega arith) in
      let t = version_of hash (program_of calls) t0 i in
      let before = version_of-Stores calls copies n t0 i (omega arith) w v in
      let same : n + i + 1 ≡ n + suc i = omega arith in
      let made = perform-Stores c (suc i) t (omega arith) before in
      rw (asked, history_suc copies)
        (subst
          (λ k.
            Stores hash (apply c (history copies calls i)) k
              (perform hash (request_of c).op (request_of c).elem (suc i) t))
          same made)
