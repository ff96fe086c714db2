-- ===== src/Db/Contreap/Closing.antt =====
-- db/contreap.hpp: the versions after `Close`.
use contreap.Prelude.{
  ℕ, ◌+◌, ◌≡◌, ◌<◌, ◌≤◌, refl, ap, sym, arith, ◌&&◌, Bool, true, false, some, List, length, u64_mod,
  count, ltb, leb,
}
use mathlib.Core.Path.{subst}
use contreap.Tree.{size}
use contreap.Tree.Order.{IsInjective}
use contreap.Treap.Build.{build_parallel}
use contreap.Treap.Build.Contents.{build_parallel-Represents}
use contreap.Treap.Scheduler.Store.{Result, ok, waits, ◌>>=◌}
use contreap.Treap.Scheduler.Machine.{Machine}
use contreap.Treap.Scheduler.Threads.{Turn}
use contreap.Treap.Scheduler.Outcome.{Then, Then-bind, Then-chain}
use contreap.Treap.Scheduler.Serializable.{run-local_committed}
use contreap.Log.{enabled, debug}
use contreap.Db.QueryProcessor
use contreap.Db.Interface.{Call, history}
use contreap.Db.QueryProcessor.{QueryContext}
use contreap.Db.Contreap.{
  Contreap, create, init, run, close, final_result, process, all_threads, has_stopped,
}
use contreap.Db.Contreap.Contents.{program_of}
use contreap.Db.Contreap.Follows.{Then-deref}
use contreap.Db.Contreap.Versions.{Committed, run-Committed, run-scheduler, size-le-total}

-- A test of four parts that ends with this one.
last_of_four :
    (a b c d : Bool) (m : Machine) (P : Type 0)
    → (d ≡ true → P)
    → Then (λ m'. (m' ≡ m) × P) (elim (a && (b && (c && d))) [ false ↦ waits | true ↦ ok m ])
last_of_four true true true true m P h = (refl, h refl)
last_of_four true true true false m P h = tt
last_of_four true true false d m P h = tt
last_of_four true false c d m P h = tt
last_of_four false b c d m P h = tt

-- `process` returns only when the collector has counted all tasks.
process-counted :
    (m : Machine) → Then (λ m'. (m' ≡ m) × (m.num_tasks ≤ m.collector.local_committed)) (process m)
unfolding process
process-counted m =
    last_of_four (all_threads (λ k. ltb m.num_tasks (m.pipes k).pos) m.num_pipes)
      (leb m.num_tasks m.local_submitted)
      (all_threads (λ k. has_stopped (m.workers k).phase) m.num_workers)
      (leb m.num_tasks m.collector.local_committed) m (m.num_tasks ≤ m.collector.local_committed)
      (λ h. ground (arith, h))

module _ {Q : Type 0} where
  -- Logging a result changes nothing but whether there is one.
  after_log :
      (P : Contreap Q → Type 0) (shown : Bool) (r : Result ℕ) (b : Contreap Q)
      → P b
      → Then P (elim shown [ false ↦ ok b | true ↦ do result ← r; ok b ])
  after_log P false r b h = h
  after_log P true r b h = Then-bind P r (λ x. ok b) (λ x. h)

  close-counted :
      (log_level : ℕ) (b : Contreap Q) (m : Machine)
      → b.machine ≡ some m
      → Then
          (λ b'. (b'.machine ≡ some m) × (m.num_tasks ≤ m.collector.local_committed))
          (close log_level b)
  unfolding close
  close-counted log_level b m has = Then-deref _ b.machine m _ has (
      Then-chain (λ m'. (m' ≡ m) × (m.num_tasks ≤ m.collector.local_committed)) _ (process m) _
        (λ m' (same, counted).
          after_log _ (enabled log_level debug) (final_result m')
            (record b {
              machine = some m';
              query_processor = QueryProcessor.stop b.query_processor;
            })
            (ap some same, counted))
        (process-counted m))

module _ {Q : Type 0} (hash : ℕ → ℕ) (injective : IsInjective hash) (fuel : ℕ) (double_log : ℕ → ℕ)
    (enqueue : Q → QueryContext → Bool × Q) where
  -- Where the hash is injective: a new backend is initialised with an array of keys and the number of its
  -- calls, makes these calls while the threads of its scheduler take any turns, fewer than 2^64, and is
  -- closed; keys and calls are together no more than the depth of the walks, which is less than
  -- 2^64 - 2. If `Close` returns, at any level of logging, then for every number of calls the root of this version leads to a
  -- treap that holds the multiset after so many calls, and a lookup in it finds the number of copies.
  pub close-Committed :
      (threads clients block_size : ℕ) (empty : Q) (elems : List ℕ) (calls rest : List Call)
      (turns : List Turn) (log_level : ℕ) (b b' : Contreap Q)
      → length turns < u64_mod
      → length elems + length calls ≤ fuel
      → fuel + 2 < u64_mod
      → run fuel hash enqueue turns calls
          (init double_log hash (create threads clients block_size empty) (length calls) elems)
        ≡ ok (b, rest)
      → close log_level b ≡ ok b'
      → (m : Machine) × (b'.machine ≡ some m)
        × ((v : ℕ)
            → v ≤ length calls
            → Committed hash fuel m v (history (λ j. count j elems) calls v))
  close-Committed threads clients block_size empty elems calls rest turns log_level b b' few room
        deep e closed =
      let t0 = build_parallel hash elems in
      let built = build_parallel-Represents hash elems injective (omega arith) in
      let sizes : size t0 + length calls ≤ fuel =
        omega (arith, size-le-total t0 built.positive, built.size) in
      let (m, has, versions) =
        run-Committed hash injective fuel double_log enqueue threads clients block_size empty elems
          calls rest turns b few room deep e in
      let (m1, ran, has1) =
        run-scheduler hash injective fuel double_log enqueue threads clients block_size empty elems
          calls rest turns b (omega arith) e in
      let (committed, tasks) =
        run-local_committed fuel hash (program_of calls) double_log threads (length calls)
          block_size t0 turns m1 (omega arith) few sizes deep ran in
      let (has', counted) =
        subst (Then (λ x. (x.machine ≡ some m1) × (m1.num_tasks ≤ m1.collector.local_committed)))
          closed (close-counted log_level b m1 has1) in
      let same : m ≡ m1 = cc (has, has1) in
      let enough : length calls ≤ m.num_committed =
        subst (λ x. length calls ≤ x.num_committed) (sym same)
          (omega (arith, committed, tasks, counted)) in
      (m, rw same has', λ v le. versions v (omega (arith, le, enough)) le)
