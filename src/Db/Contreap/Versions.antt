-- ===== src/Db/Contreap/Versions.antt =====
-- db/contreap.hpp: the committed versions and their contents.
use contreap.Prelude.{
  ℕ, ◌+◌, ◌≡◌, ◌<◌, ◌≤◌, refl, ap, arith, Bool, none, some, List, length, u64_mod, count, ◌==◌,
  if◌then◌else◌,
}
use mathlib.Core.Path.{subst}
use contreap.Tree.{Tree, null, node, size, total, bag}
use contreap.Tree.Order.{IsInjective, IsTreap}
use contreap.Tree.Canonical.{Positive}
use contreap.Treap.Node.{Cell, cell_keyed}
use contreap.Treap.Build.{build_parallel}
use contreap.Treap.Build.Contents.{build_parallel-Represents}
use contreap.Treap.Query.{find}
use contreap.Treap.Query.Find.{val?, val?-find}
use contreap.Treap.Scheduler.Store.{ok, read_tree}
use contreap.Treap.Scheduler.Machine.{Machine, scheduler, decide_num_pipes}
use contreap.Treap.Scheduler.Threads
use contreap.Treap.Scheduler.Threads.{Turn}
use contreap.Treap.Scheduler.Outcome.{Then}
use contreap.Treap.Scheduler.Runs.{start-HasFlow}
use contreap.Treap.Scheduler.Serializable.{run-version_of}
use contreap.Treap.Scheduler.Protocol.{version_of}
use contreap.Db.Interface.{Call, history}
use contreap.Db.QueryProcessor.{QueryContext}
use contreap.Db.Contreap.{Contreap, create, init, run}
use contreap.Db.Contreap.Contents.{Stores, program_of, request_at, version_of-Stores}
use contreap.Db.Contreap.Follows.{run-Follows}

pub size-le-total : (t : Tree Cell) → Positive t → size t ≤ total t
size-le-total null p = omega arith
size-le-total (node t l r) p = ground (arith, size-le-total l, size-le-total r)

-- The tree of a version that has been committed, and what a lookup finds in it.
pub record Committed (hash : ℕ → ℕ) (fuel : ℕ) (m : Machine) (v : ℕ) (copies : ℕ → ℕ) : Type 0 where
  pub tree : Tree Cell
  pub walk : read_tree fuel m.store (m.ctxs v).root ≡ ok tree
  pub treap : IsTreap hash tree
  pub holds : (j : ℕ) → bag tree j ≡ copies j
  pub found : (j : ℕ) → val? (find tree j) ≡ (if copies j == 0 then none else some (copies j))

module _ {Q : Type 0} (hash : ℕ → ℕ) (injective : IsInjective hash) (fuel : ℕ) (double_log : ℕ → ℕ)
    (enqueue : Q → QueryContext → Bool × Q) where
  -- The run of the scheduler behind a run of the backend.
  pub run-scheduler :
      (threads clients block_size : ℕ) (empty : Q) (elems : List ℕ) (calls rest : List Call)
      (turns : List Turn) (b : Contreap Q)
      → length calls + 2 < u64_mod
      → run fuel hash enqueue turns calls
          (init double_log hash (create threads clients block_size empty) (length calls) elems)
        ≡ ok (b, rest)
      → (m : Machine) × (Threads.run fuel hash
            (program_of calls)
            turns
            (scheduler double_log threads (length calls) block_size (build_parallel hash elems))
          ≡ ok m)
        × (b.machine ≡ some m)
  unfolding init create scheduler
  run-scheduler threads clients block_size empty elems calls rest turns b fits e =
      let t0 = build_parallel hash elems in
      let n = length calls in
      let start = scheduler double_log threads n block_size t0 in
      subst
        (Then (λ x.
          (m : Machine) × (Threads.run fuel hash (program_of calls) turns start ≡ ok m)
          × (x.0.machine ≡ some m)))
        e
        (run-Follows fuel hash enqueue calls (decide_num_pipes double_log threads) n fits turns
          calls (init double_log hash (create threads clients block_size empty) n elems) start
          (start-HasFlow fuel hash (program_of calls) double_log threads n block_size t0) refl
          (λ j. ap (request_at calls) (omega arith)))

  -- Where the hash is injective: a new backend that is initialised with an array of keys and the number
  -- of its calls makes these calls while the threads of its scheduler take any turns, fewer than 2^64, and
  -- keys and calls are together no more than the depth of the walks, which is less than 2^64 - 2. In
  -- every state that is reached, the root of each committed version leads to a treap that holds the
  -- multiset after as many calls as the version says, and a lookup in it finds the number of copies.
  pub run-Committed :
      (threads clients block_size : ℕ) (empty : Q) (elems : List ℕ) (calls rest : List Call)
      (turns : List Turn) (b : Contreap Q)
      → length turns < u64_mod
      → length elems + length calls ≤ fuel
      → fuel + 2 < u64_mod
      → run fuel hash enqueue turns calls
          (init double_log hash (create threads clients block_size empty) (length calls) elems)
        ≡ ok (b, rest)
      → (m : Machine) × (b.machine ≡ some m)
        × ((v : ℕ)
            → v ≤ m.num_committed
            → v ≤ length calls
            → Committed hash fuel m v (history (λ j. count j elems) calls v))
  run-Committed threads clients block_size empty elems calls rest turns b few room deep e =
      let t0 = build_parallel hash elems in
      let n = length calls in
      let fits : n + 2 < u64_mod = omega arith in
      let built = build_parallel-Represents hash elems injective (omega arith) in
      let stored : (v : ℕ)
          → v ≤ n
          → Stores hash (history (λ j. count j elems) calls v) (length elems + v)
              (version_of hash (program_of calls) t0 v) =
        λ v le.
          version_of-Stores hash injective calls (λ j. count j elems) (length elems) t0 v le
            (omega arith)
            (record {
              treap = built.treap;
              positive = built.positive;
              size = built.size;
              holds = built.holds;
            }) in
      let sizes : size t0 + n ≤ fuel = omega (arith, size-le-total t0 built.positive, built.size) in
      let (m, ran, has) =
        run-scheduler threads clients block_size empty elems calls rest turns b fits e in
      (
        m,
        has,
        λ v committed le.
            let s = stored v le in
            let t = version_of hash (program_of calls) t0 v in
            record {
              tree = t;
              walk =
                  run-version_of fuel hash (program_of calls) double_log threads n block_size t0
                    turns m v fits few sizes deep ran committed;
              treap = s.treap;
              holds = s.holds;
              found = λ j. rw (s.holds j) at (val?-find t j s.treap.ordered s.positive);
            },
      )
