-- ===== src/Db/Sequential/Answers.antt =====
-- What the clients of the sequential backend are answered.
use contreap.Prelude.{
  inl, inr, Bool-cases, ℕ, ◌+◌, ◌≡◌, ◌<◌, ◌≤◌, refl, arith, Bool, some, List, length, ◌==◌, ◌>>=◌,
  if◌then◌else◌, new_slots, u64_mod, count, write_lem,
}
use contreap.Tree.Order.{IsInjective}
use contreap.Treap.Node.{cell_keyed}
use contreap.Treap.Build.{build_parallel}
use contreap.Treap.Build.Contents.{build_parallel-Represents}
use contreap.Treap.Query.Find.{val?-find}
use contreap.Treap.Query.Range.{range_total, range_query_lem}
use contreap.Log.{enabled, debug, rank}
use contreap.Db.Logging.{CanLog, log_aug-some}
use contreap.Db.Interface.{Call, history}
use contreap.Db.QueryProcessor
use contreap.Db.QueryProcessor.{QueryContext, QueryProcessor}
use contreap.Db.Sequential.{Sequential, Reply, processor_function, create, init, run, close}
use contreap.Db.Sequential.Versions.{Holds, run-Runs}

-- The answer of the abstract database to a query. Equal bounds ask for one key, and a key without
-- copies has no node whose counter could be read.
abbrev pub answer : (ℕ → ℕ) → ℕ → ℕ → Reply
answer copies l r =
    if l == r
    then (if copies l == 0 then Reply.fault else Reply.value (copies l))
    else Reply.value (range_total copies l r)

module _ {Q : Type 0} (hash : ℕ → ℕ) where
  Holds-answer :
      (s : Sequential Q) (v : ℕ) (copies : ℕ → ℕ) (n l r : ℕ)
      → v ≤ s.num_versions
      → n < u64_mod
      → Holds hash s v copies n
      → processor_function s v l r ≡ answer copies l r
  unfolding processor_function
  Holds-answer s v copies n l r le w h = ground (
    arith,
    h.stored,
    val?-find h.tree l h.represents.treap.ordered h.represents.positive,
    h.represents.holds l,
    range_query_lem hash n l r h.tree w h.represents,
  )

  module _ (injective : IsInjective hash) (enqueue : Q → QueryContext → Bool × Q) where
    init-Holds :
        (s : Sequential Q) (m : ℕ) (elems : List ℕ)
        → length elems < u64_mod
        → (s' : Sequential Q) × (init hash s m elems ≡ some s')
          × (s'.num_versions ≡ s.num_versions)
          × (s'.roots.len ≡ m + 1)
          × Holds hash s' 0 (λ j. count j elems) (length elems)
    unfolding init
    init-Holds s m elems w =
        let (roots, written, a) =
          write_lem (new_slots (m + 1)) 0 (build_parallel hash elems) (omega arith) in
        (
          record s { roots = roots; query_processor = QueryProcessor.start s.query_processor },
          rw written,
          refl,
          a.len,
          record {
            tree = build_parallel hash elems;
            stored = a.self;
            represents = build_parallel-Represents hash elems injective w;
          },
        )

    close-Holds :
        (log_level : ℕ) (s : Sequential Q) (copies : ℕ → ℕ) (n : ℕ)
        → Holds hash s s.num_versions copies n
        → CanLog log_level copies
        → close log_level s
          ≡ some (record s { query_processor = QueryProcessor.stop s.query_processor })
    unfolding close
    close-Holds log_level s copies n h logs = elim (Bool-cases (enabled log_level debug)) [
      | inr off ↦ rw (off, close) refl
      | inl on ↦
          rw (on, h.stored, close)
            (let shown =
                log_aug-some log_level copies h.tree
                  (record s { query_processor = QueryProcessor.stop s.query_processor })
                  h.represents.holds logs in
              rw on at shown)
    ]

    -- The run behind `run-answers`, with what `Close` does after it.
    pub run-close :
        (log_level clients m : ℕ) (empty : Q) (elems : List ℕ) (calls : List Call)
        → length calls ≤ m
        → length elems + length calls < u64_mod
        → CanLog log_level (history (λ j. count j elems) calls (length calls))
        → (s : Sequential Q) × ((init hash (create clients empty) m elems
              >>= run hash enqueue calls)
            ≡ some s)
          × (close log_level s
              ≡ some (record s { query_processor = QueryProcessor.stop s.query_processor }))
          × ((v l r : ℕ)
              → v ≤ length calls
              → processor_function s v l r ≡ answer (history (λ j. count j elems) calls v) l r)
    unfolding create
    run-close log_level clients m empty elems calls room fits logs =
        let (s0, started, zero_versions, slots, first) =
          init-Holds (create clients empty) m elems (omega arith) in
        let (s1, runs) =
          run-Runs hash injective enqueue calls s0 (λ j. count j elems) (length elems) (omega arith)
            (omega arith) fits (rw zero_versions first) in
        let last : Holds hash s1 s1.num_versions (history (λ j. count j elems) calls (length calls))
            (length elems + length calls) =
          rw runs.counted (runs.versions (length calls) (omega arith)) in
        (
          s1,
          rw started runs.done,
          close-Holds log_level s1 (history (λ j. count j elems) calls (length calls))
              (length elems + length calls) last logs,
          λ v l r le.
              let place : s0.num_versions + v ≡ v = omega arith in
              Holds-answer s1 v (history (λ j. count j elems) calls v) (length elems + v) l r
                (omega (arith, runs.counted)) (omega arith) (rw place at (runs.versions v le)),
        )

    -- From an empty backend that is initialised with an array of keys and room for `m` calls, at
    -- most `m` calls succeed, and afterwards a client's query of any version gets the answer of
    -- the abstract database after that many calls: the earlier versions are all still there.
    pub run-answers :
        (clients m : ℕ) (empty : Q) (elems : List ℕ) (calls : List Call)
        → length calls ≤ m
        → length elems + length calls < u64_mod
        → (s : Sequential Q) × ((init hash (create clients empty) m elems
              >>= run hash enqueue calls)
            ≡ some s)
          × ((v l r : ℕ)
              → v ≤ length calls
              → processor_function s v l r ≡ answer (history (λ j. count j elems) calls v) l r)
    run-answers clients m empty elems calls room fits =
        let (s, done, closed, answers) =
          run-close 0 clients m empty elems calls room fits (inl (unfold enabled rank in refl)) in
        (s, done, answers)
