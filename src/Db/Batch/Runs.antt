-- ===== src/Db/Batch/Runs.antt =====
-- Sequences of calls of the batch backend.
use contreap.Prelude.{
  ℕ, suc, ◌+◌, ◌≡◌, ◌<◌, refl, arith, Bool, some, List, [], ◌∷◌, length, count, u64_mod, ltb, ◌>>=◌,
  inl, inr, Bool-cases, ◌∙◌, sym, ap,
}
use native.Mathlib.Nat.{zero-add}
use contreap.Tree.Order.{IsInjective}
use contreap.Pam.Node.{cell_keyed}
use contreap.Pam.Augment.Kept.{
  augment_parallel-IsTreap, bag-augment_parallel, total-augment_parallel,
}
use contreap.Pam.Build
use contreap.Pam.Build.Contents.{build-Built}
use contreap.Pam.Interface.{build}
use contreap.Tree.{bag}
use contreap.Pam.Sums.{Fresh-IsCached, augment_parallel_lem}
use contreap.Pam.Sums.Kept.{build_fuel-Fresh}
use contreap.Pam.Sums.Older.{augment_parallel-Older, build_fuel-Older}
use contreap.Treap.Update.{plus}
use contreap.Db.Interface.{Call}
use contreap.Db.QueryProcessor
use contreap.Db.QueryProcessor.{QueryContext, QueryProcessor}
use contreap.Db.Batch
use contreap.Db.Batch.{Operation, Root, run, step}
use contreap.Db.Batch.Updates.{clear, updates, update_history, update_history-zero, applied-none}
use contreap.Db.Batch.Order.{Descending}
use contreap.Db.Batch.Contents.{AllRoots, Holds, do_update-Holds, update_enbuffer-Holds}
use contreap.Db.Logging.{CanLog, log_aug-some}

module _ {Q : Type 0} (hash : ℕ → ℕ) (injective : IsInjective hash) where
  -- Queries and the query processor's state leave the roots alone.
  with_processor-Holds :
      (copies_at : ℕ → ℕ → ℕ) (n : ℕ) (s : Batch.Batch Q) (p : QueryProcessor Q)
      → Holds hash copies_at n s
      → Holds hash copies_at n (record s { query_processor = p })
  with_processor-Holds copies_at n s p h = record {
    latest = h.latest;
    earlier = h.earlier;
    stored = h.stored;
    current = h.current;
    bounded = h.bounded;
    is_latest = h.is_latest;
    are_earlier = h.are_earlier;
    descending = h.descending;
    counted = h.counted;
    pending = h.pending;
  }

  module _ (enqueue : Q → QueryContext → Bool × Q) (log_level : ℕ) (copies_at : ℕ → ℕ → ℕ) (n : ℕ)
      (logs : (v : ℕ) → CanLog log_level (copies_at v)) where
    -- The databases that the calls make, after those of the versions submitted so far.
    abbrev Follows : Batch.Batch Q → List Call → Type 0
    Follows s calls =
        (v : ℕ)
        → copies_at (s.version_submitted + v)
          ≡ update_history (copies_at s.version_submitted) calls v

    -- The database after the next update, and those after it.
    next_database :
        (v : ℕ) (next : ℕ → ℕ) (calls : List Call)
        → ((i : ℕ) → copies_at (v + suc i) ≡ update_history next calls i)
        → copies_at (v + 1) ≡ next
    next_database v next calls e = e 0 ∙ update_history-zero next calls

    Follows-next :
        (s s1 : Batch.Batch Q) (next : ℕ → ℕ) (calls : List Call)
        → s1.version_submitted ≡ s.version_submitted + 1
        → ((i : ℕ) → copies_at (s.version_submitted + suc i) ≡ update_history next calls i)
        → Follows s1 calls
    Follows-next s s1 next calls submitted e i =
        let place : s.version_submitted + 1 + i ≡ s.version_submitted + suc i = omega arith in
        rw (submitted, place, next_database s.version_submitted next calls e) (e i)

    run-Holds :
        (calls : List Call) (s : Batch.Batch Q)
        → Holds hash copies_at n s
        → n + s.version_submitted + updates calls < u64_mod
        → length s.buffer < s.batch_size
        → Follows s calls
        → (s' : Batch.Batch Q) × (run log_level hash enqueue calls s ≡ some s')
          × Holds hash copies_at n s'
          × (s'.version_submitted ≡ s.version_submitted + updates calls)
    unfolding run step Batch.insert Batch.delete Batch.query update_history
    run-Holds [] s h w room e = (s, refl, h, omega arith)
    run-Holds (Call.query l r ∷ calls) s h w room e =
        let pushed = QueryProcessor.push enqueue s.query_processor s.version_submitted l r in
        run-Holds calls (record s { query_processor = pushed.0 })
          (with_processor-Holds copies_at n s pushed.0 h) w room e
    run-Holds (Call.insert k ∷ calls) s h w room e =
        let next = plus (copies_at s.version_submitted) k in
        let later : (i : ℕ)
            → copies_at (s.version_submitted + suc i) ≡ update_history next calls i =
          λ i. e (suc i) in
        let (s1, done, h1, submitted, size, room1) =
          update_enbuffer-Holds hash log_level injective copies_at n logs s Operation.insertion k h
            (omega arith) room (next_database s.version_submitted next calls later) in
        let (s2, rest, h2, counted) =
          run-Holds calls s1 h1 (omega (arith, submitted)) room1
            (Follows-next s s1 next calls submitted later) in
        (s2, rw (done, rest), h2, omega (arith, counted, submitted))
    run-Holds (Call.delete k ∷ calls) s h w room e =
        let next = clear (copies_at s.version_submitted) k in
        let later : (i : ℕ)
            → copies_at (s.version_submitted + suc i) ≡ update_history next calls i =
          λ i. e (suc i) in
        let (s1, done, h1, submitted, size, room1) =
          update_enbuffer-Holds hash log_level injective copies_at n logs s Operation.deletion k h
            (omega arith) room (next_database s.version_submitted next calls later) in
        let (s2, rest, h2, counted) =
          run-Holds calls s1 h1 (omega (arith, submitted)) room1
            (Follows-next s s1 next calls submitted later) in
        (s2, rw (done, rest), h2, omega (arith, counted, submitted))

  init-Holds :
      (log_level : ℕ) (s : Batch.Batch Q) (m : ℕ) (elems : List ℕ) (copies_at : ℕ → ℕ → ℕ)
      → length elems < u64_mod
      → s.buffer ≡ []
      → s.version_submitted ≡ 0
      → s.version_committed ≡ 0
      → copies_at 0 ≡ (λ j. count j elems)
      → CanLog log_level (copies_at 0)
      → (s' : Batch.Batch Q) × (Batch.init log_level hash s m elems ≡ some s')
        × Holds hash copies_at (length elems) s'
        × (s'.version_submitted ≡ 0)
        × (s'.batch_size ≡ s.batch_size)
        × (s'.buffer ≡ [])
  unfolding Batch.init build Build.build
  init-Holds log_level s m elems copies_at w empty submitted committed e logs =
      let built = build-Built hash injective elems w in
      let t = build hash elems in
      let holds : (j : ℕ) → bag t j ≡ copies_at 0 j =
        λ j. bag-augment_parallel _ j ∙ built.holds j ∙ sym (ap (λ (c : ℕ → ℕ). c j) e) in
      let started : Batch.Batch Q = record s {
        roots = record { ver = 0; t = t } ∷ [];
        query_processor = QueryProcessor.start s.query_processor;
      } in
      (
        started,
        log_aug-some log_level (copies_at 0) t started holds logs,
        record {
          latest = record { ver = 0; t = build hash elems };
          earlier = [];
          stored = refl;
          current = sym committed;
          bounded = omega (arith, total-augment_parallel (Build.build hash elems), built.size);
          is_latest = record {
            treap = augment_parallel-IsTreap hash _ built.treap;
            holds = holds;
            size = omega (arith, total-augment_parallel (Build.build hash elems), built.size, w);
            sums =
                (augment_parallel_lem _
                  (Fresh-IsCached _ (build_fuel-Fresh hash (length elems) elems))).1;
            older = augment_parallel-Older 1 _ (build_fuel-Older hash (length elems) elems);
          };
          are_earlier = tt;
          descending = (tt, tt);
          counted = rw (empty, submitted, committed) refl;
          pending = λ j.
              rw (empty, submitted, committed) (sym (applied-none s.buffer_type (copies_at 0) j));
        },
        submitted,
        refl,
        empty,
      )

  close-Holds :
      (log_level : ℕ) (copies_at : ℕ → ℕ → ℕ) (n : ℕ)
      (logs : (v : ℕ) → CanLog log_level (copies_at v)) (s : Batch.Batch Q)
      → Holds hash copies_at n s
      → n + s.version_submitted < u64_mod
      → (s' : Batch.Batch Q) × (Batch.close log_level hash s ≡ some s')
        × Holds hash copies_at n s'
        × (s'.version_committed ≡ s.version_submitted)
  unfolding Batch.close
  close-Holds log_level copies_at n logs s h w = elim (Bool-cases (ltb 0 (length s.buffer))) [
    | inl e ↦
        let (s1, done, h1, empty, submitted, size, kind) =
          do_update-Holds hash log_level injective copies_at n logs s h w in
        let flushed : length s1.buffer ≡ 0 = rw empty in
        (
          record s1 { query_processor = QueryProcessor.stop s1.query_processor },
          rw (e, done, Batch.close),
          with_processor-Holds copies_at n s1 (QueryProcessor.stop s1.query_processor) h1,
          omega (arith, h1.counted, submitted),
        )
    | inr e ↦
        let flushed : length s.buffer ≡ 0 = ground arith in
        (
          record s { query_processor = QueryProcessor.stop s.query_processor },
          rw (e, Batch.close),
          with_processor-Holds copies_at n s (QueryProcessor.stop s.query_processor) h,
          omega (arith, h.counted),
        )
  ]

  -- From an empty backend with batches of any positive size, which is initialised with an array of
  -- keys, runs a sequence of calls and is closed, in a build that leaves the messages for debugging out
  -- or with a key in every version, all calls succeed, the newest root has the number
  -- of updates as its version, and every root is a treap that holds the keys of the array after as
  -- many of the updates as its version says, where a deletion takes all copies of its key.
  pub run-AllRoots :
      (enqueue : Q → QueryContext → Bool × Q) (clients batch_size m : ℕ) (empty : Q)
      (elems : List ℕ) (calls : List Call) (log_level : ℕ)
      → ((v : ℕ) → CanLog log_level (update_history (λ j. count j elems) calls v))
      → 0 < batch_size
      → length elems + updates calls < u64_mod
      → (s : Batch.Batch Q) × (latest : Root) × (earlier : List Root) × ((Batch.init log_level hash
              (Batch.create clients batch_size empty)
              m
              elems
            >>= run log_level hash enqueue calls
            >>= Batch.close log_level hash)
          ≡ some s)
        × (s.roots ≡ latest ∷ earlier)
        × (latest.ver ≡ updates calls)
        × AllRoots hash (update_history (λ j. count j elems) calls) s.roots
        × Descending s.roots
  unfolding Batch.create
  run-AllRoots enqueue clients batch_size m empty elems calls log_level logs pos w =
      let copies_at = update_history (λ j. count j elems) calls in
      let start : copies_at 0 ≡ (λ j. count j elems) =
        update_history-zero (λ j. count j elems) calls in
      let (s0, done0, h0, submitted0, size0, empty0) =
        init-Holds log_level (Batch.create clients batch_size empty) m elems copies_at (omega arith)
          refl refl refl start (logs 0) in
      let (s1, done1, h1, submitted1) =
        run-Holds enqueue log_level copies_at (length elems) logs calls s0 h0
          (omega (arith, submitted0)) (rw empty0 (omega (arith, size0)))
          (λ v. rw (submitted0, start, zero-add) refl) in
      let (s2, done2, h2, committed) =
        close-Holds log_level copies_at (length elems) logs s1 h1
          (omega (arith, submitted0, submitted1)) in
      (
        s2,
        h2.latest,
        h2.earlier,
        rw (done0, done1, done2),
        h2.stored,
        omega (arith, h2.current, committed, submitted0, submitted1),
        rw h2.stored (h2.is_latest, h2.are_earlier),
        rw h2.stored h2.descending,
      )
