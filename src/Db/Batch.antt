-- ===== src/Db/Batch.antt =====
-- db/batch.hpp: the backend that collects updates of one kind and applies them together.
pub mod Updates
pub mod Contents
pub mod Runs
pub mod Client
pub mod Seek
pub mod Answers
pub mod Order
pub mod Clients
use contreap.Prelude.{
  ℕ, ◌+◌, Bool, true, false, Option, none, some, List, [], ◌∷◌, ◌++◌, length, wrap, ltb, ◌==◌,
  ◌>>=◌,
}
use contreap.Tree.{Tree}
use contreap.Pam.Node.{Cell}
use contreap.Pam.Interface.{build, inserted, deleted}
use contreap.Db.Logging.{log_aug}
use contreap.Db.Interface.{Call}
use contreap.Db.QueryProcessor
use contreap.Db.QueryProcessor.{QueryContext, QueryProcessor}

pub data Operation : Type 0 where
  insertion deletion : Operation

pub record Root : Type 0 where
  pub ver : ℕ
  pub t : Tree Cell

-- `buffer` is what the array holds up to `buffer_count_`, and `roots` the linked list from `root_`
-- to `root0_`, which is empty before the backend is initialised.
pub record Batch (Q : Type 0) : Type 0 where
  pub batch_size : ℕ
  pub buffer_type : Operation
  pub buffer : List ℕ
  pub version_submitted : ℕ
  pub version_committed : ℕ
  pub query_processor : QueryProcessor Q
  pub roots : List Root
  pub num_versions : ℕ

abbrev pub same : Operation → Operation → Bool
same Operation.insertion Operation.insertion = true
same Operation.insertion Operation.deletion = false
same Operation.deletion Operation.insertion = false
same Operation.deletion Operation.deletion = true

-- The new tree of `do_update_`.
abbrev pub updated : (ℕ → ℕ) → Operation → Tree Cell → ℕ → List ℕ → Tree Cell
updated hash Operation.insertion t ver elems = inserted hash t ver elems
updated hash Operation.deletion t ver elems = deleted hash t ver elems

module _ {Q : Type 0} where
  unfoldable pub create : ℕ → ℕ → Q → Batch Q
  create num_clients batch_size empty = record {
    batch_size = batch_size;
    buffer_type = Operation.insertion;
    buffer = [];
    version_submitted = 0;
    version_committed = 0;
    query_processor = QueryProcessor.create num_clients empty;
    roots = [];
    num_versions = 0;
  }

  -- The array has room for `batch_size` keys; a write behind it is a fault.
  unfoldable pub enbuffer : Batch Q → ℕ → Option (Batch Q)
  enbuffer s key = elim (ltb (length s.buffer) s.batch_size) [
    | true ↦ some (record s {
      buffer = s.buffer ++ key ∷ [];
      version_submitted = wrap (s.version_submitted + 1);
    })
    | false ↦ none
  ]

  unfoldable pub query : (Q → QueryContext → Bool × Q) → Batch Q → ℕ → ℕ → Option (Batch Q × ℕ)
  query enqueue s l r =
      let pushed = QueryProcessor.push enqueue s.query_processor s.version_submitted l r in
      some (record s { query_processor = pushed.0 }, pushed.1)

  -- The state with this tree as the newest root.
  abbrev pub with_root : Batch Q → Tree Cell → Root → List Root → Batch Q
  with_root s t_new root earlier =
      let committed = wrap (s.version_committed + length s.buffer) in
      record s {
        version_committed = committed;
        buffer = [];
        roots = record { ver = committed; t = t_new } ∷ root ∷ earlier;
        num_versions = wrap (s.num_versions + 1);
      }

  module _ (log_level : ℕ) (hash : ℕ → ℕ) where
    -- The buffer as a batch on top of the newest root, in a build of this level.
    unfoldable pub commit : Batch Q → Root → List Root → Option (Batch Q)
    commit s root earlier =
        let t_new = updated hash s.buffer_type root.t (wrap (s.version_committed + 1)) s.buffer in
        log_aug log_level t_new (with_root s t_new root earlier)

    -- `do_update_` reads the newest root, and a null pointer where there is none.
    unfoldable pub do_update : Batch Q → Option (Batch Q)
    do_update s = elim s.roots [ [] ↦ none | root ∷ earlier ↦ commit s root earlier ]

    -- A buffer of the other kind is written out first.
    unfoldable pub change_type : Batch Q → Operation → Option (Batch Q)
    change_type s type = elim (same s.buffer_type type) [
      | true ↦ some s
      | false ↦ do s' ← do_update s; some (record s' { buffer_type = type })
    ]

    unfoldable pub update_if_full : Batch Q → Option (Batch Q)
    update_if_full s = elim (length s.buffer == s.batch_size) [
      | true ↦ do_update s
      | false ↦ some s
    ]

    unfoldable pub update_enbuffer : Batch Q → Operation → ℕ → Option (Batch Q)
    update_enbuffer s type key = do s1 ← change_type s type; s2 ← enbuffer s1 key; update_if_full s2

    unfoldable pub init : Batch Q → ℕ → List ℕ → Option (Batch Q)
    init s m elems =
        let t = build hash elems in
        log_aug log_level t (record s {
          roots = record { ver = 0; t = t } ∷ [];
          query_processor = QueryProcessor.start s.query_processor;
        })

    unfoldable pub insert : Batch Q → ℕ → Option (Batch Q × ℕ)
    insert s k = do s' ← update_enbuffer s Operation.insertion k; some (s', 0)

    unfoldable pub delete : Batch Q → ℕ → Option (Batch Q × ℕ)
    delete s k = do s' ← update_enbuffer s Operation.deletion k; some (s', 0)

    unfoldable pub close : Batch Q → Option (Batch Q)
    close s = do
      s' ← elim (ltb 0 (length s.buffer)) [ true ↦ do_update s | false ↦ some s ]
      some (record s' { query_processor = QueryProcessor.stop s'.query_processor })

-- The calls of the interface, and a sequence of them.
module _ {Q : Type 0} (log_level : ℕ) (hash : ℕ → ℕ) (enqueue : Q → QueryContext → Bool × Q) where
  unfoldable pub step : Call → Batch Q → Option (Batch Q × ℕ)
  step (Call.query l r) s = query enqueue s l r
  step (Call.insert k) s = insert log_level hash s k
  step (Call.delete k) s = delete log_level hash s k

  unfoldable pub run : List Call → Batch Q → Option (Batch Q)
  run [] s = some s
  run (c ∷ calls) s = do (s', code) ← step c s; run calls s'
