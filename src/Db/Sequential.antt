-- ===== src/Db/Sequential.antt =====
-- db/sequential.hpp: the baseline backend, one new version of the treap for each call.
pub mod Versions
pub mod Answers
use contreap.Prelude.{
  ℕ, ◌+◌, Bool, true, false, Option, none, some, List, [], ◌∷◌, wrap, ltb, ◌==◌, ◌>>=◌, Slots,
  new_slots, read, write, pred_u64,
}
use contreap.Tree.{Tree, null}
use contreap.Treap.Node.{Cell}
use contreap.Treap.Augment.{augment}
use contreap.Treap.SearchInsert.{search_insert}
use contreap.Treap.SearchDelete.{search_delete}
use contreap.Treap.Build.{build_parallel}
use contreap.Treap.Query.{find, range_query}
use contreap.Treap.Query.Find.{val?}
use contreap.Log.{enabled, debug}
use contreap.Db.Logging.{read_aug}
use contreap.Db.Interface.{Call}
use contreap.Db.QueryProcessor
use contreap.Db.QueryProcessor.{QueryContext, QueryProcessor}

pub record Sequential (Q : Type 0) : Type 0 where
  pub num_versions : ℕ
  pub roots : Slots (Tree Cell)
  pub query_processor : QueryProcessor Q

-- What the client thread of a query gets: it spins until the version is there, and it reads
-- through a null pointer where a key is not found.
pub data Reply : Type 0 where
  waits fault : Reply
  value : ℕ → Reply

abbrev pub reply_of : Option ℕ → Reply
reply_of none = Reply.fault
reply_of (some v) = Reply.value v

module _ {Q : Type 0} where
  unfoldable pub create : ℕ → Q → Sequential Q
  create num_clients empty = record {
    num_versions = 0;
    roots = new_slots 0;
    query_processor = QueryProcessor.create num_clients empty;
  }

  -- `processor_function_`
  unfoldable pub processor_function : Sequential Q → ℕ → ℕ → ℕ → Reply
  processor_function s ver l r = elim (ltb s.num_versions ver) [
    | true ↦ Reply.waits
    | false ↦ elim (read s.roots ver) [
      | none ↦ Reply.fault
      | some t ↦ elim (l == r) [
        | true ↦ reply_of (val? (find t l))
        | false ↦ Reply.value (range_query t l r)
      ]
    ]
  ]

  -- A step that writes out of bounds, or reads a slot that was never written, has no result.
  module _ (hash : ℕ → ℕ) where
    unfoldable pub init : Sequential Q → ℕ → List ℕ → Option (Sequential Q)
    init s m elems = do
      roots ← write (new_slots (m + 1)) 0 (build_parallel hash elems)
      some (record s { roots = roots; query_processor = QueryProcessor.start s.query_processor })

    unfoldable pub insert : Sequential Q → ℕ → Option (Sequential Q × ℕ)
    insert s k = do
      let ver = wrap (1 + s.num_versions)
      past ← read s.roots (pred_u64 ver)
      roots ← write s.roots ver (augment (search_insert ver past (hash k) k)).0
      some (record s { num_versions = ver; roots = roots }, 0)

    unfoldable pub delete : Sequential Q → ℕ → Option (Sequential Q × ℕ)
    delete s k = do
      let ver = wrap (1 + s.num_versions)
      past ← read s.roots (pred_u64 ver)
      roots ← write s.roots ver (augment (search_delete ver past (hash k) k)).0
      some (record s { num_versions = ver; roots = roots }, 0)

  unfoldable pub query :
      (Q → QueryContext → Bool × Q) → Sequential Q → ℕ → ℕ → Option (Sequential Q × ℕ)
  query enqueue s l r = do
    let ver = wrap (1 + s.num_versions)
    past ← read s.roots (pred_u64 ver)
    roots ← write s.roots ver past
    let pushed = QueryProcessor.push enqueue s.query_processor ver l r
    some (record s { num_versions = ver; roots = roots; query_processor = pushed.0 }, pushed.1)

  -- `Close` in a build of this level.
  unfoldable pub close : ℕ → Sequential Q → Option (Sequential Q)
  close log_level s =
      let s' = record s { query_processor = QueryProcessor.stop s.query_processor } in
      elim (enabled log_level debug) [
        | false ↦ some s'
        | true ↦ do t ← read s.roots s.num_versions; read_aug true t s'
      ]

-- The calls of the interface, and a sequence of them.
module _ {Q : Type 0} (hash : ℕ → ℕ) (enqueue : Q → QueryContext → Bool × Q) where
  unfoldable pub step : Call → Sequential Q → Option (Sequential Q × ℕ)
  step (Call.query l r) s = query enqueue s l r
  step (Call.insert k) s = insert hash s k
  step (Call.delete k) s = delete hash s k

  unfoldable pub run : List Call → Sequential Q → Option (Sequential Q)
  run [] s = some s
  run (c ∷ calls) s = do (s', code) ← step c s; run calls s'
