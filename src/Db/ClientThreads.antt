-- ===== src/Db/ClientThreads.antt =====
-- db/sequential.hpp, db/contreap.hpp and db/include/query_processor.hpp: which queries bring the client
-- threads to a null pointer.
pub mod Served
use contreap.Prelude.{ℕ, suc, ◌==◌, Bool, true, false, List, [], ◌∷◌}
use contreap.Treap.Scheduler.Store.{Result, ok, waits, fault, ◌>>=◌}
use contreap.Treap.Scheduler.Machine.{get_snapshot}
use contreap.Db.Interface.{Call}
use contreap.Db.Sequential.{Reply}
use contreap.Db.Contreap.{Contreap, deref}
use contreap.Db.Contreap.Points.{point_query}

-- Whether a client thread gets through the query of a version.
abbrev pub replied : Reply → Result {0} Unit
replied Reply.waits = waits
replied Reply.fault = fault
replied (Reply.value x) = ok tt

-- The queries that the client threads take before `Stop`, after `n` calls: each call makes a version, and
-- `takes` says of which versions. A version does not change once it is there, so that the queries are
-- taken at the end here.
abbrev pub served : (ℕ → ℕ → ℕ → Result {0} Unit) → (ℕ → Bool) → ℕ → List Call → Result {0} Unit
served reply takes n [] = ok tt
served reply takes n (Call.query l r ∷ calls) =
    let rest = served reply takes (suc n) calls in
    elim (takes (suc n)) [ true ↦ do done ← reply (suc n) l r; rest | false ↦ rest ]
served reply takes n (Call.insert k ∷ calls) = served reply takes (suc n) calls
served reply takes n (Call.delete k ∷ calls) = served reply takes (suc n) calls

-- `processor_function_` of the contreap, where a range is estimated without a null pointer.
abbrev pub contreap_reply : {Q : Type 0} → ℕ → Contreap Q → ℕ → ℕ → ℕ → Result {0} Unit
contreap_reply fuel b ver l r = do
  m ← deref b.machine
  elim (l == r) [
    | true ↦ do x ← point_query fuel m ver l; ok tt
    | false ↦ do t ← get_snapshot m ver; ok tt
  ]

-- The threads of the scheduler commit the versions until `Close` has joined them.
abbrev pub serve_contreap :
    {Q : Type 0} → ℕ → (ℕ → Bool) → List Call → Result (Contreap Q) → Result (Contreap Q)
serve_contreap fuel takes calls (ok b) = do
  done ← served (contreap_reply fuel b) takes 0 calls
  ok b
serve_contreap fuel takes calls waits = waits
serve_contreap fuel takes calls fault = fault
