-- ===== src/Examples/Backends.antt =====
-- The backends at work.
use contreap.Prelude.{ℕ, ◌≡◌, ◌≤◌, arith, some, List, [], ◌∷◌, count, ◌>>=◌}
use contreap.Db.Interface.{Call, history}
use contreap.Db.QueryProcessor.{QueryContext}
use contreap.Db.Sequential.{Sequential, create, init, run, processor_function}
use contreap.Db.Sequential.Answers.{answer, run-answers}
use contreap.Db.Batch
use contreap.Db.Batch.{Batch}
use contreap.Examples.Samples.{swap_hash, swap_hash-IsInjective, keys, enqueue}

abbrev calls : List Call
calls = Call.insert 7 ∷ Call.delete 5 ∷ Call.query 2 7 ∷ []

run-answers_example :
    (s : Sequential (List QueryContext)) × ((init swap_hash (create 1 []) 3 keys
        >>= run swap_hash enqueue calls)
      ≡ some s)
    × ((v l r : ℕ)
        → v ≤ 3
        → processor_function s v l r ≡ answer (history (λ j. count j keys) calls v) l r)
run-answers_example =
    run-answers swap_hash swap_hash-IsInjective enqueue 1 3 [] keys calls (omega arith)
      (omega arith)
