-- ===== src/Examples/BatchClients.antt =====
-- A client thread of db/batch.hpp after three calls.
use contreap.Prelude.{
  ℕ, zero, suc, ◌≡◌, refl, arith, Option, none, some, List, [], ◌∷◌, count, ◌>>=◌, inl, inr,
}
use contreap.Log.{enabled, rank}
use contreap.Db.Interface.{Call}
use contreap.Db.QueryProcessor
use contreap.Db.QueryProcessor.{QueryContext}
use contreap.Db.Batch
use contreap.Db.Batch.{Batch, Root}
use contreap.Db.Batch.Updates.{update_history}
use contreap.Db.Batch.Client.{Cursor, Outcome, process_range_query}
use contreap.Db.Batch.Seek.{chain, IsCursor}
use contreap.Db.Batch.Order.{IsAmong}
use contreap.Db.Batch.Answers.{root_answer}
use contreap.Db.Batch.Clients.{run-process_range_query}
use contreap.Pam.Interface.{build}
use contreap.Examples.Samples.{swap_hash, swap_hash-IsInjective, keys, enqueue}

abbrev calls : List Call
calls = Call.insert 7 ∷ Call.delete 5 ∷ Call.query 2 7 ∷ []

abbrev start : Batch (List QueryContext)
start = Batch.create 1 2 []

abbrev result : Option (Batch (List QueryContext))
result =
    Batch.init 3 swap_hash start 3 keys
    >>= Batch.run 3 swap_hash enqueue calls
    >>= Batch.close 3 swap_hash

abbrev backend_of : Option (Batch (List QueryContext)) → Batch (List QueryContext)
backend_of none = start
backend_of (some s) = s

abbrev closed : Batch (List QueryContext)
closed = backend_of result

abbrev root_at : ℕ → List Root → Root
root_at k [] = record { ver = 0; t = build swap_hash keys }
root_at zero (x ∷ xs) = x
root_at (suc k) (x ∷ xs) = root_at k xs

-- The roots of the versions 0, 1 and 2, and a cursor on the first of them.
abbrev first : Cursor
first = record {
  cur_vid = 0;
  last_vid = 0;
  behind = [];
  cur_root = root_at 2 closed.roots;
  ahead = root_at 1 closed.roots ∷ root_at 0 closed.roots ∷ [];
}

closed_by_calls : result ≡ some closed
unfolding Batch.init Batch.run Batch.close Batch.create Batch.step Batch.insert Batch.delete
    Batch.query Batch.update_enbuffer Batch.change_type Batch.update_if_full Batch.enbuffer
    Batch.do_update Batch.commit QueryProcessor.push QueryProcessor.start QueryProcessor.stop
    QueryProcessor.create enabled rank
closed_by_calls = refl

three_roots : closed.num_versions ≡ 2
unfolding Batch.init Batch.run Batch.close Batch.create Batch.step Batch.insert Batch.delete
    Batch.query Batch.update_enbuffer Batch.change_type Batch.update_if_full Batch.enbuffer
    Batch.do_update Batch.commit QueryProcessor.push QueryProcessor.start QueryProcessor.stop
    QueryProcessor.create enabled rank
three_roots = refl

first-IsCursor : IsCursor closed.num_versions first
first-IsCursor = record {
  placed = refl;
  counted = omega (arith, three_roots);
  known = omega (arith, three_roots);
}

first-chain : chain first.behind (first.cur_root ∷ first.ahead) ≡ chain closed.roots []
unfolding Batch.init Batch.run Batch.close Batch.create Batch.step Batch.insert Batch.delete
    Batch.query Batch.update_enbuffer Batch.change_type Batch.update_if_full Batch.enbuffer
    Batch.do_update Batch.commit QueryProcessor.push QueryProcessor.start QueryProcessor.stop
    QueryProcessor.create enabled rank
first-chain = refl

second-IsAmong : IsAmong (root_at 1 closed.roots) closed.roots
unfolding Batch.init Batch.run Batch.close Batch.create Batch.step Batch.insert Batch.delete
    Batch.query Batch.update_enbuffer Batch.change_type Batch.update_if_full Batch.enbuffer
    Batch.do_update Batch.commit QueryProcessor.push QueryProcessor.start QueryProcessor.stop
    QueryProcessor.create enabled rank
second-IsAmong = inr (inl refl)

run-process_range_query_example :
    (c' : Cursor) × (process_range_query closed.num_versions (root_at 1 closed.roots).ver 2 7 first
      ≡ some (
          Outcome.value c' (
            root_answer
              (update_history (λ j. count j keys) calls (root_at 1 closed.roots).ver)
              2
              7)))
unfolding enabled rank
run-process_range_query_example =
    run-process_range_query swap_hash swap_hash-IsInjective enqueue 1 2 3 [] keys calls closed first
      (root_at 1 closed.roots) 2 7 3 (λ v. inl refl) (omega arith) (omega arith) closed_by_calls
      (omega (arith, three_roots)) first-IsCursor first-chain second-IsAmong
