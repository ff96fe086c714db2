-- ===== src/Program.antt =====
-- main.cpp: `main`, from the command line to the end of `Close`, with the queries that the client threads
-- take on the way. The timing and the printing are left out. `files` is what the files hold; a file that
-- is not there is empty.
pub mod Results
pub mod Generated
use Prim.Native.String.{String}
use contreap.Prelude.{ℕ, Bool, Option, none, some, List, [], ◌∷◌, length, ◌>>=◌}
use contreap.CommandLine
use contreap.CommandLine.{
  Settings, Parsed, exit_with_hint, exception, parsed, parse_command_line, Backend, new_sequential,
  new_contreap, new_pam, backend,
}
use contreap.Workload.Load.{Workload, load, calls_of}
use contreap.Treap.Scheduler.Store.{Result, ok, waits, fault}
use contreap.Treap.Scheduler.Threads.{Turn}
use contreap.Db.Interface
use contreap.Db.QueryProcessor.{QueryContext}
use contreap.Db.Sequential
use contreap.Db.Sequential.{Sequential}
use contreap.Db.Batch
use contreap.Db.Contreap
use contreap.Db.ClientThreads.{replied, served, serve_contreap}

-- How `main` ends: with the hint, with an exception of `stoi`, by reading memory that it has not
-- written or that is not there, or with the backend after `Close`. `unfinished` is no end: after the
-- turns of the threads that are given, `main` still has something to do.
pub data Ended (Q : Type 0) : Type 0 where
  hint thrown undefined unfinished : Ended Q
  sequential_done : Sequential Q → Ended Q
  pam_done : Batch.Batch Q → Ended Q
  contreap_done : Contreap.Contreap Q → Ended Q

abbrev pub ended_with {ℓ} : {S : Type ℓ} {Q : Type 0} → (S → Ended Q) → Option S → Ended Q
ended_with finish none = undefined
ended_with finish (some s) = finish s

abbrev pub ended_contreap : {Q : Type 0} → Result (Contreap.Contreap Q) → Ended Q
ended_contreap (ok b) = contreap_done b
ended_contreap waits = unfinished
ended_contreap fault = undefined

-- `Close` comes after the last transaction.
abbrev pub close_after :
    {Q : Type 0}
    → ℕ
    → Result (Contreap.Contreap Q × List Interface.Call)
    → Result (Contreap.Contreap Q)
close_after log_level (ok (b, [])) = Contreap.close log_level b
close_after log_level (ok (b, c ∷ calls)) = waits
close_after log_level waits = waits
close_after log_level fault = fault

-- A null pointer that a client thread reads through ends the process.
abbrev pub after_clients : {Q : Type 0} → Result {0} Unit → Ended Q → Ended Q
after_clients (ok u) ended = ended
after_clients waits ended = unfinished
after_clients fault ended = undefined

-- `Close` of the sequential backend, after the queries.
abbrev pub close_sequential :
    {Q : Type 0} → ℕ → (ℕ → Bool) → List Interface.Call → Sequential Q → Ended Q
close_sequential log_level takes calls d =
    after_clients (served (λ v l r. replied (Sequential.processor_function d v l r)) takes 0 calls)
      (ended_with sequential_done (Sequential.close log_level d))

-- The parameters: the level of logging of the build, the queries that the clients take, `stoi`,
-- `hardware_concurrency`, the hash, the number of pipes of the scheduler, its turns with the depth of
-- their walks, and the queue. The clients of `pam` read through no null pointer.
module _ {Q : Type 0} (log_level : ℕ) (takes : ℕ → Bool) (stoi : String → Option ℕ) (cores : ℕ)
    (hash : ℕ → ℕ) (double_log : ℕ → ℕ) (turns : List Turn) (fuel : ℕ) (empty : Q)
    (enqueue : Q → QueryContext → Bool × Q) where
  -- `Init`, the loop over the transactions, and `Close`, of the backend that was chosen.
  unfoldable pub drive : Backend → Settings → Workload → Ended Q
  drive new_sequential s w = ended_with (close_sequential log_level takes (calls_of w.txs)) (
      Sequential.init hash (Sequential.create s.num_clients empty) (length w.txs) w.elems
      >>= Sequential.run hash enqueue (calls_of w.txs))
  drive new_pam s w = ended_with pam_done (
      Batch.init log_level hash (Batch.create s.num_clients s.batch_size empty) (length w.txs)
        w.elems
      >>= Batch.run log_level hash enqueue (calls_of w.txs)
      >>= Batch.close log_level hash)
  drive new_contreap s w = ended_contreap (
      serve_contreap fuel takes (calls_of w.txs) (
        close_after log_level (
          Contreap.run fuel hash enqueue turns (calls_of w.txs) (
            Contreap.init double_log hash
              (Contreap.create s.num_threads s.num_clients s.batch_size empty) (length w.txs)
              w.elems))))

  -- An unknown method ends with the hint, before the file is read.
  unfoldable pub with_settings : (String → List ℕ) → Settings → Ended Q
  with_settings files s = elim (backend s.dbname) [
    | none ↦ hint
    | some b ↦ elim (load (files s.filename)) [ none ↦ undefined | some w ↦ drive b s w ]
  ]

  unfoldable pub main : (String → List ℕ) → List String → Ended Q
  main files argv = elim (parse_command_line stoi cores argv) [
    | exit_with_hint ↦ hint
    | exception ↦ thrown
    | parsed s ↦ with_settings files s
  ]
