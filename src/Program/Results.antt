-- ===== src/Program/Results.antt =====
-- main.cpp: what a run of the program leaves.
use Prim.Native.String.{String}
use contreap.Prelude.{
  ℕ, ◌+◌, ◌≡◌, ◌<◌, ◌≤◌, refl, ap, ◌∙◌, arith, Bool, Option, some, List, [], ◌∷◌, length, u64_mod,
  count, inl, inr, Option-cases,
}
use native.Mathlib.Nat.{zero-add}
use contreap.Tree.Order.{IsInjective}
use contreap.CommandLine.{Settings, parsed, parse_command_line, Backend, new_sequential, backend}
use contreap.Workload.Export.{Tx}
use contreap.Workload.Load.{Workload, load, call_of, calls_of}
use contreap.Treap.Scheduler.Threads.{Turn}
use contreap.Db.Logging.{CanLog}
use contreap.Db.Interface
use contreap.Db.Interface.{history}
use contreap.Db.QueryProcessor
use contreap.Db.QueryProcessor.{QueryContext}
use contreap.Db.Sequential.{Sequential, processor_function}
use contreap.Db.Sequential.Answers.{answer, run-close}
use contreap.Db.Batch
use contreap.Db.ClientThreads.Served.{Answerable, served_lem}
use contreap.Program.{Ended, sequential_done, drive, with_settings, main}

length-calls_of : (txs : List Tx) → length (calls_of txs) ≤ length txs
unfolding calls_of
length-calls_of [] = omega arith
length-calls_of (tx ∷ txs) = elim (Option-cases (call_of tx)) [
  | inl e ↦ rw e (omega (arith, length-calls_of txs))
  | inr (c, e) ↦ rw e (omega (arith, length-calls_of txs))
]

module _ {Q : Type 0} (log_level : ℕ) (takes : ℕ → Bool) (stoi : String → Option ℕ) (cores : ℕ)
    (hash : ℕ → ℕ) (double_log : ℕ → ℕ) (turns : List Turn) (fuel : ℕ) (empty : Q)
    (enqueue : Q → QueryContext → Bool × Q) (files : String → List ℕ) where
  -- The run of `main`, for this build, library, machine and files.
  abbrev run_main : List String → Ended Q
  run_main argv =
      main log_level takes stoi cores hash double_log turns fuel empty enqueue files argv

  main-drive :
      (argv : List String) (s : Settings) (b : Backend) (w : Workload)
      → parse_command_line stoi cores argv ≡ parsed s
      → backend s.dbname ≡ some b
      → load (files s.filename) ≡ some w
      → run_main argv
        ≡ drive log_level takes stoi cores hash double_log turns fuel empty enqueue b s w
  unfolding main with_settings
  main-drive argv s b w parse chosen loaded = rw (parse, chosen, loaded, main, with_settings) refl

  -- Where the hash is injective: with accepted arguments that choose `sequential`, and a file that loads,
  -- with fewer than 2^64 records and transactions together, where the build leaves out the messages for
  -- debugging or the last version holds a key, and where the queries of one key that the client threads
  -- take before the end are of keys that their versions hold: `main` comes to its end, and of every
  -- version a client is answered as the abstract database answers after so many of the transactions.
  pub main-sequential :
      (argv : List String) (s : Settings) (w : Workload)
      → IsInjective hash
      → parse_command_line stoi cores argv ≡ parsed s
      → s.dbname ≡ "sequential"
      → load (files s.filename) ≡ some w
      → length w.elems + length w.txs < u64_mod
      → CanLog log_level (history (λ j. count j w.elems) (calls_of w.txs) (length (calls_of w.txs)))
      → Answerable takes 0 (λ j. count j w.elems) (calls_of w.txs)
      → (d : Sequential Q) × (run_main argv ≡ sequential_done d)
        × ((v l r : ℕ)
            → v ≤ length (calls_of w.txs)
            → processor_function d v l r
              ≡ answer (history (λ j. count j w.elems) (calls_of w.txs) v) l r)
  unfolding drive backend processor_function
  main-sequential argv s w injective parse chosen loaded few logs present =
      let calls = calls_of w.txs in
      let (d, done, closed, answers) =
        run-close hash injective enqueue log_level s.num_clients (length w.txs) empty w.elems calls
          (length-calls_of w.txs) (omega (arith, length-calls_of w.txs, few)) logs in
      let clients =
        served_lem (processor_function d) takes 0 (λ j. count j w.elems) calls
          (λ v l r le. rw zero-add (answers v l r le)) present in
      (
        record d { query_processor = QueryProcessor.stop d.query_processor },
        main-drive argv s new_sequential w parse (ap backend chosen) loaded
            ∙ rw (done, clients, closed) refl,
        answers,
      )
