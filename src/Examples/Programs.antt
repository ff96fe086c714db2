-- ===== src/Examples/Programs.antt =====
-- Runs of main.cpp on the file of the samples.
use Prim.Native.String.{String}
use contreap.Prelude.{
  ℕ, ◌≡◌, ◌≤◌, refl, arith, true, false, some, inl, List, [], ◌∷◌, length, ◌++◌, count, map,
}
use contreap.CommandLine.{Settings, parsed, parse_options, parse_command_line}
use contreap.Log.{enabled, rank}
use contreap.Workload.Export.{
  Export, op_query, op_delete, insert, create, init, close, perform, step, export_tx,
  delegate_client, generate,
}
use contreap.Workload.Bytes.{word_bytes, bytes_of, read_bytes, read_word, read_many, value_of}
use contreap.Workload.Load.{Workload, read_tx, load, call_of, calls_of}
use contreap.Db.Interface
use contreap.Db.Interface.{history}
use contreap.Db.QueryProcessor.{QueryContext}
use contreap.Db.Sequential.{Sequential, processor_function}
use contreap.Db.Sequential.Answers.{answer}
use contreap.Db.Batch
use contreap.Program.{sequential_done, main}
use contreap.Program.Results.{main-sequential}
use contreap.Program.Generated.{main-generated}
use contreap.Examples.Samples.{swap_hash, swap_hash-IsInjective, enqueue}
use contreap.Examples.Options.{stoi}
use contreap.Examples.Workloads.{digit, digit-bounded, zeros, user3, user7, requests}

abbrev keys : List (List ℕ)
keys = user3 ∷ user7 ∷ []

abbrev sequential_arguments : List String
sequential_arguments = "contreap" ∷ "sequential" ∷ "workload.data" ∷ []

abbrev sequential_settings : Settings
sequential_settings = record {
  dbname = "sequential";
  filename = "workload.data";
  num_threads = 8;
  num_clients = 1;
  batch_size = 1000;
}

parse_sequential : parse_command_line stoi 8 sequential_arguments ≡ parsed sequential_settings
unfolding parse_command_line parse_options
parse_sequential = refl

abbrev tx : ℕ → ℕ → ℕ → List ℕ
tx type arg0 arg1 = type ∷ zeros 0 ++ word_bytes arg0 ++ word_bytes arg1

-- What the generator writes for the records and the requests of the samples.
abbrev bytes : List ℕ
bytes =
    ((((((word_bytes 2 ++ word_bytes 3) ++ word_bytes 3) ++ word_bytes 7) ++ tx 0 3 6) ++ tx 2 7 7)
      ++ tx 2 3 3)

abbrev written : Export
written = record {
  running = false;
  inited = true;
  num_records = 2;
  num_transactions = 3;
  update_delete = true;
  fs = bytes;
}

generate-written : generate digit zeros (map insert keys) requests (create 2 3 true) ≡ some written
unfolding generate delegate_client perform step export_tx create init close word_bytes bytes_of
generate-written = refl

-- Any name is the name of this file.
abbrev files : String → List ℕ
files filename = bytes

abbrev workload : Workload
workload = record {
  elems = 3 ∷ 7 ∷ [];
  txs =
      record { type = op_query; arg0 = 3; arg1 = 6 }
      ∷ record { type = op_delete; arg0 = 7; arg1 = 7 }
      ∷ record { type = op_delete; arg0 = 3; arg1 = 3 }
      ∷ [];
}

load-bytes : load bytes ≡ some workload
unfolding load read_tx read_bytes read_word read_many word_bytes bytes_of value_of
load-bytes = refl

abbrev calls : List Interface.Call
calls = Interface.Call.query 3 6 ∷ Interface.Call.delete 7 ∷ Interface.Call.delete 3 ∷ []

main-generated_example :
    (d : Sequential (List QueryContext)) × (main 4
        (λ v. true)
        stoi
        8
        swap_hash
        (λ n. n)
        []
        0
        []
        enqueue
        files
        sequential_arguments
      ≡ sequential_done d)
    × ((v l r : ℕ)
        → v ≤ 3
        → processor_function d v l r ≡ answer (history (λ j. count j (3 ∷ 7 ∷ [])) calls v) l r)
unfolding enabled rank calls_of call_of
main-generated_example =
    main-generated 4 (λ v. true) stoi 8 swap_hash (λ n. n) [] 0 [] enqueue files digit zeros
      digit-bounded (λ position. refl) sequential_arguments sequential_settings keys requests true
      written swap_hash-IsInjective parse_sequential refl (omega arith) generate-written refl
      (inl refl) (λ taken same. absurd (ground arith), tt)

main-sequential_example :
    (d : Sequential (List QueryContext)) × (main 4
        (λ v. true)
        stoi
        8
        swap_hash
        (λ n. n)
        []
        0
        []
        enqueue
        files
        sequential_arguments
      ≡ sequential_done d)
    × ((v l r : ℕ)
        → v ≤ length (calls_of workload.txs)
        → processor_function d v l r
          ≡ answer (history (λ j. count j workload.elems) (calls_of workload.txs) v) l r)
unfolding enabled rank calls_of call_of
main-sequential_example =
    main-sequential 4 (λ v. true) stoi 8 swap_hash (λ n. n) [] 0 [] enqueue files
      sequential_arguments sequential_settings workload swap_hash-IsInjective parse_sequential refl
      load-bytes (omega arith) (inl refl) (λ taken same. absurd (ground arith), tt)
