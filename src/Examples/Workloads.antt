-- ===== src/Examples/Workloads.antt =====
-- Tests of ycsbc/db/export.hpp and main.cpp: two records, a scan, an update and a deletion.
use contreap.Prelude.{
  ℕ, ◌+◌, ◌≡◌, ◌<◌, refl, arith, true, false, u64_mod, none, some, List, [], ◌∷◌, length, map, wrap,
}
use contreap.Db.Interface
use contreap.Workload.Bytes.{word_bytes, bytes_of}
use contreap.Workload.Export.{
  Export, create, init, Call, read, update, insert, delete, scan, step, perform, delegate_client,
  generate,
}
use contreap.Workload.Load.{Workload, load, calls_of}
use contreap.Workload.RoundTrip.{load-generate, meaning}

-- A reader of numbers of one digit.
abbrev pub digit : List ℕ → ℕ
digit [] = 0
digit (c ∷ str) = wrap (c + 18446744073709551568)

abbrev pub zeros : ℕ → List ℕ
zeros position = 0 ∷ 0 ∷ 0 ∷ 0 ∷ 0 ∷ 0 ∷ 0 ∷ []

-- The keys `user3` and `user7`.
abbrev pub user3 : List ℕ
user3 = 117 ∷ 115 ∷ 101 ∷ 114 ∷ 51 ∷ []

abbrev pub user7 : List ℕ
user7 = 117 ∷ 115 ∷ 101 ∷ 114 ∷ 55 ∷ []

abbrev pub requests : List Call
requests = scan user3 4 ∷ update user7 ∷ delete user3 ∷ []

requests-meaning :
    map (meaning digit zeros true) requests
    ≡ (Interface.Call.query 3 6 ∷ Interface.Call.delete 7 ∷ Interface.Call.delete 3 ∷ [])
requests-meaning = refl

-- A transaction before the records are there aborts.
early_read : delegate_client digit zeros (read user3 ∷ []) (create 1 1 false) ≡ none
unfolding delegate_client perform step create init word_bytes bytes_of
early_read = refl

pub digit-bounded : (str : List ℕ) → digit str < u64_mod
digit-bounded [] = omega arith
digit-bounded (c ∷ str) = omega arith

load-generate_example :
    (e : Export) × (w : Workload) × (generate digit zeros
        (map insert (user3 ∷ user7 ∷ []))
        requests
        (create 2 3 true)
      ≡ some e)
    × (load e.fs ≡ some w)
    × (w.elems ≡ (3 ∷ 7 ∷ []))
    × (calls_of w.txs
        ≡ (Interface.Call.query 3 6 ∷ Interface.Call.delete 7 ∷ Interface.Call.delete 3 ∷ []))
    × (length w.txs ≡ 3)
load-generate_example =
    load-generate digit zeros digit-bounded (λ position. refl) (user3 ∷ user7 ∷ []) requests true
      (omega arith) (omega arith)
