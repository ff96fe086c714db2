-- ===== src/Workload/Load.antt =====
-- main.cpp: reading the workload file, and the calls that its transactions make.
use contreap.Prelude.{ℕ, ◌==◌, Option, none, some, List, [], ◌∷◌, ◌>>=◌, if◌then◌else◌}
use contreap.Db.Interface
use contreap.Workload.Bytes.{read_bytes, read_word, read_many, value_of}
use contreap.Workload.Export.{Tx}

unfoldable pub read_tx : List ℕ → Option (Tx × List ℕ)
read_tx file = do
  (type, file1) ← read_bytes 1 file
  (padding, file2) ← read_bytes 7 file1
  (arg0, file3) ← read_word file2
  (arg1, file4) ← read_word file3
  some (record { type = value_of type; arg0 = arg0; arg1 = arg1 }, file4)

-- The records and the transactions.
pub record Workload : Type 0 where
  pub elems : List ℕ
  pub txs : List Tx

unfoldable pub load : List ℕ → Option Workload
load file = do
  (n, file1) ← read_word file
  (m, file2) ← read_word file1
  (elems, file3) ← read_many read_word n file2
  (txs, file4) ← read_many read_tx m file3
  some (record { elems = elems; txs = txs })

-- The `switch` over the type; a transaction of another type makes no call.
unfoldable pub call_of : Tx → Option Interface.Call
call_of tx =
    if tx.type == 0
    then some (Interface.Call.query tx.arg0 tx.arg1)
    else if tx.type == 1
    then some (Interface.Call.insert tx.arg0)
    else if tx.type == 2
    then some (Interface.Call.delete tx.arg0)
    else none

abbrev add_call : Option Interface.Call → List Interface.Call → List Interface.Call
add_call none calls = calls
add_call (some c) calls = c ∷ calls

-- The loop over the transactions.
unfoldable pub calls_of : List Tx → List Interface.Call
calls_of [] = []
calls_of (tx ∷ txs) = add_call (call_of tx) (calls_of txs)
