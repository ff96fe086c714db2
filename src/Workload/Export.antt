-- ===== src/Workload/Export.antt =====
-- ycsbc/db/export.hpp: the backend of the workload generator that writes the calls to a file, and
-- `DelegateClient` and `main` of ycsbc/ycsbc.cc with one thread. `abort` has no result.
use contreap.Prelude.{
  ℕ, ◌+◌, ◌-◌, ◌^◌, ◌&&◌, Bool, true, false, ltb, wrap, Option, none, some, List, [], ◌∷◌, ◌++◌,
  length, drop, ◌>>=◌, if◌then◌else◌,
}
use contreap.Workload.Bytes.{word_bytes}

-- `tx_context`
pub record Tx : Type 0 where
  pub type : ℕ
  pub arg0 : ℕ
  pub arg1 : ℕ

abbrev pub op_query : ℕ
op_query = 0

abbrev pub op_insert : ℕ
op_insert = 1

abbrev pub op_delete : ℕ
op_delete = 2

-- `fs_` is the content of the file.
pub record Export : Type 0 where
  pub running : Bool
  pub inited : Bool
  pub num_records : ℕ
  pub num_transactions : ℕ
  pub update_delete : Bool
  pub fs : List ℕ

unfoldable pub create : ℕ → ℕ → Bool → Export
create num_records num_transactions update_delete = record {
  running = false;
  inited = false;
  num_records = num_records;
  num_transactions = num_transactions;
  update_delete = update_delete;
  fs = [];
}

abbrev pub append_file : Export → List ℕ → Export
append_file e bs = record e { fs = e.fs ++ bs }

unfoldable pub init : Export → Option Export
init e = elim e.running [
  | true ↦ none
  | false ↦ elim e.inited [
    | true ↦ some (record e { running = true })
    | false ↦ some (
        append_file (record e { running = true })
          (word_bytes e.num_records ++ word_bytes e.num_transactions))
  ]
]

unfoldable pub close : Export → Export
close e = record e { inited = true; running = false }

-- A call of the client; `len` is the word of an `int`, and a key is the text of a key.
pub data Call : Type 0 where
  read update insert delete : List ℕ → Call
  scan : List ℕ → ℕ → Call

abbrev pub positive_int : ℕ → Bool
positive_int len = ltb 0 len && ltb len (2 ^ 31)

-- `strtoull` stands for the routine of the C library in base 10, and `padding` for the bytes that the
-- compiler leaves between the type and the arguments of a transaction.
module _ (strtoull : List ℕ → ℕ) (padding : ℕ → List ℕ) where
  -- The client makes keys of at least four bytes (`user...`).
  abbrev pub str2key : List ℕ → ℕ
  str2key str = strtoull (drop 4 str)

  abbrev pub tx_bytes : ℕ → Tx → List ℕ
  tx_bytes position tx = (tx.type ∷ padding position) ++ (word_bytes tx.arg0 ++ word_bytes tx.arg1)

  unfoldable pub export_tx : Export → Tx → Export
  export_tx e tx = append_file e (tx_bytes (length e.fs) tx)

  abbrev pub export_insert : Export → ℕ → Export
  export_insert e key = export_tx e (record { type = op_insert; arg0 = key; arg1 = key })

  abbrev pub export_delete : Export → ℕ → Export
  export_delete e key = export_tx e (record { type = op_delete; arg0 = key; arg1 = key })

  abbrev pub export_query : Export → ℕ → ℕ → Export
  export_query e l r = export_tx e (record { type = op_query; arg0 = l; arg1 = r })

  unfoldable pub step : Call → Export → Option Export
  step (read key) e = elim e.inited [
    | false ↦ none
    | true ↦ some (export_query e (str2key key) (str2key key))
  ]
  step (scan key len) e = elim e.inited [
    | false ↦ none
    | true ↦
        let l = str2key key in
        some (export_query e l (wrap (l + (if positive_int len then len - 1 else 0))))
  ]
  step (update key) e = elim e.inited [
    | false ↦ none
    | true ↦ elim e.update_delete [
      | true ↦ some (export_delete e (str2key key))
      | false ↦ some (export_insert e (str2key key))
    ]
  ]
  step (insert key) e = elim e.inited [
    | true ↦ some (export_insert e (str2key key))
    | false ↦ some (append_file e (word_bytes (str2key key)))
  ]
  step (delete key) e = elim e.inited [ false ↦ none | true ↦ some (export_delete e (str2key key)) ]

  unfoldable pub perform : List Call → Export → Option Export
  perform [] e = some e
  perform (c ∷ calls) e = do e' ← step c e; perform calls e'

  -- `DelegateClient`, with the calls that the client makes.
  unfoldable pub delegate_client : List Call → Export → Option Export
  delegate_client calls e = do e1 ← init e; e2 ← perform calls e1; some (close e2)

  -- The phases of `main`: the insertions of the records, and the transactions.
  unfoldable pub generate : List Call → List Call → Export → Option Export
  generate loads transactions e = do e' ← delegate_client loads e; delegate_client transactions e'
