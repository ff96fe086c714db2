-- ===== src/Workload/RoundTrip.antt =====
-- What the generator writes is what main.cpp reads.
use contreap.Prelude.{
  ℕ, suc, ◌+◌, ◌-◌, ◌≡◌, ◌<◌, refl, ◌∙◌, ap, arith, Bool, true, false, wrap, u64_mod, some, List,
  [], ◌∷◌, ◌++◌, length, map, ◌>>=◌, if◌then◌else◌,
}
use mathlib.Core.Path.{subst}
use mathlib.Core.List.{append-nil, append_assoc}
use contreap.Db.Interface
use contreap.Workload.Bytes.{
  word_bytes, read_bytes, read_bytes-append, read_word, read_word-append, read_many, value_of-byte,
  Encoded, nothing, value, read_many-Encoded,
}
use contreap.Workload.Export.{
  Tx, op_query, op_insert, op_delete, Export, create, init, close, Call, read, update, insert,
  delete, scan, str2key, tx_bytes, export_tx, step, perform, delegate_client, generate,
  positive_int,
}
use contreap.Workload.Load.{read_tx, Workload, load, call_of, calls_of}

pub length-map {ℓ κ} :
    {A : Type ℓ} {B : Type κ} (f : A → B) (xs : List A) → length (map f xs) ≡ length xs
length-map f [] = refl
length-map f (x ∷ xs) = ap suc (length-map f xs)

-- A file of this form holds these records and transactions.
load-Encoded :
    (elems : List ℕ) (txs : List Tx) (bs cs : List ℕ) (n m : ℕ)
    → n < u64_mod
    → m < u64_mod
    → length elems ≡ n
    → length txs ≡ m
    → Encoded read_word elems bs
    → Encoded read_tx txs cs
    → load (((word_bytes n ++ word_bytes m) ++ bs) ++ cs)
      ≡ some (record { elems = elems; txs = txs })
unfolding load
load-Encoded elems txs bs cs n m few_elems few_txs n_elems n_txs records transactions =
    let found : read_many read_word n (bs ++ cs) ≡ some (elems, cs) =
      subst (λ k. read_many read_word k (bs ++ cs) ≡ some (elems, cs)) n_elems
        (read_many-Encoded cs records) in
    let whole : read_many read_tx m cs ≡ some (txs, []) =
      subst (λ k. read_many read_tx k cs ≡ some (txs, [])) n_txs
        (subst (λ file. read_many read_tx (length txs) file ≡ some (txs, [])) (append-nil cs)
          (read_many-Encoded [] transactions)) in
    rw
      (
        append_assoc (word_bytes n ++ word_bytes m) bs cs,
        append_assoc (word_bytes n) (word_bytes m) (bs ++ cs),
        read_word-append n (word_bytes m ++ (bs ++ cs)) few_elems,
        read_word-append m (bs ++ cs) few_txs,
        found,
        whole,
      )
      refl

module _ (strtoull : List ℕ → ℕ) (padding : ℕ → List ℕ) where
  -- The transaction that is written for a call.
  abbrev tx_of : Bool → Call → Tx
  tx_of update_delete (read key) = record {
    type = op_query;
    arg0 = str2key strtoull padding key;
    arg1 = str2key strtoull padding key;
  }
  tx_of update_delete (scan key len) =
      let l = str2key strtoull padding key in
      record {
        type = op_query;
        arg0 = l;
        arg1 = wrap (l + (if positive_int len then len - 1 else 0));
      }
  tx_of true (update key) = record {
    type = op_delete;
    arg0 = str2key strtoull padding key;
    arg1 = str2key strtoull padding key;
  }
  tx_of false (update key) = record {
    type = op_insert;
    arg0 = str2key strtoull padding key;
    arg1 = str2key strtoull padding key;
  }
  tx_of update_delete (insert key) = record {
    type = op_insert;
    arg0 = str2key strtoull padding key;
    arg1 = str2key strtoull padding key;
  }
  tx_of update_delete (delete key) = record {
    type = op_delete;
    arg0 = str2key strtoull padding key;
    arg1 = str2key strtoull padding key;
  }

  -- The call of the database that a call of the client stands for.
  abbrev pub meaning : Bool → Call → Interface.Call
  meaning update_delete (read key) =
      Interface.Call.query (str2key strtoull padding key) (str2key strtoull padding key)
  meaning update_delete (scan key len) =
      let l = str2key strtoull padding key in
      Interface.Call.query l (wrap (l + (if positive_int len then len - 1 else 0)))
  meaning true (update key) = Interface.Call.delete (str2key strtoull padding key)
  meaning false (update key) = Interface.Call.insert (str2key strtoull padding key)
  meaning update_delete (insert key) = Interface.Call.insert (str2key strtoull padding key)
  meaning update_delete (delete key) = Interface.Call.delete (str2key strtoull padding key)

module _ (strtoull : List ℕ → ℕ) (padding : ℕ → List ℕ)
    (bounded : (str : List ℕ) → strtoull str < u64_mod)
    (seven : (position : ℕ) → length (padding position) ≡ 7) where
  tx_of-bounded :
      (upd : Bool) (c : Call)
      → ((tx_of strtoull padding upd c).arg0 < u64_mod)
        × ((tx_of strtoull padding upd c).arg1 < u64_mod)
  tx_of-bounded upd (read key) = (bounded _, bounded _)
  tx_of-bounded upd (scan key len) = (bounded _, omega arith)
  tx_of-bounded true (update key) = (bounded _, bounded _)
  tx_of-bounded false (update key) = (bounded _, bounded _)
  tx_of-bounded upd (insert key) = (bounded _, bounded _)
  tx_of-bounded upd (delete key) = (bounded _, bounded _)

  read_tx-append :
      (position : ℕ) (tx : Tx) (rest : List ℕ)
      → tx.arg0 < u64_mod
      → tx.arg1 < u64_mod
      → read_tx (tx_bytes strtoull padding position tx ++ rest) ≡ some (tx, rest)
  unfolding read_tx read_bytes
  read_tx-append position tx rest lt0 lt1 =
      let pad = padding position in
      let after = word_bytes tx.arg1 ++ rest in
      let skipped : read_bytes 7 (pad ++ (word_bytes tx.arg0 ++ after))
          ≡ some (pad, word_bytes tx.arg0 ++ after) =
        subst
          (λ k.
            read_bytes k (pad ++ (word_bytes tx.arg0 ++ after))
            ≡ some (pad, word_bytes tx.arg0 ++ after))
          (seven position) (read_bytes-append pad (word_bytes tx.arg0 ++ after)) in
      rw
        (
          append_assoc,
          append_assoc,
          skipped,
          read_word-append tx.arg0 after lt0,
          read_word-append tx.arg1 rest lt1,
          value_of-byte tx.type,
        )
        refl

  -- The object in the phase of the records and in the phase of the transactions.
  abbrev phase : Bool → ℕ → ℕ → Bool → List ℕ → Export
  phase inited n m upd fs = record {
    running = true;
    inited = inited;
    num_records = n;
    num_transactions = m;
    update_delete = upd;
    fs = fs;
  }

  step-tx_of :
      (c : Call) (n m : ℕ) (upd : Bool) (fs : List ℕ)
      → step strtoull padding c (phase true n m upd fs)
        ≡ some (
            phase true n m upd
              (fs ++ tx_bytes strtoull padding (length fs) (tx_of strtoull padding upd c)))
  unfolding step export_tx
  step-tx_of (read key) n m upd fs = refl
  step-tx_of (scan key len) n m upd fs = refl
  step-tx_of (update key) n m true fs = refl
  step-tx_of (update key) n m false fs = refl
  step-tx_of (insert key) n m upd fs = refl
  step-tx_of (delete key) n m upd fs = refl

  -- The calls after the records append their transactions.
  perform-transactions :
      (calls : List Call) (n m : ℕ) (upd : Bool) (fs : List ℕ)
      → (bs : List ℕ) × (perform strtoull padding calls (phase true n m upd fs)
          ≡ some (phase true n m upd (fs ++ bs)))
        × Encoded read_tx (map (tx_of strtoull padding upd) calls) bs
  unfolding perform
  perform-transactions [] n m upd fs = ([], rw append-nil refl, nothing)
  perform-transactions (c ∷ calls) n m upd fs =
      let tx = tx_of strtoull padding upd c in
      let b = tx_bytes strtoull padding (length fs) tx in
      let (bs, done, encoded) = perform-transactions calls n m upd (fs ++ b) in
      let (lt0, lt1) = tx_of-bounded upd c in
      (
        b ++ bs,
        ap (λ o. do e' ← o; perform strtoull padding calls e') (step-tx_of c n m upd fs)
            ∙ done
            ∙ ap (λ bytes. some (phase true n m upd bytes)) (append_assoc fs b bs),
        value tx (map (tx_of strtoull padding upd) calls) b bs
            (λ rest. read_tx-append (length fs) tx rest lt0 lt1) encoded,
      )

  -- The insertions of the records append their keys.
  perform-records :
      (keys : List (List ℕ)) (n m : ℕ) (upd : Bool) (fs : List ℕ)
      → (bs : List ℕ) × (perform strtoull padding (map insert keys) (phase false n m upd fs)
          ≡ some (phase false n m upd (fs ++ bs)))
        × Encoded read_word (map (str2key strtoull padding) keys) bs
  unfolding perform step
  perform-records [] n m upd fs = ([], rw append-nil refl, nothing)
  perform-records (key ∷ keys) n m upd fs =
      let k = str2key strtoull padding key in
      let b = word_bytes k in
      let (bs, done, encoded) = perform-records keys n m upd (fs ++ b) in
      (
        b ++ bs,
        done ∙ ap (λ bytes. some (phase false n m upd bytes)) (append_assoc fs b bs),
        value k (map (str2key strtoull padding) keys) b bs
            (λ rest. read_word-append k rest (bounded _)) encoded,
      )

  call_of-tx_of :
      (upd : Bool) (c : Call)
      → call_of (tx_of strtoull padding upd c) ≡ some (meaning strtoull padding upd c)
  unfolding call_of
  call_of-tx_of upd (read key) = refl
  call_of-tx_of upd (scan key len) = refl
  call_of-tx_of true (update key) = refl
  call_of-tx_of false (update key) = refl
  call_of-tx_of upd (insert key) = refl
  call_of-tx_of upd (delete key) = refl

  calls_of-tx_of :
      (upd : Bool) (calls : List Call)
      → calls_of (map (tx_of strtoull padding upd) calls) ≡ map (meaning strtoull padding upd) calls
  unfolding calls_of
  calls_of-tx_of upd [] = refl
  calls_of-tx_of upd (c ∷ calls) = rw (call_of-tx_of upd c, calls_of-tx_of upd calls) refl

  -- Where the routine that reads a number gives a 64-bit word, and seven bytes stand between the type
  -- and the arguments of a transaction: from a new file on, announced with the number of records and
  -- of transactions, the insertion of any records and then any calls are all accepted, and main.cpp
  -- loads from the file the keys of these records, and one transaction for each call, which make on the
  -- database exactly the calls that the client made, in their order.
  pub load-generate :
      (keys : List (List ℕ)) (calls : List Call) (update_delete : Bool)
      → length keys < u64_mod
      → length calls < u64_mod
      → (e : Export) × (w : Workload) × (generate strtoull padding
            (map insert keys)
            calls
            (create (length keys) (length calls) update_delete)
          ≡ some e)
        × (load e.fs ≡ some w)
        × (w.elems ≡ map (str2key strtoull padding) keys)
        × (calls_of w.txs ≡ map (meaning strtoull padding update_delete) calls)
        × (length w.txs ≡ length calls)
  unfolding generate delegate_client create init close
  load-generate keys calls upd few_keys few_calls =
      let n = length keys in
      let m = length calls in
      let header = word_bytes n ++ word_bytes m in
      let (bs, stored, records) = perform-records keys n m upd header in
      let (cs, exported, transactions) = perform-transactions calls n m upd (header ++ bs) in
      let elems = map (str2key strtoull padding) keys in
      let txs = map (tx_of strtoull padding upd) calls in
      let n_elems = length-map (str2key strtoull padding) keys in
      let n_txs = length-map (tx_of strtoull padding upd) calls in
      let loaded =
        load-Encoded elems txs bs cs n m few_keys few_calls n_elems n_txs records transactions in
      (
        close (phase true n m upd ((header ++ bs) ++ cs)),
        record { elems = elems; txs = txs },
        rw (stored, exported) refl,
        loaded,
        refl,
        calls_of-tx_of upd calls,
        n_txs,
      )
