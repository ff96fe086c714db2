-- ===== src/Program/Generated.antt =====
-- ycsbc/db/export.hpp and main.cpp: a run of the program on a file of the generator.
use Prim.Native.String.{String}
use contreap.Prelude.{
  ℕ, ◌+◌, ◌≡◌, ◌<◌, ◌≤◌, refl, sym, ap, ◌∙◌, arith, Bool, Option, some, List, length, u64_mod,
  count, map,
}
use mathlib.Core.Option.{some-injective}
use mathlib.Core.Path.{subst}
use contreap.Tree.Order.{IsInjective}
use contreap.CommandLine.{Settings, parsed, parse_command_line}
use contreap.Workload.Export.{Export, Call, insert, create, generate, str2key}
use contreap.Workload.Load.{load, calls_of}
use contreap.Workload.RoundTrip.{length-map, load-generate, meaning}
use contreap.Treap.Scheduler.Threads.{Turn}
use contreap.Db.Logging.{CanLog}
use contreap.Db.Interface
use contreap.Db.Interface.{history}
use contreap.Db.QueryProcessor.{QueryContext}
use contreap.Db.Sequential.{Sequential, processor_function}
use contreap.Db.Sequential.Answers.{answer}
use contreap.Db.ClientThreads.Served.{Answerable}
use contreap.Program.{sequential_done, main}
use contreap.Program.Results.{main-sequential}

abbrev Answers : {Q : Type 0} → Sequential Q → List ℕ → List Interface.Call → Type 0
Answers d elems calls =
    (v l r : ℕ)
    → v ≤ length calls
    → processor_function d v l r ≡ answer (history (λ j. count j elems) calls v) l r

module _ {Q : Type 0} (log_level : ℕ) (takes : ℕ → Bool) (stoi : String → Option ℕ) (cores : ℕ)
    (hash : ℕ → ℕ) (double_log : ℕ → ℕ) (turns : List Turn) (fuel : ℕ) (empty : Q)
    (enqueue : Q → QueryContext → Bool × Q) (files : String → List ℕ) (strtoull : List ℕ → ℕ)
    (padding : ℕ → List ℕ) where
  -- Where the hash is injective, the routine that reads a number gives a 64-bit word, and seven bytes
  -- stand between the type and the arguments of a transaction: when the program runs with `sequential`
  -- on the file that the generator wrote for the insertion of some records and then some calls, fewer
  -- than 2^64 together, where the build leaves out the messages for debugging or the last version of the
  -- abstract database holds a key, and where the queries of one key that the client threads take before
  -- the end are of keys that their versions hold: it comes to its end, and of every version a client is answered as the abstract
  -- database answers that starts with the keys of these records and makes so many of the client's calls.
  pub main-generated :
      (bounded : (str : List ℕ) → strtoull str < u64_mod)
      → (seven : (position : ℕ) → length (padding position) ≡ 7)
      → (argv : List String) (s : Settings) (keys : List (List ℕ)) (calls : List Call)
      → (update_delete : Bool) (e : Export) → IsInjective hash
      → parse_command_line stoi cores argv ≡ parsed s
      → s.dbname ≡ "sequential"
      → length keys + length calls < u64_mod
      → generate strtoull padding
          (map insert keys)
          calls
          (create (length keys) (length calls) update_delete)
        ≡ some e
      → files s.filename ≡ e.fs
      → CanLog log_level (
          history
            (λ j. count j (map (str2key strtoull padding) keys))
            (map (meaning strtoull padding update_delete) calls)
            (length (map (meaning strtoull padding update_delete) calls)))
      → Answerable takes 0
          (λ j. count j (map (str2key strtoull padding) keys))
          (map (meaning strtoull padding update_delete) calls)
      → (d : Sequential Q) × (main log_level takes stoi cores hash double_log turns fuel empty
            enqueue files argv
          ≡ sequential_done d)
        × ((v l r : ℕ)
            → v ≤ length calls
            → processor_function d v l r
              ≡ answer
                  (history
                    (λ j. count j (map (str2key strtoull padding) keys))
                    (map (meaning strtoull padding update_delete) calls)
                    v)
                  l
                  r)
  main-generated bounded seven argv s keys calls upd e injective parse chosen few written file logs
        present =
      let (e', w, wrote, loaded, elems, made, counted) =
        load-generate strtoull padding bounded seven keys calls upd (omega (arith, few))
          (omega (arith, few)) in
      let same : e'.fs ≡ files s.filename =
        ap (λ x. x.fs) (some-injective _ _ (sym wrote ∙ written)) ∙ sym file in
      let sizes : length w.elems + length w.txs < u64_mod =
        subst (λ k. k < u64_mod)
          (sym (rw (elems, counted, length-map (str2key strtoull padding) keys) refl)) few in
      let Ready : List ℕ → List Interface.Call → Type 0 = λ ks cs.
        CanLog log_level (history (λ j. count j ks) cs (length cs))
        × Answerable takes 0 (λ j. count j ks) cs in
      let ready =
        subst (λ cs. Ready w.elems cs) (sym made)
          (subst (λ ks. Ready ks (map (meaning strtoull padding upd) calls)) (sym elems)
            (logs, present)) in
      let (d, ends, answers) =
        main-sequential log_level takes stoi cores hash double_log turns fuel empty enqueue files
          argv s w injective parse chosen (subst (λ fs. load fs ≡ some w) same loaded) sizes ready.0
          ready.1 in
      let of_file =
        subst (λ cs. Answers d (map (str2key strtoull padding) keys) cs) made
          (subst (λ ks. Answers d ks (calls_of w.txs)) elems answers) in
      (
        d,
        ends,
        λ v l r le.
            of_file v l r
              (subst (λ k. v ≤ k) (sym (length-map (meaning strtoull padding upd) calls)) le),
      )
