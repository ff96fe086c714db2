-- ===== src/Db/Contreap/Follows.antt =====
-- A run of the backend is a run of the scheduler on the requests of the transactions.
use contreap.Prelude.{
  ℕ, suc, ◌+◌, ◌≡◌, ◌<◌, refl, sym, ap, ◌∙◌, arith, Bool, Option, some, List, [], ◌∷◌, wrap,
  u64_mod,
}
use mathlib.Core.Path.{subst}
use contreap.Treap.Scheduler.Store.{Result, ok, ◌>>=◌}
use contreap.Treap.Scheduler.Task.{op_none}
use contreap.Treap.Scheduler.Machine.{Machine}
use contreap.Treap.Scheduler.Threads
use contreap.Treap.Scheduler.Threads.{Turn, init_context}
use contreap.Treap.Scheduler.Outcome.{Then, Then-bind_from, Then-chain}
use contreap.Treap.Scheduler.Order.{HasFlow, step-HasFlow}
use contreap.Treap.Scheduler.Requests.{
  pipe_thread-any, worker_thread-any, init_context-next, init_context-issued, issues, step-issued,
}
use contreap.Db.Interface
use contreap.Db.QueryProcessor.{QueryContext}
use contreap.Db.Contreap.{
  Contreap, deref, request, query, insert, delete, step, insert_elem, delete_elem, nop, move, run,
}
use contreap.Db.Contreap.Contents.{request_of, request_at, program_of}

-- What a pointer that is not null leads to.
pub Then-deref {ℓ κ} :
    {A : Type ℓ} (P : A → Type κ) (o : Option Machine) (m : Machine) (f : Machine → Result A)
    → o ≡ some m
    → Then P (f m)
    → Then P (deref o >>= f)
Then-deref P o m f has h = subst (λ x. Then P (deref x >>= f)) (sym has) h

module _ {Q : Type 0} (fuel : ℕ) (hash : ℕ → ℕ) (enqueue : Q → QueryContext → Bool × Q) where
  -- The scheduler after a turn, as a part of the backend.
  abbrev Runs : Result Machine → Contreap Q → Type 0
  Runs r b = (m : Machine) × (r ≡ ok m) × (b.machine ≡ some m)

  -- A transaction is one task of the scheduler.
  step-Runs :
      (c : Interface.Call) (b : Contreap Q) (m : Machine)
      → b.machine ≡ some m
      → Then
          (λ x. Runs (init_context fuel hash (λ i. request_of c) m) x.0)
          (step fuel hash enqueue c b)
  unfolding step query insert delete nop insert_elem delete_elem
  step-Runs (Interface.Call.query l r) b m has =
      Then-deref _ b.machine m _ has (Then-bind_from _ (nop fuel hash m) _ (λ m' e. (m', e, refl)))
  step-Runs (Interface.Call.insert k) b m has =
      Then-deref _ b.machine m _ has
        (Then-bind_from _ (insert_elem fuel hash k m) _ (λ m' e. (m', e, refl)))
  step-Runs (Interface.Call.delete k) b m has =
      Then-deref _ b.machine m _ has
        (Then-bind_from _ (delete_elem fuel hash k m) _ (λ m' e. (m', e, refl)))

  module _ (all : List Interface.Call) where
    -- The transactions that are left are those after the tasks that have been issued.
    abbrev Left : Machine → List Interface.Call → Type 0
    Left m calls = (j : ℕ) → request_at all (m.num_issued + j) ≡ request_at calls j

    -- A turn of the backend is the same turn of the scheduler, with the requests of all transactions.
    abbrev Follows : Turn → Machine → Contreap Q × List Interface.Call → Type 0
    Follows t m x =
        (m' : Machine) × (Threads.step fuel hash (program_of all) t m ≡ ok m')
        × (x.0.machine ≡ some m')
        × Left m' x.1

    Left-issued :
        (m m' : Machine) (calls calls' : List Interface.Call) (k : ℕ)
        → m'.num_issued ≡ m.num_issued + k
        → ((j : ℕ) → request_at calls (k + j) ≡ request_at calls' j)
        → Left m calls
        → Left m' calls'
    Left-issued m m' calls calls' k issued drops left j =
        let place : m.num_issued + (k + j) ≡ m'.num_issued + j = omega (arith, issued) in
        subst (λ i. request_at all i ≡ request_at calls' j) place (left (k + j) ∙ drops j)

    thread-Follows :
        (t : Turn) (calls : List Interface.Call) (b : Contreap Q) (m : Machine)
        → b.machine ≡ some m
        → issues t m.num_issued ≡ m.num_issued
        → Threads.step fuel hash (program_of all) t m
          ≡ Threads.step fuel hash (λ i. request op_none 0) t m
        → Left m calls
        → Then (Follows t m) (
            deref b.machine >>= λ m1. Threads.step fuel hash (λ i. request op_none 0) t m1 >>= λ m'.
            ok (record b { machine = some m' }, calls))
    thread-Follows t calls b m has idle same left =
        let turn = Threads.step fuel hash (λ i. request op_none 0) t in
        Then-deref _ b.machine m _ has (
          Then-bind_from (Follows t m) (turn m) (λ m'. ok (record b { machine = some m' }, calls))
            (λ m' e.
              let issued : m'.num_issued ≡ issues t m.num_issued =
                subst (Then (λ x. x.num_issued ≡ issues t m.num_issued)) e
                  (step-issued fuel hash (λ i. request op_none 0) m t) in
              (
                m',
                same ∙ e,
                refl,
                Left-issued m m' calls calls 0 (omega (arith, issued, idle))
                    (λ j. ap (request_at calls) (omega arith)) left,
              )))

    move-Follows :
        (t : Turn) (calls : List Interface.Call) (b : Contreap Q) (m : Machine)
        → b.machine ≡ some m
        → m.num_issued + 1 < u64_mod
        → Left m calls
        → Then (Follows t m) (move fuel hash enqueue t calls b)
    unfolding move Threads.step request_at
    move-Follows Turn.master [] b m has few left = tt
    move-Follows Turn.master (c ∷ calls) b m has few left =
        let next : suc m.num_issued ≡ wrap (m.num_issued + 1) = omega arith in
        let here : m.num_issued + 0 ≡ m.num_issued = omega arith in
        let asked : program_of all (wrap (m.num_issued + 1)) ≡ request_of c =
          subst (λ i. program_of all i ≡ request_of c) next
            (subst (λ i. request_at all i ≡ request_of c) here (left 0)) in
        let dropped : (j : ℕ) → request_at (c ∷ calls) (1 + j) ≡ request_at calls j = λ j.
          let place : suc j ≡ 1 + j = omega arith in
          subst (λ i. request_at (c ∷ calls) i ≡ request_at calls j) place refl in
        let same = init_context-next fuel hash (program_of all) (λ i. request_of c) m asked in
        Then-chain (λ x. Runs (init_context fuel hash (λ i. request_of c) m) x.0)
          (Follows Turn.master m) (step fuel hash enqueue c b) _
          (λ x (m', made, has').
            let issued : m'.num_issued ≡ wrap (m.num_issued + 1) =
              subst (Then (λ x. x.num_issued ≡ wrap (m.num_issued + 1))) made
                (init_context-issued fuel hash (λ i. request_of c) m) in
            (
              m',
              same ∙ made,
              has',
              Left-issued m m' (c ∷ calls) calls 1 (omega (arith, issued)) dropped left,
            ))
          (step-Runs c b m has)
    move-Follows (Turn.pipe id) calls b m has few left =
        thread-Follows (Turn.pipe id) calls b m has refl
          (pipe_thread-any fuel hash (program_of all) (λ i. request op_none 0) id m) left
    move-Follows (Turn.worker id) calls b m has few left =
        thread-Follows (Turn.worker id) calls b m has refl
          (worker_thread-any fuel hash (program_of all) (λ i. request op_none 0) id m) left
    move-Follows Turn.boarder calls b m has few left =
        thread-Follows Turn.boarder calls b m has refl refl left
    move-Follows Turn.collector calls b m has few left =
        thread-Follows Turn.collector calls b m has refl refl left

    pub run-Follows :
        (np nt : ℕ)
        → nt + 2 < u64_mod
        → (turns : List Turn) (calls : List Interface.Call) (b : Contreap Q) (m : Machine)
        → HasFlow np nt m
        → b.machine ≡ some m
        → Left m calls
        → Then
            (λ x.
              (m' : Machine) × (Threads.run fuel hash (program_of all) turns m ≡ ok m')
              × (x.0.machine ≡ some m'))
            (run fuel hash enqueue turns calls b)
    unfolding run Threads.run
    run-Follows np nt fits [] calls b m h has left = (m, refl, has)
    run-Follows np nt fits (t ∷ turns) calls b m h has left =
        let (p, n, flow) = h in
        Then-chain (Follows t m) _ (move fuel hash enqueue t calls b) _
          (λ x (m1, stepped, has1, left1).
            let h1 : HasFlow np nt m1 =
              subst (Then (HasFlow np nt)) stepped
                (step-HasFlow np nt fits m fuel hash (program_of all) t h) in
            subst
              (λ r.
                Then
                  (λ y.
                    (m' : Machine) × ((r >>= Threads.run fuel hash (program_of all) turns) ≡ ok m')
                    × (y.0.machine ≡ some m'))
                  (run fuel hash enqueue turns x.1 x.0))
              (sym stepped) (run-Follows np nt fits turns x.1 x.0 m1 h1 has1 left1))
          (move-Follows t calls b m has (omega (arith, flow.issued_le, n, fits)) left)
