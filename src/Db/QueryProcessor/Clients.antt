-- ===== src/Db/QueryProcessor/Clients.antt =====
-- db/include/query_processor.hpp: the client threads. `try_dequeue` is the queue's removal for the
-- producer token, which may find nothing, and `f` is the processor function of the backend.
use contreap.Prelude.{ℕ, zero, suc, Bool, true, false, Option, none, some, List, [], ◌∷◌, ◌++◌}
use contreap.Db.QueryProcessor.{QueryContext, QueryProcessor, start, stop, push}

pub record ResultContext : Type 0 where
  pub ver : ℕ
  pub ret : ℕ

-- Where a client is in `process_`: at the head of the outer loop, at the head of the inner loop, with
-- a query, or out of its loops.
pub data ClientPhase : Type 0 where
  checking dequeuing ended : ClientPhase
  processing : QueryContext → ClientPhase

-- A client thread with its element of `results_`.
pub record Client : Type 0 where
  pub phase : ClientPhase
  pub results : List ResultContext

-- The query processor with its client threads.
pub record Processor (Q : Type 0) : Type 0 where
  pub base : QueryProcessor Q
  pub clients : List Client

abbrev pub new_clients : ℕ → List Client
new_clients zero = []
new_clients (suc n) = record { phase = checking; results = [] } ∷ new_clients n

-- `do_process_` of `QueryProcessorImpl`, whose field is `f`.
abbrev pub do_process : (ℕ → ℕ → ℕ → ℕ) → ℕ → ℕ → ℕ → ℕ
do_process f ver l r = f ver l r

-- The result of a query: its index, and what `do_process_` returns.
abbrev pub result_of : (ℕ → ℕ → ℕ → ℕ) → QueryContext → ResultContext
result_of f q = record { ver = q.idx; ret = do_process f q.ver q.l q.r }

-- What the threads do next: the modifier starts the clients, pushes a query or stops them, or a client
-- makes its next step.
pub data Move : Type 0 where
  starts stops : Move
  pushes : ℕ → ℕ → ℕ → Move
  client : ℕ → Move

module _ {Q : Type 0} (enqueue : Q → QueryContext → Bool × Q)
    (try_dequeue : Q → Option (QueryContext × Q)) (f : ℕ → ℕ → ℕ → ℕ) where
  -- What `try_dequeue_from_producer` leaves of the client and of the queue.
  abbrev pub dequeued : Client → Q → Option (QueryContext × Q) → Client × Q
  dequeued c queries none = (record c { phase = checking }, queries)
  dequeued c queries (some (q, queries')) = (record c { phase = processing q }, queries')

  -- One step of `process_`.
  unfoldable pub client_phase : ClientPhase → Bool → Client → Q → Client × Q
  client_phase checking true c queries = (record c { phase = dequeuing }, queries)
  client_phase checking false c queries = (record c { phase = ended }, queries)
  client_phase dequeuing working c queries = dequeued c queries (try_dequeue queries)
  client_phase (processing q) working c queries =
      (record { phase = dequeuing; results = c.results ++ (result_of f q ∷ []) }, queries)
  client_phase ended working c queries = (c, queries)

  -- A step of the client with this position.
  unfoldable pub client_turn : ℕ → Bool → List Client → Q → List Client × Q
  client_turn k working [] queries = ([], queries)
  client_turn zero working (c ∷ cs) queries =
      let next = client_phase c.phase working c queries in (next.0 ∷ cs, next.1)
  client_turn (suc k) working (c ∷ cs) queries =
      let next = client_turn k working cs queries in (c ∷ next.0, next.1)

  unfoldable pub move : Move → Processor Q → Processor Q
  move starts p = record { base = start p.base; clients = new_clients p.base.num_threads }
  move stops p = record p { base = stop p.base }
  move (pushes ver l r) p = record p { base = (push enqueue p.base ver l r).0 }
  move (client k) p =
      let next = client_turn k p.base.working p.clients p.base.queries in
      record { base = record p.base { queries = next.1 }; clients = next.0 }

  unfoldable pub run : List Move → Processor Q → Processor Q
  run [] p = p
  run (m ∷ moves) p = run moves (move m p)
