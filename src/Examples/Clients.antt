-- ===== src/Examples/Clients.antt =====
-- Tests of the client threads of db/include/query_processor.hpp, with a list as the queue.
use contreap.Prelude.{
  ℕ, ◌+◌, ◌*◌, ◌≡◌, refl, Bool, true, false, Option, none, some, List, [], ◌∷◌, ◌++◌,
}
use contreap.Db.QueryProcessor.{QueryContext, create, start, stop, push}
use contreap.Db.QueryProcessor.Clients.{
  ResultContext, Client, ended, Processor, Move, starts, stops, pushes, client, client_phase,
  client_turn, move, run,
}
use contreap.Db.QueryProcessor.Answered.{sum_of}

abbrev enqueue : List QueryContext → QueryContext → Bool × List QueryContext
enqueue queries q = (true, queries ++ (q ∷ []))

abbrev try_dequeue : List QueryContext → Option (QueryContext × List QueryContext)
try_dequeue [] = none
try_dequeue (q ∷ queries) = some (q, queries)

abbrev contents : List QueryContext → List QueryContext
contents queries = queries

-- An answer that shows the version and the bounds.
abbrev f : ℕ → ℕ → ℕ → ℕ
f ver l r = 100 * ver + 10 * l + r

abbrev g : ResultContext → ℕ
g r = r.ret

abbrev moves : List Move
moves =
    pushes 1 2 3
    ∷ client 0
    ∷ client 1
    ∷ pushes 4 5 6
    ∷ client 1
    ∷ client 0
    ∷ client 1
    ∷ client 0
    ∷ stops
    ∷ []

abbrev reached : Processor (List QueryContext)
reached = run enqueue try_dequeue f (starts ∷ moves) (record { base = create 2 []; clients = [] })

-- Both clients have answered one query.
reached_results : sum_of (λ (c : Client). sum_of g c.results) reached.clients ≡ 123 + 456
unfolding run move push create start stop client_turn client_phase
reached_results = refl

-- A client that looks at the flag after `Stop` has cleared it ends, and the query that was pushed
-- before stays in the queue.
abandoned :
    (run enqueue try_dequeue f
      (starts ∷ pushes 1 2 3 ∷ stops ∷ client 0 ∷ client 0 ∷ [])
      (record { base = create 1 []; clients = [] }))
    ≡ (record {
      base = record {
        num_threads = 1;
        num_queries = 1;
        queries = record { ver = 1; idx = 1; l = 2; r = 3 } ∷ [];
        working = false;
      };
      clients = record { phase = ended; results = [] } ∷ [];
    })
unfolding run move push create start stop client_turn client_phase
abandoned = refl
