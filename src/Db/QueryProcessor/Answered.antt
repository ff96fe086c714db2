-- ===== src/Db/QueryProcessor/Answered.antt =====
-- db/include/query_processor.hpp: what becomes of the queries that are pushed.
use contreap.Prelude.{ℕ, ◌+◌, ◌≡◌, Bool, wrap, Option, some, List, [], ◌∷◌, ◌++◌}
use contreap.Db.QueryProcessor.{QueryContext}
use contreap.Db.QueryProcessor.Clients.{
  ResultContext, ClientPhase, checking, dequeuing, processing, ended, Client, Processor, Move,
  starts, stops, pushes, client,
}

-- The documented behaviour of the queue for one producer, as long as there is memory: an insertion adds
-- the element, and a removal that finds an element takes the oldest one.
pub record IsQueue {Q : Type 0} (enqueue : Q → QueryContext → Bool × Q)
    (try_dequeue : Q → Option (QueryContext × Q)) (contents : Q → List QueryContext) : Type 0 where
  pub adds : (s : Q) (q : QueryContext) → contents (enqueue s q).1 ≡ contents s ++ (q ∷ [])
  pub takes :
      (s s' : Q) (q : QueryContext) → try_dequeue s ≡ some (q, s') → contents s ≡ q ∷ contents s'

-- The queries that these moves push, from this number of earlier ones on.
abbrev pub pushed : ℕ → List Move → List QueryContext
pushed n [] = []
pushed n (pushes ver l r ∷ moves) =
    record { ver = ver; idx = wrap (n + 1); l = l; r = r } ∷ pushed (wrap (n + 1)) moves
pushed n (client k ∷ moves) = pushed n moves
pushed n (starts ∷ moves) = pushed n moves
pushed n (stops ∷ moves) = pushed n moves

-- `Start` is called once, at the beginning.
abbrev pub Started : List Move → Type 0
Started [] = Unit
Started (starts ∷ moves) = ⊥
Started (stops ∷ moves) = Started moves
Started (pushes ver l r ∷ moves) = Started moves
Started (client k ∷ moves) = Started moves

abbrev pub sum_of {ℓ} : {A : Type ℓ} → (A → ℕ) → List A → ℕ
sum_of g [] = 0
sum_of g (x ∷ xs) = g x + sum_of g xs

-- What a query is to be answered: its number, with the answer for its own version and bounds.
abbrev pub answer_to : (ℕ → ℕ → ℕ → ℕ) → QueryContext → ResultContext
answer_to f q = record { ver = q.idx; ret = f q.ver q.l q.r }

module _ (f : ℕ → ℕ → ℕ → ℕ) (g : ResultContext → ℕ) where
  -- The weight of the answers that a client has given or is about to give.
  abbrev pub in_progress : ClientPhase → ℕ
  in_progress checking = 0
  in_progress dequeuing = 0
  in_progress (processing q) = g (answer_to f q)
  in_progress ended = 0

  abbrev pub of_client : Client → ℕ
  of_client c = in_progress c.phase + sum_of g c.results

  abbrev pub of_queue : List QueryContext → ℕ
  of_queue waiting = sum_of (λ q. g (answer_to f q)) waiting

module _ {Q : Type 0} (enqueue : Q → QueryContext → Bool × Q)
    (try_dequeue : Q → Option (QueryContext × Q)) (contents : Q → List QueryContext)
    (queue : IsQueue enqueue try_dequeue contents) (f : ℕ → ℕ → ℕ → ℕ) (g : ResultContext → ℕ) where
  -- The weight of all answers: given, about to be given, and of the queries that wait.
  abbrev weight : Processor Q → ℕ
  weight p = sum_of (of_client f g) p.clients + of_queue f g (contents p.base.queries)
