-- ===== src/Db/QueryProcessor.antt =====
-- db/include/query_processor.hpp: the queue of pending queries. The queue itself is the library's:
-- `Q` is its type and `enqueue` its insertion, which says whether it succeeded.
pub mod Clients
pub mod Answered
use contreap.Prelude.{ℕ, ◌+◌, ◌-◌, ◌^◌, Bool, true, false, wrap, if◌then◌else◌}

pub record QueryContext : Type 0 where
  pub ver : ℕ
  pub idx : ℕ
  pub l : ℕ
  pub r : ℕ

pub record QueryProcessor (Q : Type 0) : Type 0 where
  pub num_threads : ℕ
  pub num_queries : ℕ
  pub queries : Q
  pub working : Bool

-- `~0` as the bit pattern of an `int`.
abbrev pub failure : ℕ
failure = 2 ^ 32 - 1

module _ {Q : Type 0} where
  unfoldable pub create : ℕ → Q → QueryProcessor Q
  create num_threads empty = record {
    num_threads = num_threads;
    num_queries = 0;
    queries = empty;
    working = false;
  }

  unfoldable pub start : QueryProcessor Q → QueryProcessor Q
  start p = record p { working = true }

  unfoldable pub stop : QueryProcessor Q → QueryProcessor Q
  stop p = record p { working = false }

  module _ (enqueue : Q → QueryContext → Bool × Q) where
    -- The new state and the return code.
    unfoldable pub push : QueryProcessor Q → ℕ → ℕ → ℕ → QueryProcessor Q × ℕ
    push p ver l r =
        let idx = wrap (p.num_queries + 1) in
        let (fits, queries) = enqueue p.queries (record { ver = ver; idx = idx; l = l; r = r }) in
        (record p { num_queries = idx; queries = queries }, if fits then 0 else failure)
