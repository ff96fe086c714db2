-- ===== src/Db/Batch/Client.antt =====
-- db/batch.hpp: how a client thread finds the root of a version.
use contreap.Prelude.{
  ℕ, ◌+◌, true, false, Option, none, some, List, [], ◌∷◌, wrap, pred_u64, ltb, leb, ◌==◌, ◌&&◌,
  ◌>>=◌, if◌then◌else◌,
}
use contreap.Pam.Interface.{find, range_estimate}
use contreap.Db.Batch.{Root}

-- The thread's own variables. `cur_root` points into the list of the roots: `behind` is what its
-- `prev` pointers lead to, `ahead` what its `next` pointers lead to.
pub record Cursor : Type 0 where
  pub cur_vid : ℕ
  pub last_vid : ℕ
  pub behind : List Root
  pub cur_root : Root
  pub ahead : List Root

-- The first loop goes back as long as the root before still has the version.
unfoldable pub rewind : ℕ → ℕ → ℕ → List Root → Root → List Root → Cursor
rewind ver last vid [] cur ahead = record {
  cur_vid = vid;
  last_vid = last;
  behind = [];
  cur_root = cur;
  ahead = ahead;
}
rewind ver last vid (prev ∷ behind) cur ahead = elim (leb ver prev.ver) [
  | true ↦ rewind ver last (pred_u64 vid) behind prev (cur ∷ ahead)
  | false ↦ record {
    cur_vid = vid;
    last_vid = last;
    behind = prev ∷ behind;
    cur_root = cur;
    ahead = ahead;
  }
]

-- The inner loop goes on among the roots that the thread knows of; a `next` pointer that is null is
-- a fault.
unfoldable pub advance : ℕ → ℕ → ℕ → List Root → Root → List Root → Option Cursor
advance ver last vid behind cur [] = elim (ltb cur.ver ver && ltb vid last) [
  | true ↦ none
  | false ↦
      some (record { cur_vid = vid; last_vid = last; behind = behind; cur_root = cur; ahead = [] })
]
advance ver last vid behind cur (next ∷ ahead) = elim (ltb cur.ver ver && ltb vid last) [
  | true ↦ advance ver last (wrap (vid + 1)) (cur ∷ behind) next ahead
  | false ↦ some (record {
    cur_vid = vid;
    last_vid = last;
    behind = behind;
    cur_root = cur;
    ahead = next ∷ ahead;
  })
]

-- The outer loop comes back with a new reading of `num_versions_` if the version is not among the
-- roots that the thread knew of. After that it waits for a version that is not committed yet.
unfoldable pub look_again : ℕ → ℕ → Cursor → Option Cursor
look_again num_versions ver c = elim (ltb c.cur_root.ver ver) [
  | true ↦ advance ver num_versions c.cur_vid c.behind c.cur_root c.ahead
  | false ↦ some c
]

unfoldable pub seek : ℕ → ℕ → Cursor → Option Cursor
seek num_versions ver c = do
  let back = rewind ver c.last_vid c.cur_vid c.behind c.cur_root c.ahead
  c' ← advance ver back.last_vid back.cur_vid back.behind back.cur_root back.ahead
  look_again num_versions ver c'

-- What a thread gets: it waits, or it has an answer and a new cursor.
pub data Outcome : Type 0 where
  waits : Cursor → Outcome
  value : Cursor → ℕ → Outcome

-- What it reads from the root that it has found.
abbrev pub read_root : Root → ℕ → ℕ → ℕ → ℕ
read_root root ver l r = if l == r then find root.t ver l else range_estimate root.t ver l r

unfoldable pub outcome : ℕ → ℕ → ℕ → Cursor → Outcome
outcome ver l r c = elim (ltb c.cur_root.ver ver) [
  | true ↦ Outcome.waits c
  | false ↦ Outcome.value c (read_root c.cur_root ver l r)
]

unfoldable pub process_range_query : ℕ → ℕ → ℕ → ℕ → Cursor → Option Outcome
process_range_query num_versions ver l r c = do
  c' ← seek num_versions ver c
  some (outcome ver l r c')
