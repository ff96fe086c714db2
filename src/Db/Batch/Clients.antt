-- ===== src/Db/Batch/Clients.antt =====
-- db/batch.hpp: what a client thread is answered, from the search for the root on.
use contreap.Prelude.{
  ℕ, ◌+◌, ◌≡◌, ◌<◌, refl, sym, ap, ◌∙◌, Bool, some, List, [], ◌∷◌, length, count, u64_mod, ◌>>=◌,
  inl, inr,
}
use mathlib.Core.Path.{subst}
use mathlib.Core.Option.{some-injective}
use contreap.Tree.Order.{IsInjective}
use contreap.Db.Interface.{Call}
use contreap.Db.QueryProcessor.{QueryContext}
use contreap.Db.Logging.{CanLog}
use contreap.Db.Batch
use contreap.Db.Batch.{Root, run}
use contreap.Db.Batch.Updates.{updates, update_history}
use contreap.Db.Batch.Client.{Cursor, Outcome, process_range_query, read_root}
use contreap.Db.Batch.Seek.{IsCursor, chain, process_range_query_lem}
use contreap.Db.Batch.Order.{
  IsAmong, Ascending, chain-Descending, chain-IsAmong, IsAmong-chain, among-le_newest, found_same,
}
use contreap.Db.Batch.Runs.{run-AllRoots}
use contreap.Db.Batch.Answers.{root_answer, AllAnswers, AllRoots-AllAnswers}

AllAnswers-IsAmong :
    (copies_at : ℕ → ℕ → ℕ) (roots : List Root) (w : Root)
    → AllAnswers copies_at roots
    → IsAmong w roots
    → (l r : ℕ) → read_root w w.ver l r ≡ root_answer (copies_at w.ver) l r
AllAnswers-IsAmong copies_at [] w h m = elim m [ ]
AllAnswers-IsAmong copies_at (x ∷ roots) w h (inl e) =
    subst (λ y. (l r : ℕ) → read_root y y.ver l r ≡ root_answer (copies_at y.ver) l r) (sym e) h.0
AllAnswers-IsAmong copies_at (x ∷ roots) w h (inr m) = AllAnswers-IsAmong copies_at roots w h.1 m

of_chain : (roots : List Root) (w : Root) → IsAmong w (chain roots []) → IsAmong w roots
of_chain roots w m = elim (chain-IsAmong roots [] w m) [ inl k ↦ k | inr k ↦ elim k [ ] ]

-- A query of the version of a root, from any place of the list.
answer_of_version :
    (copies_at : ℕ → ℕ → ℕ) (num : ℕ) (roots : List Root) (c : Cursor) (root : Root) (l r : ℕ)
    → Ascending (chain roots [])
    → AllAnswers copies_at roots
    → num < u64_mod
    → IsCursor num c
    → chain c.behind (c.cur_root ∷ c.ahead) ≡ chain roots []
    → IsAmong root roots
    → (c' : Cursor) × (process_range_query num root.ver l r c
        ≡ some (Outcome.value c' (root_answer (copies_at root.ver) l r)))
answer_of_version copies_at num roots c root l r sorted answers fits valid same m =
    let listed = IsAmong-chain roots [] root (inl m) in
    let known =
      among-le_newest c.behind c.cur_root c.ahead root (subst Ascending (sym same) sorted)
        (subst (IsAmong root) (sym same) listed) in
    let (c', done, found) = process_range_query_lem num root.ver l r c valid fits known in
    let moved = found.moved.same ∙ same in
    let here : c'.cur_root.ver ≡ root.ver =
      found_same c'.behind c'.cur_root c'.ahead root (subst Ascending (sym moved) sorted)
        (subst (IsAmong root) (sym moved) listed) found.older found.has in
    let at_root = of_chain roots c'.cur_root (
      subst (IsAmong c'.cur_root) moved
        (IsAmong-chain c'.behind (c'.cur_root ∷ c'.ahead) c'.cur_root (inr (inl refl)))) in
    let read = AllAnswers-IsAmong copies_at roots c'.cur_root answers at_root l r in
    (
      c',
      done
          ∙ ap (λ x. some (Outcome.value c' x))
              (subst (λ v. read_root c'.cur_root v l r ≡ root_answer (copies_at v) l r) here read),
    )

-- Where the hash is injective: an empty backend with batches of any positive size is initialised with an
-- array of keys, runs a sequence of calls and is closed, with fewer than 2^64 keys and updates together,
-- in a build that leaves out the messages for debugging or with a key in every version.
-- A client thread whose cursor stands anywhere in the list of the roots, and that takes a query of the
-- version of any root, ends its search and answers it as the keys of the array after as many of the
-- updates as the version says, where a deletion takes all copies of its key.
pub run-process_range_query :
    {Q : Type 0} (hash : ℕ → ℕ) (injective : IsInjective hash)
    (enqueue : Q → QueryContext → Bool × Q) (clients batch_size m : ℕ) (empty : Q) (elems : List ℕ)
    (calls : List Call) (s : Batch.Batch Q) (c : Cursor) (root : Root) (l r : ℕ) (log_level : ℕ)
    → ((v : ℕ) → CanLog log_level (update_history (λ j. count j elems) calls v))
    → 0 < batch_size
    → length elems + updates calls < u64_mod
    → (Batch.init log_level hash (Batch.create clients batch_size empty) m elems
        >>= run log_level hash enqueue calls
        >>= Batch.close log_level hash)
      ≡ some s
    → s.num_versions < u64_mod
    → IsCursor s.num_versions c
    → chain c.behind (c.cur_root ∷ c.ahead) ≡ chain s.roots []
    → IsAmong root s.roots
    → (c' : Cursor) × (process_range_query s.num_versions root.ver l r c
        ≡ some (
            Outcome.value c'
              (root_answer (update_history (λ j. count j elems) calls root.ver) l r)))
run-process_range_query hash injective enqueue clients batch_size m empty elems calls s c root l r
      log_level logs pos w done fits valid same among =
    let copies_at = update_history (λ j. count j elems) calls in
    let (s', latest, earlier, done', stored, newest, roots, descending) =
      run-AllRoots hash injective enqueue clients batch_size m empty elems calls log_level logs pos
        w in
    let equal : s' ≡ s = some-injective _ _ (sym done' ∙ done) in
    let answers =
      subst (λ x. AllAnswers copies_at x.roots) equal
        (AllRoots-AllAnswers hash copies_at s'.roots roots) in
    let sorted =
      subst (λ x. Ascending (chain x.roots [])) equal (chain-Descending s'.roots descending) in
    answer_of_version copies_at s.num_versions s.roots c root l r sorted answers fits valid same
      among
