-- ===== src/Db/Batch/Answers.antt =====
-- db/batch.hpp: what the queries of the versions of the roots are answered.
use contreap.Prelude.{ℕ, ◌≡◌, ap, ◌∙◌, List, [], ◌∷◌, ◌==◌, if◌then◌else◌, Bool-cases, inl, inr}
use mathlib.Core.Path.{fun_ext}
use contreap.Pam.Node.{cell_keyed}
use contreap.Pam.Query.Newest.{find-newest, range_query-newest}
use contreap.Treap.Query.Range.{range_total}
use contreap.Db.Batch
use contreap.Db.Batch.{Root}
use contreap.Db.Batch.Contents.{IsRoot, AllRoots}
use contreap.Db.Batch.Client.{read_root}

-- The answer of the abstract database: equal bounds ask for one key, and a key without copies counts 0.
abbrev pub root_answer : (ℕ → ℕ) → ℕ → ℕ → ℕ
root_answer copies l r = if l == r then copies l else range_total copies l r

-- Each root answers the queries of its own version as the database of this version.
abbrev pub AllAnswers : (ℕ → ℕ → ℕ) → List Root → Type 0
AllAnswers copies_at [] = Unit
AllAnswers copies_at (root ∷ roots) =
    ((l r : ℕ) → read_root root root.ver l r ≡ root_answer (copies_at root.ver) l r)
    × AllAnswers copies_at roots

module _ (hash : ℕ → ℕ) where
  IsRoot-answer :
      (copies_at : ℕ → ℕ → ℕ) (root : Root) (l r : ℕ)
      → IsRoot hash copies_at root
      → read_root root root.ver l r ≡ root_answer (copies_at root.ver) l r
  IsRoot-answer copies_at root l r h =
      let point = find-newest root.ver l root.t h.treap.ordered h.older ∙ h.holds l in
      let range =
        range_query-newest root.ver l r root.t h.treap.ordered h.sums h.older h.size
        ∙ ap (λ f. range_total f l r) (fun_ext h.holds) in
      elim (Bool-cases (l == r)) [ inl e ↦ rw e point | inr e ↦ rw e range ]

  pub AllRoots-AllAnswers :
      (copies_at : ℕ → ℕ → ℕ) (roots : List Root)
      → AllRoots hash copies_at roots
      → AllAnswers copies_at roots
  AllRoots-AllAnswers copies_at [] h = tt
  AllRoots-AllAnswers copies_at (root ∷ roots) h =
      (λ l r. IsRoot-answer copies_at root l r h.0, AllRoots-AllAnswers copies_at roots h.1)
