-- ===== src/Db/Sequential/Versions.antt =====
-- Every version of the sequential backend holds what the calls before it say.
use contreap.Prelude.{
  ℕ, zero, suc, ◌+◌, ◌≡◌, ◌<◌, ◌≤◌, refl, arith, Bool, some, List, [], ◌∷◌, length, wrap, Slots,
  read, write, u64_mod, write_lem, pred_u64, ◌∙◌,
}
use contreap.Tree.{Tree}
use native.Mathlib.Nat.{add-zero}
use contreap.Tree.Order.{IsInjective}
use contreap.Treap.Node.{Cell}
use contreap.Treap.Augment.{augment}
use contreap.Treap.SearchInsert.{search_insert}
use contreap.Treap.SearchDelete.{search_delete}
use contreap.Treap.Represents.{Represents, Represents-mono}
use contreap.Treap.Update.{insert-Represents, delete-Represents, plus, minus}
use contreap.Db.Interface.{Call, apply, history}
use contreap.Db.QueryProcessor
use contreap.Db.QueryProcessor.{QueryContext, QueryProcessor}
use contreap.Db.Sequential
use contreap.Db.Sequential.{Sequential, step, run}

module _ {Q : Type 0} (hash : ℕ → ℕ) where
  -- The slot `v` holds a complete version with these copies.
  pub record Holds (s : Sequential Q) (v : ℕ) (copies : ℕ → ℕ) (n : ℕ) : Type 0 where
    pub tree : Tree Cell
    pub stored : read s.roots v ≡ some tree
    pub represents : Represents hash copies n tree

  -- What a call does where there is a slot left for its version: it counts the version, fills its
  -- slot and leaves the slots before it alone.
  pub record Advances (s s' : Sequential Q) (copies : ℕ → ℕ) (n : ℕ) : Type 0 where
    pub counted : s'.num_versions ≡ s.num_versions + 1
    pub slots : s'.roots.len ≡ s.roots.len
    pub kept : (j : ℕ) → j ≤ s.num_versions → read s'.roots j ≡ read s.roots j
    pub newest : Holds s' (s.num_versions + 1) copies n

  -- The common part of the three calls: the new version is written to the next slot.
  publish :
      (s : Sequential Q) (p : QueryProcessor Q) (t : Tree Cell) (copies : ℕ → ℕ) (n : ℕ)
      → s.num_versions + 1 < s.roots.len
      → s.num_versions + 1 < u64_mod
      → Represents hash copies n t
      → (roots : Slots (Tree Cell)) × (write s.roots (wrap (1 + s.num_versions)) t ≡ some roots)
        × Advances s
            (record {
              num_versions = wrap (1 + s.num_versions);
              roots = roots;
              query_processor = p;
            })
            copies
            n
  publish s p t copies n room small v =
      let next : wrap (1 + s.num_versions) ≡ s.num_versions + 1 = omega arith in
      let (roots, written, w) = write_lem s.roots (wrap (1 + s.num_versions)) t (omega arith) in
      (
        roots,
        written,
        record {
          counted = next;
          slots = w.len;
          kept = λ j h. w.others j (omega arith);
          newest = record { tree = t; stored = rw (← next) w.self; represents = v };
        },
      )

  module _ (injective : IsInjective hash) (enqueue : Q → QueryContext → Bool × Q) where
    -- A call makes the next version from the newest one.
    pub step-Advances :
        (c : Call) (s : Sequential Q) (copies : ℕ → ℕ) (n : ℕ)
        → s.num_versions + 1 < s.roots.len
        → s.num_versions + 1 < u64_mod
        → n + 1 < u64_mod
        → Holds s s.num_versions copies n
        → (s' : Sequential Q) × (code : ℕ) × (step hash enqueue c s ≡ some (s', code))
          × Advances s s' (apply c copies) (n + 1)
    unfolding step Sequential.insert Sequential.delete Sequential.query
    step-Advances (Call.insert k) s copies n room small fits h =
        let ver = wrap (1 + s.num_versions) in
        let back : pred_u64 ver ≡ s.num_versions = omega arith in
        let (roots, written, a) =
          publish s s.query_processor (augment (search_insert ver h.tree (hash k) k)).0
            (plus copies k) (n + 1) room small
            (insert-Represents hash injective ver k h.tree fits h.represents) in
        (_, 0, rw (back, h.stored, written), a)
    step-Advances (Call.delete k) s copies n room small fits h =
        let ver = wrap (1 + s.num_versions) in
        let back : pred_u64 ver ≡ s.num_versions = omega arith in
        let (roots, written, a) =
          publish s s.query_processor (augment (search_delete ver h.tree (hash k) k)).0
            (minus copies k) (n + 1) room small
            (Represents-mono hash (n + 1) (omega arith)
              (delete-Represents hash injective ver k h.tree (omega arith) h.represents)) in
        (_, 0, rw (back, h.stored, written), a)
    step-Advances (Call.query l r) s copies n room small fits h =
        let ver = wrap (1 + s.num_versions) in
        let back : pred_u64 ver ≡ s.num_versions = omega arith in
        let pushed = QueryProcessor.push enqueue s.query_processor ver l r in
        let (roots, written, a) =
          publish s pushed.0 h.tree copies (n + 1) room small
            (Represents-mono hash (n + 1) (omega arith) h.represents) in
        (_, pushed.1, rw (back, h.stored, written), a)

    -- A sequence of calls for which there are slots.
    pub record Runs (s s' : Sequential Q) (copies : ℕ → ℕ) (n : ℕ) (calls : List Call)
        : Type 0 where
      pub done : run hash enqueue calls s ≡ some s'
      pub counted : s'.num_versions ≡ s.num_versions + length calls
      pub kept : (j : ℕ) → j ≤ s.num_versions → read s'.roots j ≡ read s.roots j
      pub versions :
          (v : ℕ)
          → v ≤ length calls
          → Holds s' (s.num_versions + v) (history copies calls v) (n + v)

    versions_none :
        (s : Sequential Q) (copies : ℕ → ℕ) (n v : ℕ)
        → Holds s s.num_versions copies n
        → v ≤ 0
        → Holds s (s.num_versions + v) (history copies [] v) (n + v)
    unfolding history
    versions_none s copies n zero h le = rw (add-zero, add-zero) h
    versions_none s copies n (suc v) h le = elim le [ ]

    versions_more :
        (c : Call) (calls : List Call) (s s' : Sequential Q) (copies : ℕ → ℕ) (n k v : ℕ)
        → k ≡ s.num_versions + 1
        → Holds s' s.num_versions copies n
        → ((j : ℕ)
            → j ≤ length calls
            → Holds s' (k + j) (history (apply c copies) calls j) (n + 1 + j))
        → v ≤ suc (length calls)
        → Holds s' (s.num_versions + v) (history copies (c ∷ calls) v) (n + v)
    unfolding history
    versions_more c calls s s' copies n k zero e h later le = rw (add-zero, add-zero) h
    versions_more c calls s s' copies n k (suc v) e h later le =
        let place : s.num_versions + suc v ≡ k + v = omega arith in
        let most : n + suc v ≡ n + 1 + v = omega arith in rw (place, most) (later v (omega arith))

    pub run-Runs :
        (calls : List Call) (s : Sequential Q) (copies : ℕ → ℕ) (n : ℕ)
        → s.num_versions + length calls < s.roots.len
        → s.num_versions + length calls < u64_mod
        → n + length calls < u64_mod
        → Holds s s.num_versions copies n
        → (s' : Sequential Q) × Runs s s' copies n calls
    unfolding run
    run-Runs [] s copies n room small fits h = (
      s,
      record {
        done = refl;
        counted = omega arith;
        kept = λ j le. refl;
        versions = λ v. versions_none s copies n v h;
      },
    )
    run-Runs (c ∷ calls) s copies n room small fits h =
        let (s1, code, stepped, a) =
          step-Advances c s copies n (omega arith) (omega arith) (omega arith) h in
        let (s2, rest) =
          run-Runs calls s1 (apply c copies) (n + 1) (omega (arith, a.counted, a.slots))
            (omega (arith, a.counted)) (omega arith) (rw a.counted a.newest) in
        (
          s2,
          record {
            done = rw stepped rest.done;
            counted = omega (arith, a.counted, rest.counted);
            kept = λ j le. rest.kept j (omega (arith, a.counted)) ∙ a.kept j le;
            versions = λ v.
                versions_more c calls s s2 copies n s1.num_versions v a.counted
                  (record {
                    tree = h.tree;
                    stored =
                        rest.kept s.num_versions (omega (arith, a.counted))
                        ∙ a.kept s.num_versions (omega arith)
                        ∙ h.stored;
                    represents = h.represents;
                  })
                  rest.versions;
          },
        )
