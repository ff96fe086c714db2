-- ===== src/Db/ClientThreads/Served.antt =====
-- db/sequential.hpp: the client threads get through the queries of the keys that are there.
use contreap.Prelude.{
  ℕ, suc, ◌+◌, ◌≡◌, ◌<◌, ◌≤◌, refl, ap, ◌∙◌, arith, Bool, true, List, [], ◌∷◌, length, ◌==◌, inl,
  inr, Bool-cases,
}
use contreap.Treap.Scheduler.Store.{ok}
use contreap.Db.Interface.{Call, apply, history}
use contreap.Db.Sequential.{Reply}
use contreap.Db.Sequential.Answers.{answer}
use contreap.Db.ClientThreads.{replied, served}

-- The queries of one key that are taken, after `n` calls on the way to this database, are of keys that
-- the database has then.
abbrev pub Answerable : (ℕ → Bool) → ℕ → (ℕ → ℕ) → List Call → Type 0
Answerable takes n copies [] = Unit
Answerable takes n copies (Call.query l r ∷ calls) =
    (takes (suc n) ≡ true → l ≡ r → 0 < copies l) × Answerable takes (suc n) copies calls
Answerable takes n copies (Call.insert k ∷ calls) =
    Answerable takes (suc n) (apply (Call.insert k) copies) calls
Answerable takes n copies (Call.delete k ∷ calls) =
    Answerable takes (suc n) (apply (Call.delete k) copies) calls

replied-answer :
    (copies : ℕ → ℕ) (l r : ℕ) → (l ≡ r → 0 < copies l) → replied (answer copies l r) ≡ ok tt
replied-answer copies l r h = elim (Bool-cases (l == r)) [
  | inl e ↦
      let pos : 0 < copies l = h (ground arith) in
      elim (Bool-cases (copies l == 0)) [
        | inl none ↦ absurd (ground arith)
        | inr some ↦ rw (e, some) refl
      ]
  | inr e ↦ rw e refl
]

history-zero : (copies : ℕ → ℕ) (calls : List Call) → history copies calls 0 ≡ copies
unfolding history
history-zero copies [] = refl
history-zero copies (c ∷ calls) = refl

-- The replies of the versions after `n` calls, which are those of the databases that the calls make.
abbrev pub Replies : (ℕ → ℕ → ℕ → Reply) → ℕ → (ℕ → ℕ) → List Call → Type 0
Replies reply n copies calls =
    (v l r : ℕ) → v ≤ length calls → reply (n + v) l r ≡ answer (history copies calls v) l r

Replies-next :
    (reply : ℕ → ℕ → ℕ → Reply) (n : ℕ) (copies : ℕ → ℕ) (c : Call) (calls : List Call)
    → Replies reply n copies (c ∷ calls)
    → Replies reply (suc n) (apply c copies) calls
unfolding history
Replies-next reply n copies c calls h v l r le =
    let place : n + suc v ≡ suc n + v = omega arith in
    rw place at (h (suc v) l r (omega (arith, le)))

pub served_lem :
    (reply : ℕ → ℕ → ℕ → Reply) (takes : ℕ → Bool) (n : ℕ) (copies : ℕ → ℕ) (calls : List Call)
    → Replies reply n copies calls
    → Answerable takes n copies calls
    → served (λ v l r. replied (reply v l r)) takes n calls ≡ ok tt
served_lem reply takes n copies [] h a = refl
served_lem reply takes n copies (Call.query l r ∷ calls) h a =
    let next = Replies-next reply n copies (Call.query l r) calls h in
    let rest = served_lem reply takes (suc n) copies calls next a.1 in
    elim (Bool-cases (takes (suc n))) [
      | inl e ↦
          let place : suc n + 0 ≡ suc n = omega arith in
          let now : reply (suc n) l r ≡ answer copies l r =
            rw (place, history-zero copies calls) at (next 0 l r (omega arith)) in
          let through : replied (reply (suc n) l r) ≡ ok tt =
            ap replied now ∙ replied-answer copies l r (a.0 e) in
          rw (e, through, served) rest
      | inr e ↦ rw (e, served) rest
    ]
served_lem reply takes n copies (Call.insert k ∷ calls) h a =
    served_lem reply takes (suc n) (apply (Call.insert k) copies) calls
      (Replies-next reply n copies (Call.insert k) calls h) a
served_lem reply takes n copies (Call.delete k ∷ calls) h a =
    served_lem reply takes (suc n) (apply (Call.delete k) copies) calls
      (Replies-next reply n copies (Call.delete k) calls h) a
