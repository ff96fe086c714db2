-- ===== src/Db/Batch/Order.antt =====
-- db/batch.hpp: the order of the roots in their list.
use contreap.Prelude.{ℕ, ◌≡◌, ◌≤◌, ◌<◌, ◌⊎◌, inl, inr, refl, sym, ap, arith, List, [], ◌∷◌}
use mathlib.Core.Path.{subst}
use contreap.Db.Batch.{Root}
use contreap.Db.Batch.Seek.{chain, newest, Older}

abbrev pub IsAmong : Root → List Root → Type 0
IsAmong w [] = ⊥
IsAmong w (x ∷ xs) = (w ≡ x) ⊎ IsAmong w xs

-- No version of a list is above, or below, this one.
abbrev pub AllUpTo : ℕ → List Root → Type 0
AllUpTo v [] = Unit
AllUpTo v (x ∷ xs) = (x.ver ≤ v) × AllUpTo v xs

abbrev AllFrom : ℕ → List Root → Type 0
AllFrom v [] = Unit
AllFrom v (x ∷ xs) = (v ≤ x.ver) × AllFrom v xs

-- The newest root first, and the oldest root first.
abbrev pub Descending : List Root → Type 0
Descending [] = Unit
Descending (x ∷ xs) = AllUpTo x.ver xs × Descending xs

abbrev pub Ascending : List Root → Type 0
Ascending [] = Unit
Ascending (x ∷ xs) = AllFrom x.ver xs × Ascending xs

pub AllUpTo-mono : (v w : ℕ) (xs : List Root) → v ≤ w → AllUpTo v xs → AllUpTo w xs
AllUpTo-mono v w [] le h = tt
AllUpTo-mono v w (x ∷ xs) le h = (omega (arith, h.0), AllUpTo-mono v w xs le h.1)

AllFrom-mono : (v w : ℕ) (xs : List Root) → w ≤ v → AllFrom v xs → AllFrom w xs
AllFrom-mono v w [] le h = tt
AllFrom-mono v w (x ∷ xs) le h = (omega (arith, h.0), AllFrom-mono v w xs le h.1)

AllFrom-IsAmong : (v : ℕ) (xs : List Root) (w : Root) → AllFrom v xs → IsAmong w xs → v ≤ w.ver
AllFrom-IsAmong v [] w h m = elim m [ ]
AllFrom-IsAmong v (x ∷ xs) w h (inl e) = subst (λ y. v ≤ y.ver) (sym e) h.0
AllFrom-IsAmong v (x ∷ xs) w h (inr m) = AllFrom-IsAmong v xs w h.1 m

AllUpTo-head :
    (v : ℕ) (x : Root) (xs rest : List Root)
    → AllUpTo v (x ∷ xs)
    → AllFrom v rest
    → AllFrom x.ver rest
AllUpTo-head v x xs rest h k = AllFrom-mono v x.ver rest h.0 k

-- The list of the roots, oldest first, of the list from the newest on.
chain-Ascending :
    (behind rest : List Root) (v : ℕ)
    → Descending behind
    → AllUpTo v behind
    → AllFrom v rest
    → Ascending rest
    → Ascending (chain behind rest)
chain-Ascending [] rest v d u f a = a
chain-Ascending (x ∷ behind) rest v d u f a =
    chain-Ascending behind (x ∷ rest) x.ver d.1 d.0
      (omega arith, AllFrom-mono x.ver x.ver rest (omega arith) (AllUpTo-head v x behind rest u f))
      (AllUpTo-head v x behind rest u f, a)

pub chain-Descending : (roots : List Root) → Descending roots → Ascending (chain roots [])
chain-Descending [] d = tt
chain-Descending (x ∷ xs) d = chain-Ascending xs (x ∷ []) x.ver d.1 d.0 (omega arith, tt) (tt, tt)

pub chain-IsAmong :
    (behind rest : List Root) (w : Root)
    → IsAmong w (chain behind rest)
    → IsAmong w behind ⊎ IsAmong w rest
chain-IsAmong [] rest w m = inr m
chain-IsAmong (x ∷ behind) rest w m = elim (chain-IsAmong behind (x ∷ rest) w m) [
  | inl here ↦ inl (inr here)
  | inr (inl e) ↦ inl (inl e)
  | inr (inr there) ↦ inr there
]

pub IsAmong-chain :
    (behind rest : List Root) (w : Root)
    → IsAmong w behind ⊎ IsAmong w rest
    → IsAmong w (chain behind rest)
IsAmong-chain [] rest w (inl m) = elim m [ ]
IsAmong-chain [] rest w (inr m) = m
IsAmong-chain (x ∷ behind) rest w (inl (inl e)) = IsAmong-chain behind (x ∷ rest) w (inr (inl e))
IsAmong-chain (x ∷ behind) rest w (inl (inr m)) = IsAmong-chain behind (x ∷ rest) w (inl m)
IsAmong-chain (x ∷ behind) rest w (inr m) = IsAmong-chain behind (x ∷ rest) w (inr (inr m))

chain-rest : (behind rest : List Root) → Ascending (chain behind rest) → Ascending rest
chain-rest [] rest a = a
chain-rest (x ∷ behind) rest a = (chain-rest behind (x ∷ rest) a).1

-- What is behind is not newer than what is ahead.
behind-le :
    (behind rest : List Root) (w y : Root)
    → Ascending (chain behind rest)
    → IsAmong w behind
    → IsAmong y rest
    → w.ver ≤ y.ver
behind-le [] rest w y a k m = elim k [ ]
behind-le (x ∷ behind) rest w y a (inl e) m =
    subst (λ z. z.ver ≤ y.ver) (sym e)
      (AllFrom-IsAmong x.ver rest y (chain-rest behind (x ∷ rest) a).0 m)
behind-le (x ∷ behind) rest w y a (inr k) m = behind-le behind (x ∷ rest) w y a k (inr m)

newest-IsAmong : (cur : Root) (ahead : List Root) → IsAmong (newest cur ahead) (cur ∷ ahead)
newest-IsAmong cur [] = inl refl
newest-IsAmong cur (next ∷ ahead) = inr (newest-IsAmong next ahead)

newest-le :
    (cur : Root) (ahead : List Root) (w : Root)
    → Ascending (cur ∷ ahead)
    → IsAmong w (cur ∷ ahead)
    → w.ver ≤ (newest cur ahead).ver
newest-le cur ahead w a (inl e) =
    subst (λ z. z.ver ≤ (newest cur ahead).ver) (sym e)
      (newest-from cur ahead a (newest-IsAmong cur ahead))
  where
    newest-from :
        (x : Root) (xs : List Root)
        → Ascending (x ∷ xs)
        → IsAmong (newest x xs) (x ∷ xs)
        → x.ver ≤ (newest x xs).ver
    newest-from x xs h (inl same) = subst (λ z. x.ver ≤ z.ver) (sym same) (omega arith)
    newest-from x xs h (inr m) = AllFrom-IsAmong x.ver xs (newest x xs) h.0 m
newest-le cur [] w a (inr m) = elim m [ ]
newest-le cur (next ∷ ahead) w a (inr m) = newest-le next ahead w a.1 m

-- Every root of the list is at most the last one that the cursor leads to.
pub among-le_newest :
    (behind : List Root) (cur : Root) (ahead : List Root) (w : Root)
    → Ascending (chain behind (cur ∷ ahead))
    → IsAmong w (chain behind (cur ∷ ahead))
    → w.ver ≤ (newest cur ahead).ver
among-le_newest behind cur ahead w a m = elim (chain-IsAmong behind (cur ∷ ahead) w m) [
  | inl back ↦ behind-le behind (cur ∷ ahead) w (newest cur ahead) a back (newest-IsAmong cur ahead)
  | inr front ↦ newest-le cur ahead w (chain-rest behind (cur ∷ ahead) a) front
]

Older-IsAmong :
    (behind rest : List Root) (w : Root)
    → Ascending (chain behind rest)
    → Older w.ver behind
    → IsAmong w behind
    → ⊥
Older-IsAmong [] rest w a lt m = elim m [ ]
Older-IsAmong (x ∷ behind) rest w a lt (inl e) =
    let self : w.ver < w.ver = subst (λ z. z.ver < w.ver) (sym e) lt in absurd (omega (arith, self))
Older-IsAmong (x ∷ behind) rest w a lt (inr m) =
    let le = behind-le behind (x ∷ rest) w x a m (inl refl) in absurd (omega (arith, le, lt))

-- A cursor that has found the place of a version that is in the list stands at this version.
pub found_same :
    (behind : List Root) (cur : Root) (ahead : List Root) (w : Root)
    → Ascending (chain behind (cur ∷ ahead))
    → IsAmong w (chain behind (cur ∷ ahead))
    → Older w.ver behind
    → w.ver ≤ cur.ver
    → cur.ver ≡ w.ver
found_same behind cur ahead w a m older has = elim (chain-IsAmong behind (cur ∷ ahead) w m) [
  | inl back ↦ absurd (Older-IsAmong behind (cur ∷ ahead) w a older back)
  | inr (inl e) ↦ ap (λ z. z.ver) (sym e)
  | inr (inr front) ↦
      let le = AllFrom-IsAmong cur.ver ahead w (chain-rest behind (cur ∷ ahead) a).0 front in
      omega (arith, le, has)
]
