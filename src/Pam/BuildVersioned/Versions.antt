-- ===== src/Pam/BuildVersioned/Versions.antt =====
-- What the tree of a batch tells of each version.
use contreap.Prelude.{
  ℕ, ◌+◌, ◌≡◌, ◌<◌, ◌≤◌, refl, List, [], ◌∷◌, ◌++◌, map, ltb, if◌then◌else◌, wrap, u64_mod, arith,
}
use contreap.Tree.{Keyed}
use contreap.Pam.Node.{ValVer, Cell, cell_keyed, last, last_of}
use contreap.Pam.BuildVersioned.{raise, merge_values}
use contreap.Pam.Query.{value_before, find_value}

-- Every entry of a node is older than `b`.
abbrev pub AllOlder : ℕ → List ValVer → Type 0
AllOlder b [] = Unit
AllOlder b (w ∷ vs) = (w.ver < b) × AllOlder b vs

abbrev pub Older : ℕ → Cell → Type 0
Older b c = (c.first.ver < b) × AllOlder b c.later

-- The first entry of a node is not older than `b`.
abbrev pub Since : ℕ → Cell → Type 0
Since b c = b ≤ c.first.ver

AllOlder-append :
    (b : ℕ) (vs ws : List ValVer) → AllOlder b vs → AllOlder b ws → AllOlder b (vs ++ ws)
AllOlder-append b [] ws p q = q
AllOlder-append b (v ∷ vs) ws p q = (p.0, AllOlder-append b vs ws p.1 q)

pub AllOlder-raise : (b n : ℕ) (vs : List ValVer) → AllOlder b vs → AllOlder b (map (raise n) vs)
AllOlder-raise b n [] p = tt
AllOlder-raise b n (v ∷ vs) p = (p.0, AllOlder-raise b n vs p.1)

AllOlder-mono : (a b : ℕ) (vs : List ValVer) → a ≤ b → AllOlder a vs → AllOlder b vs
AllOlder-mono a b [] h p = tt
AllOlder-mono a b (v ∷ vs) h p = (omega arith, AllOlder-mono a b vs h p.1)

-- Reading a list of entries at a version that all of them have passed gives the last one.
pub value_before_all :
    (v b : ℕ) (f : ValVer) (vs : List ValVer)
    → AllOlder b vs
    → b ≤ v + 1
    → value_before v f.val vs ≡ (last_of f vs).val
unfolding value_before
value_before_all v b f [] p h = refl
value_before_all v b f (w ∷ vs) p h = ground (arith, value_before_all v b w vs)

value_before-raise :
    (v n x : ℕ) (vs : List ValVer)
    → value_before v (wrap (n + x)) (map (raise n) vs) ≡ wrap (n + value_before v x vs)
unfolding value_before
value_before-raise v n x [] = refl
value_before-raise v n x (w ∷ vs) = ground (arith, value_before-raise v n w.val vs)

-- The entries of the first node decide up to the second one's first version.
value_before-append :
    (v b n x : ℕ) (vs : List ValVer) (f : ValVer) (ws : List ValVer)
    → AllOlder b vs
    → b ≤ f.ver
    → value_before v x (vs ++ raise n f ∷ map (raise n) ws)
      ≡ (if ltb v f.ver then value_before v x vs else wrap (n + value_before v f.val ws))
unfolding value_before
value_before-append v b n x [] f ws p h = ground (arith, value_before-raise v n f.val ws)
value_before-append v b n x (w ∷ vs) f ws p h =
    ground (arith, value_before-append v b n w.val vs f ws)

pub Older-mono : (a b : ℕ) (c : Cell) → a ≤ b → Older a c → Older b c
Older-mono a b c h p = (omega arith, AllOlder-mono a b c.later h p.1)

pub Older-merge_values : (b : ℕ) (c d : Cell) → Older b c → Older b d → Older b (merge_values c d)
unfolding merge_values
Older-merge_values b c d p q =
    (p.0, AllOlder-append b c.later _ p.1 (q.0, AllOlder-raise b (last c).val d.later q.1))

-- A merged node counts at each version what the two nodes count.
pub find_value-merge_values :
    (v b : ℕ) (c d : Cell)
    → Older b c
    → Since b d
    → find_value c v + find_value d v < u64_mod
    → find_value (merge_values c d) v ≡ find_value c v + find_value d v
unfolding find_value merge_values value_before
find_value-merge_values v b c d p q h = ground (
  arith,
  value_before-append v b (last c).val c.first.val c.later d.first d.later p.1 q,
  value_before_all v b c.first c.later p.1,
)

-- The tree as it stood at a version.
abbrev pub at_version : ℕ → Keyed Cell
at_version v = record { key = λ c. c.key; pry = λ c. c.pry; weight = λ c. find_value c v }
