-- ===== src/Treap/Query/Find.antt =====
-- A lookup finds the node of its key.
use contreap.Prelude.{ℕ, ◌≡◌, arith, Option, none, some, ◌==◌, if◌then◌else◌, refl}
use contreap.Tree.{Tree, null, node, bag}
use contreap.Tree.Order.{IsOrdered}
use contreap.Tree.Canonical.{Positive, bag-Below, bag-Above}
use contreap.Treap.Node.{Cell, cell_keyed}
use contreap.Treap.Query.{find}

-- `t->val`, which is no value at a null pointer.
abbrev pub val? : Tree Cell → Option ℕ
val? null = none
val? (node t lch rch) = some t.val

-- A lookup reads the number of copies of its key, and ends in a null pointer where there are none.
pub val?-find :
    (t : Tree Cell) (key : ℕ)
    → IsOrdered t
    → Positive t
    → val? (find t key) ≡ (if bag t key == 0 then none else some (bag t key))
unfolding find
val?-find null key o p = refl
val?-find (node t l r) key o p =
    ground (arith, val?-find l key, val?-find r key, bag-Below t.key key l, bag-Above t.key key r)
