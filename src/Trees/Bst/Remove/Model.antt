-- ===== src/Trees/Bst/Remove/Model.antt =====
-- The trees that `BSTRemove` leaves.
use today_i_learned.Common.{Bool, true, false, if◌then◌else◌}
use today_i_learned.Trees.{Ptr}
use today_i_learned.Trees.Shape.{Tree, leaf, node}
use today_i_learned.Common.Int.{ℤ, eqb_ℤ, ltb_ℤ}

-- The data of the leftmost node, or `x` where there is none.
unfoldable pub least : Tree → ℤ → ℤ
least leaf x = x
least (node l a d r) x = least l d

unfoldable pub drop_least : Tree → Tree
drop_least leaf = leaf
drop_least (node leaf a d r) = r
drop_least (node (node ll b e lr) a d r) = node (drop_least (node ll b e lr)) a d r

-- Without the node at `a`, between `l` and `r`. Where it has two children and the right one has no
-- left child, the right part of the right one goes with it.
unfoldable pub cut : (l : Tree) → Ptr → (r : Tree) → Tree
cut leaf a r = r
cut (node ll b e lr) a leaf = node ll b e lr
cut (node ll b e lr) a (node leaf c f rr) = node (node ll b e lr) a f leaf
cut (node ll b e lr) a (node (node rll g i rlr) c f rr) =
    node (node ll b e lr) a (least (node rll g i rlr) f)
      (node (drop_least (node rll g i rlr)) c f rr)

unfoldable pub remove : Tree → ℤ → Tree
remove leaf x = leaf
remove (node l a d r) x =
    if eqb_ℤ d x
    then cut l a r
    else if ltb_ℤ x d
    then node (remove l x) a d r
    else node l a d (remove r x)

-- Whether that loses nothing but the node.
unfoldable pub cut_spares : (l r : Tree) → Bool
cut_spares (node ll b e lr) (node leaf c f (node j i y i')) = false
cut_spares (node ll b e lr) (node leaf c f leaf) = true
cut_spares (node ll b e lr) (node (node j i y i') c f rr) = true
cut_spares (node ll b e lr) leaf = true
cut_spares leaf r = true

unfoldable pub spares : Tree → ℤ → Bool
spares leaf x = true
spares (node l a d r) x =
    if eqb_ℤ d x then cut_spares l r else if ltb_ℤ x d then spares l x else spares r x
