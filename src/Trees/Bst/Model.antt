-- ===== src/Trees/Bst/Model.antt =====
-- The search trees that the code builds, as functions on trees.
use today_i_learned.Common.{Option, none, some, if◌then◌else◌, Bool, false, ◌||◌}
use today_i_learned.Trees.{Ptr, null}
use today_i_learned.Trees.Shape.{Tree, leaf, node}
use today_i_learned.Common.Int.{ℤ, eqb_ℤ, ltb_ℤ}

unfoldable pub insert : Tree → ℤ → Ptr → Tree
insert leaf x p = node leaf p x leaf
insert (node l a d r) x p =
    if eqb_ℤ d x
    then node l a d r
    else if ltb_ℤ d x
    then node l a d (insert r x p)
    else node (insert l x p) a d r

-- The node under which the new one goes.
unfoldable pub parent : Tree → ℤ → Ptr → Option Ptr
parent leaf x p = some p
parent (node l a d r) x p =
    if eqb_ℤ d x then none else if ltb_ℤ d x then parent r x a else parent l x a

unfoldable pub locate : Tree → ℤ → Ptr
locate leaf x = null
locate (node l a d r) x = if eqb_ℤ d x then a else if ltb_ℤ d x then locate r x else locate l x

-- Whether a value is in the tree, searched or not.
unfoldable pub contains : Tree → ℤ → Bool
contains leaf x = false
contains (node l a d r) x = eqb_ℤ d x || contains l x || contains r x
