-- ===== src/Trees/Avl/Model.antt =====
-- The rotations as functions on trees.
use today_i_learned.Common.{ℕ, suc, if◌then◌else◌, ltb}
use today_i_learned.Trees.Shape.{Tree, leaf, node}

abbrev pub max : ℕ → ℕ → ℕ
max a b = if ltb b a then a else b

abbrev pub height : Tree → ℕ
height leaf = 0
height (node l a d r) = suc (max (height l) (height r))

unfoldable pub turn_ll : Tree → Tree
turn_ll leaf = leaf
turn_ll (node leaf a d r) = node leaf a d r
turn_ll (node (node ll c e lr) a d r) = node ll c e (node lr a d r)

unfoldable pub turn_rr : Tree → Tree
turn_rr leaf = leaf
turn_rr (node l a d leaf) = node l a d leaf
turn_rr (node l a d (node rl c e rr)) = node (node l a d rl) c e rr

unfoldable pub turn_lr : Tree → Tree
turn_lr leaf = leaf
turn_lr (node l a d r) = turn_ll (node (turn_rr l) a d r)

unfoldable pub turn_rl : Tree → Tree
turn_rl leaf = leaf
turn_rl (node l a d r) = turn_rr (node l a d (turn_ll r))

unfoldable pub left_heavy : Tree → Tree
left_heavy leaf = leaf
left_heavy (node leaf a d r) = node leaf a d r
left_heavy (node (node ll c e lr) a d r) =
    if ltb (height lr) (height ll)
    then turn_ll (node (node ll c e lr) a d r)
    else turn_lr (node (node ll c e lr) a d r)

unfoldable pub right_heavy : Tree → Tree
right_heavy leaf = leaf
right_heavy (node l a d leaf) = node l a d leaf
right_heavy (node l a d (node rl c e rr)) =
    if ltb (height rl) (height rr)
    then turn_rr (node l a d (node rl c e rr))
    else turn_rl (node l a d (node rl c e rr))

unfoldable pub balance : Tree → Tree
balance leaf = leaf
balance (node l a d r) =
    if ltb (suc (height r)) (height l)
    then left_heavy (node l a d r)
    else if ltb (suc (height l)) (height r)
    then right_heavy (node l a d r)
    else node l a d r
