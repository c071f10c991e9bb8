-- ===== src/Trees/Avl.antt =====
-- C++/Datastruct/Searching/AVLTree: AVLRebalance.c, and BinarySearchTree3.c, which is
-- BinarySearchTree2.c with a call of `Rebalance` at the end of `BSTInsert` and `BSTRemove`.
pub mod Model
pub mod Turn
pub mod Height
pub mod Rebalance
pub mod Order
pub mod Set
pub mod Level
mod Tests
use today_i_learned.Common.{ℕ, zero, suc, none, some, ◌==◌, if◌then◌else◌}
use today_i_learned.Common.Int.{ℤ, pos, negsuc, ◌+ℤ◌, ◌-ℤ◌, ltb_ℤ}
use today_i_learned.Common.Run.{Run, ok, out_of_fuel, ◌>>=◌, checked}
use today_i_learned.Trees.{
  Ptr, null, Store, load, get_left_sub_tree, get_right_sub_tree, change_left_sub_tree,
  change_right_sub_tree,
}
use today_i_learned.Trees.Bst.{find_parent, add_node}
use today_i_learned.Trees.Bst.Remove.{bst_remove}
use today_i_learned.Trees.Shape.{root}

-- On fuel.
unfoldable pub get_height : ℕ → Store → Ptr → Run ℤ
get_height zero h bst = out_of_fuel
get_height (suc k) h bst =
    let measure : Run ℤ = do
      n ← load h bst
      left ← get_height k h n.left
      right ← get_height k h n.right
      if ltb_ℤ right left then checked (left +ℤ pos 1) else checked (right +ℤ pos 1)
    in if bst == null then ok (pos 0) else measure

unfoldable pub get_height_diff : ℕ → Store → Ptr → Run ℤ
get_height_diff k h bst =
    let measure : Run ℤ = do
      n ← load h bst
      left ← get_height k h n.left
      right ← get_height k h n.right
      checked (left -ℤ right)
    in if bst == null then ok (pos 0) else measure

unfoldable pub rotate_ll : Store → Ptr → Run (Ptr × Store)
rotate_ll h p = do
  c ← get_left_sub_tree h p
  inner ← get_right_sub_tree h c
  h₁ ← change_left_sub_tree h p inner
  h₂ ← change_right_sub_tree h₁ c p
  ok (c, h₂)

unfoldable pub rotate_rr : Store → Ptr → Run (Ptr × Store)
rotate_rr h p = do
  c ← get_right_sub_tree h p
  inner ← get_left_sub_tree h c
  h₁ ← change_right_sub_tree h p inner
  h₂ ← change_left_sub_tree h₁ c p
  ok (c, h₂)

unfoldable pub rotate_lr : Store → Ptr → Run (Ptr × Store)
rotate_lr h p = do
  c ← get_left_sub_tree h p
  (c', h₁) ← rotate_rr h c
  h₂ ← change_left_sub_tree h₁ p c'
  rotate_ll h₂ p

unfoldable pub rotate_rl : Store → Ptr → Run (Ptr × Store)
rotate_rl h p = do
  c ← get_right_sub_tree h p
  (c', h₁) ← rotate_ll h c
  h₂ ← change_right_sub_tree h₁ p c'
  rotate_rr h₂ p

-- Where the left part is too high, and where the right part is.
unfoldable pub rebalance_left : ℕ → Store → (root : Ptr) → Run (Ptr × Store)
rebalance_left k h root = do
  l ← get_left_sub_tree h root
  diff ← get_height_diff k h l
  if ltb_ℤ (pos 0) diff then rotate_ll h root else rotate_lr h root

unfoldable pub rebalance_right : ℕ → Store → (root : Ptr) → Run (Ptr × Store)
rebalance_right k h root = do
  r ← get_right_sub_tree h root
  diff ← get_height_diff k h r
  if ltb_ℤ diff (pos 0) then rotate_rr h root else rotate_rl h root

-- It gives the root.
unfoldable pub rebalance : ℕ → Store → (root : Ptr) → Run (Ptr × Store)
rebalance k h root = do
  diff ← get_height_diff k h root
  if ltb_ℤ (pos 1) diff
      then rebalance_left k h root
      else if ltb_ℤ diff (negsuc 0)
      then rebalance_right k h root
      else ok (root, h)

-- `BSTInsert` of BinarySearchTree3.c: it returns before `Rebalance` where the data is there already.
unfoldable pub avl_insert :
    ℕ → (fresh : Ptr) (garbage : ℤ) → Store → (root : Ptr) → (x : ℤ) → Run (Ptr × Store)
avl_insert k fresh garbage h root x = do
  place ← find_parent k h root null x
  let added : Ptr → Run (Ptr × Store) =
      (λ p. do (root', h') ← add_node fresh garbage h root p x; rebalance k h' root')
  elim place [ none ↦ ok (root, h) | some p ↦ added p ]

-- `BSTRemove` of BinarySearchTree3.c: so does it where the target is not there.
unfoldable pub avl_remove :
    ℕ → (fresh : Ptr) (garbage : ℤ) → Store → (root : Ptr) → ℤ → Run (Ptr × Ptr × Store)
avl_remove k fresh garbage h root target = do
  (d, root', h') ← bst_remove k fresh garbage h root target
  let finish : Run (Ptr × Ptr × Store) = (do (r, h₁) ← rebalance k h' root'; ok (d, r, h₁))
  if d == null then ok (d, root', h') else finish
