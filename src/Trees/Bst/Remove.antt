-- ===== src/Trees/Bst/Remove.antt =====
-- `BSTRemove` of BinarySearchTree2.c.
pub mod Model
pub mod Link
pub mod Least
pub mod Two
pub mod Unlink
pub mod Walk
pub mod Result
pub mod Order
pub mod Proper
pub mod Set
use today_i_learned.Common.{ℕ, zero, suc, ◌==◌, ◌&&◌, ◌||◌, if◌then◌else◌}
use today_i_learned.Trees.{
  Ptr, null, Store, make_bt_node, free, get_data, set_data, get_left_sub_tree, get_right_sub_tree,
  change_left_sub_tree, change_right_sub_tree, remove_left_sub_tree, remove_right_sub_tree,
}
use today_i_learned.Common.Int.{ℤ, ltb_ℤ, eqb_ℤ}
use today_i_learned.Common.Run.{Run, ok, out_of_fuel, ◌>>=◌}
use today_i_learned.Trees.Shape.{root}

-- The first `while`, on fuel: the node with the target, or null, and its parent.
unfoldable pub find_target : ℕ → Store → (p_node c_node : Ptr) → ℤ → Run (Ptr × Ptr)
find_target zero h p c target = out_of_fuel
find_target (suc k) h p c target =
    let down : Run (Ptr × Ptr) = do
      d ← get_data h c
      let further = (do
        c' ← if ltb_ℤ target d then get_left_sub_tree h c else get_right_sub_tree h c
        find_target k h c c' target)
      if eqb_ℤ d target then ok (p, c) else further
    in if c == null then ok (p, c) else down

-- Case 1: no child.
unfoldable pub remove_childless : Store → (p_node d_node : Ptr) → Run Store
remove_childless h p d = do
  l ← get_left_sub_tree h p
  (_, h') ← if l == d then remove_left_sub_tree h p else remove_right_sub_tree h p
  ok h'

-- Case 2: one child.
unfoldable pub remove_single : Store → (p_node d_node : Ptr) → Run Store
remove_single h p d = do
  l ← get_left_sub_tree h d
  dc ← if l == null then get_right_sub_tree h d else ok l
  pl ← get_left_sub_tree h p
  if pl == d then change_left_sub_tree h p dc else change_right_sub_tree h p dc

-- The second `while`, on fuel.
unfoldable pub find_least : ℕ → Store → (mp_node m_node : Ptr) → Run (Ptr × Ptr)
find_least zero h mp m = out_of_fuel
find_least (suc k) h mp m = do
  l ← get_left_sub_tree h m
  let further = find_least k h m l
  if l == null then ok (mp, m) else further

-- Case 3: two children. The data of `m_node` goes to `d_node`, and `m_node` is taken out.
unfoldable pub take_out : Store → (d_node mp_node m_node : Ptr) → Run (Ptr × Store)
take_out h d mp m = do
  del_data ← get_data h d
  m_data ← get_data h m
  h₁ ← set_data h d m_data
  l ← get_left_sub_tree h₁ mp
  let at_left = (do r ← get_right_sub_tree h₁ m; change_left_sub_tree h₁ mp r)
  let at_right = (do l' ← get_left_sub_tree h₁ m; change_right_sub_tree h₁ mp l')
  h₂ ← if l == m then at_left else at_right
  h₃ ← set_data h₂ m del_data
  ok (m, h₃)

unfoldable pub remove_two : ℕ → Store → (d_node : Ptr) → Run (Ptr × Store)
remove_two k h d = do
  first ← get_right_sub_tree h d
  (mp, m) ← find_least k h d first
  take_out h d mp m

unfoldable pub unlink : ℕ → Store → (p_node d_node : Ptr) → Run (Ptr × Store)
unlink k h p d = do
  l ← get_left_sub_tree h d
  r ← get_right_sub_tree h d
  let childless : Run (Ptr × Store) = (do h' ← remove_childless h p d; ok (d, h'))
  let single : Run (Ptr × Store) = (do h' ← remove_single h p d; ok (d, h'))
  let rest = (if l == null || r == null then single else remove_two k h d)
  if l == null && r == null then childless else rest

-- It gives the node that is taken out and the root. Where the target is not found the node of
-- `pVRoot` is not freed.
unfoldable pub bst_remove :
    ℕ → (fresh : Ptr) (garbage : ℤ) → Store → (root : Ptr) → ℤ → Run (Ptr × Ptr × Store)
bst_remove k fresh garbage h root target = do
  let (v, h₀) = make_bt_node fresh garbage h
  h₁ ← change_right_sub_tree h₀ v root
  (p, c) ← find_target k h₁ v root target
  let found : Run (Ptr × Ptr × Store) = (do
    (d, h₂) ← unlink k h₁ p c
    r ← get_right_sub_tree h₂ v
    h₃ ← free h₂ v
    ok (d, if r == root then root else r, h₃))
  if c == null then ok (null, root, h₁) else found
