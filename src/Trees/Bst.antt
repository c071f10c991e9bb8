-- ===== src/Trees/Bst.antt =====
-- C++/Datastruct/Searching/BinarySearchingTree/BinarySearchTree2.c. A root pointer that a function
-- changes through `BTreeNode **` is an argument and a result.
pub mod Model
pub mod Order
pub mod Proper
pub mod Walk
pub mod Place
pub mod Insert
pub mod Set
pub mod Remove
use today_i_learned.Common.{ℕ, zero, suc, List, Option, none, some, ◌==◌, if◌then◌else◌}
use today_i_learned.Trees.{
  Ptr, null, Store, make_bt_node, get_data, set_data, get_left_sub_tree, get_right_sub_tree,
  make_left_sub_tree, make_right_sub_tree, inorder_traverse,
}
use today_i_learned.Common.Int.{ℤ, ltb_ℤ, eqb_ℤ}
use today_i_learned.Common.Run.{Run, ok, out_of_fuel, ◌>>=◌}
use today_i_learned.Trees.Shape.{root}

unfoldable pub bst_make_and_init : Ptr
bst_make_and_init = null

unfoldable pub bst_get_node_data : Store → Ptr → Run ℤ
bst_get_node_data h bst = get_data h bst

-- The first `while` of `BSTInsert`, on fuel: the parent for the new node, or `none` where the data
-- is there already.
unfoldable pub find_parent : ℕ → Store → (c_node p_node : Ptr) → (x : ℤ) → Run (Option Ptr)
find_parent zero h c p x = out_of_fuel
find_parent (suc k) h c p x =
    let down : Run (Option Ptr) = do
      d ← get_data h c
      let further = (do
        c' ←
            if ltb_ℤ d x
            then get_right_sub_tree h c
            else if ltb_ℤ x d
            then get_left_sub_tree h c
            else ok c
        find_parent k h c' c x)
      if eqb_ℤ d x then ok none else further
    in if c == null then ok (some p) else down

-- What `BSTInsert` does with that parent.
unfoldable pub add_node :
    (fresh : Ptr) (garbage : ℤ) → Store → (root p_node : Ptr) → (x : ℤ) → Run (Ptr × Store)
add_node fresh garbage h root p x = do
  let (tmp, h₁) = make_bt_node fresh garbage h
  h₂ ← set_data h₁ tmp x
  let hang : Run (Ptr × Store) = (do
    d ← get_data h₂ p
    h₃ ← if ltb_ℤ d x then make_right_sub_tree h₂ p tmp else make_left_sub_tree h₂ p tmp
    ok (root, h₃))
  if p == null then ok (tmp, h₂) else hang

unfoldable pub bst_insert :
    ℕ → (fresh : Ptr) (garbage : ℤ) → Store → (root : Ptr) → (x : ℤ) → Run (Ptr × Store)
bst_insert k fresh garbage h root x = do
  place ← find_parent k h root null x
  elim place [ none ↦ ok (root, h) | some p ↦ add_node fresh garbage h root p x ]

unfoldable pub bst_search : ℕ → Store → (bst : Ptr) → (target : ℤ) → Run Ptr
bst_search zero h tmp target = out_of_fuel
bst_search (suc k) h tmp target =
    let down : Run Ptr = do
      d ← get_data h tmp
      let further = (do
        tmp' ← if ltb_ℤ d target then get_right_sub_tree h tmp else get_left_sub_tree h tmp
        bst_search k h tmp' target)
      if eqb_ℤ d target then ok tmp else further
    in if tmp == null then ok null else down

unfoldable pub bst_show_all : ℕ → Store → Ptr → Run (List ℤ)
bst_show_all k h bst = inorder_traverse k h bst
