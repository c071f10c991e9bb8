-- ===== src/Trees.antt =====
-- C++/Datastruct/Searching/BinarySearchingTree/BinaryTree3.c, of which Searching/AVLTree has a copy
-- and Tree/ExpressionTree and Tree/binaryTree earlier versions: nodes at addresses, 0 for `NULL`.
pub mod Shape
pub mod Access
pub mod Traverse
pub mod Delete
pub mod Bst
pub mod Avl
pub mod ExpTree
mod Tests
use today_i_learned.Common.{ℕ, zero, suc, List, [], ◌∷◌, ◌++◌, some, ◌==◌, if◌then◌else◌}
unfoldable pub use today_i_learned.Common.Store.{Ptr, null, update, load, free}
use today_i_learned.Common.Store.{StoreOf}
use today_i_learned.Common.Int.{ℤ}
use today_i_learned.Common.Run.{Run, ok, fault, out_of_fuel, ◌>>=◌}

pub record Node : Type 0 where
  pub left : Ptr
  pub datum : ℤ
  pub right : Ptr

-- What stands at each address; `none` where nothing is allocated.
abbrev pub Store : Type 0
Store = StoreOf Node

-- `fresh` is what `malloc` gives, and `garbage` the data there.
unfoldable pub make_bt_node : (fresh : Ptr) (garbage : ℤ) → Store → Ptr × Store
make_bt_node fresh garbage h =
    (fresh, update h fresh (some (record { left = null; datum = garbage; right = null })))

unfoldable pub get_data : Store → Ptr → Run ℤ
get_data h bt = do n ← load h bt; ok n.datum

unfoldable pub set_data : Store → Ptr → ℤ → Run Store
set_data h bt x = do n ← load h bt; ok (update h bt (some (record n { datum = x })))

unfoldable pub get_left_sub_tree : Store → Ptr → Run Ptr
get_left_sub_tree h bt = do n ← load h bt; ok n.left

unfoldable pub get_right_sub_tree : Store → Ptr → Run Ptr
get_right_sub_tree h bt = do n ← load h bt; ok n.right

unfoldable pub change_left_sub_tree : Store → (main sub : Ptr) → Run Store
change_left_sub_tree h main sub = do
  n ← load h main
  ok (update h main (some (record n { left = sub })))

unfoldable pub change_right_sub_tree : Store → (main sub : Ptr) → Run Store
change_right_sub_tree h main sub = do
  n ← load h main
  ok (update h main (some (record n { right = sub })))

unfoldable pub make_left_sub_tree : Store → (main sub : Ptr) → Run Store
make_left_sub_tree h main sub = do
  l ← get_left_sub_tree h main
  h' ← if l == null then ok h else free h l
  change_left_sub_tree h' main sub

unfoldable pub make_right_sub_tree : Store → (main sub : Ptr) → Run Store
make_right_sub_tree h main sub = do
  r ← get_right_sub_tree h main
  h' ← if r == null then ok h else free h r
  change_right_sub_tree h' main sub

-- For a null pointer the result is the uninitialised `tmp`.
unfoldable pub remove_left_sub_tree : Store → Ptr → Run (Ptr × Store)
remove_left_sub_tree h bt =
    if bt == null
    then fault
    else do tmp ← get_left_sub_tree h bt; h' ← change_left_sub_tree h bt null; ok (tmp, h')

unfoldable pub remove_right_sub_tree : Store → Ptr → Run (Ptr × Store)
remove_right_sub_tree h bt =
    if bt == null
    then fault
    else do tmp ← get_right_sub_tree h bt; h' ← change_right_sub_tree h bt null; ok (tmp, h')

-- The traversals, on fuel: the data that `action` is called with, in order.
unfoldable pub preorder_traverse : ℕ → Store → Ptr → Run (List ℤ)
preorder_traverse zero h bt = out_of_fuel
preorder_traverse (suc k) h bt =
    let visit : Run (List ℤ) = do
      n ← load h bt
      xs ← preorder_traverse k h n.left
      ys ← preorder_traverse k h n.right
      ok (n.datum ∷ xs ++ ys)
    in if bt == null then ok [] else visit

unfoldable pub postorder_traverse : ℕ → Store → Ptr → Run (List ℤ)
postorder_traverse zero h bt = out_of_fuel
postorder_traverse (suc k) h bt =
    let visit : Run (List ℤ) = do
      n ← load h bt
      ys ← postorder_traverse k h n.right
      xs ← postorder_traverse k h n.left
      ok (ys ++ n.datum ∷ xs)
    in if bt == null then ok [] else visit

unfoldable pub inorder_traverse : ℕ → Store → Ptr → Run (List ℤ)
inorder_traverse zero h bt = out_of_fuel
inorder_traverse (suc k) h bt =
    let visit : Run (List ℤ) = do
      n ← load h bt
      xs ← inorder_traverse k h n.left
      ys ← inorder_traverse k h n.right
      ok (xs ++ n.datum ∷ ys)
    in if bt == null then ok [] else visit

-- It gives the data that it prints.
unfoldable pub delete_tree : ℕ → Store → Ptr → Run (List ℤ × Store)
delete_tree zero h bt = out_of_fuel
delete_tree (suc k) h bt = do
  l ← get_left_sub_tree h bt
  let left_part = (if l == null then ok ([], h) else delete_tree k h l)
  (xs, h₁) ← left_part
  r ← get_right_sub_tree h₁ bt
  let right_part = (if r == null then ok ([], h₁) else delete_tree k h₁ r)
  (ys, h₂) ← right_part
  x ← get_data h₂ bt
  h₃ ← free h₂ bt
  ok (xs ++ (ys ++ x ∷ []), h₃)
