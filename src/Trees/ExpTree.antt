-- ===== src/Trees/ExpTree.antt =====
-- C++/Datastruct/Tree/ExpressionTree/ExpressionTree.c. Its stack is the one of ListBaseStack.c with
-- pointers to nodes as data. A text is the list of its ASCII codes.
pub mod Plant
pub mod Build
pub mod Value
pub mod Show
mod Tests
use today_i_learned.Common.{ℕ, zero, suc, ◌-◌, List, [], ◌∷◌, ◌==◌, ◌&&◌, if◌then◌else◌}
use today_i_learned.Common.Int.{ℤ, pos, ◌+ℤ◌, ◌-ℤ◌, ◌*ℤ◌, eqb_ℤ, quot, to_char}
use today_i_learned.Common.Run.{Run, ok, fault, out_of_fuel, ◌>>=◌, checked}
use today_i_learned.Stack.{Stack, stack_init, s_push, s_pop}
use today_i_learned.Expression.Convert.{is_digit}
use today_i_learned.Trees.{
  Ptr, null, Store, make_bt_node, get_data, set_data, get_left_sub_tree, get_right_sub_tree,
  make_left_sub_tree, make_right_sub_tree, preorder_traverse, inorder_traverse, postorder_traverse,
}

-- The two ways of the `for` body, for the node at `tmp`.
unfoldable pub fill_node : Store → (tmp : Ptr) → (pv : ℕ) → Stack Ptr → Run (Stack Ptr × Store)
fill_node h tmp pv s =
    if is_digit pv then (do h' ← set_data h tmp (pos (pv - b'0')); ok (s, h')) else do
      (op2, s₂) ← s_pop s
      (op1, s₁) ← s_pop s₂
      h₁ ← make_right_sub_tree h tmp op2
      h₂ ← make_left_sub_tree h₁ tmp op1
      h₃ ← set_data h₂ tmp (to_char (pos pv))
      ok (s₁, h₃)

-- `fresh i` and `garbage i` are what the `malloc` of the round `i` gives.
unfoldable pub build_loop :
    (fresh : ℕ → Ptr) (garbage : ℕ → ℤ)
    → List ℕ
    → (i : ℕ) → Stack Ptr
    → Store
    → Run (Stack Ptr × Store)
build_loop fresh garbage [] i s h = ok (s, h)
build_loop fresh garbage (pv ∷ exp) i s h = do
  let (tmp, h₁) = make_bt_node (fresh i) (garbage i) h
  (s', h₂) ← fill_node h₁ tmp pv s
  build_loop fresh garbage exp (suc i) (s_push s' tmp) h₂

unfoldable pub make_exp_tree :
    (fresh : ℕ → Ptr) (garbage : ℕ → ℤ) → List ℕ → Store → Run (Ptr × Store)
make_exp_tree fresh garbage exp h = do
  (s, h') ← build_loop fresh garbage exp 0 stack_init h
  (bt, s') ← s_pop s
  ok (bt, h')

-- The `switch` on the operator.
unfoldable pub exp_result : ℤ → (op1 op2 : ℤ) → Run ℤ
exp_result x op1 op2 =
    if eqb_ℤ x (pos b'+')
    then checked (op1 +ℤ op2)
    else if eqb_ℤ x (pos b'-')
    then checked (op1 -ℤ op2)
    else if eqb_ℤ x (pos b'*')
    then checked (op1 *ℤ op2)
    else if eqb_ℤ x (pos b'/')
    then (if eqb_ℤ op2 (pos 0) then fault else checked (quot op1 op2))
    else ok (pos 0)

-- On fuel.
unfoldable pub evaluate_exp_tree : ℕ → Store → Ptr → Run ℤ
evaluate_exp_tree zero h bt = out_of_fuel
evaluate_exp_tree (suc k) h bt = do
  l ← get_left_sub_tree h bt
  r ← get_right_sub_tree h bt
  x ← get_data h bt
  let deeper = (do
    op1 ← evaluate_exp_tree k h l
    op2 ← evaluate_exp_tree k h r
    exp_result x op1 op2)
  if l == null && r == null then ok x else deeper

-- The data that the notations show, in order.
unfoldable pub show_prefix_type_exp : ℕ → Store → Ptr → Run (List ℤ)
show_prefix_type_exp k h bt = preorder_traverse k h bt

unfoldable pub show_infix_type_exp : ℕ → Store → Ptr → Run (List ℤ)
show_infix_type_exp k h bt = inorder_traverse k h bt

unfoldable pub show_postfix_type_exp : ℕ → Store → Ptr → Run (List ℤ)
show_postfix_type_exp k h bt = postorder_traverse k h bt
