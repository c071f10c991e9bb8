-- ===== src/Trees/ExpTree/Value.antt =====
-- `EvaluateExpTree` on the tree of an expression.
use today_i_learned.Common.{
  ℕ, zero, suc, ◌+◌, ◌≡◌, refl, arith, ◌∙◌, false, inl, inr, Bool-cases, ◌==◌, ◌≤◌, ◌≢◌,
}
use today_i_learned.Common.Int.{ℤ, pos, eqb_ℤ}
use today_i_learned.Common.Run.{Run, ◌>>=◌, checked, bind_cong, Ends, Ends-map}
use today_i_learned.Expression.Syntax.{
  HasDigits, postfix_expr, Expr, Term, Factor, term, sum, factor, product, digit, paren, plus,
  minus, times, over, AddOp, MulOp, add_code, mul_code, apply_add, apply_mul, value_expr,
  value_term, value_factor,
}
use today_i_learned.Trees.{Ptr, null, Store}
use today_i_learned.Trees.Access.{get_data-cell, get_left-cell, get_right-cell}
use today_i_learned.Trees.Shape.{Tree, node, root, cell, size, IsStored, eq-null}
use today_i_learned.Trees.ExpTree.{exp_result, evaluate_exp_tree, make_exp_tree}
use today_i_learned.Trees.ExpTree.Plant.{
  chars_expr, chars_term, plant_expr, plant_term, plant_factor, size-plant_expr,
}
use today_i_learned.Trees.ExpTree.Build.{make_exp_tree-IsMade}

-- The value of an expression in `int`, with an overflow undefined.
abbrev pub int_value : Expr → Run ℤ
int_value e = value_expr (λ v. v) checked e

at_add : (o : AddOp) (a b : ℤ) → exp_result (pos (add_code o)) a b ≡ (apply_add o a b >>= checked)
unfolding exp_result apply_add
at_add plus a b = refl
at_add minus a b = refl

at_mul : (o : MulOp) (a b : ℤ) → exp_result (pos (mul_code o)) a b ≡ (apply_mul o a b >>= checked)
unfolding exp_result apply_mul
at_mul times a b = refl
at_mul over a b = elim (Bool-cases (eqb_ℤ b (pos 0))) [ inl e ↦ rw e refl | inr e ↦ rw e refl ]

-- An inner node.
evaluate-node :
    (l : Tree) (a : Ptr) (x : ℤ) (r : Tree) (k : ℕ) (h : Store)
    → IsStored h (node l a x r)
    → (root l == null) ≡ false
    → evaluate_exp_tree (suc k) h a ≡ (
        evaluate_exp_tree k h (root l) >>= λ op1.
        evaluate_exp_tree k h (root r) >>= λ op2. exp_result x op1 op2)
unfolding evaluate_exp_tree
evaluate-node l a x r k h s inner =
    let n = cell (root l) x (root r) in
    rw
      (
        get_left-cell h a n s.1 s.2,
        get_right-cell h a n s.1 s.2,
        get_data-cell h a n s.1 s.2,
        inner,
      )
      refl

module _ (fresh : ℕ → Ptr) where
  mutual
    unfolding value_expr

    planted_expr :
        (e : Expr) (i : ℕ) (h : Store)
        → IsStored h (plant_expr fresh e i)
        → (root (plant_expr fresh e i) == null) ≡ false
    planted_expr (term t) i h s = planted_term t i h s
    planted_expr (sum e o t) i h s = eq-null _ s.1

    planted_term :
        (t : Term) (i : ℕ) (h : Store)
        → IsStored h (plant_term fresh t i)
        → (root (plant_term fresh t i) == null) ≡ false
    planted_term (factor f) i h s = planted_factor f i h s
    planted_term (product t o f) i h s = eq-null _ s.1

    planted_factor :
        (f : Factor) (i : ℕ) (h : Store)
        → IsStored h (plant_factor fresh f i)
        → (root (plant_factor fresh f i) == null) ≡ false
    planted_factor (digit d) i h s = eq-null _ s.1
    planted_factor (paren e) i h s = planted_expr e i h s

  mutual
    unfolding value_expr evaluate_exp_tree

    value-expr :
        (e : Expr) (i k : ℕ) (h : Store)
        → IsStored h (plant_expr fresh e i)
        → size (plant_expr fresh e i) ≤ k
        → evaluate_exp_tree k h (root (plant_expr fresh e i)) ≡ value_expr (λ v. v) checked e
    value-expr (term t) i k h s f = value-term t i k h s f
    value-expr (sum e o t) i zero h s f = absurd (omega arith)
    value-expr (sum e o t) i (suc k) h s f =
        evaluate-node (plant_expr fresh e i) _ _ (plant_term fresh t (i + chars_expr e)) k h s
          (planted_expr e i h s.0)
        ∙ rw
            (
              value-expr e i k h s.0 (omega arith),
              value-term t (i + chars_expr e) k h s.3 (omega arith),
            )
            (bind_cong (value_expr (λ v. v) checked e)
              λ a. bind_cong (value_term (λ v. v) checked t) λ b. at_add o a b)

    value-term :
        (t : Term) (i k : ℕ) (h : Store)
        → IsStored h (plant_term fresh t i)
        → size (plant_term fresh t i) ≤ k
        → evaluate_exp_tree k h (root (plant_term fresh t i)) ≡ value_term (λ v. v) checked t
    value-term (factor g) i k h s f = value-factor g i k h s f
    value-term (product t o g) i zero h s f = absurd (omega arith)
    value-term (product t o g) i (suc k) h s f =
        evaluate-node (plant_term fresh t i) _ _ (plant_factor fresh g (i + chars_term t)) k h s
          (planted_term t i h s.0)
        ∙ rw
            (
              value-term t i k h s.0 (omega arith),
              value-factor g (i + chars_term t) k h s.3 (omega arith),
            )
            (bind_cong (value_term (λ v. v) checked t)
              λ a. bind_cong (value_factor (λ v. v) checked g) λ b. at_mul o a b)

    value-factor :
        (g : Factor) (i k : ℕ) (h : Store)
        → IsStored h (plant_factor fresh g i)
        → size (plant_factor fresh g i) ≤ k
        → evaluate_exp_tree k h (root (plant_factor fresh g i)) ≡ value_factor (λ v. v) checked g
    value-factor (digit d) i zero h s f = absurd (omega arith)
    value-factor (digit d) i (suc k) h s f =
        let n = cell null (pos d) null in
        rw
          (
            get_left-cell h (fresh i) n s.1 s.2,
            get_right-cell h (fresh i) n s.1 s.2,
            get_data-cell h (fresh i) n s.1 s.2,
          )
          refl
    value-factor (paren e) i k h s f = value-expr e i k h s f

-- `EvaluateExpTree` on the tree that `MakeExpTree` builds from an expression over digits in postfix
-- notation, with distinct addresses from `malloc`, gives the value of the expression in `int`, where
-- a division by 0 and an overflow are undefined.
pub make_exp_tree-int_value :
    (fresh : ℕ → Ptr) (garbage : ℕ → ℤ) (e : Expr) (k : ℕ) (h : Store)
    → ((x y : ℕ) → fresh x ≡ fresh y → x ≡ y)
    → ((x : ℕ) → fresh x ≢ null)
    → HasDigits e
    → chars_expr e ≤ k
    → Ends
        (λ (p, h'). evaluate_exp_tree k h' p ≡ int_value e)
        (make_exp_tree fresh garbage (postfix_expr e) h)
make_exp_tree-int_value fresh garbage e k h distinct not_null d f =
    Ends-map _ _ _ (make_exp_tree-IsMade fresh distinct not_null garbage e h d)
      λ (p, h') (at_root, stored, frame).
        rw at_root (value-expr fresh e 0 k h' stored (omega (arith, size-plant_expr fresh e 0)))
