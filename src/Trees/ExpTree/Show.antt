-- ===== src/Trees/ExpTree/Show.antt =====
-- The notations that the program shows for the tree of an expression.
use today_i_learned.Common.{ℕ, ◌+◌, ◌<◌, ◌≡◌, ◌≢◌, refl, List, [], ◌∷◌, ◌++◌, arith, ◌∙◌, ap}
use today_i_learned.Common.Int.{ℤ, pos}
use today_i_learned.Common.Run.{ok, Ends, Ends-map}
use today_i_learned.Expression.Syntax.{
  Expr, Term, Factor, term, sum, factor, product, digit, paren, add_code, mul_code, postfix_expr,
  HasDigits,
}
use today_i_learned.Trees.{Ptr, null, Store}
use today_i_learned.Trees.Shape.{inorder}
use today_i_learned.Trees.Traverse.{inorder_traverse-inorder, postorder_traverse-reverse}
use today_i_learned.Trees.ExpTree.{make_exp_tree, show_infix_type_exp, show_postfix_type_exp}
use today_i_learned.Trees.ExpTree.Plant.{
  chars_expr, chars_term, plant_expr, plant_term, plant_factor, size-plant_expr,
}
use today_i_learned.Trees.ExpTree.Build.{make_exp_tree-IsMade}
use mathlib.Core.List.{reverse}

-- Infix notation without its brackets.
abbrev mutual
  pub flat_expr : Expr → List ℤ
  flat_expr (term t) = flat_term t
  flat_expr (sum e o t) = flat_expr e ++ pos (add_code o) ∷ flat_term t

  pub flat_term : Term → List ℤ
  flat_term (factor f) = flat_factor f
  flat_term (product t o f) = flat_term t ++ pos (mul_code o) ∷ flat_factor f

  pub flat_factor : Factor → List ℤ
  flat_factor (digit d) = pos d ∷ []
  flat_factor (paren e) = flat_expr e

module _ (fresh : ℕ → Ptr) where
  mutual
    inorder-expr : (e : Expr) (i : ℕ) → inorder (plant_expr fresh e i) ≡ flat_expr e
    inorder-expr (term t) i = inorder-term t i
    inorder-expr (sum e o t) i = rw (inorder-expr e i, inorder-term t (i + chars_expr e)) refl

    inorder-term : (t : Term) (i : ℕ) → inorder (plant_term fresh t i) ≡ flat_term t
    inorder-term (factor f) i = inorder-factor f i
    inorder-term (product t o f) i = rw (inorder-term t i, inorder-factor f (i + chars_term t)) refl

    inorder-factor : (f : Factor) (i : ℕ) → inorder (plant_factor fresh f i) ≡ flat_factor f
    inorder-factor (digit d) i = refl
    inorder-factor (paren e) i = inorder-expr e i

-- For the tree that `MakeExpTree` builds from an expression over digits in postfix notation, with
-- distinct addresses from `malloc`, the infix notation is shown without its brackets, and what is
-- shown as the postfix notation is that backwards.
pub make_exp_tree-show :
    (fresh : ℕ → Ptr) (garbage : ℕ → ℤ) (e : Expr) (k : ℕ) (h : Store)
    → ((x y : ℕ) → fresh x ≡ fresh y → x ≡ y)
    → ((x : ℕ) → fresh x ≢ null)
    → HasDigits e
    → chars_expr e < k
    → Ends
        (λ (p, h').
          (show_infix_type_exp k h' p ≡ ok (flat_expr e))
          × (show_postfix_type_exp k h' p ≡ ok (reverse (flat_expr e))))
        (make_exp_tree fresh garbage (postfix_expr e) h)
unfolding show_infix_type_exp show_postfix_type_exp
make_exp_tree-show fresh garbage e k h distinct not_null d f =
    let t = plant_expr fresh e 0 in
    let same = inorder-expr fresh e 0 in
    Ends-map _ _ _ (make_exp_tree-IsMade fresh distinct not_null garbage e h d)
      λ (p, h') (at_root, stored, frame). rw at_root (
        inorder_traverse-inorder t k h' stored (omega (arith, size-plant_expr fresh e 0))
            ∙ ap ok same,
        postorder_traverse-reverse t k h' stored (omega (arith, size-plant_expr fresh e 0))
            ∙ ap (λ l. ok (reverse l)) same,
      )
