-- ===== src/Trees/ExpTree/Plant.antt =====
-- The tree of an expression, whose nodes lie where the code puts them.
use today_i_learned.Common.{ℕ, suc, ◌+◌, ◌≡◌, refl, arith}
use today_i_learned.Common.Int.{pos}
use today_i_learned.Expression.Syntax.{
  Expr, Term, Factor, term, sum, factor, product, digit, paren, add_code, mul_code,
}
use today_i_learned.Trees.{Ptr}
use today_i_learned.Trees.Shape.{Tree, leaf, node, size}

-- The number of characters in postfix notation.
abbrev mutual
  pub chars_expr : Expr → ℕ
  chars_expr (term t) = chars_term t
  chars_expr (sum e o t) = suc (chars_expr e + chars_term t)

  pub chars_term : Term → ℕ
  chars_term (factor f) = chars_factor f
  chars_term (product t o f) = suc (chars_term t + chars_factor f)

  pub chars_factor : Factor → ℕ
  chars_factor (digit d) = 1
  chars_factor (paren e) = chars_expr e

-- From the round `i` on.
module _ (fresh : ℕ → Ptr) where
  abbrev mutual
    pub plant_expr : Expr → ℕ → Tree
    plant_expr (term t) i = plant_term t i
    plant_expr (sum e o t) i =
        node (plant_expr e i) (fresh (i + chars_expr e + chars_term t)) (pos (add_code o))
          (plant_term t (i + chars_expr e))

    pub plant_term : Term → ℕ → Tree
    plant_term (factor f) i = plant_factor f i
    plant_term (product t o f) i =
        node (plant_term t i) (fresh (i + chars_term t + chars_factor f)) (pos (mul_code o))
          (plant_factor f (i + chars_term t))

    pub plant_factor : Factor → ℕ → Tree
    plant_factor (digit d) i = node leaf (fresh i) (pos d) leaf
    plant_factor (paren e) i = plant_expr e i

  mutual
    pub size-plant_expr : (e : Expr) (i : ℕ) → size (plant_expr e i) ≡ chars_expr e
    size-plant_expr (term t) i = size-plant_term t i
    size-plant_expr (sum e o t) i =
        rw (size-plant_expr e i, size-plant_term t (i + chars_expr e)) refl

    size-plant_term : (t : Term) (i : ℕ) → size (plant_term t i) ≡ chars_term t
    size-plant_term (factor f) i = size-plant_factor f i
    size-plant_term (product t o f) i =
        rw (size-plant_term t i, size-plant_factor f (i + chars_term t)) refl

    size-plant_factor : (f : Factor) (i : ℕ) → size (plant_factor f i) ≡ chars_factor f
    size-plant_factor (digit d) i = omega arith
    size-plant_factor (paren e) i = size-plant_expr e i
