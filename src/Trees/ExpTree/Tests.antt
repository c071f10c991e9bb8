-- ===== src/Trees/ExpTree/Tests.antt =====
-- The theorems of the expression tree at `12+7*`.
use today_i_learned.Common.{ℕ, ◌+◌, ◌≡◌, ◌≢◌, none, arith}
use today_i_learned.Common.Int.{ℤ, pos}
use today_i_learned.Common.Run.{Ends}
use today_i_learned.Expression.Syntax.{
  Expr, term, sum, factor, product, digit, paren, plus, times, postfix_expr, HasDigits,
}
use today_i_learned.Trees.{Ptr, Store}
use today_i_learned.Trees.ExpTree.{make_exp_tree, evaluate_exp_tree}
use today_i_learned.Trees.ExpTree.Value.{int_value, make_exp_tree-int_value}

abbrev formula : Expr
formula = term (
    product (factor (paren (sum (term (factor (digit 1))) plus (factor (digit 2))))) times
      (digit 7))

abbrev addresses : ℕ → Ptr
addresses i = i + 100

abbrev anything : ℕ → ℤ
anything i = pos i

abbrev empty : Store
empty a = none

addresses_distinct : (x y : ℕ) → addresses x ≡ addresses y → x ≡ y
addresses_distinct x y e = omega arith

addresses_not_null : (x : ℕ) → addresses x ≢ 0
addresses_not_null x e = omega arith

formula-HasDigits : HasDigits formula
formula-HasDigits = ground arith

make_exp_tree-int_value_example :
    Ends
      (λ (p, h'). evaluate_exp_tree 5 h' p ≡ int_value formula)
      (make_exp_tree addresses anything (postfix_expr formula) empty)
make_exp_tree-int_value_example =
    make_exp_tree-int_value addresses anything formula 5 empty addresses_distinct addresses_not_null
      formula-HasDigits (omega arith)
