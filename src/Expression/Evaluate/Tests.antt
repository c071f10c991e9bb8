-- ===== src/Expression/Evaluate/Tests.antt =====
-- Runs of the calculators, and the theorems at concrete expressions.
use today_i_learned.Expression.Syntax.{
  Expr, term, sum, factor, product, digit, paren, plus, times, infix_expr, postfix_expr, apply_add,
  apply_mul, value_expr,
}
use today_i_learned.Stack.{stack_init, s_is_empty, s_push, s_pop, s_peek}
use today_i_learned.Common.{ℕ, ◌≡◌, refl, List, arith, replicate, codes, Bool, true, false}
use today_i_learned.Expression.Convert.{
  who_prec_op, put, pop_to_bracket, pop_higher, pop_all, convert_char, convert_loop, strcpy,
  conv_to_rpnexp,
}
use today_i_learned.Expression.Evaluate.{
  calculate, eval_char, eval_loop, eval_rpnexp, eval_infix_exp,
}
use today_i_learned.Expression.Evaluate.Exact.{exact_expr, Fits, eval_infix_exp-exact}
use today_i_learned.Expression.Evaluate.Laws.{eval_infix_exp-infix}
use today_i_learned.Common.Int.{pos, negsuc, ◌+ℤ◌, ◌*ℤ◌, to_char, ℤ, in_char}
use today_i_learned.Common.Run.{ok, Run, exit, fault, out_of_fuel}
use mathlib.Core.Path.{subst}

-- (1+2)*3
abbrev sample : Expr
sample = term (
    product (factor (paren (sum (term (factor (digit 1))) plus (factor (digit 2))))) times
      (digit 3))

-- 9*9*9*9
abbrev powers : Expr
powers =
    term (
      product (product (product (factor (digit 9)) times (digit 9)) times (digit 9)) times
        (digit 9))

zeros : ℕ → List ℕ
zeros n = replicate n 0

sample_value : eval_infix_exp (zeros 8) (codes "(1+2)*3") ≡ ok (pos 9)
unfolding zeros eval_infix_exp conv_to_rpnexp convert_loop convert_char pop_all pop_to_bracket
    pop_higher put who_prec_op strcpy stack_init s_push s_pop s_peek s_is_empty eval_rpnexp
    eval_loop eval_char calculate to_char ◌+ℤ◌ ◌*ℤ◌
sample_value = refl

-- The operand 729 becomes -39.
powers_value : value_expr to_char ok powers ≡ ok (negsuc 350)
unfolding value_expr apply_mul to_char ◌*ℤ◌
powers_value = refl

eval_infix_exp-infix_example :
    eval_infix_exp (replicate 8 0) (infix_expr powers) ≡ value_expr to_char ok powers
unfolding infix_expr postfix_expr
eval_infix_exp-infix_example = eval_infix_exp-infix powers (replicate 8 0) (omega arith) refl refl

small_value : (n : ℕ) (v : ℤ) → in_char (pos n) ≡ true → ok (pos n) ≡ ok v → in_char v ≡ true
small_value n v p e = subst (λ r. in_value r ≡ true) e p
  where
    in_value : Run ℤ → Bool
    in_value (ok v) = in_char v
    in_value (exit c) = false
    in_value fault = false
    in_value out_of_fuel = false

fits : Fits sample
unfolding value_expr apply_add apply_mul ◌+ℤ◌ ◌*ℤ◌
fits = ((tt, tt, small 1 refl, small 2 refl), tt, small 3 refl, small 3 refl)
  where
    small : (n : ℕ) → in_char (pos n) ≡ true → (v : ℤ) → ok (pos n) ≡ ok v → in_char v ≡ true
    small n p v e = small_value n v p e

eval_infix_exp-exact_example :
    eval_infix_exp (replicate 8 0) (infix_expr sample) ≡ exact_expr sample
unfolding infix_expr postfix_expr
eval_infix_exp-exact_example =
    eval_infix_exp-exact sample (replicate 8 0) (omega arith) fits refl refl
