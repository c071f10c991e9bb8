-- ===== src/Expression/Evaluate.antt =====
-- C++/Datastruct/Stack/ExpressionStack/PostCalculator.c and infixCalculator.c. The operands are
-- kept in variables of type `char`; the results are products of such, which fit an `int`.
pub mod Laws
pub mod Exact
mod Tests
use today_i_learned.Stack.{Stack, stack_init, s_push, s_pop}
use today_i_learned.Common.{ℕ, ◌-◌, List, [], ◌∷◌, ◌==◌, if◌then◌else◌}
use today_i_learned.Expression.Convert.{is_digit, conv_to_rpnexp}
use today_i_learned.Common.Int.{ℤ, pos, ◌+ℤ◌, ◌-ℤ◌, ◌*ℤ◌, eqb_ℤ, quot, to_char}
use today_i_learned.Common.Run.{Run, ok, fault, ◌>>=◌}

-- The `switch` on the operator.
unfoldable pub calculate : ℕ → ℤ → ℤ → Stack ℤ → Run (Stack ℤ)
calculate tmp op1 op2 s =
    if tmp == b'+'
    then ok (s_push s (op1 +ℤ op2))
    else if tmp == b'-'
    then ok (s_push s (op1 -ℤ op2))
    else if tmp == b'*'
    then ok (s_push s (op1 *ℤ op2))
    else if tmp == b'/'
    then (if eqb_ℤ op2 (pos 0) then fault else ok (s_push s (quot op1 op2)))
    else ok s

-- The body of the `for`.
unfoldable pub eval_char : ℕ → Stack ℤ → Run (Stack ℤ)
eval_char tmp s =
    if is_digit tmp
    then ok (s_push s (pos (tmp - b'0')))
    else do (op2, s₂) ← s_pop s; (op1, s₁) ← s_pop s₂; calculate tmp (to_char op1) (to_char op2) s₁

unfoldable pub eval_loop : List ℕ → Stack ℤ → Run (Stack ℤ)
eval_loop [] s = ok s
eval_loop (tmp ∷ exp) s = do s' ← eval_char tmp s; eval_loop exp s'

unfoldable pub eval_rpnexp : List ℕ → Run ℤ
eval_rpnexp exp = do s ← eval_loop exp stack_init; (ret, s') ← s_pop s; ok ret

-- `EvalInfixExp`: the copy of the text is converted in place and then evaluated. `fresh` is what
-- the conversion's own buffer holds at first.
unfoldable pub eval_infix_exp : (fresh : List ℕ) → List ℕ → Run ℤ
eval_infix_exp fresh exp = do expcpy ← conv_to_rpnexp fresh exp; eval_rpnexp expcpy
