-- ===== src/Expression/Evaluate/Laws.antt =====
-- The calculators against the values of expressions.
use today_i_learned.Expression.Syntax.{
  Expr, Term, Factor, term, sum, factor, product, digit, paren, plus, minus, times, over, AddOp,
  MulOp, add_code, mul_code, postfix_expr, postfix_term, postfix_factor, HasDigits, HasDigitsT,
  HasDigitsF, apply_add, apply_mul, value_expr, value_term, value_factor, infix_expr,
}
use today_i_learned.Stack.{Stack, s_push, s_pop, stack_init}
use today_i_learned.Common.{
  ℕ, ◌+◌, ◌<◌, ◌≡◌, refl, inl, inr, List, ◌∷◌, ◌++◌, arith, Bool-cases, zero, suc, sym, ◌∙◌, some,
  [], length, get_elem?, drop,
}
use today_i_learned.Stack.Laws.{stack}
use today_i_learned.Expression.Evaluate.{
  calculate, eval_char, eval_loop, eval_rpnexp, eval_infix_exp,
}
use today_i_learned.Common.Int.{ℤ, pos, eqb_ℤ, to_char}
use today_i_learned.Common.Run.{Run, ok, ◌>>=◌, exit, fault, out_of_fuel, bind_assoc, bind_cong}
use today_i_learned.Expression.Convert.{strcpy}
use today_i_learned.Expression.Convert.Result.{conv-postfix}
use mathlib.Core.List.{append-nil, append_assoc}

loop_step :
    (c : ℕ) (k : List ℕ) (s : Stack ℤ) → eval_loop (c ∷ k) s ≡ (eval_char c s >>= eval_loop k)
unfolding eval_loop
loop_step c k s = refl

char_digit :
    (d : ℕ) (xs : List ℤ) → d < 10 → eval_char (b'0' + d) (stack xs) ≡ ok (stack (pos d ∷ xs))
unfolding eval_char s_push
char_digit d xs h = ground arith

char_add :
    (o : AddOp) (a b : ℤ) (xs : List ℤ)
    → eval_char (add_code o) (stack (b ∷ a ∷ xs))
      ≡ (apply_add o (to_char a) (to_char b) >>= λ v. ok (stack (v ∷ xs)))
unfolding eval_char calculate s_pop s_push apply_add
char_add plus a b xs = refl
char_add minus a b xs = refl

char_mul :
    (o : MulOp) (a b : ℤ) (xs : List ℤ)
    → eval_char (mul_code o) (stack (b ∷ a ∷ xs))
      ≡ (apply_mul o (to_char a) (to_char b) >>= λ v. ok (stack (v ∷ xs)))
unfolding eval_char calculate s_pop s_push apply_mul
char_mul times a b xs = refl
char_mul over a b xs = elim (Bool-cases (eqb_ℤ (to_char b) (pos 0))) [
  | inl e ↦ rw e refl
  | inr e ↦ rw e refl
]

-- What is left to run, from the value of an expression on the stack.
abbrev onto : List ℕ → List ℤ → ℤ → Run (Stack ℤ)
onto k xs v = eval_loop k (stack (v ∷ xs))

-- The result of an operator goes onto the stack, and the rest is run.
resume :
    (r : Run ℤ) (k : List ℕ) (xs : List ℤ)
    → ((r >>= λ v. ok (stack (v ∷ xs))) >>= eval_loop k) ≡ ((r >>= λ v. ok v) >>= onto k xs)
resume (ok v) k xs = refl
resume (exit c) k xs = refl
resume fault k xs = refl
resume out_of_fuel k xs = refl

at_add :
    (o : AddOp) (k : List ℕ) (a b : ℤ) (xs : List ℤ)
    → onto (add_code o ∷ k) (a ∷ xs) b
      ≡ ((apply_add o (to_char a) (to_char b) >>= λ v. ok v) >>= onto k xs)
at_add o k a b xs = rw (loop_step, char_add o a b xs) (resume _ k xs)

at_mul :
    (o : MulOp) (k : List ℕ) (a b : ℤ) (xs : List ℤ)
    → onto (mul_code o ∷ k) (a ∷ xs) b
      ≡ ((apply_mul o (to_char a) (to_char b) >>= λ v. ok v) >>= onto k xs)
at_mul o k a b xs = rw (loop_step, char_mul o a b xs) (resume _ k xs)

two_operands :
    (r s : Run ℤ) (q : ℤ → ℤ → Run ℤ) (next : ℤ → Run (Stack ℤ))
    → (r >>= λ a. s >>= λ b. q a b >>= next) ≡ ((r >>= λ a. s >>= λ b. q a b) >>= next)
two_operands r s q next = sym (bind_assoc r _ next ∙ bind_cong r λ a. bind_assoc s (q a) next)

mutual
  unfolding postfix_expr value_expr

  loop_expr :
      (e : Expr) (k : List ℕ) (xs : List ℤ)
      → HasDigits e
      → eval_loop (postfix_expr e ++ k) (stack xs) ≡ (value_expr to_char ok e >>= onto k xs)
  loop_expr (term t) k xs d = loop_term t k xs d
  loop_expr (sum e o t) k xs d =
      rw (append_assoc (postfix_expr e), append_assoc (postfix_term t))
        (loop_expr e _ xs d.0
          ∙ bind_cong (value_expr to_char ok e) (λ a.
            loop_term t _ (a ∷ xs) d.1
            ∙ bind_cong (value_term to_char ok t) (λ b. at_add o k a b xs))
          ∙ two_operands (value_expr to_char ok e) (value_term to_char ok t) _ (onto k xs))

  loop_term :
      (t : Term) (k : List ℕ) (xs : List ℤ)
      → HasDigitsT t
      → eval_loop (postfix_term t ++ k) (stack xs) ≡ (value_term to_char ok t >>= onto k xs)
  loop_term (factor f) k xs d = loop_factor f k xs d
  loop_term (product t o f) k xs d =
      rw (append_assoc (postfix_term t), append_assoc (postfix_factor f))
        (loop_term t _ xs d.0
          ∙ bind_cong (value_term to_char ok t) (λ a.
            loop_factor f _ (a ∷ xs) d.1
            ∙ bind_cong (value_factor to_char ok f) (λ b. at_mul o k a b xs))
          ∙ two_operands (value_term to_char ok t) (value_factor to_char ok f) _ (onto k xs))

  loop_factor :
      (f : Factor) (k : List ℕ) (xs : List ℤ)
      → HasDigitsF f
      → eval_loop (postfix_factor f ++ k) (stack xs) ≡ (value_factor to_char ok f >>= onto k xs)
  loop_factor (digit n) k xs d = rw (loop_step, char_digit n xs d) refl
  loop_factor (paren e) k xs d = loop_expr e k xs d

-- `EvalRPNEXP` on an expression in postfix notation: the value of the expression, where each
-- operand is converted to `char` before it is used. It is undefined where a divisor is 0.
pub eval_rpnexp-postfix :
    (e : Expr) → HasDigits e → eval_rpnexp (postfix_expr e) ≡ value_expr to_char ok e
unfolding eval_rpnexp stack_init
eval_rpnexp-postfix e d =
    rw (← append-nil (postfix_expr e)) (rw (loop_expr e [] [] d) (top (value_expr to_char ok e)))
  where
    top : (r : Run ℤ) → ((r >>= onto [] []) >>= λ s. s_pop s >>= λ (v, s'). ok v) ≡ r
    top (ok v) = unfold eval_loop s_pop in refl
    top (exit c) = refl
    top fault = refl
    top out_of_fuel = refl

-- `EvalInfixExp` on an expression in infix notation gives the same value, if the byte of the
-- fresh buffer where the postfix text ends happens to be 0.
pub eval_infix_exp-infix :
    (e : Expr) (fresh : List ℕ)
    → HasDigits e
    → length fresh ≡ length (infix_expr e) + 1
    → get_elem? fresh (length (postfix_expr e)) ≡ some 0
    → eval_infix_exp fresh (infix_expr e) ≡ value_expr to_char ok e
unfolding eval_infix_exp
eval_infix_exp-infix e fresh d size nul =
    rw
      (
        conv-postfix e fresh d size,
        stops_at (length (postfix_expr e)) fresh nul,
        append-nil (postfix_expr e),
      )
      (eval_rpnexp-postfix e d)
  where
    stops_at :
        (n : ℕ) (buffer : List ℕ) → get_elem? buffer n ≡ some 0 → strcpy (drop n buffer) ≡ ok []
    stops_at zero (c ∷ buffer) h = unfold strcpy in (ground arith)
    stops_at (suc n) (c ∷ buffer) h = stops_at n buffer h
    stops_at n [] h = cc
