-- ===== src/Expression/Convert/Result.antt =====
-- The text that the conversion leaves.
use today_i_learned.Expression.Syntax.{
  Expr, Term, Factor, term, sum, factor, product, digit, paren, AddOp, plus, minus, MulOp, times,
  over, add_code, mul_code, infix_expr, infix_term, infix_factor, postfix_expr, postfix_term,
  postfix_factor, HasDigits,
}
use today_i_learned.Stack.{stack_init}
use today_i_learned.Common.{
  ℕ, ◌+◌, ◌≤◌, ◌<◌, ◌≡◌, refl, ap, false, List, [], ◌∷◌, ◌++◌, arith, ◌==◌, length, drop,
  length-append, ◌∙◌,
}
use today_i_learned.Expression.Convert.{pop_all, rounds, convert_loop, strcpy, conv_to_rpnexp}
use today_i_learned.Expression.Convert.Postfix.{pending_expr, emitted_expr, emitted_expr-append}
use today_i_learned.Expression.Convert.Buffer.{overlay, state, pop_all-state}
use today_i_learned.Common.Run.{Run, ok, exit, fault, out_of_fuel, map_run}
use today_i_learned.Expression.Convert.Loop.{emitted_size, loop_expr}
use mathlib.Core.List.{append-nil}

NoNul : List ℕ → Type 0
NoNul [] = Unit
NoNul (c ∷ cs) = (0 < c) × NoNul cs

NoNul-append : (a b : List ℕ) → NoNul a → NoNul b → NoNul (a ++ b)
unfolding NoNul
NoNul-append [] b h k = k
NoNul-append (c ∷ a) b h k = (h.0, NoNul-append a b h.1 k)

NoNul-add : (o : AddOp) → NoNul (add_code o ∷ [])
unfolding NoNul
NoNul-add plus = (omega arith, tt)
NoNul-add minus = (omega arith, tt)

NoNul-mul : (o : MulOp) → NoNul (mul_code o ∷ [])
unfolding NoNul
NoNul-mul times = (omega arith, tt)
NoNul-mul over = (omega arith, tt)

mutual
  unfolding postfix_expr NoNul

  NoNul-expr : (e : Expr) → NoNul (postfix_expr e)
  NoNul-expr (term t) = NoNul-term t
  NoNul-expr (sum e o t) =
      NoNul-append (postfix_expr e) _ (NoNul-expr e)
        (NoNul-append (postfix_term t) _ (NoNul-term t) (NoNul-add o))

  NoNul-term : (t : Term) → NoNul (postfix_term t)
  NoNul-term (factor f) = NoNul-factor f
  NoNul-term (product t o f) =
      NoNul-append (postfix_term t) _ (NoNul-term t)
        (NoNul-append (postfix_factor f) _ (NoNul-factor f) (NoNul-mul o))

  NoNul-factor : (f : Factor) → NoNul (postfix_factor f)
  NoNul-factor (digit d) = (omega arith, tt)
  NoNul-factor (paren e) = NoNul-expr e

lengths : (a b : List ℕ) → length (a ++ b) ≡ length a + length b
lengths a b = length-append a b

mutual
  unfolding postfix_expr infix_expr

  postfix-le : (e : Expr) → length (postfix_expr e) ≤ length (infix_expr e)
  postfix-le (term t) = postfix_term-le t
  postfix-le (sum e o t) = omega (arith, lengths, postfix-le e, postfix_term-le t)

  postfix_term-le : (t : Term) → length (postfix_term t) ≤ length (infix_term t)
  postfix_term-le (factor f) = postfix_factor-le f
  postfix_term-le (product t o f) = omega (arith, lengths, postfix_term-le t, postfix_factor-le f)

  postfix_factor-le : (f : Factor) → length (postfix_factor f) ≤ length (infix_factor f)
  postfix_factor-le (digit d) = omega arith
  postfix_factor-le (paren e) = omega (arith, lengths, postfix-le e)

overlay-append :
    (out fresh : List ℕ)
    → length out ≤ length fresh
    → overlay out fresh ≡ out ++ drop (length out) fresh
unfolding overlay
overlay-append [] fresh h = refl
overlay-append (x ∷ out) [] h = absurd (omega arith)
overlay-append (x ∷ out) (f ∷ fresh) h = ap (◌∷◌ x) (overlay-append out fresh (omega arith))

strcpy-append : (a b : List ℕ) → NoNul a → strcpy (a ++ b) ≡ map_run (λ t. a ++ t) (strcpy b)
unfolding NoNul strcpy
strcpy-append [] b h = map_same (strcpy b)
  where
    map_same : (r : Run (List ℕ)) → r ≡ map_run (λ t. t) r
    map_same (ok t) = refl
    map_same (exit c) = refl
    map_same fault = refl
    map_same out_of_fuel = refl
strcpy-append (c ∷ a) b h =
    let nonzero : (c == 0) ≡ false = ground arith in
    rw (nonzero, strcpy-append a b h.1) (map_twice (strcpy b))
  where
    map_twice :
        (r : Run (List ℕ))
        → map_run (λ t. c ∷ t) (map_run (λ t. a ++ t) r) ≡ map_run (λ t. c ∷ (a ++ t)) r
    map_twice (ok t) = refl
    map_twice (exit c) = refl
    map_twice fault = refl
    map_twice out_of_fuel = refl

pub conv-postfix :
    (e : Expr) (fresh : List ℕ)
    → HasDigits e
    → length fresh ≡ length (infix_expr e) + 1
    → conv_to_rpnexp fresh (infix_expr e)
      ≡ map_run (λ t. postfix_expr e ++ t) (strcpy (drop (length (postfix_expr e)) fresh))
unfolding conv_to_rpnexp stack_init overlay
conv-postfix e fresh d size =
    rw (looped, popped)
      (rw (overlay-append (postfix_expr e) fresh (omega (arith, postfix-le e)))
        (strcpy-append (postfix_expr e) _ (NoNul-expr e)))
  where
    looped :
        convert_loop (infix_expr e) (state fresh [] [])
        ≡ ok (state fresh (pending_expr e) (emitted_expr e))
    looped =
        rw (append-nil (infix_expr e), append-nil (pending_expr e)) at
          (loop_expr fresh e [] [] [] d tt (omega (arith, postfix-le e)))
        ∙ unfold convert_loop in refl

    popped :
        pop_all
          (rounds (state fresh (pending_expr e) (emitted_expr e)))
          (state fresh (pending_expr e) (emitted_expr e))
        ≡ ok (state fresh [] (postfix_expr e))
    popped =
        pop_all-state fresh _ (pending_expr e) (emitted_expr e) (omega arith)
          (omega (arith, postfix-le e, emitted_size fresh e))
        ∙ ap (λ o. ok (state fresh [] o)) (emitted_expr-append e)
