-- ===== src/Expression/Convert/Loop.antt =====
-- The loop over the characters of an expression.
use today_i_learned.Expression.Syntax.{
  AddOp, plus, minus, MulOp, times, over, add_code, mul_code, Expr, term, sum, Term, factor,
  product, Factor, digit, paren, infix_expr, infix_term, infix_factor, postfix_expr, postfix_term,
  postfix_factor, HasDigits, HasDigitsT, HasDigitsF,
}
use today_i_learned.Stack.{s_push}
use today_i_learned.Common.{
  ℕ, ◌+◌, ◌≤◌, ◌<◌, ◌≡◌, refl, true, false, List, [], ◌∷◌, ◌++◌, arith, ◌==◌, length, length-append,
  ap, ◌∙◌,
}
use today_i_learned.Expression.Convert.{
  is_digit, is_operator, convert_char, Conversion, rounds, convert_loop,
}
use today_i_learned.Expression.Convert.Buffer.{
  Yields, Stops, NoBracket, state, put-state, pop_higher-Yields, pop_to_bracket-NoBracket,
}
use today_i_learned.Common.Run.{ok}
use today_i_learned.Expression.Convert.Postfix.{
  pending_term, emitted_term, pending_expr, emitted_expr, emitted_expr-append, Stops-add,
  Stops-term, Stops-sum, Yields-expr, NoBracket-expr, emitted_term-append, Stops-mul, Yields-term,
  Stops-bracket,
}
use mathlib.Core.List.{append_assoc}

module _ (fresh : List ℕ) where
  char_digit :
      (d : ℕ) (xs out : List ℕ)
      → d < 10
      → length out < length fresh
      → convert_char (b'0' + d) (state fresh xs out) ≡ ok (state fresh xs (out ++ (b'0' + d) ∷ []))
  unfolding convert_char
  char_digit d xs out h r = rw (digit_test) (put-state fresh (b'0' + d) xs out r)
    where
      digit_test : is_digit (b'0' + d) ≡ true
      digit_test = ground arith

  char_open :
      (xs out : List ℕ) → convert_char b'(' (state fresh xs out) ≡ ok (state fresh (b'(' ∷ xs) out)
  unfolding convert_char s_push
  char_open xs out = refl

  char_close :
      (pending xs out : List ℕ)
      → NoBracket pending
      → length out + length pending ≤ length fresh
      → convert_char b')' (state fresh (pending ++ b'(' ∷ xs) out)
        ≡ ok (state fresh xs (out ++ pending))
  unfolding convert_char
  char_close pending xs out n r =
      pop_to_bracket-NoBracket fresh _ pending xs out
        (omega (arith, length-append pending (b'(' ∷ xs))) n r

  -- A character that is tested as an operator.
  abbrev IsOperator : ℕ → Type 0
  IsOperator c =
      (is_digit c ≡ false) × ((c == b'(') ≡ false) × ((c == b')') ≡ false) × (is_operator c ≡ true)

  char_operator :
      (tok : ℕ) (pending xs out : List ℕ)
      → IsOperator tok
      → Yields tok pending
      → Stops tok xs
      → length out + length pending ≤ length fresh
      → convert_char tok (state fresh (pending ++ xs) out)
        ≡ ok (state fresh (tok ∷ xs) (out ++ pending))
  unfolding convert_char s_push
  char_operator tok pending xs out o y s r =
      rw
        (
          o.0,
          o.1,
          o.2,
          o.3,
          pop_higher-Yields fresh tok (rounds (state fresh (pending ++ xs) out)) pending xs out
              (omega (arith, length-append pending xs)) y s r,
        )
        refl

  mul_IsOperator : (o : MulOp) → IsOperator (mul_code o)
  mul_IsOperator times = (refl, refl, refl, refl)
  mul_IsOperator over = (refl, refl, refl, refl)

  add_IsOperator : (o : AddOp) → IsOperator (add_code o)
  add_IsOperator plus = (refl, refl, refl, refl)
  add_IsOperator minus = (refl, refl, refl, refl)

  loop_step :
      (c : ℕ) (k : List ℕ) (v v' : Conversion)
      → convert_char c v ≡ ok v'
      → convert_loop (c ∷ k) v ≡ convert_loop k v'
  unfolding convert_loop
  loop_step c k v v' e = rw e

  -- The same state, with the text put out written in another way.
  same_out :
      (k xs : List ℕ) {out out' : List ℕ}
      → out ≡ out'
      → convert_loop k (state fresh xs out) ≡ convert_loop k (state fresh xs out')
  same_out k xs e = ap (λ o. convert_loop k (state fresh xs o)) e

  lengths : (a b : List ℕ) → length (a ++ b) ≡ length a + length b
  lengths a b = length-append a b

  pub emitted_size :
      (e : Expr) → length (emitted_expr e) + length (pending_expr e) ≡ length (postfix_expr e)
  emitted_size e = omega (arith, lengths, ap length (emitted_expr-append e))

  mutual
    unfolding infix_expr postfix_expr

    pub loop_expr :
        (e : Expr) (k xs out : List ℕ)
        → HasDigits e
        → Stops b'+' xs
        → length out + length (postfix_expr e) ≤ length fresh
        → convert_loop (infix_expr e ++ k) (state fresh xs out)
          ≡ convert_loop k (state fresh (pending_expr e ++ xs) (out ++ emitted_expr e))
    loop_expr (term t) k xs out d s r = loop_term t k xs out d (Stops-term xs s) r
    loop_expr (sum e o t) k xs out d s r =
        let settled : (out ++ emitted_expr e) ++ pending_expr e ≡ out ++ postfix_expr e =
          append_assoc out (emitted_expr e) (pending_expr e)
          ∙ ap (λ u. out ++ u) (emitted_expr-append e) in
        let size = ap length settled in
        rw
          (
            append_assoc (infix_expr e) (add_code o ∷ infix_term t) k,
            append_assoc (pending_term t) (add_code o ∷ []) xs,
          )
          (loop_expr e _ xs out d.0 s (omega (arith, lengths))
            ∙ loop_step (add_code o) _ _ _ (
                char_operator (add_code o) (pending_expr e) xs _ (add_IsOperator o)
                  (Yields-expr o e) (Stops-add o xs s) (omega (arith, lengths)))
            ∙ same_out _ _ settled
            ∙ loop_term t k (add_code o ∷ xs) _ d.1 (Stops-sum o xs) (omega (arith, lengths))
            ∙ same_out _ _ (append_assoc out (postfix_expr e) (emitted_term t)))

    loop_term :
        (t : Term) (k xs out : List ℕ)
        → HasDigitsT t
        → Stops b'*' xs
        → length out + length (postfix_term t) ≤ length fresh
        → convert_loop (infix_term t ++ k) (state fresh xs out)
          ≡ convert_loop k (state fresh (pending_term t ++ xs) (out ++ emitted_term t))
    loop_term (factor f) k xs out d s r = loop_factor f k xs out d r
    loop_term (product t o f) k xs out d s r =
        let settled : (out ++ emitted_term t) ++ pending_term t ≡ out ++ postfix_term t =
          append_assoc out (emitted_term t) (pending_term t)
          ∙ ap (λ u. out ++ u) (emitted_term-append t) in
        let size = ap length settled in
        rw (append_assoc (infix_term t) (mul_code o ∷ infix_factor f) k) (
          loop_term t _ xs out d.0 s (omega (arith, lengths))
          ∙ loop_step (mul_code o) _ _ _ (
              char_operator (mul_code o) (pending_term t) xs _ (mul_IsOperator o) (Yields-term o t)
                (Stops-mul o xs s) (omega (arith, lengths)))
          ∙ same_out _ _ settled
          ∙ loop_factor f k (mul_code o ∷ xs) _ d.1 (omega (arith, lengths))
          ∙ same_out _ _ (append_assoc out (postfix_term t) (postfix_factor f)))

    loop_factor :
        (f : Factor) (k xs out : List ℕ)
        → HasDigitsF f
        → length out + length (postfix_factor f) ≤ length fresh
        → convert_loop (infix_factor f ++ k) (state fresh xs out)
          ≡ convert_loop k (state fresh xs (out ++ postfix_factor f))
    loop_factor (digit n) k xs out d r =
        loop_step (b'0' + n) k _ _ (char_digit n xs out d (omega arith))
    loop_factor (paren e) k xs out d r = rw (append_assoc (infix_expr e) (b')' ∷ []) k) (
        loop_step b'(' _ _ _ (char_open xs out)
        ∙ loop_expr e _ (b'(' ∷ xs) out d (Stops-bracket xs) r
        ∙ loop_step b')' k _ _ (
            char_close (pending_expr e) xs _ (NoBracket-expr e)
              (omega (arith, lengths, emitted_size e)))
        ∙ same_out _ _ (
            append_assoc out (emitted_expr e) (pending_expr e)
            ∙ ap (λ u. out ++ u) (emitted_expr-append e)))
