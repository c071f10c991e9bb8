-- ===== src/Expression/Convert/Postfix.antt =====
-- The conversion of an expression, character by character.
use today_i_learned.Expression.Syntax.{
  Expr, Term, term, sum, factor, product, AddOp, plus, minus, MulOp, times, over, add_code,
  mul_code, postfix_expr, postfix_term, postfix_factor,
}
use today_i_learned.Common.{
  ℕ, ◌≡◌, refl, sym, ap, ◌∙◌, true, false, List, [], ◌∷◌, ◌++◌, arith, ◌==◌,
}
use today_i_learned.Expression.Convert.{who_prec_op}
use today_i_learned.Expression.Convert.Buffer.{Yields, Stops, NoBracket}
use today_i_learned.Common.Int.{pos, leb_ℤ}
use mathlib.Core.List.{append-nil, append_assoc}

-- The operators that are still on the stack behind an expression, the top first, and the text put
-- out so far.
abbrev pub pending_term : Term → List ℕ
pending_term (factor f) = []
pending_term (product t o f) = mul_code o ∷ []

abbrev pub emitted_term : Term → List ℕ
emitted_term (factor f) = postfix_factor f
emitted_term (product t o f) = postfix_term t ++ postfix_factor f

abbrev pub pending_expr : Expr → List ℕ
pending_expr (term t) = pending_term t
pending_expr (sum e o t) = pending_term t ++ add_code o ∷ []

abbrev pub emitted_expr : Expr → List ℕ
emitted_expr (term t) = emitted_term t
emitted_expr (sum e o t) = postfix_expr e ++ emitted_term t

pub emitted_term-append : (t : Term) → emitted_term t ++ pending_term t ≡ postfix_term t
unfolding postfix_expr
emitted_term-append (factor f) = append-nil (postfix_factor f)
emitted_term-append (product t o f) =
    append_assoc (postfix_term t) (postfix_factor f) (mul_code o ∷ [])

pub emitted_expr-append : (e : Expr) → emitted_expr e ++ pending_expr e ≡ postfix_expr e
unfolding postfix_expr
emitted_expr-append (term t) = emitted_term-append t
emitted_expr-append (sum e o t) =
    append_assoc (postfix_expr e) (emitted_term t) (pending_term t ++ add_code o ∷ [])
    ∙ ap (λ u. postfix_expr e ++ u)
        (sym (append_assoc (emitted_term t) (pending_term t) (add_code o ∷ []))
          ∙ ap (λ u. u ++ add_code o ∷ []) (emitted_term-append t))

-- What the stack's operators do at the next character.
pub Stops-mul : (o : MulOp) (xs : List ℕ) → Stops b'*' xs → Stops (mul_code o) xs
unfolding who_prec_op
Stops-mul times xs h = h
Stops-mul over [] h = tt
Stops-mul over (x ∷ xs) h = h

pub Stops-add : (o : AddOp) (xs : List ℕ) → Stops b'+' xs → Stops (add_code o) xs
unfolding who_prec_op
Stops-add plus xs h = h
Stops-add minus [] h = tt
Stops-add minus (x ∷ xs) h = h

pub Stops-term : (xs : List ℕ) → Stops b'+' xs → Stops b'*' xs
unfolding who_prec_op
Stops-term [] h = tt
Stops-term (x ∷ xs) h = ground arith

pub Stops-sum : (o : AddOp) (xs : List ℕ) → Stops b'*' (add_code o ∷ xs)
unfolding who_prec_op
Stops-sum plus xs = refl
Stops-sum minus xs = refl

pub Stops-bracket : (xs : List ℕ) → Stops b'+' (b'(' ∷ xs)
unfolding who_prec_op
Stops-bracket xs = refl

pub Yields-term : (o : MulOp) (t : Term) → Yields (mul_code o) (pending_term t)
unfolding who_prec_op
Yields-term o (factor f) = tt
Yields-term times (product t times f) = (refl, tt)
Yields-term times (product t over f) = (refl, tt)
Yields-term over (product t times f) = (refl, tt)
Yields-term over (product t over f) = (refl, tt)

Yields-add : (o p : AddOp) → leb_ℤ (pos 0) (who_prec_op (add_code o) (add_code p)) ≡ true
unfolding who_prec_op
Yields-add plus plus = refl
Yields-add plus minus = refl
Yields-add minus plus = refl
Yields-add minus minus = refl

Yields-mul : (o : MulOp) (p : AddOp) → leb_ℤ (pos 0) (who_prec_op (mul_code o) (add_code p)) ≡ true
unfolding who_prec_op
Yields-mul times plus = refl
Yields-mul times minus = refl
Yields-mul over plus = refl
Yields-mul over minus = refl

pub Yields-expr : (o : AddOp) (e : Expr) → Yields (add_code o) (pending_expr e)
Yields-expr o (term (factor f)) = tt
Yields-expr o (term (product t p f)) = (Yields-mul p o, tt)
Yields-expr o (sum e q (factor f)) = (Yields-add q o, tt)
Yields-expr o (sum e q (product t p f)) = (Yields-mul p o, (Yields-add q o, tt))

mul_not_bracket : (o : MulOp) → (mul_code o == b'(') ≡ false
mul_not_bracket times = refl
mul_not_bracket over = refl

add_not_bracket : (o : AddOp) → (add_code o == b'(') ≡ false
add_not_bracket plus = refl
add_not_bracket minus = refl

pub NoBracket-expr : (e : Expr) → NoBracket (pending_expr e)
NoBracket-expr (term (factor f)) = tt
NoBracket-expr (term (product t p f)) = (mul_not_bracket p, tt)
NoBracket-expr (sum e q (factor f)) = (add_not_bracket q, tt)
NoBracket-expr (sum e q (product t p f)) = (mul_not_bracket p, (add_not_bracket q, tt))
