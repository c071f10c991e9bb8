-- ===== src/Expression/Evaluate/Exact.antt =====
-- When the conversion of the operands to `char` loses nothing.
use today_i_learned.Expression.Syntax.{
  Expr, Term, Factor, term, sum, factor, product, digit, paren, infix_expr, postfix_expr, HasDigits,
  apply_add, apply_mul, value_expr, value_term, value_factor,
}
use today_i_learned.Common.{ℕ, ◌+◌, ◌≡◌, refl, ◌∙◌, true, some, List, length, get_elem?}
use today_i_learned.Expression.Evaluate.{eval_infix_exp}
use today_i_learned.Expression.Evaluate.Laws.{eval_infix_exp-infix}
use today_i_learned.Common.Int.{ℤ, to_char, in_char, to_char-in_char}
use today_i_learned.Common.Run.{Run, ok, exit, fault, out_of_fuel, ◌>>=◌}

-- The value in the integers.
abbrev pub exact_expr : Expr → Run ℤ
exact_expr e = value_expr (λ z. z) ok e

abbrev pub exact_term : Term → Run ℤ
exact_term t = value_term (λ z. z) ok t

abbrev pub exact_factor : Factor → Run ℤ
exact_factor f = value_factor (λ z. z) ok f

abbrev pub FitsChar : Run ℤ → Type 0
FitsChar r = (v : ℤ) → r ≡ ok v → in_char v ≡ true

-- The operands of every operator lie between -128 and 127. The results need not.
abbrev mutual
  pub Fits : Expr → Type 0
  Fits (term t) = FitsT t
  Fits (sum e o t) = Fits e × FitsT t × FitsChar (exact_expr e) × FitsChar (exact_term t)

  pub FitsT : Term → Type 0
  FitsT (factor f) = FitsF f
  FitsT (product t o f) = FitsT t × FitsF f × FitsChar (exact_term t) × FitsChar (exact_factor f)

  pub FitsF : Factor → Type 0
  FitsF (digit d) = Unit
  FitsF (paren e) = Fits e

same_operands :
    (r s : Run ℤ) (q : ℤ → ℤ → Run ℤ)
    → FitsChar r
    → FitsChar s
    → (r >>= λ a. s >>= λ b. q (to_char a) (to_char b) >>= λ v. ok v)
      ≡ (r >>= λ a. s >>= λ b. q a b >>= λ v. ok v)
same_operands (ok a) (ok b) q h k =
    rw (to_char-in_char a (h a refl), to_char-in_char b (k b refl)) refl
same_operands (ok a) (exit c) q h k = refl
same_operands (ok a) fault q h k = refl
same_operands (ok a) out_of_fuel q h k = refl
same_operands (exit c) s q h k = refl
same_operands fault s q h k = refl
same_operands out_of_fuel s q h k = refl

mutual
  unfolding value_expr

  exact-expr : (e : Expr) → Fits e → value_expr to_char ok e ≡ exact_expr e
  exact-expr (term t) h = exact-term t h
  exact-expr (sum e o t) h =
      rw (exact-expr e h.0, exact-term t h.1)
        (same_operands (exact_expr e) (exact_term t) (apply_add o) h.2 h.3)

  exact-term : (t : Term) → FitsT t → value_term to_char ok t ≡ exact_term t
  exact-term (factor f) h = exact-factor f h
  exact-term (product t o f) h =
      rw (exact-term t h.0, exact-factor f h.1)
        (same_operands (exact_term t) (exact_factor f) (apply_mul o) h.2 h.3)

  exact-factor : (f : Factor) → FitsF f → value_factor to_char ok f ≡ exact_factor f
  exact-factor (digit d) h = refl
  exact-factor (paren e) h = exact-expr e h

-- The calculator gives the exact value of an expression, with C's division, if the operands of
-- every operator fit a `char` and the byte of the fresh buffer where the postfix text ends is 0.
pub eval_infix_exp-exact :
    (e : Expr) (fresh : List ℕ)
    → HasDigits e
    → Fits e
    → length fresh ≡ length (infix_expr e) + 1
    → get_elem? fresh (length (postfix_expr e)) ≡ some 0
    → eval_infix_exp fresh (infix_expr e) ≡ exact_expr e
eval_infix_exp-exact e fresh d h size nul = eval_infix_exp-infix e fresh d size nul ∙ exact-expr e h
