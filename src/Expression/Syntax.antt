-- ===== src/Expression/Syntax.antt =====
-- What the calculator is for: the arithmetic expressions over single digits, with the two ways of
-- writing them and their value.
use today_i_learned.Common.{ℕ, ◌+◌, ◌<◌, List, [], ◌∷◌, ◌++◌, if◌then◌else◌}
use today_i_learned.Common.Int.{ℤ, pos, ◌+ℤ◌, ◌-ℤ◌, ◌*ℤ◌, eqb_ℤ, quot}
use today_i_learned.Common.Run.{Run, ok, fault, ◌>>=◌}

pub data AddOp : Type 0 where
  plus minus : AddOp

pub data MulOp : Type 0 where
  times over : MulOp

mutual
  pub data Expr : Type 0 where
    term : Term → Expr
    sum : Expr → AddOp → Term → Expr

  pub data Term : Type 0 where
    factor : Factor → Term
    product : Term → MulOp → Factor → Term

  pub data Factor : Type 0 where
    digit : ℕ → Factor
    paren : Expr → Factor

abbrev pub add_code : AddOp → ℕ
add_code plus = b'+'
add_code minus = b'-'

abbrev pub mul_code : MulOp → ℕ
mul_code times = b'*'
mul_code over = b'/'

unfoldable mutual
  pub infix_expr : Expr → List ℕ
  infix_expr (term t) = infix_term t
  infix_expr (sum e o t) = infix_expr e ++ add_code o ∷ infix_term t

  pub infix_term : Term → List ℕ
  infix_term (factor f) = infix_factor f
  infix_term (product t o f) = infix_term t ++ mul_code o ∷ infix_factor f

  pub infix_factor : Factor → List ℕ
  infix_factor (digit d) = (b'0' + d) ∷ []
  infix_factor (paren e) = b'(' ∷ (infix_expr e ++ b')' ∷ [])

unfoldable mutual
  pub postfix_expr : Expr → List ℕ
  postfix_expr (term t) = postfix_term t
  postfix_expr (sum e o t) = postfix_expr e ++ (postfix_term t ++ add_code o ∷ [])

  pub postfix_term : Term → List ℕ
  postfix_term (factor f) = postfix_factor f
  postfix_term (product t o f) = postfix_term t ++ (postfix_factor f ++ mul_code o ∷ [])

  pub postfix_factor : Factor → List ℕ
  postfix_factor (digit d) = (b'0' + d) ∷ []
  postfix_factor (paren e) = postfix_expr e

-- Every digit is one.
abbrev mutual
  pub HasDigits : Expr → Type 0
  HasDigits (term t) = HasDigitsT t
  HasDigits (sum e o t) = HasDigits e × HasDigitsT t

  pub HasDigitsT : Term → Type 0
  HasDigitsT (factor f) = HasDigitsF f
  HasDigitsT (product t o f) = HasDigitsT t × HasDigitsF f

  pub HasDigitsF : Factor → Type 0
  HasDigitsF (digit d) = d < 10
  HasDigitsF (paren e) = HasDigits e

-- The values of the operators; dividing by 0 is undefined.
unfoldable pub apply_add : AddOp → ℤ → ℤ → Run ℤ
apply_add plus a b = ok (a +ℤ b)
apply_add minus a b = ok (a -ℤ b)

unfoldable pub apply_mul : MulOp → ℤ → ℤ → Run ℤ
apply_mul times a b = ok (a *ℤ b)
apply_mul over a b = if eqb_ℤ b (pos 0) then fault else ok (quot a b)

-- The value of an expression, where each operand goes through `operand` before it is used and
-- each result through `result`.
module _ (operand : ℤ → ℤ) (result : ℤ → Run ℤ) where
  unfoldable mutual
    pub value_expr : Expr → Run ℤ
    value_expr (term t) = value_term t
    value_expr (sum e o t) = do
      a ← value_expr e
      b ← value_term t
      apply_add o (operand a) (operand b) >>= result

    pub value_term : Term → Run ℤ
    value_term (factor f) = value_factor f
    value_term (product t o f) = do
      a ← value_term t
      b ← value_factor f
      apply_mul o (operand a) (operand b) >>= result

    pub value_factor : Factor → Run ℤ
    value_factor (digit d) = ok (pos d)
    value_factor (paren e) = value_expr e
