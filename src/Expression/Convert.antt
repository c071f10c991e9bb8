-- ===== src/Expression/Convert.antt =====
-- C++/Datastruct/Stack/ExpressionStack/InfixToPostfix.c
pub mod Buffer
pub mod Postfix
pub mod Loop
pub mod Result
use today_i_learned.Stack.{Stack, stack_init, s_is_empty, s_push, s_pop, s_peek}
use today_i_learned.Common.{
  ℕ, zero, suc, ◌+◌, Bool, ◌&&◌, ◌||◌, List, [], ◌∷◌, leb, ◌==◌, if◌then◌else◌, length,
}
use today_i_learned.Stack.Laws.{stack}
use today_i_learned.Common.Int.{ℤ, pos, negsuc, ltb_ℤ, leb_ℤ}
use today_i_learned.Common.Run.{Run, ok, fault, out_of_fuel, ◌>>=◌, write, map_run}

unfoldable pub get_op_prec : ℕ → ℤ
get_op_prec op =
    if op == b'*' || op == b'/'
    then pos 5
    else if op == b'+' || op == b'-'
    then pos 3
    else if op == b'('
    then pos 1
    else negsuc 0

unfoldable pub who_prec_op : ℕ → ℕ → ℤ
unfolding get_op_prec
who_prec_op op1 op2 =
    let prec1 = get_op_prec op1 in
    let prec2 = get_op_prec op2 in
    if ltb_ℤ prec2 prec1 then pos 1 else if ltb_ℤ prec1 prec2 then negsuc 0 else pos 0

abbrev pub is_digit : ℕ → Bool
is_digit c = leb b'0' c && leb c b'9'

-- The locals of `convToRPNEXP`.
pub record Conversion : Type 0 where
  pub stack : Stack ℕ
  pub result : List ℕ
  pub idx : ℕ

-- `result[idx++] = c`
unfoldable pub put : ℕ → Conversion → Run Conversion
put c v = do
  result ← write v.result (pos v.idx) c
  ok (record v { result = result; idx = v.idx + 1 })

-- `while (1)` at a closing bracket
unfoldable pub pop_to_bracket : ℕ → Conversion → Run Conversion
pop_to_bracket zero v = out_of_fuel
pop_to_bracket (suc k) v = do
  (op, s) ← s_pop v.stack
  let more = (do v' ← put op (record v { stack = s }); pop_to_bracket k v')
  if op == b'(' then ok (record v { stack = s }) else more

-- The `while` at an operator.
unfoldable pub pop_higher : (tok : ℕ) → ℕ → Conversion → Run Conversion
pop_higher tok zero v = out_of_fuel
pop_higher tok (suc k) v = if s_is_empty v.stack then ok v else do
  top ← s_peek v.stack
  let more = (do (op, s) ← s_pop v.stack; v' ← put op (record v { stack = s }); pop_higher tok k v')
  if leb_ℤ (pos 0) (who_prec_op top tok) then more else ok v

-- The `while` behind the loop.
unfoldable pub pop_all : ℕ → Conversion → Run Conversion
pop_all zero v = out_of_fuel
pop_all (suc k) v =
    let more = (do (op, s) ← s_pop v.stack; v' ← put op (record v { stack = s }); pop_all k v') in
    if s_is_empty v.stack then ok v else more

-- Each of the three loops pops once in a round, so one round more than the stack is deep is enough.
abbrev pub rounds : Conversion → ℕ
rounds v = suc (length v.stack.head)

abbrev pub is_operator : ℕ → Bool
is_operator c = c == b'+' || c == b'-' || c == b'*' || c == b'/'

-- The body of the `for`.
unfoldable pub convert_char : ℕ → Conversion → Run Conversion
convert_char tok v =
    if is_digit tok
    then put tok v
    else if tok == b'('
    then ok (record v { stack = s_push v.stack tok })
    else if tok == b')'
    then pop_to_bracket (rounds v) v
    else if is_operator tok
    then (do v' ← pop_higher tok (rounds v) v; ok (record v' { stack = s_push v'.stack tok }))
    else ok v

unfoldable pub convert_loop : List ℕ → Conversion → Run Conversion
convert_loop [] v = ok v
convert_loop (tok ∷ exp) v = do v' ← convert_char tok v; convert_loop exp v'

-- The text that `strcpy` finds in a buffer: up to the first NUL. Without one it reads on past
-- the end.
unfoldable pub strcpy : List ℕ → Run (List ℕ)
strcpy [] = fault
strcpy (c ∷ buffer) =
    let rest = strcpy buffer in if c == 0 then ok [] else map_run (λ t. c ∷ t) rest

-- `fresh` is what the `length + 1` bytes from `malloc` hold. The loops write no NUL.
unfoldable pub conv_to_rpnexp : (fresh : List ℕ) → List ℕ → Run (List ℕ)
conv_to_rpnexp fresh exp = do
  v ← convert_loop exp (record { stack = stack_init; result = fresh; idx = 0 })
  v' ← pop_all (rounds v) v
  strcpy v'.result
