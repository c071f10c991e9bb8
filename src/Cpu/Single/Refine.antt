-- ===== src/Cpu/Single/Refine.antt =====
-- The `switch` of `execution` against the instruction table.
use today_i_learned.Common.{
  ◌≡◌, List, [], ◌∷◌, Option, none, some, ℕ, ◌+◌, ◌/◌, ◌<◌, refl, ◌⊎◌, inl, inr, arith,
}
use today_i_learned.Common.Int.{ℤ, pos}
use today_i_learned.Common.Run.{map_run, ok}
use today_i_learned.Cpu.Isa.{Instruction, encode, IsEncodable, View, meaning}
use today_i_learned.Cpu.Single.{
  Printed, Machine, Status, running, halted, execution, dispatch, add, input, output, substract,
  store, load, branch_always, branch_if_0, branch_if_greater_than_0,
}

-- The values among what was printed.
unfoldable pub values : List Printed → List ℤ
values [] = []
values (Printed.prompt ∷ out) = values out
values (Printed.value n ∷ out) = n ∷ values out
values (Printed.report b c ∷ out) = values out

abbrev pub view : Machine → View
view m = record {
  ac = m.ac;
  pc = m.pc;
  memory = m.memory;
  stdin = m.stdin;
  printed = values m.stdout;
}

abbrev pub view_status : Status → Option View
view_status (running m) = some (view m)
view_status (halted m) = none

-- The part of `execution` behind the two tests for 901 and 902, for a code that is neither.
dispatch-execution :
    (m : Machine) (c : ℕ) → m.ir ≡ pos c → c < 901 → execution m ≡ dispatch (pos (c / 100)) m
unfolding execution
dispatch-execution m c e h = ground arith

input-view :
    (m : Machine) → ok (view_status (running (input m))) ≡ meaning Instruction.input (view m)
unfolding input meaning values
input-view m = elim (Stdin-cases m.stdin) [ inl e ↦ rw e | inr (n, rest, e) ↦ rw e ]
  where
    Stdin-cases : (l : List ℤ) → (l ≡ []) ⊎ ((n : ℤ) × (rest : List ℤ) × (l ≡ n ∷ rest))
    Stdin-cases [] = inl refl
    Stdin-cases (n ∷ rest) = inr (n, rest, refl)

pub execution-encode :
    (i : Instruction) (m : Machine)
    → IsEncodable i
    → m.ir ≡ encode i
    → map_run view_status (execution m) ≡ meaning i (view m)
unfolding dispatch encode meaning values add substract store load branch_always branch_if_0
    branch_if_greater_than_0 output
execution-encode Instruction.halt m w e = rw (dispatch-execution m 0 e (omega arith))
execution-encode Instruction.input m w e = unfold execution in rw e (rw input-view)
execution-encode Instruction.output m w e = unfold execution in rw e
execution-encode (Instruction.add a) m w e =
    rw (dispatch-execution m (100 + a) e (omega arith)) (ground arith)
execution-encode (Instruction.subtract a) m w e =
    rw (dispatch-execution m (200 + a) e (omega arith)) (ground arith)
execution-encode (Instruction.store_at a) m w e =
    rw (dispatch-execution m (300 + a) e (omega arith)) (ground arith)
execution-encode (Instruction.load_from a) m w e =
    rw (dispatch-execution m (500 + a) e (omega arith)) (ground arith)
execution-encode (Instruction.branch a) m w e =
    rw (dispatch-execution m (600 + a) e (omega arith)) (ground arith)
execution-encode (Instruction.branch_zero a) m w e =
    rw (dispatch-execution m (700 + a) e (omega arith)) (ground arith)
execution-encode (Instruction.branch_nonneg a) m w e =
    rw (dispatch-execution m (800 + a) e (omega arith)) (ground arith)
