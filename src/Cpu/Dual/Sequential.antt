-- ===== src/Cpu/Dual/Sequential.antt =====
-- When a round of the two processors is two rounds of the one of Mission4-2.c.
use today_i_learned.Cpu.Single
use today_i_learned.Cpu.Isa.{Instruction, encode}
use today_i_learned.Common.{◌<◌, ◌≡◌, refl, ◌≢◌, arith, sym, true, ◌∙◌}
use today_i_learned.Cpu.Dual.{
  Machine, Status, running, halted, add1, substract1, store1, load1, input1, output1, dispatch1,
  execution1, instruction_fetch2, execution2, cycle, transfer1,
}
use today_i_learned.Common.Int.{ℤ, pos}
use today_i_learned.Common.Run.{
  Run, ok, exit, fault, out_of_fuel, ◌>>=◌, map_run, read-set_ne, bind_assoc,
}
use mathlib.Core.Path.{subst, sym, ap}
use today_i_learned.Cpu.Dual.Alike.{
  single1, single2, status1, status2, fetch2-single, fetch2-stdin, execution1-single,
  execution1-is_spaced, execution2-single,
}
use today_i_learned.Cpu.Input.{idle, scanf_int, is_spaced}

-- An instruction that leaves PC alone, goes on, and does not write the cell at `next`.
abbrev pub IsStraight : ℤ → Instruction → Type 0
IsStraight next Instruction.input = Unit
IsStraight next Instruction.output = Unit
IsStraight next (Instruction.add a) = a < 100
IsStraight next (Instruction.subtract a) = a < 100
IsStraight next (Instruction.store_at a) = (a < 100) × (pos a ≢ next)
IsStraight next (Instruction.load_from a) = a < 100
IsStraight next _ = ⊥

abbrev fetch2_status : Status → Run Status
fetch2_status (running m) = do m' ← instruction_fetch2 m; ok (running m')
fetch2_status (halted m) = ok (halted m)

input1-fetch2 :
    (m : Machine) → (instruction_fetch2 m >>= input1) ≡ (input1 m >>= instruction_fetch2)
unfolding instruction_fetch2 input1 scanf_int
input1-fetch2 m = ground arith

execution1-input :
    (m : Machine)
    → m.cpu1.ir ≡ encode Instruction.input
    → execution1 m ≡ (input1 m >>= λ m'. ok (running m'))
unfolding encode execution1 transfer1 dispatch1
execution1-input m e = ground arith

fetch2-ir : (m m' : Machine) → instruction_fetch2 m ≡ ok m' → m'.cpu1.ir ≡ m.cpu1.ir
unfolding instruction_fetch2
fetch2-ir m m' e = ground arith

fetch2-input :
    (m : Machine)
    → m.cpu1.ir ≡ encode Instruction.input
    → (instruction_fetch2 m >>= execution1) ≡ (execution1 m >>= fetch2_status)
fetch2-input m e =
    by_fetch (instruction_fetch2 m) (fetch2-ir m)
    ∙ sym (bind_assoc (instruction_fetch2 m) input1 go_on)
    ∙ ap (λ r. r >>= go_on) (input1-fetch2 m)
    ∙ bind_assoc (input1 m) instruction_fetch2 go_on
    ∙ sym (
        ap (λ r. r >>= fetch2_status) (execution1-input m e)
        ∙ bind_assoc (input1 m) go_on fetch2_status)
  where
    go_on : Machine → Run Status
    go_on m' = ok (running m')

    by_fetch :
        (r : Run Machine)
        → ((m' : Machine) → r ≡ ok m' → m'.cpu1.ir ≡ m.cpu1.ir)
        → (r >>= execution1) ≡ (r >>= λ m'. input1 m' >>= go_on)
    by_fetch (ok m') h = execution1-input m' (h m' refl ∙ e)
    by_fetch (exit c) h = refl
    by_fetch fault h = refl
    by_fetch out_of_fuel h = refl

fetch2-execution1 :
    (i : Instruction) (m : Machine)
    → IsStraight m.pc i
    → m.cpu1.ir ≡ encode i
    → (instruction_fetch2 m >>= execution1) ≡ (execution1 m >>= fetch2_status)
unfolding encode instruction_fetch2 execution1 transfer1 dispatch1 add1 substract1 store1 load1
    output1
fetch2-execution1 Instruction.halt m w e = absurd w
fetch2-execution1 Instruction.input m w e = fetch2-input m e
fetch2-execution1 Instruction.output m w e = ground arith
fetch2-execution1 (Instruction.add a) m w e = ground arith
fetch2-execution1 (Instruction.subtract a) m w e = ground arith
fetch2-execution1 (Instruction.store_at a) m w e = ground (arith, read-set_ne m.memory a m.pc m.ac)
fetch2-execution1 (Instruction.load_from a) m w e = ground arith
fetch2-execution1 (Instruction.branch a) m w e = absurd w
fetch2-execution1 (Instruction.branch_zero a) m w e = absurd w
fetch2-execution1 (Instruction.branch_nonneg a) m w e = absurd w

-- A straight instruction does not end the program.
execution1_goes_on :
    (i : Instruction) (m m' : Machine)
    → IsStraight m.pc i
    → m.cpu1.ir ≡ encode i
    → execution1 m ≢ ok (halted m')
unfolding encode execution1 transfer1 dispatch1 add1 substract1 store1 load1
execution1_goes_on Instruction.halt m m' w e = absurd w
execution1_goes_on Instruction.input m m' w e = ground (arith, execution1-input m e)
execution1_goes_on Instruction.output m m' w e = ground arith
execution1_goes_on (Instruction.add a) m m' w e = ground arith
execution1_goes_on (Instruction.subtract a) m m' w e = ground arith
execution1_goes_on (Instruction.store_at a) m m' w e = ground arith
execution1_goes_on (Instruction.load_from a) m m' w e = ground arith
execution1_goes_on (Instruction.branch a) m m' w e = absurd w
execution1_goes_on (Instruction.branch_zero a) m m' w e = absurd w
execution1_goes_on (Instruction.branch_nonneg a) m m' w e = absurd w

-- The end of a round, and of two rounds of the one processor.
abbrev finish : Status → Run Status
finish (running m) = execution2 m
finish (halted m) = ok (halted m)

abbrev pub again : Single.Status → Run Single.Status
again (Single.running s) = Single.cycle s
again (Single.halted s) = ok (Single.halted s)

-- The second half of the round, from the state that the first instruction left.
second_half :
    (m : Machine)
    → is_spaced idle m.stdin ≡ true
    → map_run status2 (fetch2_status (running m) >>= finish) ≡ Single.cycle (single1 m)
unfolding Single.cycle
second_half m s = rw (← fetch2-single m) (
    by_fetch (instruction_fetch2 m)
      λ m' e. subst (λ t. is_spaced idle t ≡ true) (sym (fetch2-stdin m m' e)) s)
  where
    by_fetch :
        (r : Run Machine)
        → ((m' : Machine) → r ≡ ok m' → is_spaced idle m'.stdin ≡ true)
        → map_run status2 ((r >>= λ m'. ok (running m')) >>= finish)
          ≡ (map_run single2 r >>= Single.execution)
    by_fetch (ok m') h = execution2-single m' (h m' refl)
    by_fetch (exit c) h = refl
    by_fetch fault h = refl
    by_fetch out_of_fuel h = refl

two_halves :
    (r : Run Status)
    → ((m : Machine) → r ≢ ok (halted m))
    → ((m : Machine) → r ≡ ok (running m) → is_spaced idle m.stdin ≡ true)
    → map_run status2 (r >>= fetch2_status >>= finish) ≡ (map_run status1 r >>= again)
two_halves (ok (running m)) goes s = second_half m (s m refl)
two_halves (ok (halted m)) goes s = absurd (goes m refl)
two_halves (exit c) goes s = refl
two_halves fault goes s = refl
two_halves out_of_fuel goes s = refl

-- A round whose first instruction is straight, from the state behind the first fetch.
round_after_fetch :
    (i : Instruction) (m : Machine)
    → IsStraight m.pc i
    → m.cpu1.ir ≡ encode i
    → is_spaced idle m.stdin ≡ true
    → map_run status2 (instruction_fetch2 m >>= execution1 >>= finish)
      ≡ (Single.execution (single1 m) >>= again)
round_after_fetch i m w e s =
    rw (fetch2-execution1 i m w e, ← execution1-single m s)
      (two_halves (execution1 m) (λ m'. execution1_goes_on i m m' w e)
        λ m'. execution1-is_spaced m m' s)

by_fetch :
    (i : Instruction) (next : ℤ) (r : Run Machine)
    → IsStraight next i
    → ((m : Machine)
        → r ≡ ok m
        → (m.cpu1.ir ≡ encode i) × (m.pc ≡ next) × (is_spaced idle m.stdin ≡ true))
    → map_run status2 (r >>= λ m. instruction_fetch2 m >>= execution1 >>= finish)
      ≡ (map_run single1 r >>= Single.execution >>= again)
by_fetch i next (ok m) w h = let (ir, pc, s) = h m refl in round_after_fetch i m (rw pc w) ir s
by_fetch i next (exit c) w h = refl
by_fetch i next fault w h = refl
by_fetch i next out_of_fuel w h = refl
