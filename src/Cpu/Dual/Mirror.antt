-- ===== src/Cpu/Dual/Mirror.antt =====
-- The functions of the two processors are the same code over different registers.
use today_i_learned.Common.{◌≡◌, arith, refl}
use today_i_learned.Cpu.Dual.{
  Machine, Status, running, halted, add1, substract1, store1, load1, branch_always1, branch_if_01,
  branch_if_greater_than_01, input1, output1, dispatch1, execution1, add2, substract2, store2,
  load2, branch_always2, branch_if_02, branch_if_greater_than_02, input2, output2, dispatch2,
  execution2, transfer1, transfer2,
}
use today_i_learned.Common.Run.{map_run, Run, ok, exit, fault, out_of_fuel, ◌>>=◌}
use today_i_learned.Common.Int.{ℤ, quot_ℕ}

-- The machine with the two register sets exchanged.
abbrev pub mirror : Machine → Machine
mirror m = record m { cpu1 = m.cpu2; cpu2 = m.cpu1 }

abbrev pub mirror_status : Status → Status
mirror_status (running m) = running (mirror m)
mirror_status (halted m) = halted (mirror m)

input2-mirror : (m : Machine) → input2 m ≡ map_run mirror (input1 (mirror m))
unfolding input1 input2
input2-mirror m = ground arith

transfer2-mirror : (m : Machine) → transfer2 m ≡ map_run mirror (transfer1 (mirror m))
unfolding transfer1 transfer2 output1 output2
transfer2-mirror m = ground (arith, input2-mirror m)

dispatch2-mirror :
    (opcode : ℤ) (m : Machine)
    → dispatch2 opcode m ≡ map_run mirror_status (dispatch1 opcode (mirror m))
unfolding dispatch1 add1 substract1 store1 load1 branch_always1 branch_if_01
    branch_if_greater_than_01 dispatch2 add2 substract2 store2 load2 branch_always2 branch_if_02
    branch_if_greater_than_02
dispatch2-mirror opcode m = ground arith

-- What the second processor executes is what the first would with the register sets exchanged.
pub execution2-mirror : (m : Machine) → execution2 m ≡ map_run mirror_status (execution1 (mirror m))
unfolding execution1 execution2
execution2-mirror m = rw (transfer2-mirror m) (by_transfer (transfer1 (mirror m)))
  where
    opcode : ℤ
    opcode = quot_ℕ m.cpu2.ir 100

    by_transfer :
        (r : Run Machine)
        → (map_run mirror r >>= dispatch2 opcode) ≡ map_run mirror_status (r >>= dispatch1 opcode)
    by_transfer (ok m') = dispatch2-mirror opcode (mirror m')
    by_transfer (exit c) = refl
    by_transfer fault = refl
    by_transfer out_of_fuel = refl
