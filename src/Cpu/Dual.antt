-- ===== src/Cpu/Dual.antt =====
-- C++/ComputerArchitecture/Mission4/Mission4-3.c: two processors with registers of their own
-- (`Cpu1`, `Cpu2` in the source) that share AC, PC and the memory. Both fetch, then both execute.
-- Standard input is a text, since `getchar` follows each `scanf` here; output is as in
-- `Cpu.Single`. The lines that trace each round are left out.
pub mod Mirror
pub mod Alike
pub mod Sequential
use today_i_learned.Common.{if◌then◌else◌, ℕ, zero, suc, List, ◌∷◌}
use today_i_learned.Cpu.Single.{Printed, prompt, value, report}
use today_i_learned.Common.Int.{ℤ, pos, ◌+ℤ◌, ◌-ℤ◌, leb_ℤ, eqb_ℤ, quot_ℕ, rem_ℕ}
use today_i_learned.Common.Run.{Run, ok, out_of_fuel, ◌>>=◌, checked, read, write}
use today_i_learned.Cpu.Input.{scanf_int, getchar}

pub record Cpu : Type 0 where
  pub mar : ℤ
  pub mbr : ℤ
  pub ir : ℤ

pub record Machine : Type 0 where
  pub cpu1 : Cpu
  pub cpu2 : Cpu
  pub memory : List ℤ
  pub ac : ℤ
  pub pc : ℤ
  pub clock : ℤ
  pub byte : ℤ
  pub stdin : List ℕ
  pub stdout : List Printed

pub data Status : Type 0 where
  running halted : Machine → Status

unfoldable pub instruction_fetch1 : Machine → Run Machine
instruction_fetch1 m = do
  word ← read m.memory m.pc
  pc ← checked (m.pc +ℤ pos 1)
  clock ← checked (m.clock +ℤ pos 1)
  ok (record m { cpu1 = record { mar = m.pc; mbr = word; ir = word }; pc = pc; clock = clock })

unfoldable pub add1 : Machine → Run Machine
add1 m = do
  let mar = rem_ℕ m.cpu1.ir 100
  word ← read m.memory mar
  ac ← checked (m.ac +ℤ word)
  ok (record m { cpu1 = record { mar = mar; mbr = word; ir = m.cpu1.ir }; ac = ac })

unfoldable pub substract1 : Machine → Run Machine
substract1 m = do
  let mar = rem_ℕ m.cpu1.ir 100
  word ← read m.memory mar
  ac ← checked (m.ac -ℤ word)
  ok (record m { cpu1 = record { mar = mar; mbr = word; ir = m.cpu1.ir }; ac = ac })

unfoldable pub store1 : Machine → Run Machine
store1 m = do
  let mar = rem_ℕ m.cpu1.ir 100
  memory ← write m.memory mar m.ac
  ok (record m { cpu1 = record { mar = mar; mbr = m.ac; ir = m.cpu1.ir }; memory = memory })

unfoldable pub load1 : Machine → Run Machine
load1 m = do
  let mar = rem_ℕ m.cpu1.ir 100
  word ← read m.memory mar
  ok (record m { cpu1 = record { mar = mar; mbr = word; ir = m.cpu1.ir }; ac = word })

unfoldable pub branch_always1 : Machine → Machine
branch_always1 m = record m { pc = rem_ℕ m.cpu1.ir 100 }

unfoldable pub branch_if_01 : Machine → Machine
branch_if_01 m = if eqb_ℤ m.ac (pos 0) then record m { pc = rem_ℕ m.cpu1.ir 100 } else m

unfoldable pub branch_if_greater_than_01 : Machine → Machine
branch_if_greater_than_01 m =
    if leb_ℤ (pos 0) m.ac then record m { pc = rem_ℕ m.cpu1.ir 100 } else m

unfoldable pub input1 : Machine → Run Machine
input1 m = do
  (ac, rest) ← scanf_int m.ac m.stdin
  ok (record m { ac = ac; stdin = getchar rest; stdout = prompt ∷ m.stdout })

unfoldable pub output1 : Machine → Machine
output1 m = record m { stdout = value m.ac ∷ m.stdout }

-- The `switch` of `execution1`.
unfoldable pub dispatch1 : ℤ → Machine → Run Status
dispatch1 opcode m =
    if eqb_ℤ opcode (pos 0)
    then ok (halted (record m { stdout = report m.byte m.clock ∷ m.stdout }))
    else if eqb_ℤ opcode (pos 1)
    then (do m' ← add1 m; ok (running m'))
    else if eqb_ℤ opcode (pos 2)
    then (do m' ← substract1 m; ok (running m'))
    else if eqb_ℤ opcode (pos 3)
    then (do m' ← store1 m; ok (running m'))
    else if eqb_ℤ opcode (pos 5)
    then (do m' ← load1 m; ok (running m'))
    else if eqb_ℤ opcode (pos 6)
    then ok (running (branch_always1 m))
    else if eqb_ℤ opcode (pos 7)
    then ok (running (branch_if_01 m))
    else if eqb_ℤ opcode (pos 8)
    then ok (running (branch_if_greater_than_01 m))
    else ok (running m)

-- The two tests of the whole instruction before the `switch`.
unfoldable pub transfer1 : Machine → Run Machine
transfer1 m =
    if eqb_ℤ m.cpu1.ir (pos 901)
    then input1 m
    else if eqb_ℤ m.cpu1.ir (pos 902)
    then ok (output1 m)
    else ok m

unfoldable pub execution1 : Machine → Run Status
execution1 m = do let opcode = quot_ℕ m.cpu1.ir 100; m' ← transfer1 m; dispatch1 opcode m'

unfoldable pub instruction_fetch2 : Machine → Run Machine
instruction_fetch2 m = do
  word ← read m.memory m.pc
  pc ← checked (m.pc +ℤ pos 1)
  clock ← checked (m.clock +ℤ pos 1)
  ok (record m { cpu2 = record { mar = m.pc; mbr = word; ir = word }; pc = pc; clock = clock })

unfoldable pub add2 : Machine → Run Machine
add2 m = do
  let mar = rem_ℕ m.cpu2.ir 100
  word ← read m.memory mar
  ac ← checked (m.ac +ℤ word)
  ok (record m { cpu2 = record { mar = mar; mbr = word; ir = m.cpu2.ir }; ac = ac })

unfoldable pub substract2 : Machine → Run Machine
substract2 m = do
  let mar = rem_ℕ m.cpu2.ir 100
  word ← read m.memory mar
  ac ← checked (m.ac -ℤ word)
  ok (record m { cpu2 = record { mar = mar; mbr = word; ir = m.cpu2.ir }; ac = ac })

unfoldable pub store2 : Machine → Run Machine
store2 m = do
  let mar = rem_ℕ m.cpu2.ir 100
  memory ← write m.memory mar m.ac
  ok (record m { cpu2 = record { mar = mar; mbr = m.ac; ir = m.cpu2.ir }; memory = memory })

unfoldable pub load2 : Machine → Run Machine
load2 m = do
  let mar = rem_ℕ m.cpu2.ir 100
  word ← read m.memory mar
  ok (record m { cpu2 = record { mar = mar; mbr = word; ir = m.cpu2.ir }; ac = word })

unfoldable pub branch_always2 : Machine → Machine
branch_always2 m = record m { pc = rem_ℕ m.cpu2.ir 100 }

unfoldable pub branch_if_02 : Machine → Machine
branch_if_02 m = if eqb_ℤ m.ac (pos 0) then record m { pc = rem_ℕ m.cpu2.ir 100 } else m

unfoldable pub branch_if_greater_than_02 : Machine → Machine
branch_if_greater_than_02 m =
    if leb_ℤ (pos 0) m.ac then record m { pc = rem_ℕ m.cpu2.ir 100 } else m

unfoldable pub input2 : Machine → Run Machine
input2 m = do
  (ac, rest) ← scanf_int m.ac m.stdin
  ok (record m { ac = ac; stdin = getchar rest; stdout = prompt ∷ m.stdout })

unfoldable pub output2 : Machine → Machine
output2 m = record m { stdout = value m.ac ∷ m.stdout }

-- The `switch` of `execution2`.
unfoldable pub dispatch2 : ℤ → Machine → Run Status
dispatch2 opcode m =
    if eqb_ℤ opcode (pos 0)
    then ok (halted (record m { stdout = report m.byte m.clock ∷ m.stdout }))
    else if eqb_ℤ opcode (pos 1)
    then (do m' ← add2 m; ok (running m'))
    else if eqb_ℤ opcode (pos 2)
    then (do m' ← substract2 m; ok (running m'))
    else if eqb_ℤ opcode (pos 3)
    then (do m' ← store2 m; ok (running m'))
    else if eqb_ℤ opcode (pos 5)
    then (do m' ← load2 m; ok (running m'))
    else if eqb_ℤ opcode (pos 6)
    then ok (running (branch_always2 m))
    else if eqb_ℤ opcode (pos 7)
    then ok (running (branch_if_02 m))
    else if eqb_ℤ opcode (pos 8)
    then ok (running (branch_if_greater_than_02 m))
    else ok (running m)

-- The two tests of the whole instruction before the `switch`.
unfoldable pub transfer2 : Machine → Run Machine
transfer2 m =
    if eqb_ℤ m.cpu2.ir (pos 901)
    then input2 m
    else if eqb_ℤ m.cpu2.ir (pos 902)
    then ok (output2 m)
    else ok m

unfoldable pub execution2 : Machine → Run Status
execution2 m = do let opcode = quot_ℕ m.cpu2.ir 100; m' ← transfer2 m; dispatch2 opcode m'

-- One round of the loop of `main`. The second processor does not execute after an `exit`.
unfoldable pub cycle : Machine → Run Status
cycle m = do
  m₁ ← instruction_fetch1 m
  m₂ ← instruction_fetch2 m₁
  status ← execution1 m₂
  elim status [ running m₃ ↦ execution2 m₃ | halted m₃ ↦ ok (halted m₃) ]

unfoldable pub main_loop : ℕ → Machine → Run Machine
main_loop zero m = out_of_fuel
main_loop (suc rounds) m = do
  status ← cycle m
  elim status [ running m' ↦ main_loop rounds m' | halted m' ↦ ok m' ]
