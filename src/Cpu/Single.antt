-- ===== src/Cpu/Single.antt =====
-- C++/ComputerArchitecture/Mission4/Mission4-2.c: the emulator of one processor. Its globals are
-- the fields of `Machine`. Standard input is the list of the integers that `scanf` still reads,
-- and on its end `scanf` leaves AC alone. Output is the list of printed items, the latest first.
pub mod Refine
use today_i_learned.Common.{
  ℕ, zero, suc, List, [], ◌∷◌, Option, none, some, if◌then◌else◌, replicate,
}
use today_i_learned.Common.Int.{ℤ, pos, ◌+ℤ◌, ◌-ℤ◌, quot_ℕ, rem_ℕ, leb_ℤ, eqb_ℤ}
use today_i_learned.Common.Run.{Run, ok, fault, out_of_fuel, ◌>>=◌, checked, read, write}

-- What the emulator prints.
pub data Printed : Type 0 where
  prompt : Printed
  value : ℤ → Printed
  report : (byte clock : ℤ) → Printed

pub record Machine : Type 0 where
  pub ac : ℤ
  pub mar : ℤ
  pub mbr : ℤ
  pub ir : ℤ
  pub memory : List ℤ
  pub pc : ℤ
  pub clock : ℤ
  pub byte : ℤ
  pub stdin : List ℤ
  pub stdout : List Printed

-- The globals before `main`.
abbrev pub initial : List ℤ → Machine
initial stdin = record {
  ac = pos 0;
  mar = pos 0;
  mbr = pos 0;
  ir = pos 0;
  memory = replicate 100 (pos 0);
  pc = pos 0;
  clock = pos 0;
  byte = pos 0;
  stdin = stdin;
  stdout = [];
}

-- After an instruction the machine runs on, or has left by `exit(0)`.
pub data Status : Type 0 where
  running halted : Machine → Status

unfoldable pub instruction_fetch : Machine → Run Machine
instruction_fetch m = do
  word ← read m.memory m.pc
  pc ← checked (m.pc +ℤ pos 1)
  clock ← checked (m.clock +ℤ pos 1)
  ok (record m { mar = m.pc; mbr = word; pc = pc; ir = word; clock = clock })

unfoldable pub add : Machine → Run Machine
add m = do
  let mar = rem_ℕ m.ir 100
  word ← read m.memory mar
  ac ← checked (m.ac +ℤ word)
  ok (record m { mar = mar; mbr = word; ac = ac })

unfoldable pub substract : Machine → Run Machine
substract m = do
  let mar = rem_ℕ m.ir 100
  word ← read m.memory mar
  ac ← checked (m.ac -ℤ word)
  ok (record m { mar = mar; mbr = word; ac = ac })

unfoldable pub store : Machine → Run Machine
store m = do
  let mar = rem_ℕ m.ir 100
  memory ← write m.memory mar m.ac
  ok (record m { mar = mar; mbr = m.ac; memory = memory })

unfoldable pub load : Machine → Run Machine
load m = do
  let mar = rem_ℕ m.ir 100
  word ← read m.memory mar
  ok (record m { mar = mar; mbr = word; ac = word })

unfoldable pub branch_always : Machine → Machine
branch_always m = record m { pc = rem_ℕ m.ir 100 }

unfoldable pub branch_if_0 : Machine → Machine
branch_if_0 m = if eqb_ℤ m.ac (pos 0) then record m { pc = rem_ℕ m.ir 100 } else m

unfoldable pub branch_if_greater_than_0 : Machine → Machine
branch_if_greater_than_0 m = if leb_ℤ (pos 0) m.ac then record m { pc = rem_ℕ m.ir 100 } else m

unfoldable pub input : Machine → Machine
input m = elim m.stdin [
  | [] ↦ record m { stdout = prompt ∷ m.stdout }
  | n ∷ rest ↦ record m { ac = n; stdin = rest; stdout = prompt ∷ m.stdout }
]

unfoldable pub output : Machine → Machine
output m = record m { stdout = value m.ac ∷ m.stdout }

-- The `switch` on the opcode.
unfoldable pub dispatch : ℤ → Machine → Run Status
dispatch opcode m =
    if eqb_ℤ opcode (pos 0)
    then ok (halted (record m { stdout = report m.byte m.clock ∷ m.stdout }))
    else if eqb_ℤ opcode (pos 1)
    then (do m' ← add m; ok (running m'))
    else if eqb_ℤ opcode (pos 2)
    then (do m' ← substract m; ok (running m'))
    else if eqb_ℤ opcode (pos 3)
    then (do m' ← store m; ok (running m'))
    else if eqb_ℤ opcode (pos 5)
    then (do m' ← load m; ok (running m'))
    else if eqb_ℤ opcode (pos 6)
    then ok (running (branch_always m))
    else if eqb_ℤ opcode (pos 7)
    then ok (running (branch_if_0 m))
    else if eqb_ℤ opcode (pos 8)
    then ok (running (branch_if_greater_than_0 m))
    else ok (running m)

unfoldable pub execution : Machine → Run Status
execution m =
    let opcode = quot_ℕ m.ir 100 in
    dispatch opcode
      (if eqb_ℤ m.ir (pos 901) then input m else if eqb_ℤ m.ir (pos 902) then output m else m)

-- One round of the loop of `main`.
unfoldable pub cycle : Machine → Run Status
cycle m = do m' ← instruction_fetch m; execution m'

-- `while (1)`, for at most so many rounds.
unfoldable pub main_loop : ℕ → Machine → Run Machine
main_loop zero m = out_of_fuel
main_loop (suc rounds) m = do
  status ← cycle m
  elim status [ running m' ↦ main_loop rounds m' | halted m' ↦ ok m' ]

-- The loop of `main` that fills the memory. `lines` is what `fgets` gives until `feof` holds, with
-- `none` for its null pointer, on which `atoi` is undefined. `atoi` is the C library's.
module _ {Line : Type 0} (atoi : Line → ℤ) where
  unfoldable pub load_program : (i : ℕ) → List (Option Line) → Machine → Run Machine
  load_program i [] m = ok m
  load_program i (none ∷ lines) m = fault
  load_program i (some line ∷ lines) m = do
    memory ← write m.memory (pos i) (atoi line)
    byte ← checked (m.byte +ℤ pos 1)
    load_program (suc i) lines (record m { memory = memory; byte = byte })
