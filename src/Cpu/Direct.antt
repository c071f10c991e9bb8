-- ===== src/Cpu/Direct.antt =====
-- C++/ComputerArchitecture/Mission4/Mission4-1.c: the emulator that reads each instruction from
-- standard input and executes it, with no program in memory. The branches, INPUT and OUTPUT stand
-- in the program, but nothing calls them.
pub mod Agree
use today_i_learned.Common.{
  ℕ, zero, suc, List, [], ◌∷◌, Option, none, some, if◌then◌else◌, replicate, set,
}
use today_i_learned.Common.Int.{ℤ, pos, ◌+ℤ◌, ◌-ℤ◌, quot_ℕ, rem_ℕ, leb_ℤ, eqb_ℤ}
use today_i_learned.Common.Run.{Run, ok, fault, out_of_fuel, ◌>>=◌, checked, read, write}

-- The menu, the number that OUTPUT prints, and what a round prints of the registers.
pub data Printed : Type 0 where
  menu : Printed
  value : ℤ → Printed
  registers : (ac ir pc : ℤ) → Printed

pub record Machine : Type 0 where
  pub ac : ℤ
  pub mar : ℤ
  pub mbr : ℤ
  pub ir : ℤ
  pub memory : List ℤ
  pub pc : ℤ
  pub stdin : List ℤ
  pub stdout : List Printed

-- The globals after the first line of `main`, which stores 1 in the last cell.
abbrev pub initial : List ℤ → Machine
initial stdin = record {
  ac = pos 0;
  mar = pos 0;
  mbr = pos 0;
  ir = pos 0;
  memory = set (replicate 100 (pos 0)) 99 (pos 1);
  pc = pos 0;
  stdin = stdin;
  stdout = [];
}

pub data Status : Type 0 where
  running halted : Machine → Status

unfoldable pub add : Machine → Run Machine
add m = do
  let mar = rem_ℕ m.ir 100
  word ← read m.memory mar
  ac ← checked (m.ac +ℤ word)
  ok (record m { mar = mar; mbr = word; ac = ac })

unfoldable pub substract : Machine → Run Machine
substract m = do
  let mar = rem_ℕ m.ir 100
  word ← read m.memory mar
  ac ← checked (m.ac -ℤ word)
  ok (record m { mar = mar; mbr = word; ac = ac })

unfoldable pub store : Machine → Run Machine
store m = do
  let mar = rem_ℕ m.ir 100
  memory ← write m.memory mar m.ac
  ok (record m { mar = mar; mbr = m.ac; memory = memory })

unfoldable pub load : Machine → Run Machine
load m = do
  let mar = rem_ℕ m.ir 100
  word ← read m.memory mar
  ok (record m { mar = mar; mbr = word; ac = word })

unfoldable pub branch_always : Machine → Machine
branch_always m = record m { pc = rem_ℕ m.ir 100 }

unfoldable pub branch_if_0 : Machine → Machine
branch_if_0 m = if eqb_ℤ m.ac (pos 0) then record m { pc = rem_ℕ m.ir 100 } else m

unfoldable pub branch_if_greater_than_0 : Machine → Machine
branch_if_greater_than_0 m = if leb_ℤ (pos 0) m.ac then record m { pc = rem_ℕ m.ir 100 } else m

unfoldable pub input : Machine → Machine
input m = elim m.stdin [ [] ↦ m | n ∷ rest ↦ record m { ac = n; stdin = rest } ]

unfoldable pub output : Machine → Machine
output m = record m { stdout = value m.ac ∷ m.stdout }

-- The `switch` on the opcode.
unfoldable pub dispatch : ℤ → Machine → Run Status
dispatch opcode m =
    if eqb_ℤ opcode (pos 0)
    then ok (halted m)
    else if eqb_ℤ opcode (pos 1)
    then (do m' ← add m; ok (running m'))
    else if eqb_ℤ opcode (pos 2)
    then (do m' ← substract m; ok (running m'))
    else if eqb_ℤ opcode (pos 3)
    then (do m' ← store m; ok (running m'))
    else if eqb_ℤ opcode (pos 4)
    then (do m' ← load m; ok (running m'))
    else ok (running m)

unfoldable pub execution : Machine → Run Status
execution m = dispatch (quot_ℕ m.ir 100) m

-- The variable `tmp` of `main`, that `scanf` leaves alone at the end of the input.
unfoldable pub scan : (tmp : Option ℤ) → Machine → Option ℤ × Machine
scan tmp m = elim m.stdin [ [] ↦ (tmp, m) | n ∷ rest ↦ (some n, record m { stdin = rest }) ]

-- What a round prints at its end.
abbrev pub show_registers : Machine → Machine
show_registers m = record m { stdout = registers m.ac m.ir m.pc ∷ m.stdout }

-- One round of the loop of `main`, for the value of `tmp` if it has one.
unfoldable pub round : (tmp : Option ℤ) → Machine → Run (Option ℤ × Status)
round tmp m =
    let (tmp', m₁) = scan tmp (record m { stdout = menu ∷ m.stdout }) in
    elim tmp' [
      | none ↦ fault
      | some n ↦ (do
        status ← execution (record m₁ { ir = n })
        ok (
          some n,
          elim status [ running m₂ ↦ running (show_registers m₂) | halted m₂ ↦ halted m₂ ],
        ))
    ]

-- `while (1)`, for at most so many rounds.
unfoldable pub main_loop : ℕ → (tmp : Option ℤ) → Machine → Run Machine
main_loop zero tmp m = out_of_fuel
main_loop (suc rounds) tmp m = do
  (tmp', status) ← round tmp m
  elim status [ running m' ↦ main_loop rounds tmp' m' | halted m' ↦ ok m' ]
