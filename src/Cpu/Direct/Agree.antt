-- ===== src/Cpu/Direct/Agree.antt =====
-- What the emulator shares with the one of Mission4-2.c.
use today_i_learned.Cpu.Single
use today_i_learned.Common.{◌≡◌, true, arith, List, Bool, false}
use today_i_learned.Common.Int.{ℤ, pos, quot_ℕ, leb_ℤ}
use today_i_learned.Common.Run.{map_run}
use today_i_learned.Cpu.Direct.{
  Machine, Status, running, halted, add, substract, store, load, dispatch, execution,
}

-- The registers and the memory.
pub record State : Type 0 where
  pub ac : ℤ
  pub mar : ℤ
  pub mbr : ℤ
  pub ir : ℤ
  pub memory : List ℤ
  pub pc : ℤ
  pub ended : Bool

abbrev pub state : Status → State
state (running m) = record {
  ac = m.ac;
  mar = m.mar;
  mbr = m.mbr;
  ir = m.ir;
  memory = m.memory;
  pc = m.pc;
  ended = false;
}
state (halted m) = record {
  ac = m.ac;
  mar = m.mar;
  mbr = m.mbr;
  ir = m.ir;
  memory = m.memory;
  pc = m.pc;
  ended = true;
}

abbrev pub single_state : Single.Status → State
single_state (Single.running m) = record {
  ac = m.ac;
  mar = m.mar;
  mbr = m.mbr;
  ir = m.ir;
  memory = m.memory;
  pc = m.pc;
  ended = false;
}
single_state (Single.halted m) = record {
  ac = m.ac;
  mar = m.mar;
  mbr = m.mbr;
  ir = m.ir;
  memory = m.memory;
  pc = m.pc;
  ended = true;
}

-- The machine of Mission4-2.c in the same state.
abbrev pub as_single : Machine → Single.Machine
as_single m = record (Single.initial m.stdin) {
  ac = m.ac;
  mar = m.mar;
  mbr = m.mbr;
  ir = m.ir;
  memory = m.memory;
  pc = m.pc;
}

-- On an instruction with an opcode of at most 3 both emulators do the same to registers and memory,
-- fail alike and end alike.
pub execution-single_state :
    (m : Machine)
    → leb_ℤ (quot_ℕ m.ir 100) (pos 3) ≡ true
    → map_run state (execution m) ≡ map_run single_state (Single.execution (as_single m))
unfolding execution dispatch add substract store load Single.execution Single.dispatch Single.add
    Single.substract Single.store Single.load Single.branch_always Single.branch_if_0
    Single.branch_if_greater_than_0 Single.input Single.output
execution-single_state m h = ground arith
