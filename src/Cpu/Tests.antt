-- ===== src/Cpu/Tests.antt =====
-- Runs of the emulators, and their theorems at concrete machines.
use today_i_learned.Cpu.Single
use today_i_learned.Cpu.Dual
use today_i_learned.Cpu.Direct
use today_i_learned.Cpu.Direct.Agree.{state, single_state, as_single, execution-single_state}
use today_i_learned.Cpu.Isa.{Instruction, encode, meaning}
use today_i_learned.Common.{◌-◌, ◌≡◌, refl, List, [], ◌∷◌, ◌++◌, arith, length, replicate, ℕ}
use today_i_learned.Cpu.Single.Refine.{view, view_status, execution-encode}
use today_i_learned.Common.Int.{ℤ, pos, ◌+ℤ◌, negsuc}
use today_i_learned.Common.Run.{ok, map_run}
use today_i_learned.Cpu.Input.{idle, scan_char, scanf_int, getchar, numbers, scan_number}

-- A memory that starts with the given words.
abbrev words : List ℤ → List ℤ
words program = program ++ replicate (100 - length program) (pos 0)

-- Reads two numbers and prints their sum.
abbrev program : List ℤ
program = pos 901 ∷ pos 320 ∷ pos 901 ∷ pos 120 ∷ pos 902 ∷ pos 0 ∷ []

abbrev loaded : Single.Machine
loaded = record (Single.initial (pos 30 ∷ pos 12 ∷ [])) { memory = words program }

printed : Single.Machine → List Single.Printed
printed m = m.stdout

sum_of_two :
    map_run printed (Single.main_loop 6 loaded)
    ≡ ok
        (Single.report (pos 0) (pos 6) ∷ Single.value (pos 42) ∷ Single.prompt ∷ Single.prompt ∷ [])
unfolding printed Single.main_loop Single.cycle Single.instruction_fetch Single.execution
    Single.dispatch Single.add Single.store Single.input Single.output ◌+ℤ◌
sum_of_two = refl

execution-encode_example :
    map_run view_status (Single.execution (record loaded { ir = pos 120 }))
    ≡ meaning (Instruction.add 20) (view (record loaded { ir = pos 120 }))
unfolding encode
execution-encode_example =
    execution-encode (Instruction.add 20) (record loaded { ir = pos 120 }) (omega arith) refl

-- After the first round: 30 is read into AC.
abbrev first : Single.Status
first = Single.running (record loaded {
  ac = pos 30;
  mbr = pos 901;
  ir = pos 901;
  pc = pos 1;
  clock = pos 1;
  stdin = pos 12 ∷ [];
  stdout = Single.prompt ∷ [];
})

first_round : Single.cycle loaded ≡ ok first
unfolding Single.cycle Single.instruction_fetch Single.execution Single.dispatch Single.input ◌+ℤ◌
first_round = refl

-- The text of two lines: 30 and -12.
abbrev lines : List ℕ
lines = 51 ∷ 48 ∷ 10 ∷ 45 ∷ 49 ∷ 50 ∷ 10 ∷ []

-- Without whitespace between them the two programs read different numbers.
abbrev joined : List ℕ
joined = 51 ∷ 48 ∷ 45 ∷ 49 ∷ 50 ∷ 10 ∷ []

lines-numbers : numbers idle lines ≡ pos 30 ∷ negsuc 11 ∷ []
unfolding numbers scan_char
lines-numbers = refl

joined_reads :
    (numbers idle joined ≡ pos 30 ∷ negsuc 11 ∷ [])
    × (scanf_int (pos 0) joined ≡ ok (pos 30, 45 ∷ 49 ∷ 50 ∷ 10 ∷ []))
    × (scanf_int (pos 30) (getchar (45 ∷ 49 ∷ 50 ∷ 10 ∷ [])) ≡ ok (pos 12, 10 ∷ []))
unfolding numbers scan_char scanf_int scan_number
joined_reads = (refl, refl, refl)

abbrev pair : Dual.Machine
pair = record {
  cpu1 = record { mar = pos 0; mbr = pos 0; ir = pos 120 };
  cpu2 = record { mar = pos 0; mbr = pos 0; ir = pos 902 };
  memory = words program;
  ac = pos 0;
  pc = pos 0;
  clock = pos 0;
  byte = pos 0;
  stdin = lines;
  stdout = [];
}

-- With an addition of the cell 99 in IR.
abbrev direct : Direct.Machine
direct = record (Direct.initial []) { ir = pos 199 }

execution-single_state_example :
    map_run state (Direct.execution direct)
    ≡ map_run single_state (Single.execution (as_single direct))
execution-single_state_example = execution-single_state direct refl
