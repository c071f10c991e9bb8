-- ===== src/Cpu/Dual/Alike.antt =====
-- The functions of the two processors against those of the one of Mission4-2.c, on an input whose
-- numbers are spaced: the `getchar()` behind each `scanf` then drops no more than a space.
use today_i_learned.Cpu.Single
use today_i_learned.Common.{
  ◌≡◌, refl, ◌∙◌, arith, ℕ, sym, ap, Bool, true, false, Option, none, some, List, ◌∷◌,
  if◌then◌else◌,
}
use today_i_learned.Cpu.Dual.{
  Machine, Status, running, halted, instruction_fetch1, add1, substract1, store1, load1,
  branch_always1, branch_if_01, branch_if_greater_than_01, input1, output1, dispatch1, execution1,
  instruction_fetch2, execution2, transfer1,
}
use today_i_learned.Cpu.Dual.Mirror.{mirror, mirror_status, execution2-mirror}
use today_i_learned.Common.Int.{ℤ, pos, eqb_ℤ, quot_ℕ}
use today_i_learned.Common.Run.{Run, ok, exit, fault, out_of_fuel, ◌>>=◌, map_run, checked, Ends}
use mathlib.Core.Path.{ap, sym}
use today_i_learned.Cpu.Single.{prompt}
use today_i_learned.Cpu.Input.{
  idle, scanf_int, getchar, numbers, is_spaced, Reads, scan_number-numbers, scan_number,
}

-- The machine of Mission4-2.c with the registers of the first, or of the second processor, and
-- the numbers that its `scanf` reads from the text.
abbrev pub single1 : Machine → Single.Machine
single1 m = record {
  ac = m.ac;
  mar = m.cpu1.mar;
  mbr = m.cpu1.mbr;
  ir = m.cpu1.ir;
  memory = m.memory;
  pc = m.pc;
  clock = m.clock;
  byte = m.byte;
  stdin = numbers idle m.stdin;
  stdout = m.stdout;
}

abbrev pub single2 : Machine → Single.Machine
single2 m = single1 (mirror m)

abbrev pub status1 : Status → Single.Status
status1 (running m) = Single.running (single1 m)
status1 (halted m) = Single.halted (single1 m)

abbrev pub status2 : Status → Single.Status
status2 (running m) = Single.running (single2 m)
status2 (halted m) = Single.halted (single2 m)

pub fetch1-single :
    (m : Machine) → map_run single1 (instruction_fetch1 m) ≡ Single.instruction_fetch (single1 m)
unfolding instruction_fetch1 Single.instruction_fetch
fetch1-single m = ground arith

-- A fetch overwrites all three registers, whichever they were.
pub fetch2-single :
    (m : Machine) → map_run single2 (instruction_fetch2 m) ≡ Single.instruction_fetch (single1 m)
unfolding instruction_fetch2 Single.instruction_fetch
fetch2-single m = ground arith

pub fetch1-stdin : (m m' : Machine) → instruction_fetch1 m ≡ ok m' → m'.stdin ≡ m.stdin
unfolding instruction_fetch1
fetch1-stdin m m' e = ground arith

pub fetch2-stdin : (m m' : Machine) → instruction_fetch2 m ≡ ok m' → m'.stdin ≡ m.stdin
unfolding instruction_fetch2
fetch2-stdin m m' e = ground arith

-- A machine whose input is spaced, as the other one `s` sees it.
abbrev pub Seen : Single.Machine → Machine → Type 0
Seen s m = (single1 m ≡ s) × (is_spaced idle m.stdin ≡ true)

input1-Seen :
    (m : Machine)
    → is_spaced idle m.stdin ≡ true
    → Ends (Seen (Single.input (single1 m))) (input1 m)
unfolding input1 scanf_int Single.input
input1-Seen m e =
    let (h, k) = scan_number-numbers idle m.stdin e in
    by_scan (scan_number idle m.stdin) (numbers idle m.stdin) h k
  where
    reading : ℤ → List ℤ → Single.Machine
    reading ac ns = record (single1 m) { ac = ac; stdin = ns; stdout = prompt ∷ m.stdout }

    by_scan :
        (s : Option ℤ × List ℕ) (ns : List ℤ)
        → Reads ns s
        → is_spaced idle (getchar (s.1)) ≡ true
        → Ends (Seen (Single.input (record (single1 m) { stdin = ns }))) (
            (elim s.0 as (λ _. Run (ℤ × List ℕ)) [
              | some z ↦ (do z' ← checked z; ok (z', s.1))
              | none ↦ ok (m.ac, s.1)
            ])
            >>= λ (ac, rest).
                ok (record m { ac = ac; stdin = getchar rest; stdout = prompt ∷ m.stdout }))
    by_scan (none, rest) ns (f, g) k = (
      _,
      refl,
      (ap (reading m.ac) g ∙ ap (λ t. Single.input (record (single1 m) { stdin = t })) (sym f), k),
    )
    by_scan (some z, rest) ns (f, g) k =
        rw g (_, refl, (ap (λ t. Single.input (record (single1 m) { stdin = t })) (sym f), k))

-- What `Single.execution` does before its `switch`.
abbrev transferred : Single.Machine → Single.Machine
transferred s =
    if eqb_ℤ s.ir (pos 901)
    then Single.input s
    else if eqb_ℤ s.ir (pos 902)
    then Single.output s
    else s

transfer1-Seen :
    (m : Machine)
    → is_spaced idle m.stdin ≡ true
    → Ends (Seen (transferred (single1 m))) (transfer1 m)
unfolding transfer1 output1 Single.output
transfer1-Seen m e =
    by_tests (eqb_ℤ m.cpu1.ir (pos 901)) (eqb_ℤ m.cpu1.ir (pos 902)) (input1-Seen m e)
  where
    by_tests :
        (reads writes : Bool)
        → Ends (Seen (Single.input (single1 m))) (input1 m)
        → Ends
            (Seen (
              if reads
              then Single.input (single1 m)
              else if writes
              then Single.output (single1 m)
              else single1 m))
            (if reads then input1 m else if writes then ok (output1 m) else ok m)
    by_tests true writes h = h
    by_tests false true h = (_, refl, (refl, e))
    by_tests false false h = (_, refl, (refl, e))

dispatch1-single :
    (opcode : ℤ) (m : Machine)
    → map_run status1 (dispatch1 opcode m) ≡ Single.dispatch opcode (single1 m)
unfolding dispatch1 add1 substract1 store1 load1 branch_always1 branch_if_01
    branch_if_greater_than_01 Single.dispatch Single.add Single.substract Single.store Single.load
    Single.branch_always Single.branch_if_0 Single.branch_if_greater_than_0
dispatch1-single opcode m = ground arith

dispatch1-stdin :
    (opcode : ℤ) (m m' : Machine) → dispatch1 opcode m ≡ ok (running m') → m'.stdin ≡ m.stdin
unfolding dispatch1 add1 substract1 store1 load1 branch_always1 branch_if_01
    branch_if_greater_than_01
dispatch1-stdin opcode m m' e = ground arith

-- On spaced input the first processor executes what the one processor of Mission4-2.c does.
pub execution1-single :
    (m : Machine)
    → is_spaced idle m.stdin ≡ true
    → map_run status1 (execution1 m) ≡ Single.execution (single1 m)
unfolding execution1 Single.execution
execution1-single m e =
    let (m', f, (g, h)) = transfer1-Seen m e in
    rw f (dispatch1-single _ m' ∙ ap (Single.dispatch (quot_ℕ m.cpu1.ir 100)) g)

-- The input stays spaced.
pub execution1-is_spaced :
    (m m' : Machine)
    → is_spaced idle m.stdin ≡ true
    → execution1 m ≡ ok (running m')
    → is_spaced idle m'.stdin ≡ true
unfolding execution1
execution1-is_spaced m m' e r =
    let (m₁, f, (g, h)) = transfer1-Seen m e in
    rw
      (dispatch1-stdin (quot_ℕ m.cpu1.ir 100) m₁ m'
        (ap (λ t. t >>= dispatch1 (quot_ℕ m.cpu1.ir 100)) (sym f) ∙ r))
      h

pub execution2-single :
    (m : Machine)
    → is_spaced idle m.stdin ≡ true
    → map_run status2 (execution2 m) ≡ Single.execution (single2 m)
execution2-single m e =
    rw execution2-mirror (map-mirror (execution1 (mirror m)) ∙ execution1-single (mirror m) e)
  where
    map-mirror : (r : Run Status) → map_run status2 (map_run mirror_status r) ≡ map_run status1 r
    map-mirror (ok (running m)) = refl
    map-mirror (ok (halted m)) = refl
    map-mirror (exit c) = refl
    map-mirror fault = refl
    map-mirror out_of_fuel = refl
