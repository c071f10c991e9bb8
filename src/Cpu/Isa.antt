-- ===== src/Cpu/Isa.antt =====
-- The instruction table in the comment at the head of each emulator, as an abstract machine:
-- an instruction set, its three-digit codes, and what each instruction means.
use today_i_learned.Common.{ℕ, ◌+◌, ◌<◌, List, [], ◌∷◌, Option, none, some, if◌then◌else◌}
use today_i_learned.Common.Int.{ℤ, pos, ◌+ℤ◌, ◌-ℤ◌, leb_ℤ, eqb_ℤ}
use today_i_learned.Common.Run.{Run, ok, ◌>>=◌, checked, read, write}

pub data Instruction : Type 0 where
  halt input output : Instruction
  add subtract store_at load_from branch branch_zero branch_nonneg : ℕ → Instruction

-- The code of an instruction, as a program file holds it.
unfoldable pub encode : Instruction → ℤ
encode halt = pos 0
encode input = pos 901
encode output = pos 902
encode (add a) = pos (100 + a)
encode (subtract a) = pos (200 + a)
encode (store_at a) = pos (300 + a)
encode (load_from a) = pos (500 + a)
encode (branch a) = pos (600 + a)
encode (branch_zero a) = pos (700 + a)
encode (branch_nonneg a) = pos (800 + a)

-- Addresses have two digits; `halt` is written 000.
abbrev pub IsEncodable : Instruction → Type 0
IsEncodable halt = Unit
IsEncodable input = Unit
IsEncodable output = Unit
IsEncodable (add a) = a < 100
IsEncodable (subtract a) = a < 100
IsEncodable (store_at a) = a < 100
IsEncodable (load_from a) = a < 100
IsEncodable (branch a) = a < 100
IsEncodable (branch_zero a) = a < 100
IsEncodable (branch_nonneg a) = a < 100

-- What a program can tell of the machine: accumulator, counter, memory, input and printed values.
pub record View : Type 0 where
  pub ac : ℤ
  pub pc : ℤ
  pub memory : List ℤ
  pub stdin : List ℤ
  pub printed : List ℤ

-- `none` stands for the end of the program.
unfoldable pub meaning : Instruction → View → Run (Option View)
meaning halt s = ok none
meaning input s = elim s.stdin [
  | [] ↦ ok (some s)
  | n ∷ rest ↦ ok (some (record s { ac = n; stdin = rest }))
]
meaning output s = ok (some (record s { printed = s.ac ∷ s.printed }))
meaning (add a) s = do
  n ← read s.memory (pos a)
  sum ← checked (s.ac +ℤ n)
  ok (some (record s { ac = sum }))
meaning (subtract a) s = do
  n ← read s.memory (pos a)
  difference ← checked (s.ac -ℤ n)
  ok (some (record s { ac = difference }))
meaning (store_at a) s = do
  memory ← write s.memory (pos a) s.ac
  ok (some (record s { memory = memory }))
meaning (load_from a) s = do n ← read s.memory (pos a); ok (some (record s { ac = n }))
meaning (branch a) s = ok (some (record s { pc = pos a }))
meaning (branch_zero a) s = ok (some (if eqb_ℤ s.ac (pos 0) then record s { pc = pos a } else s))
meaning (branch_nonneg a) s = ok (some (if leb_ℤ (pos 0) s.ac then record s { pc = pos a } else s))
