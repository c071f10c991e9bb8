-- ===== src/Cpu.antt =====
-- The SJU-CPU emulators, C++/ComputerArchitecture/Mission4: one processor that reads a program
-- file (Single), and two processors that share a memory and an accumulator (Dual).
pub mod Isa
pub mod Input
pub mod Single
pub mod Dual
pub mod Direct
mod Tests
