-- ===== src/Sorting.antt =====
-- The sorting programs of C++/Datastruct/Sorting. An `int` array is the list of its elements, and
-- an index outside of it is undefined behaviour.
mod Tests
pub mod Array
pub mod Between
pub mod Compare
pub mod Progress
pub mod Exchange
pub mod Selection
pub mod Insertion
pub mod Merge
pub mod Quick
