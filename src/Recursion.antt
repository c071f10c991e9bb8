-- ===== src/Recursion.antt =====
-- C++/Datastruct/Recursion/hanoi_tower.c: the moves that solve the tower of Hanoi.
pub mod Legal
mod Tests
use today_i_learned.Common.{ℕ, zero, suc, ◌==◌, if◌then◌else◌, List, [], ◌∷◌, ◌++◌}
use today_i_learned.Common.Run.{Run, ok, out_of_fuel, ◌>>=◌}

-- A line that the program prints: a disc and the two pegs, by their characters.
pub record Move : Type 0 where
  pub disc : ℕ
  pub source : ℕ
  pub target : ℕ

-- The printed lines, in order. The recursion meets its base at 1: from 0 it never ends.
unfoldable pub hanoi : ℕ → (from by to : ℕ) → Run (List Move)
hanoi zero from by to = out_of_fuel
hanoi (suc n) from by to =
    let rest : Run (List Move) = do
      first ← hanoi n from to by
      second ← hanoi n by from to
      ok (first ++ record { disc = suc n; source = from; target = to } ∷ second)
    in if n == 0 then ok (record { disc = 1; source = from; target = to } ∷ []) else rest
