-- ===== src/Recursion/Tests.antt =====
-- Concrete towers.
use today_i_learned.Common.{ℕ, ◌+◌, ◌≡◌, refl, [], ◌∷◌, arith, length}
use today_i_learned.Recursion.{Move, hanoi}
use today_i_learned.Recursion.Legal.{Solves, hanoi-Solves}
use today_i_learned.Common.Run.{ok, Ends}

abbrev line : ℕ → ℕ → ℕ → Move
line d p q = record { disc = d; source = p; target = q }

hanoi-two : hanoi 2 65 66 67 ≡ ok (line 1 65 66 ∷ line 2 65 67 ∷ line 1 66 67 ∷ [])
unfolding hanoi
hanoi-two = refl

hanoi-Solves_example : Ends (λ ms. Solves 3 65 66 67 ms × (length ms + 1 ≡ 8)) (hanoi 3 65 66 67)
hanoi-Solves_example = hanoi-Solves 2 65 66 67 (omega arith) (omega arith) (omega arith)
