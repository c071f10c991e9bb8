-- ===== src/Searching/Tests.antt =====
-- The search on the array of the program.
use today_i_learned.Common.{zero, suc, ℕ, ◌<◌, ◌≡◌, refl, true, List, [], ◌∷◌, arith}
use today_i_learned.Searching.{narrow, search_loop, bsearch}
use today_i_learned.Sorting.Array.{at, IsSortedTo}
use today_i_learned.Common.Int.{ℤ, pos, negsuc, sub_ℕ, ◌+ℤ◌, ◌-ℤ◌, ltb_ℤ}
use today_i_learned.Common.Run.{ok, Ends}
use today_i_learned.Searching.Bisect.{IsFound, bsearch-IsFound}

abbrev three : List ℤ
three = pos 1 ∷ pos 3 ∷ pos 5 ∷ []

finds_three : bsearch three (pos 0) (pos 3) (pos 3) ≡ ok (pos 1)
unfolding bsearch search_loop narrow ◌+ℤ◌ ◌-ℤ◌
finds_three = refl

misses_four : bsearch three (pos 0) (pos 3) (pos 4) ≡ ok (negsuc 0)
unfolding bsearch search_loop narrow ◌+ℤ◌ ◌-ℤ◌
misses_four = refl

three-IsSortedTo : IsSortedTo 3 three
unfolding at
three-IsSortedTo zero zero h b = omega arith
three-IsSortedTo zero (suc zero) h b = omega arith
three-IsSortedTo zero (suc (suc zero)) h b = omega arith
three-IsSortedTo (suc zero) zero h b = absurd (omega arith)
three-IsSortedTo (suc zero) (suc zero) h b = omega arith
three-IsSortedTo (suc zero) (suc (suc zero)) h b = omega arith
three-IsSortedTo (suc (suc p)) zero h b = absurd (omega arith)
three-IsSortedTo (suc (suc p)) (suc zero) h b = absurd (omega arith)
three-IsSortedTo (suc (suc zero)) (suc (suc zero)) h b = omega arith
three-IsSortedTo (suc (suc (suc p))) (suc (suc zero)) h b = absurd (omega arith)
three-IsSortedTo p (suc (suc (suc q))) h b = absurd (omega arith)

bsearch-IsFound_example : Ends (IsFound three (pos 3)) (bsearch three (pos 0) (sub_ℕ 3 1) (pos 3))
bsearch-IsFound_example = bsearch-IsFound three (pos 3) (omega arith) three-IsSortedTo

three_less : (i : ℕ) → i < 3 → ltb_ℤ (at three i) (pos 9) ≡ true
unfolding at
three_less zero h = refl
three_less (suc zero) h = refl
three_less (suc (suc zero)) h = refl
three_less (suc (suc (suc i))) h = absurd (omega arith)
