-- ===== src/Searching.antt =====
-- C++/Datastruct/BinarySearch/Binary_Search.c: the search in a sorted array of `int`.
pub mod Bisect
mod Tests
use today_i_learned.Common.{ℕ, zero, suc, ◌+◌, List, if◌then◌else◌}
use today_i_learned.Common.Int.{ℤ, pos, negsuc, pos_part, ◌+ℤ◌, ◌-ℤ◌, quot, ltb_ℤ, leb_ℤ, eqb_ℤ}
use today_i_learned.Common.Run.{Run, ok, out_of_fuel, ◌>>=◌, checked, read}

-- The two tests that move a bound.
unfoldable pub narrow : (first last mid v target : ℤ) → Run (ℤ × ℤ)
narrow first last mid v target =
    if ltb_ℤ v target
    then (do first' ← checked (mid +ℤ pos 1); ok (first', last))
    else if ltb_ℤ target v
    then (do last' ← checked (mid -ℤ pos 1); ok (first, last'))
    else ok (first, last)

-- `while (first <= last)`, on fuel.
unfoldable pub search_loop : ℕ → List ℤ → (first last target : ℤ) → Run ℤ
search_loop zero x first last target = out_of_fuel
search_loop (suc k) x first last target =
    let round : Run ℤ = do
      sum ← checked (first +ℤ last)
      let mid = quot sum (pos 2)
      v ← read x mid
      let further = (do
        (first', last') ← narrow first last mid v target
        search_loop k x first' last' target)
      if eqb_ℤ v target then ok mid else further
    in if leb_ℤ first last then round else ok (negsuc 0)

-- Each round takes an index off the range: the fuel is its size and the last test.
unfoldable pub bsearch : List ℤ → (first last target : ℤ) → Run ℤ
bsearch x first last target = search_loop (pos_part (last -ℤ first) + 2) x first last target
