-- ===== src/Sorting/Tests.antt =====
-- The sorts on a concrete array.
use today_i_learned.Common.{List, [], ◌∷◌, suc, arith, zero, ℕ, ◌≡◌, refl, length, replicate}
use today_i_learned.Common.Int.{◌-ℤ◌, ◌+ℤ◌}
use today_i_learned.Common.Run.{out_of_fuel}
use today_i_learned.Sorting.Quick.{
  quick_sort, quick_sort-hangs, partition, partition_loop, scan_up, scan_down, exchange,
}
use today_i_learned.Sorting.Merge.{merge_sort, merge_two_area, merge_loop, copy_loop}
use today_i_learned.Sorting.Merge.Result.{merge_sort-IsSortOf}
use today_i_learned.Common.{ap}
use today_i_learned.Sorting.Array.{IsSortOf, Holds, at}
use today_i_learned.Sorting.Compare.{IsHalf, compare_int, compare_int-IsExact}
use today_i_learned.Common.Int.{ℤ, pos, negsuc}
use today_i_learned.Common.Run.{Ends, ok}
use today_i_learned.Sorting.Exchange.{bubble_sort, bubble_sort-IsSortOf}
use today_i_learned.Sorting.Insertion.{insert_sort, insert_sort-IsSortOf}
use today_i_learned.Sorting.Selection.{selection_sort, selection_sort-IsSortOf}

abbrev values : List ℤ
values = pos 3 ∷ pos 2 ∷ negsuc 6 ∷ pos 3 ∷ []

values-IsHalf : Holds IsHalf values
unfolding at
values-IsHalf zero h = (omega arith, omega arith)
values-IsHalf (suc zero) h = (omega arith, omega arith)
values-IsHalf (suc (suc zero)) h = (omega arith, omega arith)
values-IsHalf (suc (suc (suc zero))) h = (omega arith, omega arith)
values-IsHalf (suc (suc (suc (suc i)))) h = absurd (omega arith)

bubble_sort-IsSortOf_example : Ends (IsSortOf values) (bubble_sort values 4 compare_int)
bubble_sort-IsSortOf_example =
    bubble_sort-IsSortOf IsHalf compare_int compare_int-IsExact values values-IsHalf

selection_sort-IsSortOf_example : Ends (IsSortOf values) (selection_sort values 4 compare_int)
selection_sort-IsSortOf_example =
    selection_sort-IsSortOf IsHalf compare_int compare_int-IsExact values values-IsHalf

insert_sort-IsSortOf_example : Ends (IsSortOf values) (insert_sort values 4 compare_int)
insert_sort-IsSortOf_example =
    insert_sort-IsSortOf IsHalf compare_int compare_int-IsExact values values-IsHalf

abbrev nines : ℕ → ℕ → List ℤ
nines left right = replicate (suc right) (pos 9)

length-nines : (left right : ℕ) → length (nines left right) ≡ suc right
length-nines left zero = refl
length-nines left (suc right) = ap suc (length-nines left right)

merge_sort-values : merge_sort 4 nines values 0 3 ≡ ok (negsuc 6 ∷ pos 2 ∷ pos 3 ∷ pos 3 ∷ [])
unfolding merge_sort merge_two_area merge_loop copy_loop
merge_sort-values = refl

merge_sort-IsSortOf_example : Ends (IsSortOf values) (merge_sort 4 nines values 0 3)
merge_sort-IsSortOf_example =
    merge_sort-IsSortOf nines length-nines (pos 3) (pos 2 ∷ negsuc 6 ∷ pos 3 ∷ []) (omega arith)

-- Two equal elements.
quick_sort-hangs_example : quick_sort 1000 (pos 2 ∷ pos 2 ∷ []) (pos 0) (pos 1) ≡ out_of_fuel
unfolding ◌+ℤ◌
quick_sort-hangs_example =
    quick_sort-hangs 1000 (pos 2 ∷ pos 2 ∷ []) (pos 0) (pos 1) (pos 1) (pos 2) refl refl refl refl
      refl refl

-- The largest element stands last, and none occurs twice.
quick_sort-three :
    quick_sort 4 (pos 2 ∷ pos 1 ∷ pos 3 ∷ []) (pos 0) (pos 2) ≡ ok (pos 1 ∷ pos 2 ∷ pos 3 ∷ [])
unfolding quick_sort partition partition_loop scan_up scan_down exchange ◌+ℤ◌ ◌-ℤ◌
quick_sort-three = refl
