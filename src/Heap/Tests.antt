-- ===== src/Heap/Tests.antt =====
-- Runs of the heap and of the heap sort, and their theorems at concrete heaps.
use today_i_learned.Common.{
  ℕ, suc, ◌≡◌, ◌≤◌, ◌<◌, refl, true, List, [], ◌∷◌, arith, length, replicate, zero,
}
use today_i_learned.Heap.{
  Heap, h_insert, h_delete, heap_init, get_hi_pri_child_idx, sift_up, sift_down,
}
use today_i_learned.Heap.Sort.{
  in_window, negate, compare_small, compare_small-Ranks, heap_sort, heap_sort-IsSortOf, insert_all,
  delete_all,
}
use today_i_learned.Sorting.Array.{at, IsSortOf}
use today_i_learned.Common.Int.{◌-ℤ◌, ◌+ℤ◌, ℤ, pos, negsuc, ◌-ℤ◌}
use today_i_learned.Common.Run.{ok, Ends}
use today_i_learned.Heap.Delete.{Deleted, h_delete-IsHeap}
use today_i_learned.Heap.Order.{IsHeap}

abbrev cells_of_two : List ℤ
cells_of_two = pos 0 ∷ pos 2 ∷ pos 5 ∷ replicate 97 (pos 7)

abbrev two : Heap
two = record { comp = compare_small; num_of_data = pos 2; heap_arr = cells_of_two }

abbrev values : List ℤ
values = pos 3 ∷ negsuc 4 ∷ pos 1000 ∷ pos 3 ∷ pos 0 ∷ []

heap_sort-values :
    heap_sort (replicate 100 (pos 7)) values 5
    ≡ ok (negsuc 4 ∷ pos 0 ∷ pos 3 ∷ pos 3 ∷ pos 1000 ∷ [])
unfolding heap_sort insert_all delete_all heap_init h_insert h_delete sift_up sift_down
    get_hi_pri_child_idx compare_small ◌-ℤ◌ ◌+ℤ◌
heap_sort-values = refl

two_ranged : (c : ℕ) → 1 ≤ c → c ≤ 2 → in_window (pos 0) (at cells_of_two c) ≡ true
unfolding at ◌+ℤ◌
two_ranged zero p q = absurd (omega arith)
two_ranged (suc zero) p q = refl
two_ranged (suc (suc zero)) p q = refl
two_ranged (suc (suc (suc c))) p q = absurd (omega arith)

two-IsHeap : IsHeap (in_window (pos 0)) negate 2 two
unfolding at
two-IsHeap = record {
  ranks = compare_small-Ranks (pos 0);
  counted = refl;
  cells = refl;
  ordered = λ c p q. let e : c ≡ 2 = omega arith in rw e (omega arith);
  ranged = two_ranged;
}

h_delete-IsHeap_example : Ends (Deleted (in_window (pos 0)) negate 1 two) (h_delete two)
h_delete-IsHeap_example = h_delete-IsHeap (in_window (pos 0)) negate 1 two two-IsHeap (omega arith)

values_fit : (c : ℕ) → c < length values → in_window (negsuc 4) (at values c) ≡ true
unfolding at ◌+ℤ◌
values_fit zero h = refl
values_fit (suc zero) h = refl
values_fit (suc (suc zero)) h = refl
values_fit (suc (suc (suc zero))) h = refl
values_fit (suc (suc (suc (suc zero)))) h = refl
values_fit (suc (suc (suc (suc (suc c))))) h = absurd (omega arith)

heap_sort-IsSortOf_example : Ends (IsSortOf values) (heap_sort (replicate 100 (pos 7)) values 5)
heap_sort-IsSortOf_example =
    heap_sort-IsSortOf (negsuc 4) (replicate 100 (pos 7)) values refl (omega arith) values_fit
