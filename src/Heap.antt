-- ===== src/Heap.antt =====
-- C++/Datastruct/Heap/UsefulHeap/UsefulHeap.c and .h, and the same code in
-- C++/Datastruct/Sorting/HeapSort, where an element is an `int` and not a `char`: a heap over the
-- cells from 1 on of an array of 100, with the order given by a function, whose arithmetic may
-- overflow. The elements are kept as the integers that they stand for; the cells not yet written
-- hold anything. An index into the heap is a number here, and the element count an integer, since
-- `HDelete` on an empty heap makes it negative.
pub mod Order
pub mod Insert
pub mod Delete
pub mod Sort
mod Tests
use today_i_learned.Common.{
  ℕ, zero, suc, ◌+◌, ◌*◌, ◌/◌, Bool, true, false, List, ◌==◌, if◌then◌else◌,
}
use today_i_learned.Common.Int.{ℤ, pos, negsuc, ◌+ℤ◌, ◌-ℤ◌, ltb_ℤ, leb_ℤ, eqb_ℤ}
use today_i_learned.Common.Run.{Run, ok, fault, out_of_fuel, ◌>>=◌, read, write}

pub record Heap : Type 0 where
  pub comp : ℤ → ℤ → Run ℤ
  pub num_of_data : ℤ
  pub heap_arr : List ℤ

-- `garbage` is what the array holds before.
unfoldable pub heap_init : (garbage : List ℤ) → (ℤ → ℤ → Run ℤ) → Heap
heap_init garbage pc = record { comp = pc; num_of_data = pos 0; heap_arr = garbage }

unfoldable pub h_is_empty : Heap → Bool
h_is_empty ph = if ltb_ℤ (pos 0) ph.num_of_data then false else true

abbrev pub get_parent_idx : ℕ → ℕ
get_parent_idx idx = idx / 2

abbrev pub get_l_child_idx : ℕ → ℕ
get_l_child_idx idx = idx * 2

abbrev pub get_r_child_idx : ℕ → ℕ
get_r_child_idx idx = get_l_child_idx idx + 1

-- 0 stands for no child.
unfoldable pub get_hi_pri_child_idx : Heap → ℕ → Run ℕ
get_hi_pri_child_idx ph idx =
    if ltb_ℤ ph.num_of_data (pos (get_l_child_idx idx))
    then ok 0
    else if eqb_ℤ (pos (get_l_child_idx idx)) ph.num_of_data
    then ok (get_l_child_idx idx)
    else do
      l ← read ph.heap_arr (pos (get_l_child_idx idx))
      r ← read ph.heap_arr (pos (get_r_child_idx idx))
      c ← ph.comp l r
      ok (if ltb_ℤ c (pos 0) then get_r_child_idx idx else get_l_child_idx idx)

-- The `while` of `HInsert`, on fuel: it gives the cell for the new element.
unfoldable pub sift_up : ℕ → (x : ℤ) → Heap → ℕ → Run (ℕ × Heap)
sift_up zero x ph idx = out_of_fuel
sift_up (suc k) x ph idx =
    let up : Run (ℕ × Heap) = do
      p ← read ph.heap_arr (pos (get_parent_idx idx))
      let further = (do
        arr ← write ph.heap_arr (pos idx) p
        sift_up k x (record ph { heap_arr = arr }) (get_parent_idx idx))
      c ← ph.comp x p
      if ltb_ℤ (pos 0) c then further else ok (idx, ph)
    in if idx == 1 then ok (idx, ph) else up

-- From a negative index every way ends in an access outside of the array.
unfoldable pub h_insert : Heap → ℤ → Run Heap
h_insert ph x = elim (ph.num_of_data +ℤ pos 1) [
  | negsuc n ↦ fault
  | pos idx ↦ do
    (idx', ph') ← sift_up (suc idx) x ph idx
    arr ← write ph'.heap_arr (pos idx') x
    ok (record ph' { heap_arr = arr; num_of_data = ph'.num_of_data +ℤ pos 1 })
]

-- The `while` of `HDelete`: the variable `i` counts down from 10.
unfoldable pub sift_down : (i : ℕ) → (last_elem : ℤ) → Heap → (parent_idx : ℕ) → Run (ℕ × Heap)
sift_down zero last ph parent = ok (parent, ph)
sift_down (suc i) last ph parent = do
  child ← get_hi_pri_child_idx ph parent
  let step : Run (ℕ × Heap) = do
    c ← read ph.heap_arr (pos child)
    let further = (do
      arr ← write ph.heap_arr (pos parent) c
      sift_down i last (record ph { heap_arr = arr }) child)
    order ← ph.comp last c
    if leb_ℤ (pos 0) order then ok (parent, ph) else further
  if child == 0 then ok (parent, ph) else step

unfoldable pub h_delete : Heap → Run (ℤ × Heap)
h_delete ph = do
  ret ← read ph.heap_arr (pos 1)
  last ← read ph.heap_arr ph.num_of_data
  (parent, ph') ← sift_down 10 last ph 1
  arr ← write ph'.heap_arr (pos parent) last
  ok (ret, record ph' { heap_arr = arr; num_of_data = ph'.num_of_data -ℤ pos 1 })
