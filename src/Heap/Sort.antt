-- ===== src/Heap/Sort.antt =====
-- C++/Datastruct/Sorting/HeapSort/HeapSort.c, over the heap of its folder, whose elements are `int`s.
use today_i_learned.Common.{
  Bool, ◌&&◌, zero, suc, ℕ, suc, ◌+◌, ◌≤◌, ◌<◌, ◌≡◌, refl, ◌∙◌, inr, true, List, arith, length, set,
  length-set,
}
use today_i_learned.Heap.{Heap, heap_init, h_insert, h_delete}
use today_i_learned.Sorting.Between.{
  count_between, count_between-set_out, count_between-at, count_between-count, count_between-zero,
  count_between-first,
}
use today_i_learned.Sorting.Array.{at, read-at, write-set, at-set, one, count, IsSortedTo, IsSortOf}
use today_i_learned.Heap.Insert.{h_insert-IsHeap}
use today_i_learned.Heap.Delete.{Deleted, h_delete-IsHeap}
use today_i_learned.Heap.Order.{Ranks, IsHeap, occurs}
use today_i_learned.Common.Int.{ℤ, pos, pos_part, neg_part, sub_ℕ, ◌-ℤ◌, ◌≤ℤ◌, in_int, leb_ℤ, ◌+ℤ◌}
use today_i_learned.Common.Run.{Run, checked, ok, ◌>>=◌, read, write, Ends, Ends-bind}
use native.Mathlib.Numerals.{add-one}

-- The order that HeapSort.c gives its heap: the smaller value comes first.
unfoldable pub compare_small : ℤ → ℤ → Run ℤ
compare_small d1 d2 = checked (d2 -ℤ d1)

-- `for (i = 0; i < n; i++) HInsert(&heap, arr[i]);` with the rounds that are left.
unfoldable pub insert_all : (left i : ℕ) → List ℤ → Heap → Run Heap
insert_all zero i arr heap = ok heap
insert_all (suc left) i arr heap = do
  x ← read arr (pos i)
  heap' ← h_insert heap x
  insert_all left (i + 1) arr heap'

-- `for (i = 0; i < n; i++) arr[i] = HDelete(&heap);`
unfoldable pub delete_all : (left i : ℕ) → List ℤ → Heap → Run (List ℤ)
delete_all zero i arr heap = ok arr
delete_all (suc left) i arr heap = do
  (x, heap') ← h_delete heap
  arr' ← write arr (pos i) x
  delete_all left (i + 1) arr' heap'

-- `garbage` is what the array of the heap holds at first.
unfoldable pub heap_sort : (garbage : List ℤ) → List ℤ → ℕ → Run (List ℤ)
heap_sort garbage arr n = do
  heap ← insert_all n 0 arr (heap_init garbage compare_small)
  delete_all n 0 arr heap

abbrev pub negate : ℤ → ℤ
negate z = sub_ℕ (neg_part z) (pos_part z)

-- The values from `low` on whose differences fit an `int`.
abbrev pub in_window : (low : ℤ) → ℤ → Bool
in_window low z = leb_ℤ low z && leb_ℤ z (low +ℤ pos 2147483647)

window-in_int :
    (low a b : ℤ) → in_window low a ≡ true → in_window low b ≡ true → in_int (b -ℤ a) ≡ true
unfolding ◌-ℤ◌ ◌+ℤ◌
window-in_int low a b h k = ground arith

pub compare_small-Ranks : (low : ℤ) → Ranks (in_window low) negate compare_small
unfolding compare_small ◌-ℤ◌
compare_small-Ranks low a b h k =
    (b -ℤ a, rw (window-in_int low a b h k) refl, ground arith, ground arith)

unnegate : (a b : ℤ) → negate a ≤ℤ negate b → b ≤ℤ a
unnegate a b h = ground arith

insert_all_lem :
    (low : ℤ) (left i : ℕ) (arr : List ℤ) (heap : Heap)
    → i + left ≡ length arr
    → length arr ≤ 99
    → ((c : ℕ) → c < length arr → in_window low (at arr c) ≡ true)
    → IsHeap (in_window low) negate i heap
    → ((y : ℤ) → occurs i y heap ≡ count_between y arr 0 i)
    → Ends
        (λ h.
          IsHeap (in_window low) negate (length arr) h
          × ((y : ℤ) → occurs (length arr) y h ≡ count_between y arr 0 (length arr)))
        (insert_all left i arr heap)
unfolding insert_all
insert_all_lem low zero i arr heap e small ranged v c =
    let e' : i ≡ length arr = omega arith in rw (← e') (heap, refl, (v, c))
insert_all_lem low (suc left) i arr heap e small ranged v c =
    let hi : i < length arr = omega arith in
    rw (read-at arr i hi) (
      Ends-bind _ _ _ _
        (h_insert-IsHeap (in_window low) negate i (at arr i) heap v (omega arith) (ranged i hi))
        λ h r. rw add-one (
          insert_all_lem low left (suc i) arr h (omega arith) small ranged r.0
            λ y. omega (arith, r.1 y, c y, count_between-first y arr i)))

-- While the heap is emptied into `b`: the first `i` elements are in order and no greater than any
-- value in the heap, and they and the heap's are those of `start`.
record IsEmptying (low : ℤ) (start : List ℤ) (i m : ℕ) (b : List ℤ) (heap : Heap) : Type 0 where
  heaped : IsHeap (in_window low) negate m heap
  total : i + m ≡ length start
  size : length b ≡ length start
  sorted : IsSortedTo i b
  ahead : (p : ℕ) (y : ℤ) → p < i → 0 < occurs m y heap → at b p ≤ℤ y
  same : (y : ℤ) → count_between y b 0 i + occurs m y heap ≡ count y start

delete_step :
    (low : ℤ) (start : List ℤ) (i m : ℕ) (b : List ℤ) (heap heap' : Heap) (x : ℤ)
    → IsEmptying low start i (suc m) b heap
    → Deleted (in_window low) negate m heap (x, heap')
    → IsEmptying low start (suc i) m (set b i x) heap'
unfolding count_between
delete_step low start i m b heap heap' x v (h, taken, greatest) =
    let hi : i < length b = omega (arith, v.total, v.size) in
    let at' = λ (c : ℕ). at-set b i c x hi in
    let present : 0 < occurs (suc m) x heap = omega (arith, taken x, once) in
    record {
      heaped = h;
      total = omega (arith, v.total);
      size = length-set b i x ∙ v.size;
      sorted = λ p q pq hq. ground (arith, at' p, at' q, v.sorted p q, v.ahead p x);
      ahead = λ p y hp some_left.
          let before : 0 < occurs (suc m) y heap = omega (arith, taken y) in
          ground (arith, at' p, v.ahead p y, least y before);
      same = λ y.
          let here : at (set b i x) (0 + i) ≡ x = ground (arith, at' (0 + i)) in
          rw (here, count_between-set_out b i x y 0 i hi (inr (omega arith)))
            (omega (arith, v.same y, taken y));
    }
  where
    once : one x x ≡ 1
    once = ground arith

    least : (y : ℤ) → 0 < occurs (suc m) y heap → x ≤ℤ y
    least y some_left =
        let (c, lc, ck, e) = count_between-at y heap.heap_arr 1 (suc m) some_left in
        unnegate y x (rw e at (greatest c lc (omega arith)))

delete_all_lem :
    (low : ℤ) (start : List ℤ) (left i : ℕ) (b : List ℤ) (heap : Heap)
    → length start ≤ 99
    → IsEmptying low start i left b heap
    → Ends (IsSortOf start) (delete_all left i b heap)
unfolding delete_all
delete_all_lem low start zero i b heap small v =
    let e : i ≡ length b = omega (arith, v.total, v.size) in
    (
      b,
      refl,
      record {
        size = v.size;
        sorted = rw e at v.sorted;
        same = λ y.
            let all : count_between y b 0 i ≡ count y b = rw e (count_between-count y b) in
            omega (arith, all, v.same y, count_between-zero y heap.heap_arr 1);
      },
    )
delete_all_lem low start (suc m) i b heap small v =
    Ends-bind _ _ _ _
      (h_delete-IsHeap (in_window low) negate m heap v.heaped (omega (arith, v.total)))
      λ (x, heap') r.
        rw (write-set b i x (omega (arith, v.total, v.size)), add-one)
          (delete_all_lem low start m (suc i) (set b i x) heap' small
            (delete_step low start i m b heap heap' x v r))

-- `HeapSort` sorts an array of at most 99 elements that lie within 2^31 - 1 of each other, so that
-- the comparison does not overflow: it returns, with the same elements in ascending order.
pub heap_sort-IsSortOf :
    (low : ℤ) (garbage arr : List ℤ)
    → length garbage ≡ 100
    → length arr ≤ 99
    → ((c : ℕ) → c < length arr → in_window low (at arr c) ≡ true)
    → Ends (IsSortOf arr) (heap_sort garbage arr (length arr))
unfolding heap_sort heap_init
heap_sort-IsSortOf low garbage arr size small ranged =
    Ends-bind _ _ _ _
      (insert_all_lem low (length arr) 0 arr (heap_init garbage compare_small) (omega arith) small
        ranged empty none)
      λ h r. delete_all_lem low arr (length arr) 0 arr h small (record {
        heaped = r.0;
        total = omega arith;
        size = refl;
        sorted = λ p q pq hq. absurd (omega arith);
        ahead = λ p y hp some_left. absurd (omega arith);
        same = λ y. omega (arith, r.1 y, count_between-zero y arr 0, count_between-count y arr);
      })
  where
    empty : IsHeap (in_window low) negate 0 (heap_init garbage compare_small)
    empty = record {
      ranks = compare_small-Ranks low;
      counted = refl;
      cells = size;
      ordered = λ c p q. absurd (omega arith);
      ranged = λ c p q. absurd (omega arith);
    }

    none : (y : ℤ) → occurs 0 y (heap_init garbage compare_small) ≡ count_between y arr 0 0
    none y = omega (arith, count_between-zero y garbage 1, count_between-zero y arr 0)
