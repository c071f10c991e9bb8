-- ===== src/Sorting/Merge.antt =====
-- MergeSort.c. An index is a number, so that the last index of an empty array has no model.
pub mod Area
pub mod Loops
pub mod Copies
pub mod Join
pub mod Result
use today_i_learned.Common.{ℕ, zero, suc, ◌+◌, ◌-◌, ◌/◌, leb, ltb, ◌&&◌, if◌then◌else◌, List}
use today_i_learned.Common.Int.{ℤ, pos, leb_ℤ}
use today_i_learned.Common.Run.{Run, ok, out_of_fuel, ◌>>=◌, checked, read, write}

-- The variables of `MergeTwoArea`.
pub record Merging : Type 0 where
  pub f_idx : ℕ
  pub r_idx : ℕ
  pub s_idx : ℕ
  pub sort_arr : List ℤ

-- `while (fIdx <= mid && rIdx <= right)`, on fuel.
unfoldable pub merge_loop : ℕ → List ℤ → (mid right : ℕ) → Merging → Run Merging
merge_loop zero arr mid right m = out_of_fuel
merge_loop (suc k) arr mid right m =
    let round : Run Merging = do
      x ← read arr (pos m.f_idx)
      y ← read arr (pos m.r_idx)
      let first = leb_ℤ x y
      sort_arr ← write m.sort_arr (pos m.s_idx) (if first then x else y)
      merge_loop k arr mid right (record {
        f_idx = if first then m.f_idx + 1 else m.f_idx;
        r_idx = if first then m.r_idx else m.r_idx + 1;
        s_idx = m.s_idx + 1;
        sort_arr = sort_arr;
      })
    in if leb m.f_idx mid && leb m.r_idx right then round else ok m

-- `for (...; i++, sIdx++) to[sIdx] = from[i];`, with the rounds that are left.
unfoldable pub copy_loop : (left i s : ℕ) → (from to : List ℤ) → Run (List ℤ)
copy_loop zero i s from to = ok to
copy_loop (suc left) i s from to = do
  x ← read from (pos i)
  to' ← write to (pos s) x
  copy_loop left (i + 1) (s + 1) from to'

-- `fresh` is what `sortArr` holds at first.
unfoldable pub merge_two_area : (fresh arr : List ℤ) → (left mid right : ℕ) → Run (List ℤ)
merge_two_area fresh arr left mid right = do
  m ←
      merge_loop (right + 2) arr mid right
        (record { f_idx = left; r_idx = mid + 1; s_idx = left; sort_arr = fresh })
  let rest =
      (if ltb mid m.f_idx
        then copy_loop (right + 1 - m.r_idx) m.r_idx m.s_idx arr m.sort_arr
        else copy_loop (mid + 1 - m.f_idx) m.f_idx m.s_idx arr m.sort_arr)
  sort_arr ← rest
  copy_loop (right + 1 - left) left left sort_arr arr

-- On fuel. `fresh left right` is what `malloc` gives where the areas from `left` to `right` are
-- merged.
unfoldable pub merge_sort : ℕ → (fresh : ℕ → ℕ → List ℤ) → List ℤ → (left right : ℕ) → Run (List ℤ)
merge_sort zero fresh arr left right = out_of_fuel
merge_sort (suc k) fresh arr left right =
    let parts : Run (List ℤ) = do
      sum ← checked (pos (left + right))
      let mid = (left + right) / 2
      arr₁ ← merge_sort k fresh arr left mid
      arr₂ ← merge_sort k fresh arr₁ (mid + 1) right
      merge_two_area (fresh left right) arr₂ left mid right
    in if ltb left right then parts else ok arr
