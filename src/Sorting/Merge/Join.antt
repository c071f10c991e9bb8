-- ===== src/Sorting/Merge/Join.antt =====
-- `MergeTwoArea`.
use today_i_learned.Common.{
  ℕ, suc, ◌+◌, ◌-◌, ◌≤◌, ◌<◌, ◌≡◌, ◌⊎◌, ltb, List, arith, length, if◌then◌else◌, true, false,
}
use today_i_learned.Sorting.Array.{at}
use today_i_learned.Sorting.Between.{
  count_between, count_between-split, count_between_cong, count_between-zero,
}
use today_i_learned.Sorting.Merge.{Merging, copy_loop, merge_two_area}
use today_i_learned.Sorting.Merge.Area.{IsSortedIn, IsMerged}
use today_i_learned.Sorting.Merge.Loops.{IsState, IsHalfDone, merge_loop_lem}
use today_i_learned.Sorting.Merge.Copies.{
  IsDone, IsCopied, copy_loop-IsCopied, copy_first, copy_second,
}
use today_i_learned.Common.Int.{ℤ}
use today_i_learned.Common.Run.{Ends, Ends-bind}
use native.Mathlib.Decide.{dec_lt}

-- The part of `n` elements from `l` on is sorted, and the rest is as it was.
pub record IsAreaSorted (l n : ℕ) (arr arr' : List ℤ) : Type 0 where
  pub size : length arr' ≡ length arr
  pub outside : (c : ℕ) → (c < l) ⊎ (l + n ≤ c) → at arr' c ≡ at arr c
  pub sorted : IsSortedIn l n arr'
  pub same : (y : ℤ) → count_between y arr' l n ≡ count_between y arr l n

start-IsMerged :
    (l r e : ℕ) (arr fresh : List ℤ)
    → length fresh ≡ e
    → l ≤ r
    → r ≤ e
    → IsMerged l r e arr 0 0 fresh
start-IsMerged l r e arr fresh size order order' = record {
  size = size;
  first = omega arith;
  second = omega arith;
  sorted = λ p q lp pq qn. absurd (omega arith);
  ahead_first = λ p q lp pn. absurd (omega arith);
  ahead_second = λ p q lp pn. absurd (omega arith);
  same = λ y.
      omega (
        arith,
        count_between-zero y fresh l,
        count_between-zero y arr l,
        count_between-zero y arr r,
      );
}

copied_back :
    (l r e n : ℕ) (arr out arr' : List ℤ)
    → l + n ≡ e
    → IsDone l r e arr out
    → IsCopied l n out arr arr'
    → IsAreaSorted l n arr arr'
copied_back l r e n arr out arr' en (a, b, ea, eb, v) c =
    let whole : n ≡ a + b = omega arith in
    record {
      size = c.size;
      outside = c.outside;
      sorted = λ p q lp pq qn.
          rw (c.inside p lp (omega arith), c.inside q (omega arith) qn)
            (v.sorted p q lp pq (omega arith));
      same = λ y.
          let parts : count_between y arr l n ≡ count_between y arr l a + count_between y arr r b =
            rw (whole, ← ea) (count_between-split y arr l a b) in
          let out_all : count_between y out l n
              ≡ count_between y arr l a + count_between y arr r b =
            rw whole (v.same y) in
          omega (arith, count_between_cong y arr' out l n c.inside, parts, out_all);
    }

module _ (fresh arr : List ℤ) (l mid right : ℕ) (size : length fresh ≡ suc right)
    (within : suc right ≤ length arr) (order : l ≤ mid) (order' : mid < right)
    (s1 : IsSortedIn l (suc mid - l) arr)
    (s2 : IsSortedIn (suc mid) (suc right - suc mid) arr) where
  rest_lem :
      (m : Merging)
      → IsHalfDone l mid right arr m
      → Ends (IsDone l (suc mid) (suc right) arr) (
          if ltb mid m.f_idx
          then copy_loop (right + 1 - m.r_idx) m.r_idx m.s_idx arr m.sort_arr
          else copy_loop (mid + 1 - m.f_idx) m.f_idx m.s_idx arr m.sort_arr)
  rest_lem m (a, b, v, half) = elim (dec_lt mid m.f_idx) [
    | yes full ↦
        let test : ltb mid m.f_idx ≡ true = ground arith in
        rw test (
          copy_second l (suc mid) (suc right) arr within (omega arith) (omega arith)
            (right + 1 - m.r_idx) m.r_idx m.s_idx a b m.sort_arr s2 v.at_r v.at_s
            (omega (arith, v.at_r, v.merged.second)) (omega (arith, v.at_f, v.merged.first))
            v.merged)
    | no more ↦
        let test : ltb mid m.f_idx ≡ false = ground arith in
        rw test (
          copy_first l (suc mid) (suc right) arr within (omega arith) (omega arith)
            (mid + 1 - m.f_idx) m.f_idx m.s_idx a b m.sort_arr s1 v.at_f v.at_s
            (omega (arith, v.at_f)) (omega (arith, v.at_f, half)) v.merged)
  ]

  pub merge_two_area_lem :
      Ends (IsAreaSorted l (right + 1 - l) arr) (merge_two_area fresh arr l mid right)
  unfolding merge_two_area
  merge_two_area_lem =
      Ends-bind _ _ _ _
        (merge_loop_lem l mid right arr within order order' s1 s2 (right + 2) 0 0 _ start
          (omega arith))
        λ m half. Ends-bind _ _ _ _ (rest_lem m half) λ out done.
          let (a, b, ea, eb, v) = done in
          let (arr', e, c) =
            copy_loop-IsCopied (right + 1 - l) l out arr (omega (arith, v.size)) (omega arith) in
          (
            arr',
            e,
            copied_back l (suc mid) (suc right) (right + 1 - l) arr out arr' (omega arith) done c,
          )
    where
      start :
          IsState l mid right arr 0 0
            (record { f_idx = l; r_idx = mid + 1; s_idx = l; sort_arr = fresh })
      start = record {
        at_f = omega arith;
        at_r = omega arith;
        at_s = omega arith;
        merged = start-IsMerged l (suc mid) (suc right) arr fresh size (omega arith) (omega arith);
      }
