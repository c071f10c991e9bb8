-- ===== src/Sorting/Merge/Loops.antt =====
-- The loops of `MergeTwoArea`.
use today_i_learned.Common.{
  ℕ, zero, suc, ◌+◌, ◌-◌, ◌≤◌, ◌<◌, ◌≡◌, ◌⊎◌, inl, inr, true, Bool-cases, leb, ◌&&◌, List, arith,
  length, refl, false, set,
}
use today_i_learned.Sorting.Array.{at, read-at, write-set}
use today_i_learned.Sorting.Merge.{Merging, merge_loop}
use today_i_learned.Sorting.Merge.Area.{IsSortedIn, IsMerged, take_first, take_second}
use today_i_learned.Common.Int.{ℤ, leb_ℤ}
use today_i_learned.Common.Run.{Ends}
use native.Mathlib.Decide.{dec_lt}

pub record IsState (l mid right : ℕ) (arr : List ℤ) (a b : ℕ) (m : Merging) : Type 0 where
  pub at_f : m.f_idx ≡ l + a
  pub at_r : m.r_idx ≡ suc mid + b
  pub at_s : m.s_idx ≡ l + (a + b)
  pub merged : IsMerged l (suc mid) (suc right) arr a b m.sort_arr

-- One of the areas is used up.
abbrev pub IsHalfDone : (l mid right : ℕ) → List ℤ → Merging → Type 0
IsHalfDone l mid right arr m =
    (a : ℕ) × (b : ℕ) × IsState l mid right arr a b m
    × ((l + a ≡ suc mid) ⊎ (suc mid + b ≡ suc right))

module _ (l mid right : ℕ) (arr : List ℤ) (within : suc right ≤ length arr) (order : l ≤ mid)
    (order' : mid < right) (s1 : IsSortedIn l (suc mid - l) arr)
    (s2 : IsSortedIn (suc mid) (suc right - suc mid) arr) where
  step_first :
      (a b : ℕ) (m : Merging)
      → IsState l mid right arr a b m
      → m.f_idx ≤ mid
      → m.r_idx ≤ right
      → leb_ℤ (at arr m.f_idx) (at arr m.r_idx) ≡ true
      → IsState l mid right arr (suc a) b (record {
        f_idx = m.f_idx + 1;
        r_idx = m.r_idx;
        s_idx = m.s_idx + 1;
        sort_arr = set m.sort_arr m.s_idx (at arr m.f_idx);
      })
  step_first a b m v f r test =
      let low : leb_ℤ (at arr (l + a)) (at arr (suc mid + b)) ≡ true =
        rw (v.at_f, v.at_r) at test in
      record {
        at_f = omega (arith, v.at_f);
        at_r = v.at_r;
        at_s = omega (arith, v.at_s);
        merged =
            rw (v.at_s, v.at_f)
              (take_first l (suc mid) (suc right) arr a b m.sort_arr v.merged s1
                (omega (arith, v.at_f)) (omega arith)
                (λ q rq qe. ground (arith, low, s2 (suc mid + b) q)));
      }

  step_second :
      (a b : ℕ) (m : Merging)
      → IsState l mid right arr a b m
      → m.f_idx ≤ mid
      → m.r_idx ≤ right
      → leb_ℤ (at arr m.f_idx) (at arr m.r_idx) ≡ false
      → IsState l mid right arr a (suc b) (record {
        f_idx = m.f_idx;
        r_idx = m.r_idx + 1;
        s_idx = m.s_idx + 1;
        sort_arr = set m.sort_arr m.s_idx (at arr m.r_idx);
      })
  step_second a b m v f r test =
      let low : leb_ℤ (at arr (l + a)) (at arr (suc mid + b)) ≡ false =
        rw (v.at_f, v.at_r) at test in
      record {
        at_f = v.at_f;
        at_r = omega (arith, v.at_r);
        at_s = omega (arith, v.at_s);
        merged =
            rw (v.at_s, v.at_r)
              (take_second l (suc mid) (suc right) arr a b m.sort_arr v.merged s2
                (omega (arith, v.at_r)) (λ q lq qr. ground (arith, low, s1 (l + a) q)));
      }

  pub merge_loop_lem :
      (k a b : ℕ) (m : Merging)
      → IsState l mid right arr a b m
      → suc right < l + (a + b) + k
      → Ends (IsHalfDone l mid right arr) (merge_loop k arr mid right m)
  unfolding merge_loop
  merge_loop_lem zero a b m v fuel = absurd (omega (arith, v.merged.first, v.merged.second))
  merge_loop_lem (suc k) a b m v fuel = elim (dec_lt mid m.f_idx) [
    | yes full ↦
        rw (first_full m.f_idx m.r_idx full)
          (m, refl, (a, b, v, inl (omega (arith, v.at_f, v.merged.first))))
    | no more ↦ elim (dec_lt right m.r_idx) [
      | yes full ↦
          rw (second_full m.f_idx m.r_idx full)
            (m, refl, (a, b, v, inr (omega (arith, v.at_r, v.merged.second))))
      | no more' ↦
          let hf : m.f_idx < length arr = omega arith in
          let hr : m.r_idx < length arr = omega arith in
          let hs : m.s_idx < length m.sort_arr =
            omega (arith, v.merged.size, v.at_s, v.at_f, v.at_r) in
          rw
            (
              inside m.f_idx m.r_idx (omega arith) (omega arith),
              read-at arr m.f_idx hf,
              read-at arr m.r_idx hr,
            )
            (elim (Bool-cases (leb_ℤ (at arr m.f_idx) (at arr m.r_idx))) [
              | inl low ↦
                  rw (low, write-set m.sort_arr m.s_idx (at arr m.f_idx) hs)
                    (merge_loop_lem k (suc a) b _
                      (step_first a b m v (omega arith) (omega arith) low) (omega arith))
              | inr high ↦
                  rw (high, write-set m.sort_arr m.s_idx (at arr m.r_idx) hs)
                    (merge_loop_lem k a (suc b) _
                      (step_second a b m v (omega arith) (omega arith) high) (omega arith))
            ])
    ]
  ]
    where
      inside : (f r : ℕ) → f ≤ mid → r ≤ right → (leb f mid && leb r right) ≡ true
      inside f r h h' = ground arith

      first_full : (f r : ℕ) → mid < f → (leb f mid && leb r right) ≡ false
      first_full f r h = ground arith

      second_full : (f r : ℕ) → right < r → (leb f mid && leb r right) ≡ false
      second_full f r h = ground arith
