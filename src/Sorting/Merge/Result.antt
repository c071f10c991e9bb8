-- ===== src/Sorting/Merge/Result.antt =====
-- `MergeSort`.
use today_i_learned.Common.{
  ℕ, zero, suc, ◌+◌, ◌-◌, ◌^◌, ◌/◌, ◌≤◌, ◌<◌, ◌≡◌, ◌⊎◌, inl, inr, true, ltb, List, arith, length,
  ◌∙◌, ◌∷◌, refl, false,
}
use today_i_learned.Sorting.Array.{at, IsSortOf, count}
use today_i_learned.Sorting.Between.{
  count_between, count_between-split, count_between_cong, count_between-count,
}
use today_i_learned.Sorting.Merge.{merge_sort}
use today_i_learned.Sorting.Merge.Join.{IsAreaSorted, merge_two_area_lem}
use today_i_learned.Common.Int.{ℤ, pos}
use today_i_learned.Common.Run.{ok, checked, Ends, Ends-bind, Ends-map}
use native.Mathlib.Decide.{dec_lt}

-- The two areas, one after the other.
both_sorted :
    (l r e n n1 n2 : ℕ) (arr arr₁ arr₂ arr₃ : List ℤ)
    → l + n1 ≡ r
    → r + n2 ≡ e
    → l + n ≡ e
    → IsAreaSorted l n1 arr arr₁
    → IsAreaSorted r n2 arr₁ arr₂
    → IsAreaSorted l n arr₂ arr₃
    → IsAreaSorted l n arr arr₃
both_sorted l r e n n1 n2 arr arr₁ arr₂ arr₃ e1 e2 en v1 v2 v3 =
    let whole : n ≡ n1 + n2 = omega arith in
    record {
      size = v3.size ∙ v2.size ∙ v1.size;
      outside = λ c out. untouched c out;
      sorted = v3.sorted;
      same = λ y.
          let parts : count_between y arr₂ l n
              ≡ count_between y arr₂ l n1 + count_between y arr₂ r n2 =
            rw (whole, ← e1) (count_between-split y arr₂ l n1 n2) in
          let parts' : count_between y arr l n
              ≡ count_between y arr l n1 + count_between y arr r n2 =
            rw (whole, ← e1) (count_between-split y arr l n1 n2) in
          let first : count_between y arr₂ l n1 ≡ count_between y arr₁ l n1 =
            count_between_cong y arr₂ arr₁ l n1 (λ i li il. v2.outside i (inl (omega arith))) in
          let second : count_between y arr₁ r n2 ≡ count_between y arr r n2 =
            count_between_cong y arr₁ arr r n2 (λ i ri ir. v1.outside i (inr (omega arith))) in
          omega (arith, v3.same y, parts, parts', first, second, v1.same y, v2.same y);
    }
  where
    untouched : (c : ℕ) → (c < l) ⊎ (l + n ≤ c) → at arr₃ c ≡ at arr c
    untouched c out =
        v3.outside c out
        ∙ v2.outside c (elim out [ inl h ↦ inl (omega arith) | inr h ↦ inr (omega arith) ])
        ∙ v1.outside c (elim out [ inl h ↦ inl h | inr h ↦ inr (omega arith) ])

one_element : (l right : ℕ) (arr : List ℤ) → l ≡ right → IsAreaSorted l (right + 1 - l) arr arr
one_element l right arr e = record {
  size = refl;
  outside = λ c out. refl;
  sorted = λ p q lp pq qn. let same : p ≡ q = omega arith in rw same (omega arith);
  same = λ y. refl;
}

whole_array : (n : ℕ) (arr b : List ℤ) → length arr ≡ n → IsAreaSorted 0 n arr b → IsSortOf arr b
whole_array n arr b e v =
    let e' : length b ≡ n = v.size ∙ e in
    record {
      sorted = λ p q pq hq. v.sorted p q (omega arith) pq (omega arith);
      same = λ y.
          let all : count_between y b 0 n ≡ count y b = rw e' at (count_between-count y b) in
          let all' : count_between y arr 0 n ≡ count y arr = rw e at (count_between-count y arr) in
          omega (arith, all, all', v.same y);
      size = v.size;
    }

module _ (fresh : ℕ → ℕ → List ℤ) (size : (l r : ℕ) → length (fresh l r) ≡ suc r) where
  merge_sort_lem :
      (k : ℕ) (arr : List ℤ) (l right : ℕ)
      → length arr ≤ 2 ^ 30
      → l ≤ right
      → right < length arr
      → right < l + k
      → Ends (IsAreaSorted l (right + 1 - l) arr) (merge_sort k fresh arr l right)
  unfolding merge_sort
  merge_sort_lem zero arr l right small order within fuel = absurd (omega arith)
  merge_sort_lem (suc k) arr l right small order within fuel = elim (dec_lt l right) [
    | no single ↦
        let test : ltb l right ≡ false = ground arith in
        rw test (arr, refl, one_element l right arr (omega arith))
    | yes more ↦
        let mid = (l + right) / 2 in
        let test : ltb l right ≡ true = ground arith in
        let sum : checked (pos (l + right)) ≡ ok (pos (l + right)) = ground arith in
        rw (test, sum)
          (Ends-bind _ _ _ _
            (merge_sort_lem k arr l mid small (omega arith) (omega arith) (omega arith))
            λ arr₁ v1.
              Ends-bind _ _ _ _
                (merge_sort_lem k arr₁ (mid + 1) right (omega (arith, v1.size)) (omega arith)
                  (omega (arith, v1.size)) (omega arith))
                λ arr₂ v2.
                  Ends-map _ _ _
                    (merge_two_area_lem (fresh l right) arr₂ l mid right (size l right)
                      (omega (arith, v1.size, v2.size)) (omega arith) (omega arith)
                      (λ p q lp pq qn.
                        rw (v2.outside p (inl (omega arith)), v2.outside q (inl (omega arith)))
                          (v1.sorted p q lp pq (omega arith)))
                      (λ p q lp pq qn. v2.sorted p q (omega arith) pq (omega arith)))
                    λ arr₃ v3.
                      both_sorted l (mid + 1) (right + 1) (right + 1 - l) (mid + 1 - l)
                        (right + 1 - (mid + 1)) arr arr₁ arr₂ arr₃ (omega arith) (omega arith)
                        (omega arith) v1 v2 v3)
  ]

  -- `MergeSort` on an array of at least one element and at most 2^30 gives the same elements in
  -- ascending order, whatever the allocated areas hold at first. As many levels of calls as there
  -- are elements are enough.
  pub merge_sort-IsSortOf :
      (x : ℤ) (rest : List ℤ)
      → length rest < 2 ^ 30
      → Ends (IsSortOf (x ∷ rest)) (merge_sort (suc (length rest)) fresh (x ∷ rest) 0 (length rest))
  merge_sort-IsSortOf x rest small =
      Ends-map _ _ _
        (merge_sort_lem (suc (length rest)) (x ∷ rest) 0 (length rest) (omega arith) (omega arith)
          (omega arith) (omega arith))
        λ b v. whole_array (length rest + 1 - 0) (x ∷ rest) b (omega arith) v
