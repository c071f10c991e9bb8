-- ===== src/Sorting/Selection.antt =====
-- SelectionSort.c
use today_i_learned.Common.{
  ℕ, zero, suc, ◌+◌, ◌-◌, ◌≤◌, ◌<◌, ◌≡◌, refl, inl, inr, List, [], ◌∷◌, arith, if◌then◌else◌,
  Bool-cases, length,
}
use today_i_learned.Sorting.Array.{
  at, read-at, swap, swapped, swap-ok, length-swapped, at-swapped, Holds, IsSortOf,
}
use today_i_learned.Sorting.Compare.{Comparison, IsExact}
use today_i_learned.Sorting.Progress.{
  IsSplit, IsLeast, Progress, Progress-swapped, Progress-refl, Progress-IsSortOf,
}
use today_i_learned.Common.Int.{ℤ, pos, ltb_ℤ}
use today_i_learned.Common.Run.{Run, ok, ◌>>=◌, read, Ends, Ends-bind, Ends-map}

-- The search for the least element: `for (j = i + 1; j < n; j++)`, with the rounds that are left.
unfoldable pub select_min : Comparison → (left j min_idx : ℕ) → List ℤ → Run ℕ
select_min cp zero j min_idx arr = ok min_idx
select_min cp (suc left) j min_idx arr = do
  x ← read arr (pos min_idx)
  y ← read arr (pos j)
  c ← cp x y
  select_min cp left (j + 1) (if ltb_ℤ c (pos 0) then j else min_idx) arr

-- `for (i = 0; i < n - 1; i++)`
unfoldable pub selection_outer : Comparison → (n : ℕ) → (left i : ℕ) → List ℤ → Run (List ℤ)
selection_outer cp n zero i arr = ok arr
selection_outer cp n (suc left) i arr = do
  min_idx ← select_min cp (n - (i + 1)) (i + 1) i arr
  arr' ← swap arr i min_idx
  selection_outer cp n left (i + 1) arr'

unfoldable pub selection_sort : List ℤ → ℕ → Comparison → Run (List ℤ)
selection_sort arr n cp = selection_outer cp n (n - 1) 0 arr

module _ (P : ℤ → Type 0) (cp : Comparison) (exact : IsExact P cp) where
  select_min_lem :
      (i left j m : ℕ) (a : List ℤ)
      → i ≤ m
      → m < j
      → j + left ≡ length a
      → Holds P a
      → IsLeast m i j a
      → Ends (λ k. (i ≤ k) × (k < length a) × IsLeast k i (length a) a) (select_min cp left j m a)
  unfolding select_min
  select_min_lem i zero j m a im mj e h l =
      (m, refl, (im, omega arith, λ q hq hl. l q hq (omega arith)))
  select_min_lem i (suc left) j m a im mj e h l =
      let hm : m < length a = omega arith in
      let hj : j < length a = omega arith in
      let (c, called, sign) = exact (at a m) (at a j) (h m hm) (h j hj) in
      rw (read-at a m hm, read-at a j hj, called, sign)
        (elim (Bool-cases (ltb_ℤ (at a j) (at a m))) [
          | inl t ↦ rw t (
              select_min_lem i left (j + 1) j a (omega arith) (omega arith) (omega arith) h
                (λ q hq hl. ground (arith, l q)))
          | inr t ↦ rw t (
              select_min_lem i left (j + 1) m a im (omega arith) (omega arith) h
                (λ q hq hl. ground (arith, l q)))
        ])

  -- The swap puts the least element of the rest behind the part in order.
  select_keeps :
      (a : List ℤ) (i m : ℕ)
      → i ≤ m
      → m < length a
      → IsSplit i a
      → IsLeast m i (length a) a
      → IsSplit (i + 1) (swapped a i m)
  select_keeps a i m le hm s l =
      let at' = at-swapped a i m (omega arith) hm in
      λ p q hp hq hl.
        ground (
          arith,
          at' p,
          at' q,
          length-swapped a i m (omega arith) hm,
          s p q,
          s p i,
          s p m,
          l q,
          l i,
        )

  selection_outer_lem :
      (start : List ℤ) (left i : ℕ) (a : List ℤ)
      → i + left + 1 ≡ length a
      → Progress P start a
      → IsSplit i a
      → Ends
          (λ b. Progress P start b × IsSplit (length b - 1) b)
          (selection_outer cp (length start) left i a)
  unfolding selection_outer
  selection_outer_lem start zero i a e p s = (a, refl, (p, λ x y hx. s x y (omega arith)))
  selection_outer_lem start (suc left) i a e p s =
      Ends-bind _ _ _ _
        (select_min_lem i (length start - (i + 1)) (i + 1) i a (omega arith) (omega arith)
          (omega (arith, p.size)) p.holds
          (λ q hq hl. let same : i ≡ q = omega arith in rw same (omega arith)))
        λ m r.
          let p' = Progress-swapped P start a i m (omega arith) r.1 p in
          rw (swap-ok a i m (omega arith) r.1) (
            selection_outer_lem start left (i + 1) (swapped a i m)
              (omega (arith, length-swapped a i m (omega arith) r.1)) p'
              (select_keeps a i m r.0 r.1 s r.2))

  selection_sort_nil : Ends (IsSortOf []) (selection_sort [] 0 cp)
  unfolding selection_sort selection_outer
  selection_sort_nil = (
    [],
    refl,
    record { sorted = λ p q hp hq. absurd (omega arith); same = λ x. refl; size = refl },
  )

  -- `SelectionSort` with a comparison that returns and is exact on the elements of an array gives
  -- the same elements in ascending order; no access is out of bounds.
  pub selection_sort-IsSortOf :
      (start : List ℤ)
      → Holds P start
      → Ends (IsSortOf start) (selection_sort start (length start) cp)
  unfolding selection_sort
  selection_sort-IsSortOf [] h = selection_sort_nil
  selection_sort-IsSortOf (x ∷ rest) h =
      Ends-map _ _ _
        (selection_outer_lem (x ∷ rest) (length (x ∷ rest) - 1) 0 (x ∷ rest) (omega arith)
          (Progress-refl P (x ∷ rest) h) (λ p q hp. absurd (omega arith)))
        λ b r. Progress-IsSortOf P (x ∷ rest) b (length b - 1) (omega arith) r
