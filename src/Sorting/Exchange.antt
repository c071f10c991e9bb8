-- ===== src/Sorting/Exchange.antt =====
-- BubbleSort.c
use today_i_learned.Common.{
  ℕ, zero, suc, ◌+◌, ◌-◌, ◌≤◌, ◌<◌, ◌≡◌, refl, inl, inr, true, List, arith, if◌then◌else◌,
  Bool-cases, length,
}
use today_i_learned.Sorting.Array.{
  at, read-at, swap, swapped, swap-ok, length-swapped, at-swapped, Holds, IsSortOf,
}
use today_i_learned.Sorting.Compare.{Comparison, IsExact}
use today_i_learned.Common.Int.{ℤ, pos, ltb_ℤ}
use today_i_learned.Common.Run.{Run, ok, ◌>>=◌, read, Ends, Ends-bind, Ends-map}
use today_i_learned.Sorting.Progress.{
  IsSplit, IsLeast, Progress, Progress-swapped, Progress-IsSortOf, Progress-refl,
}

-- `for (j = i; j < n; j++)`, with the rounds that are left.
unfoldable pub bubble_inner : Comparison → (i : ℕ) → (left j : ℕ) → List ℤ → Run (List ℤ)
bubble_inner cp i zero j arr = ok arr
bubble_inner cp i (suc left) j arr = do
  x ← read arr (pos i)
  y ← read arr (pos j)
  c ← cp x y
  arr' ← if ltb_ℤ c (pos 0) then swap arr i j else ok arr
  bubble_inner cp i left (j + 1) arr'

-- `for (i = 0; i < n; i++)`
unfoldable pub bubble_outer : Comparison → (n : ℕ) → (left i : ℕ) → List ℤ → Run (List ℤ)
bubble_outer cp n zero i arr = ok arr
bubble_outer cp n (suc left) i arr = do
  arr' ← bubble_inner cp i (n - i) i arr
  bubble_outer cp n left (i + 1) arr'

unfoldable pub bubble_sort : List ℤ → ℕ → Comparison → Run (List ℤ)
bubble_sort arr n cp = bubble_outer cp n n 0 arr

module _ (P : ℤ → Type 0) (cp : Comparison) (exact : IsExact P cp) (start : List ℤ) where
  -- One exchange of the inner loop.
  exchange_keeps :
      (a : List ℤ) (i j : ℕ)
      → i ≤ j
      → j < length a
      → IsSplit i a
      → IsLeast i i j a
      → ltb_ℤ (at a j) (at a i) ≡ true
      → IsSplit i (swapped a i j) × IsLeast i i (j + 1) (swapped a i j)
  exchange_keeps a i j le hj s l below =
      let at' = at-swapped a i j (omega arith) hj in
      (
        λ p q hp hq hl.
            ground
              (arith, at' p, at' q, length-swapped a i j (omega arith) hj, s p q, s p i, s p j),
        λ q hq hl. ground (arith, at' i, at' q, l q),
      )

  bubble_inner_lem :
      (i left j : ℕ) (a : List ℤ)
      → i ≤ j
      → j + left ≡ length a
      → i < length a
      → Progress P start a
      → IsSplit i a
      → IsLeast i i j a
      → Ends (λ b. Progress P start b × IsSplit (i + 1) b) (bubble_inner cp i left j a)
  unfolding bubble_inner
  bubble_inner_lem i zero j a le e hi p s l =
      (a, refl, (p, λ x y hx hy hl. ground (arith, s x y, l y)))
  bubble_inner_lem i (suc left) j a le e hi p s l =
      let hj : j < length a = omega arith in
      let (c, called, sign) = exact (at a i) (at a j) (p.holds i hi) (p.holds j hj) in
      rw (read-at a i hi, read-at a j hj, called, sign)
        (elim (Bool-cases (ltb_ℤ (at a j) (at a i))) [
          | inl t ↦
              let k = exchange_keeps a i j le hj s l t in
              let n = length-swapped a i j hi hj in
              rw (t, swap-ok a i j hi hj)
                (bubble_inner_lem i left (j + 1) (swapped a i j) (omega arith) (omega arith)
                  (omega arith) (Progress-swapped P start a i j hi hj p) k.0 k.1)
          | inr t ↦ rw t (
              bubble_inner_lem i left (j + 1) a (omega arith) (omega arith) hi p s
                (λ q hq hl. ground (arith, l q)))
        ])

  bubble_outer_lem :
      (left i : ℕ) (a : List ℤ)
      → i + left ≡ length a
      → Progress P start a
      → IsSplit i a
      → Ends
          (λ b. Progress P start b × IsSplit (length b) b)
          (bubble_outer cp (length start) left i a)
  unfolding bubble_outer
  bubble_outer_lem zero i a e p s = (a, refl, (p, λ x y hx. s x y (omega arith)))
  bubble_outer_lem (suc left) i a e p s =
      Ends-bind _ _ _ _
        (bubble_inner_lem i (length start - i) i a (omega arith) (omega (arith, p.size))
          (omega arith) p s (λ q hq hl. absurd (omega arith)))
        λ b r. bubble_outer_lem left (i + 1) b (omega (arith, r.0.size, p.size)) r.0 r.1

  -- `BubbleSort` with a comparison that returns and is exact on the elements of an array gives
  -- the same elements in ascending order; no access is out of bounds.
  pub bubble_sort-IsSortOf :
      Holds P start → Ends (IsSortOf start) (bubble_sort start (length start) cp)
  unfolding bubble_sort
  bubble_sort-IsSortOf h =
      Ends-map _ _ _
        (bubble_outer_lem (length start) 0 start (omega arith) (Progress-refl P start h)
          (λ p q hp. absurd (omega arith)))
        λ b r. Progress-IsSortOf P start b (length b) (omega arith) r
