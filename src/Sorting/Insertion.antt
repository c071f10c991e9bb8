-- ===== src/Sorting/Insertion.antt =====
-- insertSort.c
use today_i_learned.Common.{
  ℕ, zero, suc, ◌+◌, ◌-◌, ◌≤◌, ◌<◌, ◌≡◌, refl, ap, ◌∙◌, ◌≢◌, inl, inr, true, List, arith,
  if◌then◌else◌, lt→ltb, Bool-cases, length, set, length-set, [], ◌∷◌,
}
use today_i_learned.Sorting.Array.{
  at, read-at, at-set, one, SameItems, count-set, Holds, Holds-set, IsSortedTo, write-set, IsSortOf,
}
use today_i_learned.Sorting.Compare.{Comparison, IsExact}
use today_i_learned.Sorting.Progress.{Progress, Progress-refl}
use today_i_learned.Common.Int.{ℤ, pos, ◌≤ℤ◌, ltb_ℤ}
use today_i_learned.Common.Run.{Run, ok, ◌>>=◌, read, write, Ends, Ends-bind, Ends-map}

-- `for (j = i - 1; j >= 0; j--)`, with the value of j + 1: it gives the value at the loop's end,
-- where `tmp` belongs.
unfoldable pub insert_shift : Comparison → (tmp : ℤ) → ℕ → List ℤ → Run (ℕ × List ℤ)
insert_shift cp tmp zero arr = ok (0, arr)
insert_shift cp tmp (suc j) arr = do
  x ← read arr (pos j)
  c ← cp x tmp
  let further = (do arr' ← write arr (pos (suc j)) x; insert_shift cp tmp j arr')
  if ltb_ℤ c (pos 0) then further else ok (suc j, arr)

-- `for (i = 1; i < n; i++)`
unfoldable pub insertion_outer : Comparison → (left i : ℕ) → List ℤ → Run (List ℤ)
insertion_outer cp zero i arr = ok arr
insertion_outer cp (suc left) i arr = do
  tmp ← read arr (pos i)
  (hole, arr') ← insert_shift cp tmp i arr
  arr'' ← write arr' (pos hole) tmp
  insertion_outer cp left (i + 1) arr''

unfoldable pub insert_sort : List ℤ → ℕ → Comparison → Run (List ℤ)
insert_sort arr n cp = insertion_outer cp (n - 1) 1 arr

-- While `tmp` looks for its place: the elements up to `i` but for the one at the hole are in
-- order, those behind the hole are greater than `tmp`, and with `tmp` in the hole nothing is lost.
record IsHole (P : ℤ → Type 0) (start : List ℤ) (i h : ℕ) (tmp : ℤ) (b : List ℤ) : Type 0 where
  inside : h ≤ i
  within : i < length b
  ordered : (p q : ℕ) → p ≤ q → q ≤ i → p ≢ h → q ≢ h → at b p ≤ℤ at b q
  above : (q : ℕ) → h < q → q ≤ i → tmp ≤ℤ at b q
  same : SameItems (set b h tmp) start
  size : length b ≡ length start
  holds : Holds P b

module _ (P : ℤ → Type 0) (start : List ℤ) (i : ℕ) (tmp : ℤ) where
  shift_keeps :
      (j : ℕ) (b : List ℤ)
      → IsHole P start i (suc j) tmp b
      → ltb_ℤ tmp (at b j) ≡ true
      → IsHole P start i j tmp (set b (suc j) (at b j))
  shift_keeps j b v t =
      let h : suc j < length b = omega arith in
      let at' = λ (c : ℕ). at-set b (suc j) c (at b j) h in
      record {
        inside = omega arith;
        within = omega (arith, length-set b (suc j) (at b j));
        ordered = λ p q pq hq np nq.
            ground (arith, at' p, at' q, v.ordered p q, v.ordered p j, v.ordered j q);
        above = λ q hq qi. ground (arith, at' q, v.above q);
        same = λ x. omega (
          arith,
          v.same x,
          count-set b (suc j) tmp x h,
          count-set b (suc j) (at b j) x h,
          count-set (set b (suc j) (at b j)) j tmp x (rw length-set (omega arith)),
          ap (one x) (unmoved b j h),
        );
        size = length-set b (suc j) (at b j) ∙ v.size;
        holds = Holds-set P b (suc j) (at b j) h v.holds (v.holds j (omega arith));
      }
    where
      unmoved : (b : List ℤ) (j : ℕ) → suc j < length b → at (set b (suc j) (at b j)) j ≡ at b j
      unmoved b j h = ground (arith, at-set b (suc j) j (at b j) h)

  -- Where the shift stops, `tmp` may be written: the elements up to `i` are in order then.
  placed :
      (h : ℕ) (b : List ℤ)
      → IsHole P start i h tmp b
      → ((p : ℕ) → p < h → at b p ≤ℤ tmp)
      → IsSortedTo (i + 1) (set b h tmp)
  placed h b v below p q pq hq = ground (
    arith,
    at-set b h p tmp (omega arith),
    at-set b h q tmp (omega arith),
    v.ordered p q,
    v.above q,
    below p,
  )

abbrev Placed : (ℤ → Type 0) → List ℤ → ℕ → ℤ → ℕ × List ℤ → Type 0
Placed P start i tmp (h, b) = IsHole P start i h tmp b × ((p : ℕ) → p < h → at b p ≤ℤ tmp)

begin :
    (P : ℤ → Type 0) (start a : List ℤ) (i : ℕ)
    → i < length a
    → Progress P start a
    → IsSortedTo i a
    → IsHole P start i i (at a i) a
begin P start a i hi p s = record {
  inside = omega arith;
  within = hi;
  ordered = λ x y xy yi nx ny. s x y xy (omega arith);
  above = λ q hq qi. absurd (omega arith);
  same = λ x. omega (arith, count-set a i (at a i) x hi, p.same x);
  size = p.size;
  holds = p.holds;
}

placed_Progress :
    (P : ℤ → Type 0) (start : List ℤ) (i h : ℕ) (tmp : ℤ) (b : List ℤ)
    → P tmp
    → IsHole P start i h tmp b
    → Progress P start (set b h tmp)
placed_Progress P start i h tmp b pt v = record {
  holds = Holds-set P b h tmp (omega arith) v.holds pt;
  same = v.same;
  size = length-set b h tmp ∙ v.size;
}

module _ (P : ℤ → Type 0) (cp : Comparison) (exact : IsExact P cp) where
  insert_shift_lem :
      (start : List ℤ) (i h : ℕ) (tmp : ℤ) (b : List ℤ)
      → P tmp
      → IsHole P start i h tmp b
      → Ends (Placed P start i tmp) (insert_shift cp tmp h b)
  unfolding insert_shift
  insert_shift_lem start i zero tmp b pt v = ((0, b), refl, (v, λ p hp. absurd (omega arith)))
  insert_shift_lem start i (suc j) tmp b pt v =
      let hj : j < length b = omega arith in
      let (c, called, sign) = exact (at b j) tmp (v.holds j hj) pt in
      rw (read-at b j hj, called, sign)
        (elim (Bool-cases (ltb_ℤ tmp (at b j))) [
          | inl t ↦ rw t (
              rw (lt→ltb (suc j) (length b) (omega arith))
                (insert_shift_lem start i j tmp _ pt (shift_keeps P start i tmp j b v t)))
          | inr t ↦ rw t ((suc j, b), refl, (v, λ p hp. ground (arith, v.ordered p j)))
        ])

  insertion_outer_lem :
      (start : List ℤ) (left i : ℕ) (a : List ℤ)
      → i + left ≡ length a
      → Progress P start a
      → IsSortedTo i a
      → Ends (λ b. Progress P start b × IsSortedTo (length b) b) (insertion_outer cp left i a)
  unfolding insertion_outer
  insertion_outer_lem start zero i a e p s = (a, refl, (p, λ x y xy hy. s x y xy (omega arith)))
  insertion_outer_lem start (suc left) i a e p s =
      let hi : i < length a = omega arith in
      let tmp = at a i in
      rw (read-at a i hi) (
        Ends-bind _ _ _ _
          (insert_shift_lem start i i tmp a (p.holds i hi) (begin P start a i hi p s))
          λ (h, b) (v, below).
            let p' = placed_Progress P start i h tmp b (p.holds i hi) v in
            rw (write-set b h tmp (omega arith)) (
              insertion_outer_lem start left (i + 1) (set b h tmp) (omega (arith, p'.size, p.size))
                p' (placed P start i tmp h b v below)))

  -- `insertSort` with a comparison that returns and is exact on the elements of an array gives
  -- the same elements in ascending order; no access is out of bounds.
  pub insert_sort-IsSortOf :
      (start : List ℤ) → Holds P start → Ends (IsSortOf start) (insert_sort start (length start) cp)
  unfolding insert_sort
  insert_sort-IsSortOf [] h = (
    [],
    unfold insertion_outer in refl,
    record { sorted = λ p q hp hq. absurd (omega arith); same = λ x. refl; size = refl },
  )
  insert_sort-IsSortOf (x ∷ rest) h =
      Ends-map _ _ _
        (insertion_outer_lem (x ∷ rest) (length (x ∷ rest) - 1) 1 (x ∷ rest) (omega arith)
          (Progress-refl P (x ∷ rest) h) first)
        λ b r. record { sorted = r.1; same = r.0.same; size = r.0.size }
    where
      first : IsSortedTo 1 (x ∷ rest)
      first p q pq hq =
          let p0 : p ≡ 0 = omega arith in let q0 : q ≡ 0 = omega arith in rw (p0, q0) (omega arith)
