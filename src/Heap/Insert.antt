-- ===== src/Heap/Insert.antt =====
-- `HInsert`.
use today_i_learned.Common.{
  ℕ, ◌/◌, ◌≤◌, ◌<◌, ◌≡◌, ◌≢◌, true, List, arith, length, set, length-set, zero, suc, ◌+◌, refl, ap,
  ◌∙◌, inl, inr, false, ◌==◌, lt→ltb, Bool-cases, Bool,
}
use today_i_learned.Sorting.Array.{at, at-set, read-at, one, write-set}
use today_i_learned.Heap.Order.{IsOrdered, Ranks, IsHeap, occurs}
use today_i_learned.Common.Int.{ℤ, ◌≤ℤ◌, ltb_ℤ, ◌+ℤ◌, pos}
use today_i_learned.Heap.{Heap, sift_up, h_insert}
use today_i_learned.Sorting.Between.{count_between, count_between-set, count_between-set_out}
use today_i_learned.Common.Run.{Ends, Ends-map, Ends-bind}
use native.Mathlib.Decide.{ℕ_discrete}

-- The cell `i` is free for `x`: the cells up to `n` are in order but for those next to it, and what
-- is below it may stand below `x` and below what is above it.
record IsGap (range : ℤ → Bool) (rank : ℤ → ℤ) (n i : ℕ) (x : ℤ) (a : List ℤ) : Type 0 where
  inside : 1 ≤ i
  within : i ≤ n
  room : n < length a
  edges : (c : ℕ) → 2 ≤ c → c ≤ n → c ≢ i → c / 2 ≢ i → rank (at a c) ≤ℤ rank (at a (c / 2))
  under : (c : ℕ) → 2 ≤ c → c ≤ n → c / 2 ≡ i → rank (at a c) ≤ℤ rank x
  bridge : (c : ℕ) → 2 ≤ c → c ≤ n → c / 2 ≡ i → 2 ≤ i → rank (at a c) ≤ℤ rank (at a (i / 2))
  ranged : (c : ℕ) → 1 ≤ c → c ≤ n → c ≢ i → range (at a c) ≡ true
  new_ranged : range x ≡ true

rise :
    (range : ℤ → Bool) (rank : ℤ → ℤ) (n i : ℕ) (x : ℤ) (a : List ℤ)
    → IsGap range rank n i x a
    → 2 ≤ i
    → ltb_ℤ (rank (at a (i / 2))) (rank x) ≡ true
    → IsGap range rank n (i / 2) x (set a i (at a (i / 2)))
rise range rank n i x a g two t =
    let at' = λ (c : ℕ). at-set a i c (at a (i / 2)) (omega (arith, g.within, g.room)) in
    record {
      inside = omega arith;
      within = omega (arith, g.within);
      room = rw length-set g.room;
      edges = λ c p q r s. ground (arith, at' c, at' (c / 2), g.edges c, g.bridge c);
      under = λ c p q r. ground (arith, at' c, g.edges c);
      bridge = λ c p q r s. ground (arith, at' c, at' (i / 2 / 2), g.edges c, g.edges (i / 2));
      ranged = λ c p q r. ground (arith, at' c, g.ranged c, g.ranged (i / 2));
      new_ranged = g.new_ranged;
    }

-- Where the gap need not rise, the element may be written.
settle :
    (range : ℤ → Bool) (rank : ℤ → ℤ) (n i : ℕ) (x : ℤ) (a : List ℤ)
    → IsGap range rank n i x a
    → (2 ≤ i → rank x ≤ℤ rank (at a (i / 2)))
    → IsOrdered rank n (set a i x)
settle range rank n i x a g top c p q =
    let hi : i < length a = omega (arith, g.within, g.room) in
    ground (arith, at-set a i c x hi, at-set a i (c / 2) x hi, g.edges c, g.under c)

settle-ranged :
    (range : ℤ → Bool) (rank : ℤ → ℤ) (n i : ℕ) (x : ℤ) (a : List ℤ)
    → IsGap range rank n i x a
    → (c : ℕ) → 1 ≤ c
    → c ≤ n
    → range (at (set a i x) c) ≡ true
settle-ranged range rank n i x a g c p q =
    let hi : i < length a = omega (arith, g.within, g.room) in
    ground (arith, at-set a i c x hi, g.ranged c, g.new_ranged)

-- What the loop leaves, from the array `a` with a gap at `i`.
record Raised (range : ℤ → Bool) (rank : ℤ → ℤ) (n i : ℕ) (x : ℤ) (ph : Heap) (r : ℕ × Heap)
    : Type 0 where
  gap : IsGap range rank n r.0 x r.1.heap_arr
  top : 2 ≤ r.0 → rank x ≤ℤ rank (at r.1.heap_arr (r.0 / 2))
  comp : r.1.comp ≡ ph.comp
  num : r.1.num_of_data ≡ ph.num_of_data
  cells : length r.1.heap_arr ≡ length ph.heap_arr
  same :
      (y : ℤ)
      → count_between y (set r.1.heap_arr r.0 x) 1 n ≡ count_between y (set ph.heap_arr i x) 1 n

rise_count :
    (range : ℤ → Bool) (rank : ℤ → ℤ) (n i : ℕ) (x y : ℤ) (a : List ℤ)
    → IsGap range rank n i x a
    → 2 ≤ i
    → count_between y (set (set a i (at a (i / 2))) (i / 2) x) 1 n ≡ count_between y (set a i x) 1 n
rise_count range rank n i x y a g two =
    let hi : i < length a = omega (arith, g.within, g.room) in
    let j = i / 2 in
    let p = at a j in
    let kept : at (set a i p) j ≡ p = ground (arith, at-set a i j p hi) in
    omega (
      arith,
      count_between-set a i p y 1 n hi (omega arith) (omega (arith, g.within)),
      count_between-set a i x y 1 n hi (omega arith) (omega (arith, g.within)),
      count_between-set (set a i p) j x y 1 n (rw length-set (omega arith)) (omega arith)
          (omega (arith, g.within)),
      ap (one y) kept,
    )

module _ (range : ℤ → Bool) (rank : ℤ → ℤ) (n : ℕ) (x : ℤ) where
  sift_up_lem :
      (k i : ℕ) (ph : Heap)
      → i < k
      → Ranks range rank ph.comp
      → IsGap range rank n i x ph.heap_arr
      → Ends (Raised range rank n i x ph) (sift_up k x ph i)
  unfolding sift_up
  sift_up_lem zero i ph f r g = absurd (omega arith)
  sift_up_lem (suc k) i ph f r g = elim (ℕ_discrete i 1) [
    | yes e ↦
        let root : (i == 1) ≡ true = ground arith in
        rw root (
          (i, ph),
          refl,
          record {
            gap = g;
            top = λ two. absurd (omega arith);
            comp = refl;
            num = refl;
            cells = refl;
            same = λ y. refl;
          },
        )
    | no e ↦
        let other : (i == 1) ≡ false = ground arith in
        let two : 2 ≤ i = omega (arith, g.inside) in
        let hi : i < length ph.heap_arr = omega (arith, g.within, g.room) in
        let parent_ranged =
          g.ranged (i / 2) (omega arith) (omega (arith, g.within)) (omega arith) in
        let (c, compared, below, above) = r x (at ph.heap_arr (i / 2)) g.new_ranged parent_ranged in
        rw (other, read-at ph.heap_arr (i / 2) (omega arith), compared, above)
          (elim (Bool-cases (ltb_ℤ (rank (at ph.heap_arr (i / 2))) (rank x))) [
            | inl t ↦ rw t (
                rw (lt→ltb i (length ph.heap_arr) hi) (
                  Ends-map _ _ _
                    (sift_up_lem k (i / 2) _ (omega arith) r
                      (rise range rank n i x ph.heap_arr g two t))
                    λ res v. record {
                      gap = v.gap;
                      top = v.top;
                      comp = v.comp;
                      num = v.num;
                      cells = v.cells ∙ length-set ph.heap_arr i _;
                      same = λ y. v.same y ∙ rise_count range rank n i x y ph.heap_arr g two;
                    }))
            | inr t ↦ rw t (
              (i, ph),
              refl,
              record {
                gap = g;
                top = λ two. ground arith;
                comp = refl;
                num = refl;
                cells = refl;
                same = λ y. refl;
              },
            )
          ])
  ]

plus_one : (z : ℤ) (m : ℕ) → z ≡ pos m → z +ℤ pos 1 ≡ pos (suc m)
unfolding ◌+ℤ◌
plus_one z m e = ground arith

start-IsGap :
    (range : ℤ → Bool) (rank : ℤ → ℤ) (m : ℕ) (x : ℤ) (a : List ℤ)
    → IsOrdered rank m a
    → suc m < length a
    → ((c : ℕ) → 1 ≤ c → c ≤ m → range (at a c) ≡ true)
    → range x ≡ true
    → IsGap range rank (suc m) (suc m) x a
start-IsGap range rank m x a h room old new = record {
  inside = omega arith;
  within = omega arith;
  room = room;
  edges = λ c p q r s. h c p (omega arith);
  under = λ c p q r. absurd (omega arith);
  bridge = λ c p q r s. absurd (omega arith);
  ranged = λ c p q r. old c p (omega arith);
  new_ranged = new;
}

added_count :
    (m : ℕ) (x y : ℤ) (a : List ℤ)
    → suc m < length a
    → count_between y (set a (suc m) x) 1 (suc m) ≡ count_between y a 1 m + one y x
unfolding count_between
added_count m x y a h =
    let here : at (set a (suc m) x) (1 + m) ≡ x = ground (arith, at-set a (suc m) (1 + m) x h) in
    rw (here, count_between-set_out a (suc m) x y 1 m h (inr (omega arith))) refl

-- `HInsert` on a heap of `m` elements, less than 99, of an element of
-- the range: the result is a heap of one element more, and
-- each value occurs in it as often as before, the new value once more.
pub h_insert-IsHeap :
    (range : ℤ → Bool) (rank : ℤ → ℤ) (m : ℕ) (x : ℤ) (ph : Heap)
    → IsHeap range rank m ph
    → m < 99
    → range x ≡ true
    → Ends
        (λ ph'.
          IsHeap range rank (suc m) ph'
          × ((y : ℤ) → occurs (suc m) y ph' ≡ occurs m y ph + one y x))
        (h_insert ph x)
unfolding h_insert
h_insert-IsHeap range rank m x ph v room new =
    let fits : suc m < length ph.heap_arr = omega (arith, v.cells) in
    rw (plus_one ph.num_of_data m v.counted, h_insert)
      (Ends-bind _ _ _ _
        (sift_up_lem range rank (suc m) x (suc (suc m)) (suc m) ph (omega arith) v.ranks
          (start-IsGap range rank m x ph.heap_arr v.ordered fits v.ranged new))
        λ (i, ph') r.
          let hi : i < length ph'.heap_arr = omega (arith, r.gap.within, r.gap.room) in
          rw (write-set ph'.heap_arr i x hi) (
            _,
            refl,
            (
              record {
                ranks = rw r.comp v.ranks;
                counted = plus_one ph'.num_of_data m (r.num ∙ v.counted);
                cells = length-set ph'.heap_arr i x ∙ r.cells ∙ v.cells;
                ordered = settle range rank (suc m) i x ph'.heap_arr r.gap r.top;
                ranged = settle-ranged range rank (suc m) i x ph'.heap_arr r.gap;
              },
              λ y. r.same y ∙ added_count m x y ph.heap_arr fits,
            ),
          ))
