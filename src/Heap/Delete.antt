-- ===== src/Heap/Delete.antt =====
-- `HDelete`.
use today_i_learned.Common.{
  ℕ, ◌+◌, ◌*◌, ◌/◌, ◌≤◌, ◌<◌, ◌≡◌, ◌≢◌, inl, inr, true, List, arith, if◌then◌else◌, Bool-cases,
  length, set, length-set, refl, ap, ◌∙◌, zero, suc, ◌^◌, false, ◌==◌, lt→ltb, sym, Bool,
}
use today_i_learned.Heap.{Heap, get_hi_pri_child_idx, sift_down, h_delete}
use today_i_learned.Sorting.Array.{at, at-set, read-at, one, write-set}
use today_i_learned.Heap.Order.{Ranks, IsOrdered, IsHeap, occurs, root_greatest}
use today_i_learned.Common.Int.{ℤ, pos, ◌≤ℤ◌, ltb_ℤ, leb_ℤ, ◌-ℤ◌}
use today_i_learned.Common.Run.{Ends, ok, Ends-map, Ends-bind, read}
use native.Mathlib.Nat.{pow-suc, mul-le-mul_right}
use native.Mathlib.Decide.{ℕ_discrete, dec_lt}
use today_i_learned.Sorting.Between.{count_between, count_between-set}

-- What GetHiPriChildIDX finds below the cell `p`: 0 if there is no child, and else the child that
-- no other child outranks.
record IsChild (rank : ℤ → ℤ) (n p : ℕ) (a : List ℤ) (m : ℕ) : Type 0 where
  nothing : m ≡ 0 → n < p * 2
  child : m ≢ 0 → (m / 2 ≡ p) × (2 ≤ m) × (m ≤ n)
  greatest : m ≢ 0 → (c : ℕ) → 2 ≤ c → c ≤ n → c / 2 ≡ p → rank (at a c) ≤ℤ rank (at a m)

higher-IsChild :
    (rank : ℤ → ℤ) (n p : ℕ) (a : List ℤ)
    → 1 ≤ p
    → p * 2 < n
    → IsChild rank n p a
        (if ltb_ℤ (rank (at a (p * 2))) (rank (at a (p * 2 + 1))) then p * 2 + 1 else p * 2)
higher-IsChild rank n p a hp h =
    elim (Bool-cases (ltb_ℤ (rank (at a (p * 2))) (rank (at a (p * 2 + 1))))) [
      | inl t ↦ rw t (record {
        nothing = λ e. omega arith;
        child = λ e. omega arith;
        greatest = λ e c q r s. two c s _ (ground arith) (omega arith);
      })
      | inr t ↦ rw t (record {
        nothing = λ e. omega arith;
        child = λ e. omega arith;
        greatest = λ e c q r s. two c s _ (omega arith) (ground arith);
      })
    ]
  where
    two :
        (c : ℕ)
        → c / 2 ≡ p
        → (x : ℤ) → rank (at a (p * 2)) ≤ℤ x
        → rank (at a (p * 2 + 1)) ≤ℤ x
        → rank (at a c) ≤ℤ x
    two c s x l r = elim (ℕ_discrete c (p * 2)) [
      | yes e ↦ rw e l
      | no e ↦ let e' : c ≡ p * 2 + 1 = omega arith in rw e' r
    ]

child_lem :
    (range : ℤ → Bool) (rank : ℤ → ℤ) (n p : ℕ) (ph : Heap)
    → Ranks range rank ph.comp
    → ph.num_of_data ≡ pos n
    → n < length ph.heap_arr
    → 1 ≤ p
    → ((c : ℕ) → 1 ≤ c → c ≤ n → range (at ph.heap_arr c) ≡ true)
    → Ends (IsChild rank n p ph.heap_arr) (get_hi_pri_child_idx ph p)
unfolding get_hi_pri_child_idx
child_lem range rank n p ph r e h hp ranged =
    let a = ph.heap_arr in
    elim (dec_lt n (p * 2)) [
      | yes none_left ↦ (
        0,
        ground arith,
        record {
          nothing = λ z. none_left;
          child = λ z. absurd (z refl);
          greatest = λ z. absurd (z refl);
        },
      )
      | no some_left ↦ elim (ℕ_discrete (p * 2) n) [
        | yes one_left ↦ (
          p * 2,
          ground arith,
          record {
            nothing = λ z. omega arith;
            child = λ z. omega arith;
            greatest = λ z c q s u. let c' : c ≡ p * 2 = omega arith in rw c' (omega arith);
          },
        )
        | no both ↦
            let (c, compared, below, above) =
              r (at a (p * 2)) (at a (p * 2 + 1)) (ranged (p * 2) (omega arith) (omega arith))
                (ranged (p * 2 + 1) (omega arith) (omega arith)) in
            (
              (if ltb_ℤ (rank (at a (p * 2))) (rank (at a (p * 2 + 1))) then p * 2 + 1 else p * 2),
              ground (arith, read-at a (p * 2), read-at a (p * 2 + 1), compared, below),
              higher-IsChild rank n p a hp (omega arith),
            )
      ]
    ]

-- The cell `p` is free for `last`, which also stands in the cell `n`, unless that is the only one.
record IsHollow (range : ℤ → Bool) (rank : ℤ → ℤ) (n p : ℕ) (last : ℤ) (a : List ℤ) : Type 0 where
  inside : 1 ≤ p
  within : p ≤ n
  room : n < length a
  edges : (c : ℕ) → 2 ≤ c → c ≤ n → c ≢ p → c / 2 ≢ p → rank (at a c) ≤ℤ rank (at a (c / 2))
  bridge : (c : ℕ) → 2 ≤ c → c ≤ n → c / 2 ≡ p → 2 ≤ p → rank (at a c) ≤ℤ rank (at a (p / 2))
  under : 2 ≤ p → rank last ≤ℤ rank (at a (p / 2))
  tail_kept : p < n → at a n ≡ last
  before : p ≡ n → n ≡ 1
  ranged : (c : ℕ) → 1 ≤ c → c ≤ n → range (at a c) ≡ true
  last_ranged : range last ≡ true

sink :
    (range : ℤ → Bool) (rank : ℤ → ℤ) (n p m : ℕ) (last : ℤ) (a : List ℤ)
    → IsHollow range rank n p last a
    → IsChild rank n p a m
    → m ≢ 0
    → ltb_ℤ (rank last) (rank (at a m)) ≡ true
    → IsHollow range rank n m last (set a p (at a m))
sink range rank n p m last a g ch some_child t =
    let at' = λ (c : ℕ). at-set a p c (at a m) (omega (arith, g.within, g.room)) in
    let (half, two, le) = ch.child some_child in
    let hp : 1 ≤ p = g.inside in
    record {
      inside = omega arith;
      within = le;
      room = rw length-set g.room;
      edges = λ c q r s u.
          ground (arith, at' c, at' (c / 2), g.edges c, g.bridge m, ch.greatest some_child c);
      bridge = λ c q r s u. ground (arith, at' c, at' (m / 2), g.edges c);
      under = λ u. ground (arith, at' (m / 2));
      tail_kept = λ u. ground (arith, at' n, g.tail_kept);
      before = λ u.
          let alike : at a m ≡ last = ap (at a) u ∙ g.tail_kept (omega arith) in
          let less_than_itself = rw alike at t in absurd (ground arith);
      ranged = λ c q r. ground (arith, at' c, g.ranged c, g.ranged m);
      last_ranged = g.last_ranged;
    }

-- Where `last` stops, it may be written.
stop :
    (range : ℤ → Bool) (rank : ℤ → ℤ) (n p : ℕ) (last : ℤ) (a : List ℤ)
    → IsHollow range rank n p last a
    → ((c : ℕ) → 2 ≤ c → c ≤ n → c / 2 ≡ p → rank (at a c) ≤ℤ rank last)
    → IsOrdered rank n (set a p last)
stop range rank n p last a g low c q r =
    let hp : p < length a = omega (arith, g.within, g.room) in
    ground (arith, at-set a p c last hp, at-set a p (c / 2) last hp, g.edges c, g.under, low c)

-- What the loop leaves, from the heap `ph` with the hollow at `p`.
record Sunk (range : ℤ → Bool) (rank : ℤ → ℤ) (n p : ℕ) (last : ℤ) (ph : Heap) (r : ℕ × Heap)
    : Type 0 where
  hollow : IsHollow range rank n r.0 last r.1.heap_arr
  low : (c : ℕ) → 2 ≤ c → c ≤ n → c / 2 ≡ r.0 → rank (at r.1.heap_arr c) ≤ℤ rank last
  comp : r.1.comp ≡ ph.comp
  num : r.1.num_of_data ≡ ph.num_of_data
  cells : length r.1.heap_arr ≡ length ph.heap_arr
  same :
      (y : ℤ)
      → count_between y (set r.1.heap_arr r.0 last) 1 n
        ≡ count_between y (set ph.heap_arr p last) 1 n

sink_count :
    (n p m : ℕ) (last y : ℤ) (a : List ℤ)
    → n < length a
    → 1 ≤ p
    → p < m
    → m ≤ n
    → count_between y (set (set a p (at a m)) m last) 1 n ≡ count_between y (set a p last) 1 n
sink_count n p m last y a room hp pm mn =
    let v = at a m in
    let unmoved : at (set a p v) m ≡ v = ground (arith, at-set a p m v) in
    omega (
      arith,
      count_between-set a p v y 1 n (omega arith) hp (omega arith),
      count_between-set a p last y 1 n (omega arith) hp (omega arith),
      count_between-set (set a p v) m last y 1 n (rw length-set (omega arith)) (omega arith)
          (omega arith),
      ap (one y) unmoved,
    )

leb-not_ltb : (v : ℤ) → leb_ℤ (pos 0) v ≡ (if ltb_ℤ v (pos 0) then false else true)
leb-not_ltb v = ground arith

deeper : (n p m i : ℕ) → n < p * 2 ^ suc i → m / 2 ≡ p → n < m * 2 ^ i
deeper n p m i h e =
    let twice : 2 ^ suc i ≡ 2 ^ i * 2 = pow-suc 2 i in scaled (2 ^ i) (omega arith) (rw twice at h)
  where
    scaled : (q : ℕ) → p * 2 ≤ m → n < p * (q * 2) → n < m * q
    scaled q le h = omega (arith, mul-le-mul_right {m = p * 2} {n = m} q le)

module _ (range : ℤ → Bool) (rank : ℤ → ℤ) (n : ℕ) (last : ℤ) where
  sift_down_lem :
      (i p : ℕ) (ph : Heap)
      → n < p * 2 ^ i
      → Ranks range rank ph.comp
      → ph.num_of_data ≡ pos n
      → IsHollow range rank n p last ph.heap_arr
      → Ends (Sunk range rank n p last ph) (sift_down i last ph p)
  unfolding sift_down
  sift_down_lem zero p ph f r e g = absurd (omega (arith, g.within))
  sift_down_lem (suc i) p ph f r e g =
      let (m, found, ch) = child_lem range rank n p ph r e g.room g.inside g.ranged in
      let here =
        λ (low : (c : ℕ) → 2 ≤ c → c ≤ n → c / 2 ≡ p → rank (at ph.heap_arr c) ≤ℤ rank last).
          leaves p ph g low in
      rw found (elim (ℕ_discrete m 0) [
        | yes z ↦
            let none_left : (m == 0) ≡ true = ground arith in
            rw none_left (here λ c q s u. absurd (omega (arith, ch.nothing z)))
        | no nz ↦
            let (half, two, le) = ch.child nz in
            let some_left : (m == 0) ≡ false = ground arith in
            let (c, compared, below, above) =
              r last (at ph.heap_arr m) g.last_ranged (g.ranged m (omega arith) le) in
            rw
              (
                some_left,
                read-at ph.heap_arr m (omega (arith, g.room)),
                compared,
                leb-not_ltb,
                below,
              )
              (elim (Bool-cases (ltb_ℤ (rank last) (rank (at ph.heap_arr m)))) [
                | inl t ↦ rw t (
                    rw (lt→ltb p (length ph.heap_arr) (omega (arith, g.within, g.room))) (
                      Ends-map _ _ _
                        (sift_down_lem i m _ (deeper n p m i f half) r e
                          (sink range rank n p m last ph.heap_arr g ch nz t))
                        λ res v. record {
                          hollow = v.hollow;
                          low = v.low;
                          comp = v.comp;
                          num = v.num;
                          cells = v.cells ∙ length-set ph.heap_arr p _;
                          same = λ y.
                              v.same y
                              ∙ sink_count n p m last y ph.heap_arr g.room g.inside
                                  (omega (arith, g.inside)) le;
                        }))
                | inr t ↦ rw t (
                    here λ c q s u. omega (
                      arith,
                      ltb_false→le (rank last) (rank (at ph.heap_arr m)) t,
                      ch.greatest nz c q s u,
                    ))
              ])
      ])
    where
      leaves :
          (p : ℕ) (ph : Heap)
          → IsHollow range rank n p last ph.heap_arr
          → ((c : ℕ) → 2 ≤ c → c ≤ n → c / 2 ≡ p → rank (at ph.heap_arr c) ≤ℤ rank last)
          → Ends (Sunk range rank n p last ph) (ok (p, ph))
      leaves p ph g low = (
        (p, ph),
        refl,
        record { hollow = g; low = low; comp = refl; num = refl; cells = refl; same = λ y. refl },
      )

      ltb_false→le : (x y : ℤ) → ltb_ℤ x y ≡ false → y ≤ℤ x
      ltb_false→le x y h = ground arith

minus_one : (z : ℤ) (m : ℕ) → z ≡ pos (suc m) → z -ℤ pos 1 ≡ pos m
unfolding ◌-ℤ◌
minus_one z m e = ground arith

start-IsHollow :
    (range : ℤ → Bool) (rank : ℤ → ℤ) (n : ℕ) (a : List ℤ)
    → IsOrdered rank n a
    → 1 ≤ n
    → n < length a
    → ((c : ℕ) → 1 ≤ c → c ≤ n → range (at a c) ≡ true)
    → IsHollow range rank n 1 (at a n) a
start-IsHollow range rank n a h hn room ranged = record {
  inside = omega arith;
  within = hn;
  room = room;
  edges = λ c p q r s. h c p q;
  bridge = λ c p q r s. absurd (omega arith);
  under = λ s. absurd (omega arith);
  tail_kept = λ s. refl;
  before = λ s. sym s;
  ranged = ranged;
  last_ranged = ranged n hn (omega arith);
}

-- The element that is taken out, and the last cell that is given up.
removed_count :
    (m p : ℕ) (y : ℤ) (a b : List ℤ)
    → suc m < length a
    → suc m < length b
    → 1 ≤ p
    → p ≤ suc m
    → (p < suc m → at b (suc m) ≡ at a (suc m))
    → count_between y (set b p (at a (suc m))) 1 (suc m)
      ≡ count_between y (set a 1 (at a (suc m))) 1 (suc m)
    → count_between y (set b p (at a (suc m))) 1 m + one y (at a 1) ≡ count_between y a 1 (suc m)
unfolding count_between
removed_count m p y a b ha hb hp pm stays same =
    let last = at a (suc m) in
    let tail : at (set b p last) (1 + m) ≡ last =
      ground (arith, at-set b p (1 + m) last (omega arith), stays) in
    omega (
      arith,
      same,
      ap (one y) tail,
      count_between-set a 1 last y 1 (suc m) (omega arith) (omega arith) (omega arith),
    )

-- What `HDelete` gives on a heap of `m + 1` elements.
abbrev pub Deleted : (ℤ → Bool) → (ℤ → ℤ) → ℕ → Heap → ℤ × Heap → Type 0
Deleted range rank m ph (ret, ph') =
    IsHeap range rank m ph'
    × ((y : ℤ) → occurs m y ph' + one y ret ≡ occurs (suc m) y ph)
    × ((c : ℕ) → 1 ≤ c → c ≤ suc m → rank (at ph.heap_arr c) ≤ℤ rank ret)

-- `HDelete` on a heap of `m + 1` elements, at most 99, all of a range on which the comparison
-- returns and orders by a rank: it gives an element that no other outranks, and leaves a heap of
-- the others. The ten rounds of its loop are enough.
pub h_delete-IsHeap :
    (range : ℤ → Bool) (rank : ℤ → ℤ) (m : ℕ) (ph : Heap)
    → IsHeap range rank (suc m) ph
    → m < 99
    → Ends (Deleted range rank m ph) (h_delete ph)
unfolding h_delete
h_delete-IsHeap range rank m ph v room =
    let a = ph.heap_arr in
    let fits : suc m < length a = omega (arith, v.cells) in
    let last = at a (suc m) in
    let start = start-IsHollow range rank (suc m) a v.ordered (omega arith) fits v.ranged in
    let read_last : read a ph.num_of_data ≡ ok last =
      ap (read a) v.counted ∙ read-at a (suc m) fits in
    rw (read-at a 1 (omega arith), read_last)
      (Ends-bind _ _ _ _
        (sift_down_lem range rank (suc m) last 10 1 ph (omega arith) v.ranks v.counted start)
        λ (p, ph') s.
          let g = s.hollow in
          let hp : p < length ph'.heap_arr = omega (arith, g.within, g.room) in
          rw (write-set ph'.heap_arr p last hp) (
            (at a 1, _),
            refl,
            (
              record {
                ranks = rw s.comp v.ranks;
                counted = minus_one ph'.num_of_data m (s.num ∙ v.counted);
                cells = length-set ph'.heap_arr p last ∙ s.cells ∙ v.cells;
                ordered =
                    λ c q r. stop range rank (suc m) p last ph'.heap_arr g s.low c q (omega arith);
                ranged = λ c q r.
                    ground (arith, at-set ph'.heap_arr p c last hp, g.ranged c, g.last_ranged);
              },
              (λ y.
                  removed_count m p y a ph'.heap_arr fits g.room g.inside g.within g.tail_kept
                    (s.same y)),
              λ c q r. root_greatest rank (suc m) a c v.ordered q r,
            ),
          ))
