-- ===== src/Airtel/Table.antt =====
-- The table against the recursion.
use today_i_learned.Common.{
  ℕ, zero, suc, ◌+◌, ◌-◌, ◌<◌, ◌≤◌, ◌≡◌, ◌≢◌, ◌∙◌, ◌==◌, refl, sym, List, arith, length, set,
  length-set, false, true,
}
use today_i_learned.Common.Int.{ℤ, pos}
use today_i_learned.Common.Run.{ok, read, read-set_ne, Ends, Ends-bind}
use today_i_learned.Sorting.Array.{write-set}
use today_i_learned.Airtel.{
  int_max, cheapest, r_airtel_dc, airtel_dc, clear, fill_cell, fill, airtel_dp,
}
use today_i_learned.Airtel.Loop.{
  limit, HasPrices, cheapest-IsPrice, cheapest-same, read-set_self, fill_cell-cheapest,
}
use native.Mathlib.Decide.{ℕ_discrete}

module _ (fares hotels : List ℤ) (fp : HasPrices fares) (hp : HasPrices hotels) where
  -- The costs that the recursion gives for the stops from `s` on stand in the cells up to `j`.
  record IsTable (s j : ℕ) (m : List ℤ) : Type 0 where
    size : length m ≡ 30
    cells :
        (i : ℕ)
        → s ≤ i
        → i < j
        → (n : ℕ) × (read m (pos i) ≡ ok (pos n))
          × (n ≤ limit)
          × ((fuel : ℕ) → i - s < fuel → r_airtel_dc fares hotels fuel s i ≡ ok (pos n))

  first_stop : (fuel s : ℕ) → 0 < fuel → r_airtel_dc fares hotels fuel s s ≡ ok (pos 0)
  unfolding r_airtel_dc
  first_stop zero s f = absurd (omega arith)
  first_stop (suc fuel) s f = let same : (s == s) ≡ true = ground arith in rw same refl

  later_stop :
      (fuel s j : ℕ)
      → s < j
      → r_airtel_dc fares hotels (suc fuel) s j
        ≡ cheapest fares hotels (j - s) (λ k. r_airtel_dc fares hotels fuel s k) s j s int_max
  unfolding r_airtel_dc
  later_stop fuel s j h = let other : (j == s) ≡ false = ground arith in rw other refl

  -- The next cell.
  fill_cell-IsTable :
      (s j : ℕ) (m : List ℤ)
      → s < j
      → j < 30
      → IsTable s j m
      → Ends (IsTable s (suc j)) (fill_cell fares hotels (j - s) s j s (set m j int_max))
  fill_cell-IsTable s j m h bj t =
      let inside : j < length m = rw t.size bj in
      let look = λ (i : ℕ). read m (pos i) in
      let start : look s ≡ ok (pos 0) = begin_at_zero (t.cells s (omega arith) h) in
      let (n, e, b) =
        cheapest-IsPrice fares hotels fp hp look s j bj h start
          (λ i from to. let (x, ex, bx, rest) = t.cells i (omega arith) to in (x, ex, bx)) in
      rw (fill_cell-cheapest fares hotels (j - s) s j s m int_max inside (omega arith), e)
        (
          set m j (pos n),
          refl,
          record {
            size = length-set m j (pos n) ∙ t.size;
            cells = λ i from to. elim (ℕ_discrete i j) [
              | yes here ↦ rw here (
                n,
                read-set_self fares hotels m j (pos n) inside,
                b,
                λ fuel f. by_search fuel n e f,
              )
              | no before ↦
                  let (x, ex, bx, dc) = t.cells i from (omega arith) in
                  (x, read-set_ne m j (pos i) (pos n) (apart i before) ∙ ex, bx, dc)
            ];
          },
        )
    where
      begin_at_zero :
          ((n : ℕ) × (read m (pos s) ≡ ok (pos n))
            × (n ≤ limit)
            × ((fuel : ℕ) → s - s < fuel → r_airtel_dc fares hotels fuel s s ≡ ok (pos n)))
          → read m (pos s) ≡ ok (pos 0)
      begin_at_zero (n, e, b, dc) = e ∙ sym (dc 1 (omega arith)) ∙ first_stop 1 s (omega arith)

      apart : (i : ℕ) → i ≢ j → pos j ≢ pos i
      apart i ne e = ground arith

      by_search :
          (fuel n : ℕ)
          → cheapest fares hotels (j - s) (λ i. read m (pos i)) s j s int_max ≡ ok (pos n)
          → j - s < fuel
          → r_airtel_dc fares hotels fuel s j ≡ ok (pos n)
      by_search zero n e f = absurd (omega arith)
      by_search (suc fuel) n e f =
          later_stop fuel s j h
          ∙ cheapest-same fares hotels (j - s) _ (λ i. read m (pos i)) s j s int_max
              (λ i from to.
                let (x, ex, bx, dc) = t.cells i from (omega arith) in
                dc fuel (omega arith) ∙ sym ex)
          ∙ e

  fill-IsTable :
      (rest s j : ℕ) (m : List ℤ)
      → s < j
      → j + rest ≤ 30
      → IsTable s j m
      → Ends (IsTable s (j + rest)) (fill fares hotels rest s j m)
  unfolding fill
  fill-IsTable zero s j m h bj t = let same : j + 0 ≡ j = omega arith in rw same (m, refl, t)
  fill-IsTable (suc rest) s j m h bj t =
      let inside : j < length m = rw t.size (omega arith) in
      let next : j + suc rest ≡ suc j + rest = omega arith in
      rw (write-set m j int_max inside, next)
        (Ends-bind _ _ _ _ (fill_cell-IsTable s j m h (omega arith) t)
          λ m₂ t₂. fill-IsTable rest s (suc j) m₂ (omega arith) (omega arith) t₂)

  -- The cells that are cleared hold 0, and none is lost.
  abbrev IsCleared : ℕ → List ℤ → Type 0
  IsCleared i m = (length m ≡ 30) × ((k : ℕ) → k < i → read m (pos k) ≡ ok (pos 0))

  clear-IsCleared :
      (rest i : ℕ) (m : List ℤ)
      → i + rest ≤ 30
      → IsCleared i m
      → Ends (IsCleared (i + rest)) (clear fares hotels rest i m)
  unfolding clear
  clear-IsCleared zero i m b c = let same : i + 0 ≡ i = omega arith in rw same (m, refl, c)
  clear-IsCleared (suc rest) i m b c =
      let inside : i < length m = rw c.0 (omega arith) in
      let next : i + suc rest ≡ suc i + rest = omega arith in
      rw (write-set m i (pos 0) inside, next)
        (clear-IsCleared rest (suc i) (set m i (pos 0)) (omega arith) (
          length-set m i (pos 0) ∙ c.0,
          λ k to. elim (ℕ_discrete k i) [
            | yes here ↦ rw here (read-set_self fares hotels m i (pos 0) inside)
            | no before ↦ read-set_ne m i (pos k) (pos 0) (apart k before) ∙ c.1 k (omega arith)
          ],
        ))
    where
      apart : (k : ℕ) → k ≢ i → pos i ≢ pos k
      apart k ne e = ground arith

  -- From a stop to one that is not before it, with prices of at most 500,000,000 in the 30 cells of
  -- both arrays: `airtelDP` on a table of 30 cells returns, without an overflow, the cost that
  -- `airtelDC` returns.
  pub airtel_dp-airtel_dc :
      (s d fuel : ℕ) (m : List ℤ)
      → s ≤ d
      → d < 30
      → length m ≡ 30
      → d - s < fuel
      → Ends
          (λ (cost, m'). airtel_dc fares hotels fuel s d ≡ ok cost)
          (airtel_dp fares hotels s d m)
  unfolding airtel_dp airtel_dc
  airtel_dp-airtel_dc s d fuel m sd bd size f =
      Ends-bind _ _ _ _
        (clear-IsCleared (suc s) 0 m (omega arith) (size, λ k to. absurd (omega arith)))
        λ m₁ c.
          Ends-bind _ _ _ _
            (fill-IsTable (d - s) s (suc s) m₁ (omega arith) (omega arith) (record {
              size = c.0;
              cells = λ i from to.
                  let here : i ≡ s = omega arith in
                  rw here
                    (0, c.1 s (omega arith), omega arith, λ k r. first_stop k s (omega arith));
            }))
            λ m₂ t.
              let (n, e, b, dc) = t.cells d sd (omega arith) in rw e ((pos n, m₂), refl, dc fuel f)
