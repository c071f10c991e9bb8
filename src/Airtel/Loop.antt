-- ===== src/Airtel/Loop.antt =====
-- The search for the last flight.
use today_i_learned.Common.{
  ℕ, zero, suc, ◌+◌, ◌-◌, ◌<◌, ◌≤◌, ◌≡◌, ◌∙◌, ◌==◌, refl, List, arith, length, set, length-set,
  true, false, ap, inl, inr, [], ◌∷◌, ltb, Bool-cases, sym, ◌≢◌,
}
use today_i_learned.Common.Int.{ℤ, pos, ◌+ℤ◌}
use today_i_learned.Common.Run.{Run, ok, ◌>>=◌, checked, read, read-set_ne, bind_cong, bind_assoc}
use today_i_learned.Sorting.Array.{write-set}
use today_i_learned.Airtel.{int_max, min, cost_from, cheapest, fill_cell}

-- Three prices fit an `int`.
abbrev pub limit : ℕ
limit = 500000000

abbrev pub IsPrice : Run ℤ → Type 0
IsPrice r = (n : ℕ) × (r ≡ ok (pos n)) × (n ≤ limit)

-- The prices of the 30 cells.
abbrev pub HasPrices : List ℤ → Type 0
HasPrices a = (i : ℕ) → i < 30 → IsPrice (read a (pos i))

sum_fits : (m n : ℕ) → m ≤ limit + limit → n ≤ limit → checked (pos m +ℤ pos n) ≡ ok (pos (m + n))
unfolding ◌+ℤ◌
sum_fits m n bm bn = ground arith

lower : (c x : ℕ) → c ≤ limit → (n : ℕ) × (min (pos c) (pos x) ≡ pos n) × (n ≤ limit)
lower c x b = elim (Bool-cases (ltb x c)) [
  | inl less ↦ (x, ground arith, ground arith)
  | inr more ↦ (c, ground arith, b)
]

module _ (fares hotels : List ℤ) (fp : HasPrices fares) (hp : HasPrices hotels) where
  direct_cost : (s d : ℕ) → d < 30 → s < d → IsPrice (cost_from fares hotels s d s (pos 0))
  unfolding cost_from
  direct_cost s d bd h =
      let (fare, e, b) = fp (d - s) (omega arith) in
      let same : (s == s) ≡ true = ground arith in
      (fare, rw (same, e) (sum_fits 0 fare (omega arith) b ∙ ap (λ n. ok (pos n)) (omega arith)), b)

  stay_cost :
      (s d k n : ℕ)
      → d < 30
      → s < k
      → k < d
      → n ≤ limit
      → (c : ℕ) × (cost_from fares hotels s d k (pos n) ≡ ok (pos c))
  unfolding cost_from
  stay_cost s d k n bd sk kd bn =
      let (fare, e, b) = fp (d - k) (omega arith) in
      let (hotel, e', b') = hp k (omega arith) in
      let other : (k == s) ≡ false = ground arith in
      (
        n + hotel + fare,
        rw (other, e', sum_fits n hotel (omega arith) b', e)
            (sum_fits (n + hotel) fare (omega arith) b),
      )

  -- The later rounds, from a price.
  later_rounds :
      (rest : ℕ) (call : ℕ → Run ℤ) (s d k c : ℕ)
      → d < 30
      → s < k
      → k + rest ≤ d
      → ((i : ℕ) → k ≤ i → i < k + rest → IsPrice (call i))
      → c ≤ limit
      → IsPrice (cheapest fares hotels rest call s d k (pos c))
  unfolding cheapest
  later_rounds zero call s d k c bd sk kd prices bc = (c, refl, bc)
  later_rounds (suc rest) call s d k c bd sk kd prices bc =
      let (n, e, bn) = prices k (omega arith) (omega arith) in
      let (x, e') = stay_cost s d k n bd sk (omega arith) bn in
      let (y, low, by) = lower c x bc in
      rw (e, e', low)
        (later_rounds rest call s d (suc k) y bd (omega arith) (omega arith)
          (λ i from to. prices i (omega arith) (omega arith)) by)

  -- All of them.
  pub cheapest-IsPrice :
      (call : ℕ → Run ℤ) (s d : ℕ)
      → d < 30
      → s < d
      → call s ≡ ok (pos 0)
      → ((i : ℕ) → s < i → i < d → IsPrice (call i))
      → IsPrice (cheapest fares hotels (d - s) call s d s int_max)
  unfolding cheapest
  cheapest-IsPrice call s d bd h start prices =
      let rounds : d - s ≡ suc (d - s - 1) = omega arith in rw rounds (go (d - s - 1) (omega arith))
    where
      go :
          (rest : ℕ)
          → suc s + rest ≡ d
          → IsPrice (cheapest fares hotels (suc rest) call s d s int_max)
      go rest e =
          let (fare, e', b) = direct_cost s d bd h in
          let low : min int_max (pos fare) ≡ pos fare = ground arith in
          rw (start, e', low)
            (later_rounds rest call s d (suc s) fare bd (omega arith) (omega arith)
              (λ i from to. prices i (omega arith) (omega arith)) b)

module _ (fares hotels : List ℤ) where
  -- The search asks for the costs from its start on only.
  pub cheapest-same :
      (rest : ℕ) (call call' : ℕ → Run ℤ) (s d k : ℕ) (c : ℤ)
      → ((i : ℕ) → k ≤ i → i < k + rest → call i ≡ call' i)
      → cheapest fares hotels rest call s d k c ≡ cheapest fares hotels rest call' s d k c
  unfolding cheapest
  cheapest-same zero call call' s d k c same = refl
  cheapest-same (suc rest) call call' s d k c same = rw (same k (omega arith) (omega arith)) (
      bind_cong (call' k) λ before. bind_cong (cost_from fares hotels s d k before) λ cost.
        cheapest-same rest call call' s d (suc k) (min c cost)
          (λ i from to. same i (omega arith) (omega arith)))

  set-set : (m : List ℤ) (j : ℕ) (v w : ℤ) → set (set m j v) j w ≡ set m j w
  set-set [] j v w = refl
  set-set (x ∷ m) zero v w = refl
  set-set (x ∷ m) (suc j) v w = rw (set-set m j v w) refl

  pub read-set_self : (m : List ℤ) (j : ℕ) (v : ℤ) → j < length m → read (set m j v) (pos j) ≡ ok v
  read-set_self [] j v h = absurd (omega arith)
  read-set_self (x ∷ m) zero v h = refl
  read-set_self (x ∷ m) (suc j) v h = read-set_self m j v (omega arith)

  -- The table's loop for a cell is the search over the table.
  pub fill_cell-cheapest :
      (rest : ℕ) (s j k : ℕ) (m : List ℤ) (c : ℤ)
      → j < length m
      → k + rest ≤ j
      → fill_cell fares hotels rest s j k (set m j c)
        ≡ (cheapest fares hotels rest (λ i. read m (pos i)) s j k c >>= λ v. ok (set m j v))
  unfolding fill_cell cheapest
  fill_cell-cheapest zero s j k m c h kj = refl
  fill_cell-cheapest (suc rest) s j k m c h kj =
      let inside : j < length (set m j c) = rw length-set h in
      let out : List ℤ → ℤ → Run (List ℤ) = λ m' v. ok (set m' j v) in
      rw (read-set_ne m j (pos k) c (other j k (omega arith))) (
        bind_cong (read m (pos k)) (λ before.
          bind_cong (cost_from fares hotels s j k before) (λ cost.
            rw
              (
                read-set_self m j c h,
                write-set (set m j c) j (min c cost) inside,
                set-set m j c (min c cost),
              )
              (fill_cell-cheapest rest s j (suc k) m (min c cost) h (omega arith)))
          ∙ sym (bind_assoc (cost_from fares hotels s j k before) _ (out m)))
        ∙ sym (bind_assoc (read m (pos k)) _ (out m)))
    where
      other : (j k : ℕ) → k < j → pos j ≢ pos k
      other j k h e = ground arith
