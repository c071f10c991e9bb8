-- ===== src/Airtel.antt =====
-- C++/Algorithm/Assignment/Assignment5.c: the cheapest journey from one stop to a later one, by
-- recursion and by a table. The arrays `A`, `H` and `m` of 30 integers are lists; stops are numbers,
-- and the parameter `n` of the functions, which they do not use, is left out.
pub mod Loop
pub mod Table
mod Tests
use today_i_learned.Common.{ℕ, zero, suc, ◌-◌, ◌==◌, if◌then◌else◌, List}
use today_i_learned.Common.Int.{ℤ, pos, ◌+ℤ◌, ltb_ℤ}
use today_i_learned.Common.Run.{Run, ok, out_of_fuel, ◌>>=◌, checked, read, write}

abbrev pub int_max : ℤ
int_max = pos 2147483647

abbrev pub min : ℤ → ℤ → ℤ
min a b = if ltb_ℤ b a then b else a

module _ (fares hotels : List ℤ) where
  -- The cost of a journey whose last flight starts at `k`, from the cost up to there.
  unfoldable pub cost_from : (s d k : ℕ) → (before : ℤ) → Run ℤ
  cost_from s d k before =
      let direct : Run ℤ = (do fare ← read fares (pos (d - k)); checked (before +ℤ fare)) in
      let staying : Run ℤ = (do
        hotel ← read hotels (pos k)
        stayed ← checked (before +ℤ hotel)
        fare ← read fares (pos (d - k))
        checked (stayed +ℤ fare)) in
      if k == s then direct else staying

  -- The `for` of `rAirtelDC`, with `rest` rounds to go.
  unfoldable pub cheapest : (rest : ℕ) → (call : ℕ → Run ℤ) → (s d k : ℕ) → (min_cost : ℤ) → Run ℤ
  cheapest zero call s d k min_cost = ok min_cost
  cheapest (suc rest) call s d k min_cost = do
    before ← call k
    cost ← cost_from s d k before
    cheapest rest call s d (suc k) (min min_cost cost)

  -- On fuel.
  unfoldable pub r_airtel_dc : ℕ → (s d : ℕ) → Run ℤ
  r_airtel_dc zero s d = out_of_fuel
  r_airtel_dc (suc fuel) s d =
      let search = cheapest (d - s) (λ k. r_airtel_dc fuel s k) s d s int_max in
      if d == s then ok (pos 0) else search

  unfoldable pub airtel_dc : ℕ → (s d : ℕ) → Run ℤ
  airtel_dc fuel s d = r_airtel_dc fuel s d

  -- The first `for` of `airtelDP`.
  unfoldable pub clear : (rest i : ℕ) → List ℤ → Run (List ℤ)
  clear zero i m = ok m
  clear (suc rest) i m = do m' ← write m (pos i) (pos 0); clear rest (suc i) m'

  -- The `for` on `k`.
  unfoldable pub fill_cell : (rest : ℕ) → (s j k : ℕ) → List ℤ → Run (List ℤ)
  fill_cell zero s j k m = ok m
  fill_cell (suc rest) s j k m = do
    before ← read m (pos k)
    cost ← cost_from s j k before
    old ← read m (pos j)
    m' ← write m (pos j) (min old cost)
    fill_cell rest s j (suc k) m'

  -- The `for` on `j`.
  unfoldable pub fill : (rest : ℕ) → (s j : ℕ) → List ℤ → Run (List ℤ)
  fill zero s j m = ok m
  fill (suc rest) s j m = do
    m₁ ← write m (pos j) int_max
    m₂ ← fill_cell (j - s) s j s m₁
    fill rest s (suc j) m₂

  unfoldable pub airtel_dp : (s d : ℕ) → List ℤ → Run (ℤ × List ℤ)
  airtel_dp s d m = do
    m₁ ← clear (suc s) 0 m
    m₂ ← fill (d - s) s (suc s) m₁
    cost ← read m₂ (pos d)
    ok (cost, m₂)
