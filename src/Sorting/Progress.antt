-- ===== src/Sorting/Progress.antt =====
-- What the sorts by exchange and by selection have in common: the state of the array between the
-- rounds of the outer loop.
use today_i_learned.Common.{ℕ, ◌+◌, ◌≤◌, ◌<◌, ◌≡◌, refl, ◌∙◌, List, length, arith}
use today_i_learned.Sorting.Array.{
  at, swapped, SameItems, length-swapped, swapped-SameItems, Holds, Holds-swapped, IsSortOf,
}
use today_i_learned.Common.Int.{ℤ, ◌≤ℤ◌}
use native.Mathlib.Decide.{dec_lt}

-- The first `i` elements are in order and no greater than those behind them.
abbrev pub IsSplit : ℕ → List ℤ → Type 0
IsSplit i a = (p q : ℕ) → p < i → p ≤ q → q < length a → at a p ≤ℤ at a q

-- Element `m` is the least of those from `i` up to `j`.
abbrev pub IsLeast : (m i j : ℕ) → List ℤ → Type 0
IsLeast m i j a = (q : ℕ) → i ≤ q → q < j → at a m ≤ℤ at a q

pub record Progress (P : ℤ → Type 0) (start a : List ℤ) : Type 0 where
  pub holds : Holds P a
  pub same : SameItems a start
  pub size : length a ≡ length start

pub Progress-swapped :
    (P : ℤ → Type 0) (start a : List ℤ) (i j : ℕ)
    → i < length a
    → j < length a
    → Progress P start a
    → Progress P start (swapped a i j)
Progress-swapped P start a i j hi hj p = record {
  holds = Holds-swapped P a i j hi hj p.holds;
  same = λ x. swapped-SameItems a i j hi hj x ∙ p.same x;
  size = length-swapped a i j hi hj ∙ p.size;
}

pub Progress-refl : (P : ℤ → Type 0) (start : List ℤ) → Holds P start → Progress P start start
Progress-refl P start h = record { holds = h; same = λ x. refl; size = refl }

pub Progress-IsSortOf :
    (P : ℤ → Type 0) (start b : List ℤ) (n : ℕ)
    → length b ≤ n + 1
    → Progress P start b × IsSplit n b
    → IsSortOf start b
Progress-IsSortOf P start b n h r = record {
  sorted = λ p q pq hq. elim (dec_lt p n) [
    | yes x ↦ r.1 p q x pq hq
    | no x ↦ let e : p ≡ q = omega arith in rw e (omega arith)
  ];
  same = r.0.same;
  size = r.0.size;
}
