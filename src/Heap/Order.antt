-- ===== src/Heap/Order.antt =====
-- The order of a heap. `rank` is the priority that the heap's function compares.
use today_i_learned.Common.Run.{Run, ok}
use today_i_learned.Common.{Bool, true, ℕ, zero, suc, ◌/◌, ◌≤◌, ◌<◌, ◌≡◌, List, arith, length}
use today_i_learned.Heap.{Heap}
use today_i_learned.Sorting.Between.{count_between}
use today_i_learned.Sorting.Array.{at}
use today_i_learned.Common.Int.{ℤ, pos, ◌≤ℤ◌, ltb_ℤ}
use native.Mathlib.Decide.{dec_lt}

-- On elements of the range the function returns, and orders them by their ranks.
abbrev pub Ranks : (range : ℤ → Bool) (rank : ℤ → ℤ) → (ℤ → ℤ → Run ℤ) → Type 0
Ranks range rank comp =
    (a b : ℤ)
    → range a ≡ true
    → range b ≡ true
    → (c : ℤ) × (comp a b ≡ ok c)
      × (ltb_ℤ c (pos 0) ≡ ltb_ℤ (rank a) (rank b))
      × (ltb_ℤ (pos 0) c ≡ ltb_ℤ (rank b) (rank a))

-- Each of the cells up to `n` has no higher priority than its parent.
abbrev pub IsOrdered : (ℤ → ℤ) → ℕ → List ℤ → Type 0
IsOrdered rank n a = (c : ℕ) → 2 ≤ c → c ≤ n → rank (at a c) ≤ℤ rank (at a (c / 2))

-- A heap of `n` elements of the range, in an array of 100 cells.
pub record IsHeap (range : ℤ → Bool) (rank : ℤ → ℤ) (n : ℕ) (ph : Heap) : Type 0 where
  pub ranks : Ranks range rank ph.comp
  pub counted : ph.num_of_data ≡ pos n
  pub cells : length ph.heap_arr ≡ 100
  pub ordered : IsOrdered rank n ph.heap_arr
  pub ranged : (c : ℕ) → 1 ≤ c → c ≤ n → range (at ph.heap_arr c) ≡ true

-- How often a value is in a heap of `n` elements.
abbrev pub occurs : ℕ → ℤ → Heap → ℕ
occurs n x ph = count_between x ph.heap_arr 1 n

root_greatest_below :
    (k : ℕ) (rank : ℤ → ℤ) (n : ℕ) (a : List ℤ) (c : ℕ)
    → IsOrdered rank n a
    → c < k
    → 1 ≤ c
    → c ≤ n
    → rank (at a c) ≤ℤ rank (at a 1)
root_greatest_below zero rank n a c h f p q = absurd (omega arith)
root_greatest_below (suc k) rank n a c h f p q = elim (dec_lt c 2) [
  | yes small ↦ let e : c ≡ 1 = omega arith in rw e (omega arith)
  | no large ↦ omega (
    arith,
    h c (omega arith) q,
    root_greatest_below k rank n a (c / 2) h (omega arith) (omega arith) (omega arith),
  )
]

pub root_greatest :
    (rank : ℤ → ℤ) (n : ℕ) (a : List ℤ) (c : ℕ)
    → IsOrdered rank n a
    → 1 ≤ c
    → c ≤ n
    → rank (at a c) ≤ℤ rank (at a 1)
root_greatest rank n a c h p q = root_greatest_below (suc c) rank n a c h (omega arith) p q
