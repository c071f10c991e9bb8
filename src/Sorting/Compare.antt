-- ===== src/Sorting/Compare.antt =====
-- The comparison that BubbleSort.c, SelectionSort.c and insertSort.c hand to their sorts, and what
-- a sort needs of one: on the values at hand it returns, with the sign of the difference.
use today_i_learned.Common.{◌^◌, ◌≤◌, ◌<◌, ◌≡◌, arith}
use today_i_learned.Common.Int.{ℤ, pos, pos_part, neg_part, ◌-ℤ◌, ltb_ℤ}
use today_i_learned.Common.Run.{Run, checked, Ends}

unfoldable pub compare_int : ℤ → ℤ → Run ℤ
compare_int d1 d2 = checked (d2 -ℤ d1)

abbrev pub Comparison : Type 0
Comparison = ℤ → ℤ → Run ℤ

abbrev pub IsExact : (ℤ → Type 0) → Comparison → Type 0
IsExact P cp = (a b : ℤ) → P a → P b → Ends (λ v. ltb_ℤ v (pos 0) ≡ ltb_ℤ b a) (cp a b)

-- Between -2^30 and 2^30 - 1 the difference of two values does not overflow.
abbrev pub IsHalf : ℤ → Type 0
IsHalf z = (pos_part z < 2 ^ 30) × (neg_part z ≤ 2 ^ 30)

pub compare_int-IsExact : IsExact IsHalf compare_int
unfolding compare_int ◌-ℤ◌
compare_int-IsExact a b ha hb = (b -ℤ a, ground arith, ground arith)
