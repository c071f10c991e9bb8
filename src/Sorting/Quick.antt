-- ===== src/Sorting/Quick.antt =====
-- C++/Datastruct/Sorting/QuickSort.c. An index that its loops take out of the array is undefined
-- behaviour.
use today_i_learned.Common.Run.{or_fault}
use today_i_learned.Common.{
  lt→ltb, lt-get_elem?, ◌∙◌, ℕ, zero, suc, if◌then◌else◌, true, false, ◌≡◌, refl, ap, arith, set,
  get_elem?, some, List, [], ◌∷◌, Option, none, length,
}
use today_i_learned.Common.Int.{ℤ, pos, negsuc, ◌+ℤ◌, ◌-ℤ◌, ltb_ℤ, leb_ℤ}
use today_i_learned.Common.Run.{Run, ok, out_of_fuel, ◌>>=◌, read, write, checked}

unfoldable pub exchange : List ℤ → (idx1 idx2 : ℤ) → Run (List ℤ)
exchange arr idx1 idx2 = do
  tmp ← read arr idx1
  x ← read arr idx2
  arr' ← write arr idx1 x
  write arr' idx2 tmp

-- The loops of `Partition`, on fuel.
unfoldable pub scan_up : ℕ → List ℤ → (pivot low : ℤ) → Run ℤ
scan_up zero arr pivot low = out_of_fuel
scan_up (suc k) arr pivot low = do
  x ← read arr low
  let further : Run ℤ = (do low' ← checked (low +ℤ pos 1); scan_up k arr pivot low')
  if ltb_ℤ x pivot then further else ok low

unfoldable pub scan_down : ℕ → List ℤ → (pivot high : ℤ) → Run ℤ
scan_down zero arr pivot high = out_of_fuel
scan_down (suc k) arr pivot high = do
  x ← read arr high
  let further : Run ℤ = (do high' ← checked (high -ℤ pos 1); scan_down k arr pivot high')
  if ltb_ℤ pivot x then further else ok high

unfoldable pub partition_loop : ℕ → (pivot : ℤ) → List ℤ → (low high : ℤ) → Run (List ℤ × ℤ)
partition_loop zero pivot arr low high = out_of_fuel
partition_loop (suc k) pivot arr low high =
    let around : Run (List ℤ × ℤ) = (do
      low' ← scan_up k arr pivot low
      high' ← scan_down k arr pivot high
      arr' ← if leb_ℤ low' high' then exchange arr low' high' else ok arr
      partition_loop k pivot arr' low' high') in
    if leb_ℤ low high then around else ok (arr, high)

-- The array and the place of the pivot.
unfoldable pub partition : ℕ → List ℤ → (left right : ℤ) → Run (List ℤ × ℤ)
partition k arr left right = do
  low ← checked (left +ℤ pos 1)
  pivot ← read arr left
  (arr', high) ← partition_loop k pivot arr low right
  arr'' ← exchange arr' high left
  ok (arr'', high)

-- On fuel for the depth of the calls and for the loops.
unfoldable pub quick_sort : ℕ → List ℤ → (left right : ℤ) → Run (List ℤ)
quick_sort zero arr left right = out_of_fuel
quick_sort (suc k) arr left right =
    let parts : Run (List ℤ) = (do
      (arr', pivot) ← partition k arr left right
      last ← checked (pivot -ℤ pos 1)
      arr'' ← quick_sort k arr' left last
      next ← checked (pivot +ℤ pos 1)
      quick_sort k arr'' next right) in
    if leb_ℤ left right then parts else ok arr

set-same : (xs : List ℤ) (i : ℕ) {v : ℤ} → get_elem? xs i ≡ some v → set xs i v ≡ xs
set-same [] i h = refl
set-same (x ∷ xs) zero h = ground arith
set-same (x ∷ xs) (suc i) h = ap (λ ys. x ∷ ys) (set-same xs i h)

write-same : (arr : List ℤ) (i v : ℤ) → read arr i ≡ ok v → write arr i v ≡ ok arr
write-same arr (pos n) v h =
    let e = found (get_elem? arr n) h in
    rw (lt→ltb n (length arr) (lt-get_elem? arr n e), set-same arr n e) refl
  where
    found : (o : Option ℤ) → or_fault o ≡ ok v → o ≡ some v
    found (some x) k = cc
    found none k = cc
write-same arr (negsuc n) v h = cc

exchange-same :
    (arr : List ℤ) (i j v : ℤ) → read arr i ≡ ok v → read arr j ≡ ok v → exchange arr i j ≡ ok arr
unfolding exchange
exchange-same arr i j v h k = rw (h, k, write-same arr i v h) (write-same arr j v k)

ltb_ℤ-irrefl : (v : ℤ) → ltb_ℤ v v ≡ false
ltb_ℤ-irrefl v = ground arith

scan_up-stays :
    (k : ℕ) (arr : List ℤ) (v low : ℤ) → read arr low ≡ ok v → scan_up (suc k) arr v low ≡ ok low
unfolding scan_up
scan_up-stays k arr v low l = rw (l, ltb_ℤ-irrefl v) refl

scan_down-stays :
    (k : ℕ) (arr : List ℤ) (v high : ℤ)
    → read arr high ≡ ok v
    → scan_down (suc k) arr v high ≡ ok high
unfolding scan_down
scan_down-stays k arr v high h = rw (h, ltb_ℤ-irrefl v) refl

module _ (arr : List ℤ) (low high v : ℤ) (l : read arr low ≡ ok v) (h : read arr high ≡ ok v)
    (le : leb_ℤ low high ≡ true) where
  -- Where both indices stand on elements equal to the pivot, a round of the loop of `Partition`
  -- changes nothing.
  partition_loop-round :
      (k : ℕ) → partition_loop (suc (suc k)) v arr low high ≡ partition_loop (suc k) v arr low high
  unfolding partition_loop
  partition_loop-round k =
      rw
        (
          le,
          scan_up-stays k arr v low l,
          scan_down-stays k arr v high h,
          le,
          exchange-same arr low high v l h,
        )
        refl

  partition_loop-stays : (k : ℕ) → partition_loop k v arr low high ≡ out_of_fuel
  unfolding partition_loop scan_up
  partition_loop-stays zero = refl
  partition_loop-stays (suc zero) = rw le refl
  partition_loop-stays (suc (suc k)) = partition_loop-round k ∙ partition_loop-stays (suc k)

-- QuickSort does not end, whatever the fuel, on a range of which the first element, the one behind
-- it and the last one are equal.
pub quick_sort-hangs :
    (k : ℕ) (arr : List ℤ) (left low right v : ℤ)
    → checked (left +ℤ pos 1) ≡ ok low
    → leb_ℤ left right ≡ true
    → leb_ℤ low right ≡ true
    → read arr left ≡ ok v
    → read arr low ≡ ok v
    → read arr right ≡ ok v
    → quick_sort k arr left right ≡ out_of_fuel
unfolding quick_sort partition
quick_sort-hangs zero arr left low right v c le le' f l r = refl
quick_sort-hangs (suc k) arr left low right v c le le' f l r =
    rw (le, c, f, partition_loop-stays arr low right v l r le' k) refl
