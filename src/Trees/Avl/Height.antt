-- ===== src/Trees/Avl/Height.antt =====
-- `GetHeight` on a stored tree.
use today_i_learned.Common.{ℕ, zero, suc, ◌<◌, ◌≡◌, refl, arith, ltb, if◌then◌else◌}
use today_i_learned.Common.Int.{ℤ, pos, ◌-ℤ◌, negsuc, ◌+ℤ◌, ltb_ℤ, -ℤ_parts}
use today_i_learned.Common.Run.{ok, checked}
use today_i_learned.Trees.{Store}
use today_i_learned.Trees.Shape.{Tree, leaf, node, root, size, IsStored, eq-null, load-node}
use today_i_learned.Trees.Avl.{get_height, get_height_diff}
use today_i_learned.Trees.Avl.Model.{height, max}

pub height_le : (t : Tree) → height t < suc (size t)
height_le leaf = omega arith
height_le (node l a d r) = ground (arith, height_le l, height_le r)

raised : (n : ℕ) → n < 2147483647 → checked (pos n +ℤ pos 1) ≡ ok (pos (suc n))
unfolding ◌+ℤ◌
raised n b = ground arith

subtracted :
    (m n : ℕ) → m < 2147483648 → n < 2147483648 → checked (pos m -ℤ pos n) ≡ ok (pos m -ℤ pos n)
subtracted m n bm bn = ground (arith, -ℤ_parts (pos m) (pos n))

higher :
    (m n : ℕ)
    → m < 2147483647
    → n < 2147483647
    → (if ltb_ℤ (pos n) (pos m) then checked (pos m +ℤ pos 1) else checked (pos n +ℤ pos 1))
      ≡ ok (pos (suc (max m n)))
higher m n bm bn = rw (raised m bm, raised n bn) (ground arith)

-- A tree on the left, or on the right, that is higher by two or more.
pub left_test : (m n : ℕ) → ltb_ℤ (pos 1) (pos m -ℤ pos n) ≡ ltb (suc n) m
left_test m n = ground (arith, -ℤ_parts (pos m) (pos n))

pub right_test : (m n : ℕ) → ltb_ℤ (pos m -ℤ pos n) (negsuc 0) ≡ ltb (suc m) n
right_test m n = ground (arith, -ℤ_parts (pos m) (pos n))

-- And by one.
pub left_inner : (m n : ℕ) → ltb_ℤ (pos 0) (pos m -ℤ pos n) ≡ ltb n m
left_inner m n = ground (arith, -ℤ_parts (pos m) (pos n))

pub right_inner : (m n : ℕ) → ltb_ℤ (pos m -ℤ pos n) (pos 0) ≡ ltb m n
right_inner m n = ground (arith, -ℤ_parts (pos m) (pos n))

pub get_height-height :
    (t : Tree) (k : ℕ) (h : Store)
    → IsStored h t
    → size t < k
    → size t < 2147483648
    → get_height k h (root t) ≡ ok (pos (height t))
unfolding get_height
get_height-height t zero h s f b = absurd (omega arith)
get_height-height leaf (suc k) h s f b = refl
get_height-height (node l a d r) (suc k) h s f b =
    rw
      (
        eq-null a s.1,
        load-node h l a d r s,
        get_height-height l k h s.0 (omega arith) (omega arith),
        get_height-height r k h s.3 (omega arith) (omega arith),
      )
      (higher (height l) (height r) (below l (omega arith)) (below r (omega arith)))
  where
    below : (t : Tree) → size t < 2147483647 → height t < 2147483647
    below t m = omega (arith, height_le t)

-- The sign is what `Rebalance` looks at.
pub get_height_diff-height :
    (l : Tree) (a : ℕ) (d : ℤ) (r : Tree) (k : ℕ) (h : Store)
    → IsStored h (node l a d r)
    → size (node l a d r) < k
    → size (node l a d r) < 2147483648
    → get_height_diff k h a ≡ ok (pos (height l) -ℤ pos (height r))
unfolding get_height_diff
get_height_diff-height l a d r k h s f b =
    rw
      (
        eq-null a s.1,
        load-node h l a d r s,
        get_height-height l k h s.0 (omega arith) (omega arith),
        get_height-height r k h s.3 (omega arith) (omega arith),
      )
      (subtracted (height l) (height r) (omega (arith, height_le l)) (omega (arith, height_le r)))
