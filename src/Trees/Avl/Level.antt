-- ===== src/Trees/Avl/Level.antt =====
-- The heights in a tree that turns.
use today_i_learned.Common.{
  ℕ, suc, ◌≡◌, ◌≢◌, ◌≤◌, arith, ltb, Bool-cases, inl, inr, true, false, ◌<◌,
}
use today_i_learned.Common.Int.{ℤ}
use today_i_learned.Common.Run.{Ends, Ends-map}
use today_i_learned.Trees.Avl.{rebalance}
use today_i_learned.Trees.Avl.Rebalance.{rebalance-IsTurned}
use today_i_learned.Trees.{Ptr, Store}
use today_i_learned.Trees.Avl.Order.{Turns, balance-Turns}
use today_i_learned.Trees.Shape.{Misses, Tree, leaf, node, root, size, IsStored, IsProper}
use today_i_learned.Trees.Avl.Model.{
  height, turn_ll, turn_rr, turn_lr, left_heavy, max, turn_rl, right_heavy, balance,
}

-- The heights of two children differ by one at most.
abbrev pub IsLevel : ℕ → ℕ → Type 0
IsLevel m n = (m ≤ suc n) × (n ≤ suc m)

abbrev pub IsBalanced : Tree → Type 0
IsBalanced leaf = Unit {0}
IsBalanced (node l a d r) = IsBalanced l × IsBalanced r × IsLevel (height l) (height r)

-- A tree whose children have different heights, if it has any.
abbrev pub IsUneven : Tree → Type 0
IsUneven leaf = Unit {0}
IsUneven (node l a d r) = height l ≢ height r

-- A single and a double rotation, in heights: of the outer and the inner part of the high child,
-- and of the low child.
outer_levels :
    (x y z : ℕ)
    → ltb y x ≡ true
    → IsLevel x y
    → suc (max x y) ≡ suc (suc z)
    → IsLevel y z × IsLevel x (suc (max y z))
outer_levels x y z high level e = ground arith

inner_levels :
    (x m n z : ℕ)
    → ltb (suc (max m n)) x ≡ false
    → x ≢ suc (max m n)
    → IsLevel x (suc (max m n))
    → IsLevel m n
    → suc (max x (suc (max m n))) ≡ suc (suc z)
    → IsLevel x m × IsLevel n z × IsLevel (suc (max x m)) (suc (max n z))
inner_levels x m n z low uneven level inside e = ground arith

left_heavy-IsBalanced :
    (l : Tree) (a : Ptr) (d : ℤ) (r : Tree)
    → IsBalanced l
    → IsBalanced r
    → IsUneven l
    → height l ≡ suc (suc (height r))
    → IsBalanced (left_heavy (node l a d r))
unfolding left_heavy turn_ll turn_lr turn_rr
left_heavy-IsBalanced leaf a d r bl br u e = absurd (omega arith)
left_heavy-IsBalanced (node x c f y) a d z bl br u e =
    elim (Bool-cases (ltb (height y) (height x))) [
      | inl outer ↦
          let (yz, x_yz) = outer_levels (height x) (height y) (height z) outer bl.2 e in
          rw outer (bl.0, (bl.1, br, yz), x_yz)
      | inr inner ↦ rw inner (turned y bl u e inner)
    ]
  where
    turned :
        (y : Tree)
        → IsBalanced (node x c f y)
        → height x ≢ height y
        → height (node x c f y) ≡ suc (suc (height z))
        → ltb (height y) (height x) ≡ false
        → IsBalanced (turn_lr (node (node x c f y) a d z))
    turned leaf bl u e inner = absurd (ground arith)
    turned (node m i g n) bl u e inner =
        let (xm, nz, all) =
          inner_levels (height x) (height m) (height n) (height z) inner u bl.2 bl.1.2 e in
        ((bl.0, bl.1.0, xm), (bl.1.1, br, nz), all)

right_heavy-IsBalanced :
    (r l : Tree) (a : Ptr) (d : ℤ)
    → IsBalanced l
    → IsBalanced r
    → IsUneven r
    → height r ≡ suc (suc (height l))
    → IsBalanced (right_heavy (node l a d r))
unfolding right_heavy turn_rr turn_rl turn_ll
right_heavy-IsBalanced leaf l a d bl br u e = absurd (omega arith)
right_heavy-IsBalanced (node y c f x) z a d bz br u e =
    elim (Bool-cases (ltb (height y) (height x))) [
      | inl outer ↦
          let (zy, zy_x) = outer_mirror (height x) (height y) (height z) outer br.2 e in
          rw outer ((bz, br.0, zy), br.1, zy_x)
      | inr inner ↦ rw inner (turned y br u e inner)
    ]
  where
    outer_mirror :
        (x y z : ℕ)
        → ltb y x ≡ true
        → IsLevel y x
        → suc (max y x) ≡ suc (suc z)
        → IsLevel z y × IsLevel (suc (max z y)) x
    outer_mirror x y z high level e = ground arith

    inner_mirror :
        (x m n z : ℕ)
        → ltb (suc (max m n)) x ≡ false
        → suc (max m n) ≢ x
        → IsLevel (suc (max m n)) x
        → IsLevel m n
        → suc (max (suc (max m n)) x) ≡ suc (suc z)
        → IsLevel z m × IsLevel n x × IsLevel (suc (max z m)) (suc (max n x))
    inner_mirror x m n z low uneven level inside e = ground arith

    turned :
        (y : Tree)
        → IsBalanced (node y c f x)
        → height y ≢ height x
        → height (node y c f x) ≡ suc (suc (height z))
        → ltb (height y) (height x) ≡ false
        → IsBalanced (turn_rl (node z a d (node y c f x)))
    turned leaf br u e inner = absurd (ground arith)
    turned (node m i g n) br u e inner =
        let (zm, nx, all) =
          inner_mirror (height x) (height m) (height n) (height z) inner u br.2 br.0.2 e in
        ((bz, br.0.0, zm), (br.0.1, br.1, nx), all)

-- The rotation for a tree with balanced children, whose heights differ by two at most and which are
-- uneven themselves where they differ by two, gives a balanced tree.
pub balance-IsBalanced :
    (l : Tree) (a : Ptr) (d : ℤ) (r : Tree)
    → IsBalanced l
    → IsBalanced r
    → height l ≤ suc (suc (height r))
    → height r ≤ suc (suc (height l))
    → (height l ≡ suc (suc (height r)) → IsUneven l)
    → (height r ≡ suc (suc (height l)) → IsUneven r)
    → IsBalanced (balance (node l a d r))
unfolding balance
balance-IsBalanced l a d r bl br hl hr ul ur = elim (Bool-cases (ltb (suc (height r)) (height l))) [
  | inl left_high ↦ rw left_high (
      left_heavy-IsBalanced l a d r bl br (ul (exact (height l) (height r) hl left_high))
        (exact (height l) (height r) hl left_high))
  | inr left_low ↦ rw left_low (elim (Bool-cases (ltb (suc (height l)) (height r))) [
    | inl right_high ↦ rw right_high (
        right_heavy-IsBalanced r l a d bl br (ur (exact (height r) (height l) hr right_high))
          (exact (height r) (height l) hr right_high))
    | inr right_low ↦ rw right_low (bl, br, between (height l) (height r) left_low right_low)
  ])
]
  where
    exact : (m n : ℕ) → m ≤ suc (suc n) → ltb (suc n) m ≡ true → m ≡ suc (suc n)
    exact m n h k = ground arith

    between : (m n : ℕ) → ltb (suc n) m ≡ false → ltb (suc m) n ≡ false → IsLevel m n
    between m n h k = ground arith

-- A balanced tree at `p`, of the nodes of `t`, which comes from `t` by rotations. Nothing else in
-- the store has changed.
abbrev pub IsLeveled : Store → Tree → Ptr × Store → Type 0
IsLeveled h₀ t (p, h) =
    (t' : Tree) × (p ≡ root t')
    × IsStored h t'
    × IsProper t'
    × Turns t t'
    × IsBalanced t'
    × ((b : Ptr) → Misses b t → h b ≡ h₀ b)

-- `Rebalance` on a stored tree of fewer than 2^31 nodes with balanced children, whose heights differ
-- by two at most, where a child that is higher by two has no children of equal height: it returns
-- the root of a balanced tree that comes from the tree by rotations of its nodes, and changes
-- nothing else in the store.
pub rebalance-IsBalanced :
    (l : Tree) (a : Ptr) (d : ℤ) (r : Tree) (k : ℕ) (h : Store)
    → IsStored h (node l a d r)
    → IsProper (node l a d r)
    → size (node l a d r) < k
    → size (node l a d r) < 2147483648
    → IsBalanced l
    → IsBalanced r
    → height l ≤ suc (suc (height r))
    → height r ≤ suc (suc (height l))
    → (height l ≡ suc (suc (height r)) → IsUneven l)
    → (height r ≡ suc (suc (height l)) → IsUneven r)
    → Ends (IsLeveled h (node l a d r)) (rebalance k h a)
rebalance-IsBalanced l a d r k h s pr f b bl br hl hr ul ur =
    Ends-map _ _ _ (rebalance-IsTurned (node l a d r) k h s pr f b) λ (p, h') turned. (
      balance (node l a d r),
      turned.at_root,
      turned.stored,
      turned.proper,
      balance-Turns (node l a d r),
      balance-IsBalanced l a d r bl br hl hr ul ur,
      turned.frame,
    )
