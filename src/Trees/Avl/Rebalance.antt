-- ===== src/Trees/Avl/Rebalance.antt =====
-- `Rebalance` on a stored tree.
use today_i_learned.Common.{ℕ, suc, ◌<◌, ltb, arith, Bool-cases, inl, inr, refl, ◌≡◌, true, false}
use today_i_learned.Common.Int.{ℤ}
use today_i_learned.Common.Run.{Ends, Ends-bind, Ends-map}
use today_i_learned.Trees.{Ptr, Store}
use today_i_learned.Trees.Access.{get_left-cell, get_right-cell}
use today_i_learned.Trees.Shape.{Tree, leaf, node, root, cell, size, IsStored, IsProper}
use today_i_learned.Trees.Avl.{
  rotate_lr, rotate_rl, rebalance_left, get_height_diff, rebalance_right, rebalance,
}
use today_i_learned.Trees.Avl.Model.{
  max, height, turn_ll, turn_rr, turn_lr, turn_rl, left_heavy, right_heavy, balance,
}
use today_i_learned.Trees.Avl.Height.{
  get_height_diff-height, left_inner, left_test, right_test, right_inner,
}
use today_i_learned.Trees.Avl.Turn.{
  Turned, IsTurned-trans, rotate_ll-IsTurned, rotate_rr-IsTurned, hang_left, hang_right,
  IsTurned-refl,
}

inner_left : (m n k : ℕ) → suc k < suc (max m n) → ltb n m ≡ false → 0 < n
inner_left m n k high inner = ground arith

inner_right : (m n k : ℕ) → suc k < suc (max m n) → ltb m n ≡ false → 0 < m
inner_right m n k high inner = ground arith

of_ltb : (m n : ℕ) → ltb m n ≡ true → m < n
of_ltb m n h = ground arith

rotate_lr-IsTurned :
    (lr ll : Tree) (c : Ptr) (e : ℤ) (a : Ptr) (d : ℤ) (r : Tree) (h : Store)
    → IsStored h (node (node ll c e lr) a d r)
    → IsProper (node (node ll c e lr) a d r)
    → 0 < height lr
    → Ends
        (Turned h (node (node ll c e lr) a d r) (turn_lr (node (node ll c e lr) a d r)))
        (rotate_lr h a)
unfolding rotate_lr turn_lr turn_ll turn_rr
rotate_lr-IsTurned leaf ll c e a d r h s pr high = absurd (omega arith)
rotate_lr-IsTurned (node m b f n) ll c e a d r h s pr high =
    let l = node ll c e (node m b f n) in
    let l' = node (node ll c e m) b f n in
    rw (get_left-cell h a (cell c d (root r)) s.1 s.2) (
      Ends-bind _ _ _ _ (rotate_rr-IsTurned h ll c e m b f n s.0 pr.0) λ (c', h₁) inner.
        Ends-bind _ _ _ _ (hang_left h l a d r s pr l' c' h₁ inner) λ h₂ hooked.
          Ends-map _ _ _
            (rotate_ll-IsTurned h₂ (node ll c e m) b f n a d r hooked.stored hooked.proper)
            λ (p, h₃) turned. IsTurned-trans h h₂ h₃ _ (node l' a d r) _ a p hooked turned)

rotate_rl-IsTurned :
    (rl l : Tree) (a : Ptr) (d : ℤ) (c : Ptr) (e : ℤ) (rr : Tree) (h : Store)
    → IsStored h (node l a d (node rl c e rr))
    → IsProper (node l a d (node rl c e rr))
    → 0 < height rl
    → Ends
        (Turned h (node l a d (node rl c e rr)) (turn_rl (node l a d (node rl c e rr))))
        (rotate_rl h a)
unfolding rotate_rl turn_rl turn_ll turn_rr
rotate_rl-IsTurned leaf l a d c e rr h s pr high = absurd (omega arith)
rotate_rl-IsTurned (node m b f n) l a d c e rr h s pr high =
    let r = node (node m b f n) c e rr in
    let r' = node m b f (node n c e rr) in
    rw (get_right-cell h a (cell (root l) d c) s.1 s.2) (
      Ends-bind _ _ _ _ (rotate_ll-IsTurned h m b f n c e rr s.3 pr.1) λ (c', h₁) inner.
        Ends-bind _ _ _ _ (hang_right h l a d r s pr r' c' h₁ inner) λ h₂ hooked.
          Ends-map _ _ _
            (rotate_rr-IsTurned h₂ l a d m b f (node n c e rr) hooked.stored hooked.proper)
            λ (p, h₃) turned. IsTurned-trans h h₂ h₃ _ (node l a d r') _ a p hooked turned)

rebalance_left-IsTurned :
    (l : Tree) (a : Ptr) (d : ℤ) (r : Tree) (k : ℕ) (h : Store)
    → IsStored h (node l a d r)
    → IsProper (node l a d r)
    → size (node l a d r) < k
    → size (node l a d r) < 2147483648
    → suc (height r) < height l
    → Ends (Turned h (node l a d r) (left_heavy (node l a d r))) (rebalance_left k h a)
unfolding rebalance_left left_heavy turn_ll
rebalance_left-IsTurned leaf a d r k h s pr f b high = absurd (omega arith)
rebalance_left-IsTurned (node ll c e lr) a d r k h s pr f b high =
    rw
      (
        get_left-cell h a (cell c d (root r)) s.1 s.2,
        get_height_diff-height ll c e lr k h s.0 (omega arith) (omega arith),
        left_inner (height ll) (height lr),
      )
      (elim (Bool-cases (ltb (height lr) (height ll))) [
        | inl outer ↦ rw outer (rotate_ll-IsTurned h ll c e lr a d r s pr)
        | inr inner ↦ rw inner (
            rotate_lr-IsTurned lr ll c e a d r h s pr
              (inner_left (height ll) (height lr) (height r) high inner))
      ])

rebalance_right-IsTurned :
    (r l : Tree) (a : Ptr) (d : ℤ) (k : ℕ) (h : Store)
    → IsStored h (node l a d r)
    → IsProper (node l a d r)
    → size (node l a d r) < k
    → size (node l a d r) < 2147483648
    → suc (height l) < height r
    → Ends (Turned h (node l a d r) (right_heavy (node l a d r))) (rebalance_right k h a)
unfolding rebalance_right right_heavy turn_rr
rebalance_right-IsTurned leaf l a d k h s pr f b high = absurd (omega arith)
rebalance_right-IsTurned (node rl c e rr) l a d k h s pr f b high =
    rw
      (
        get_right-cell h a (cell (root l) d c) s.1 s.2,
        get_height_diff-height rl c e rr k h s.3 (omega arith) (omega arith),
        right_inner (height rl) (height rr),
      )
      (elim (Bool-cases (ltb (height rl) (height rr))) [
        | inl outer ↦ rw outer (rotate_rr-IsTurned h l a d rl c e rr s pr)
        | inr inner ↦ rw inner (
            rotate_rl-IsTurned rl l a d c e rr h s pr
              (inner_right (height rl) (height rr) (height l) high inner))
      ])

-- `Rebalance` on a stored tree of fewer than 2^31 nodes returns the root of the stored tree that
-- the rotation for its heights gives, at the same addresses: no rotation meets a null pointer.
-- Nothing else in the store changes.
pub rebalance-IsTurned :
    (t : Tree) (k : ℕ) (h : Store)
    → IsStored h t
    → IsProper t
    → size t < k
    → size t < 2147483648
    → Ends (Turned h t (balance t)) (rebalance k h (root t))
unfolding rebalance balance get_height_diff
rebalance-IsTurned leaf k h s pr f b = ((0, h), refl, IsTurned-refl h leaf s pr)
rebalance-IsTurned (node l a d r) k h s pr f b =
    rw
      (
        get_height_diff-height l a d r k h s f b,
        left_test (height l) (height r),
        right_test (height l) (height r),
      )
      (elim (Bool-cases (ltb (suc (height r)) (height l))) [
        | inl left_high ↦
            rw left_high (rebalance_left-IsTurned l a d r k h s pr f b (of_ltb _ _ left_high))
        | inr left_low ↦ rw left_low (elim (Bool-cases (ltb (suc (height l)) (height r))) [
          | inl right_high ↦
              rw right_high (rebalance_right-IsTurned r l a d k h s pr f b (of_ltb _ _ right_high))
          | inr right_low ↦ rw right_low ((a, h), refl, IsTurned-refl h (node l a d r) s pr)
        ])
      ])
