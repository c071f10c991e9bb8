-- ===== src/Trees/Bst/Proper.antt =====
-- No address occurs twice in a tree with a node inserted.
use today_i_learned.Common.{◌≢◌, sym, inl, inr, Bool-cases}
use today_i_learned.Trees.{Ptr}
use today_i_learned.Trees.Shape.{Tree, leaf, node, Misses, Apart, IsProper, Apart-sym}
use today_i_learned.Trees.Bst.Model.{insert}
use today_i_learned.Common.Int.{ℤ, eqb_ℤ, ltb_ℤ}

Misses-insert :
    (b : Ptr) (t : Tree) (x : ℤ) (p : Ptr) → b ≢ p → Misses b t → Misses b (insert t x p)
unfolding insert
Misses-insert b leaf x p ne m = (tt, ne, tt)
Misses-insert b (node l a d r) x p ne m = elim (Bool-cases (eqb_ℤ d x)) [
  | inl same ↦ rw same m
  | inr other ↦ rw other (elim (Bool-cases (ltb_ℤ d x)) [
    | inl low ↦ rw low (m.0, m.1, Misses-insert b r x p ne m.2)
    | inr high ↦ rw high (Misses-insert b l x p ne m.0, m.1, m.2)
  ])
]

Apart-insert : (u t : Tree) (x : ℤ) (p : Ptr) → Apart u t → Misses p u → Apart u (insert t x p)
Apart-insert leaf t x p a m = tt
Apart-insert (node l b d r) t x p a m = (
  Apart-insert l t x p a.0 m.0,
  Misses-insert b t x p (λ e. m.1 (sym e)) a.1,
  Apart-insert r t x p a.2 m.2,
)

pub insert-IsProper :
    (t : Tree) (x : ℤ) (p : Ptr) → IsProper t → Misses p t → IsProper (insert t x p)
unfolding insert
insert-IsProper leaf x p pr m = (tt, tt, tt, tt, tt)
insert-IsProper (node l a d r) x p pr m = elim (Bool-cases (eqb_ℤ d x)) [
  | inl same ↦ rw same pr
  | inr other ↦ rw other (elim (Bool-cases (ltb_ℤ d x)) [
    | inl low ↦ rw low (
      pr.0,
      insert-IsProper r x p pr.1 m.2,
      pr.2,
      Misses-insert a r x p (λ e. m.1 (sym e)) pr.3,
      Apart-insert l r x p pr.4 m.0,
    )
    | inr high ↦ rw high (
      insert-IsProper l x p pr.0 m.0,
      pr.1,
      Misses-insert a l x p (λ e. m.1 (sym e)) pr.2,
      pr.3,
      Apart-sym r (insert l x p) (Apart-insert r l x p (Apart-sym l r pr.4) m.2),
    )
  ])
]
