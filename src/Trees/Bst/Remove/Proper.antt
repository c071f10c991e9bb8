-- ===== src/Trees/Bst/Remove/Proper.antt =====
-- No address occurs twice in the trees that `BSTRemove` leaves.
use today_i_learned.Common.{inl, inr, Bool-cases}
use today_i_learned.Trees.{Ptr}
use today_i_learned.Trees.Shape.{Tree, leaf, node, Misses, Apart, Apart-leaf, Apart-sym, IsProper}
use today_i_learned.Trees.Bst.Remove.Model.{drop_least, cut, remove}
use today_i_learned.Trees.Bst.Remove.Order.{Misses-drop_least, Misses-remove}
use today_i_learned.Common.Int.{ℤ, eqb_ℤ, ltb_ℤ}

-- A tree with fewer addresses is apart from what the other was apart from.
pub Apart-fewer : (u t t' : Tree) → ((b : Ptr) → Misses b t → Misses b t') → Apart u t → Apart u t'
Apart-fewer leaf t t' f a = tt
Apart-fewer (node l b d r) t t' f a = (Apart-fewer l t t' f a.0, f b a.1, Apart-fewer r t t' f a.2)

drop_least-IsProper : (t : Tree) → IsProper t → IsProper (drop_least t)
unfolding drop_least
drop_least-IsProper leaf p = tt
drop_least-IsProper (node leaf a d r) p = p.1
drop_least-IsProper (node (node ll b e lr) a d r) p =
    let l = node ll b e lr in
    (
      drop_least-IsProper (node ll b e lr) p.0,
      p.1,
      Misses-drop_least a l p.2,
      p.3,
      Apart-sym r (drop_least l)
          (Apart-fewer r l (drop_least l) (λ q m. Misses-drop_least q l m) (Apart-sym l r p.4)),
    )

cut-IsProper :
    (l : Tree) (a : Ptr) (d : ℤ) (r : Tree) → IsProper (node l a d r) → IsProper (cut l a r)
unfolding cut drop_least
cut-IsProper leaf a d r p = p.1
cut-IsProper (node ll c e lr) a d leaf p = p.0
cut-IsProper (node ll c e lr) a d (node leaf f g rr) p =
    (p.0, tt, p.2, tt, Apart-leaf (node ll c e lr))
cut-IsProper (node ll c e lr) a d (node (node j i y i') f g rr) p =
    let r = node (node j i y i') f g rr in
    (
      p.0,
      drop_least-IsProper r p.1,
      p.2,
      Misses-drop_least a r p.3,
      Apart-fewer (node ll c e lr) r (drop_least r) (λ q m. Misses-drop_least q r m) p.4,
    )

pub remove-IsProper : (t : Tree) (x : ℤ) → IsProper t → IsProper (remove t x)
unfolding remove
remove-IsProper leaf x p = tt
remove-IsProper (node l a d r) x p = elim (Bool-cases (eqb_ℤ d x)) [
  | inl same ↦ rw same (cut-IsProper l a d r p)
  | inr other ↦ rw other (elim (Bool-cases (ltb_ℤ x d)) [
    | inl low ↦ rw low (
      remove-IsProper l x p.0,
      p.1,
      Misses-remove a l x p.2,
      p.3,
      Apart-sym r (remove l x)
          (Apart-fewer r l (remove l x) (λ q m. Misses-remove q l x m) (Apart-sym l r p.4)),
    )
    | inr high ↦ rw high (
      p.0,
      remove-IsProper r x p.1,
      p.2,
      Misses-remove a r x p.3,
      Apart-fewer l r (remove r x) (λ q m. Misses-remove q r x m) p.4,
    )
  ])
]
