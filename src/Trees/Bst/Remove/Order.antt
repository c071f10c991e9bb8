-- ===== src/Trees/Bst/Remove/Order.antt =====
-- The order and the values of the trees that `BSTRemove` leaves.
use today_i_learned.Common.{◌≡◌, ◌≢◌, true, arith, refl, false, ◌||◌, if◌then◌else◌}
use today_i_learned.Trees.{Ptr}
use today_i_learned.Trees.Shape.{Tree, leaf, node, Misses}
use today_i_learned.Trees.Bst.Order.{All, All-imp, IsOrdered, All-contains}
use today_i_learned.Trees.Bst.Remove.Model.{least, drop_least, cut, remove, cut_spares, spares}
use today_i_learned.Common.Int.{ℤ, ltb_ℤ, eqb_ℤ}
use today_i_learned.Trees.Bst.Model.{contains}

pub Misses-drop_least : (b : Ptr) (t : Tree) → Misses b t → Misses b (drop_least t)
unfolding drop_least
Misses-drop_least b leaf m = tt
Misses-drop_least b (node leaf a d r) m = m.2
Misses-drop_least b (node (node ll c e lr) a d r) m =
    (Misses-drop_least b (node ll c e lr) m.0, m.1, m.2)

pub Misses-cut :
    (b : Ptr) (l : Tree) (a : Ptr) (r : Tree)
    → Misses b l
    → b ≢ a
    → Misses b r
    → Misses b (cut l a r)
unfolding cut
Misses-cut b leaf a r ml ba mr = mr
Misses-cut b (node ll c e lr) a leaf ml ba mr = ml
Misses-cut b (node ll c e lr) a (node leaf f g rr) ml ba mr = (ml, ba, tt)
Misses-cut b (node ll c e lr) a (node (node j i y i') f g rr) ml ba mr =
    (ml, ba, (Misses-drop_least b (node j i y i') mr.0, mr.1, mr.2))

pub Misses-remove : (b : Ptr) (t : Tree) (x : ℤ) → Misses b t → Misses b (remove t x)
unfolding remove
Misses-remove b leaf x m = tt
Misses-remove b (node l a d r) x m =
    ground (arith, Misses-cut b l a r m.0 m.1 m.2, Misses-remove b l x m.0, Misses-remove b r x m.2)

All-least :
    (P : ℤ → Type 0) (l : Tree) (a : Ptr) (d : ℤ) (r : Tree)
    → All P (node l a d r)
    → P (least l d) × All P (drop_least (node l a d r))
unfolding least drop_least
All-least P leaf a d r h = (h.1, h.2)
All-least P (node ll b e lr) a d r h =
    let (p, rest) = All-least P ll b e lr h.0 in (p, (rest, h.1, h.2))

All-cut : (P : ℤ → Type 0) (l : Tree) (a : Ptr) (r : Tree) → All P l → All P r → All P (cut l a r)
unfolding cut least
All-cut P leaf a r hl hr = hr
All-cut P (node ll c e lr) a leaf hl hr = hl
All-cut P (node ll c e lr) a (node leaf f g rr) hl hr = (hl, hr.1, tt)
All-cut P (node ll c e lr) a (node (node j i y i') f g rr) hl hr =
    let (p, rest) = All-least P j i y i' hr.0 in (hl, p, (rest, hr.1, hr.2))

All-remove : (P : ℤ → Type 0) (t : Tree) (x : ℤ) → All P t → All P (remove t x)
unfolding remove
All-remove P leaf x h = tt
All-remove P (node l a d r) x h =
    ground (arith, All-cut P l a r h.0 h.2, All-remove P l x h.0, All-remove P r x h.2)

lt_trans : (a b c : ℤ) → ltb_ℤ a b ≡ true → ltb_ℤ b c ≡ true → ltb_ℤ a c ≡ true
lt_trans a b c h k = ground arith

-- What is left of a right part is ordered, above its least value.
drop_least-IsOrdered :
    (l : Tree) (a : Ptr) (d : ℤ) (r : Tree)
    → IsOrdered (node l a d r)
    → IsOrdered (drop_least (node l a d r))
      × All (λ y. ltb_ℤ (least l d) y ≡ true) (drop_least (node l a d r))
unfolding least drop_least
drop_least-IsOrdered leaf a d r o = (o.3, o.1)
drop_least-IsOrdered (node ll b e lr) a d r o =
    let (rest, above) = drop_least-IsOrdered ll b e lr o.2 in
    let (below, lower) = All-least (λ y. ltb_ℤ y d ≡ true) ll b e lr o.0 in
    (
      (lower, o.1, rest, o.3),
      (above, below, All-imp _ _ r (λ y h. lt_trans (least ll e) d y below h) o.1),
    )

cut-IsOrdered :
    (l : Tree) (a : Ptr) (d : ℤ) (r : Tree) → IsOrdered (node l a d r) → IsOrdered (cut l a r)
unfolding cut least drop_least
cut-IsOrdered leaf a d r o = o.3
cut-IsOrdered (node ll c e lr) a d leaf o = o.2
cut-IsOrdered (node ll c e lr) a d (node leaf f g rr) o =
    (All-imp _ _ (node ll c e lr) (λ y h. lt_trans y d g h o.1.1) o.0, tt, o.2, tt)
cut-IsOrdered (node ll c e lr) a d (node (node j i y i') f g rr) o =
    let (rest, above) = drop_least-IsOrdered (node j i y i') f g rr o.3 in
    let (more, others) = All-least (λ z. ltb_ℤ d z ≡ true) (node j i y i') f g rr o.1 in
    (All-imp _ _ (node ll c e lr) (λ z h. lt_trans z d (least j y) h more) o.0, above, o.2, rest)

pub remove-IsOrdered : (t : Tree) (x : ℤ) → IsOrdered t → IsOrdered (remove t x)
unfolding remove
remove-IsOrdered leaf x o = tt
remove-IsOrdered (node l a d r) x o = ground (
  arith,
  cut-IsOrdered l a d r o,
  remove-IsOrdered l x o.2,
  remove-IsOrdered r x o.3,
  All-remove (λ y. ltb_ℤ y d ≡ true) l x o.0,
  All-remove (λ y. ltb_ℤ d y ≡ true) r x o.1,
)

contains-least :
    (l : Tree) (a : Ptr) (d : ℤ) (r : Tree) (y : ℤ)
    → contains (node l a d r) y ≡ (eqb_ℤ (least l d) y || contains (drop_least (node l a d r)) y)
unfolding contains least drop_least
contains-least leaf a d r y = ground arith
contains-least (node ll b e lr) a d r y = ground (arith, contains-least ll b e lr y)

contains-cut :
    (l : Tree) (a : Ptr) (r : Tree) (y : ℤ)
    → cut_spares l r ≡ true
    → contains (cut l a r) y ≡ (contains l y || contains r y)
unfolding contains cut cut_spares least drop_least
contains-cut leaf a r y h = refl
contains-cut (node ll c e lr) a leaf y h = ground arith
contains-cut (node ll c e lr) a (node leaf f g leaf) y h = ground arith
contains-cut (node ll c e lr) a (node leaf f g (node j i z i')) y h = cc
contains-cut (node ll c e lr) a (node (node j i z i') f g rr) y h =
    ground (arith, contains-least j i z i' y)

-- The tree without a value, where the removal spares the others.
pub contains-remove :
    (t : Tree) (x y : ℤ)
    → IsOrdered t
    → spares t x ≡ true
    → contains (remove t x) y ≡ (if eqb_ℤ x y then false else contains t y)
unfolding contains remove spares
contains-remove leaf x y o h = ground arith
contains-remove (node l a d r) x y o h =
    let missing_l : eqb_ℤ x y ≡ true → ltb_ℤ x d ≡ false → contains l y ≡ false =
      λ e lt. All-contains _ l y (λ z below. ground arith) o.0 in
    let missing_r : eqb_ℤ x y ≡ true → ltb_ℤ d x ≡ false → contains r y ≡ false =
      λ e lt. All-contains _ r y (λ z above. ground arith) o.1 in
    ground (
      arith,
      contains-cut l a r y,
      contains-remove l x y o.2,
      contains-remove r x y o.3,
      missing_l,
      missing_r,
    )
