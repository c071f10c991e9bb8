-- ===== src/Trees/Bst/Order.antt =====
-- The order of a search tree.
use today_i_learned.Common.{ℕ, ◌≡◌, refl, arith, true, false, ◌||◌}
use today_i_learned.Trees.Shape.{Tree, leaf, node}
use today_i_learned.Trees.Bst.Model.{insert, contains}
use today_i_learned.Common.Int.{ℤ, eqb_ℤ, ltb_ℤ}

abbrev pub All : (ℤ → Type 0) → Tree → Type 0
All P leaf = Unit {0}
All P (node l a d r) = All P l × P d × All P r

abbrev pub IsOrdered : Tree → Type 0
IsOrdered leaf = Unit {0}
IsOrdered (node l a d r) =
    All (λ x. ltb_ℤ x d ≡ true) l × All (λ x. ltb_ℤ d x ≡ true) r × IsOrdered l × IsOrdered r

pub All-imp : (P Q : ℤ → Type 0) (t : Tree) → ((x : ℤ) → P x → Q x) → All P t → All Q t
All-imp P Q leaf f h = tt
All-imp P Q (node l a d r) f (hl, hd, hr) = (All-imp P Q l f hl, f d hd, All-imp P Q r f hr)

All-insert : (P : ℤ → Type 0) (t : Tree) (x : ℤ) (p : ℕ) → P x → All P t → All P (insert t x p)
unfolding insert
All-insert P leaf x p px h = (tt, px, tt)
All-insert P (node l a d r) x p px h = ground (arith, All-insert P l x p, All-insert P r x p)

pub insert-IsOrdered : (t : Tree) (x : ℤ) (p : ℕ) → IsOrdered t → IsOrdered (insert t x p)
unfolding insert
insert-IsOrdered leaf x p h = (tt, tt, tt, tt)
insert-IsOrdered (node l a d r) x p h = ground (
  arith,
  insert-IsOrdered l x p,
  insert-IsOrdered r x p,
  All-insert (λ y. ltb_ℤ y d ≡ true) l x p,
  All-insert (λ y. ltb_ℤ d y ≡ true) r x p,
)

pub contains-insert :
    (t : Tree) (x : ℤ) (p : ℕ) (y : ℤ) → contains (insert t x p) y ≡ (eqb_ℤ x y || contains t y)
unfolding insert contains
contains-insert leaf x p y = ground arith
contains-insert (node l a d r) x p y =
    ground (arith, contains-insert l x p y, contains-insert r x p y)

-- A value apart from all of a tree's is not in it.
pub All-contains :
    (P : ℤ → Type 0) (t : Tree) (x : ℤ)
    → ((y : ℤ) → P y → eqb_ℤ y x ≡ false)
    → All P t
    → contains t x ≡ false
unfolding contains
All-contains P leaf x f h = refl
All-contains P (node l a d r) x f (hl, hd, hr) =
    ground (arith, All-contains P l x f hl, All-contains P r x f hr, f d hd)
