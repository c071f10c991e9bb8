-- ===== src/Trees/Avl/Order.antt =====
-- The order and the data of a tree that turns.
use today_i_learned.Common.{◌≡◌, refl, arith, Bool, true, false, ltb, suc, if◌then◌else◌, ◌∙◌}
use today_i_learned.Common.Int.{ℤ, ltb_ℤ}
use today_i_learned.Trees.{Ptr}
use today_i_learned.Trees.Shape.{Tree, leaf, node}
use today_i_learned.Trees.Bst.Model.{contains}
use today_i_learned.Trees.Bst.Order.{All, All-imp, IsOrdered}
use today_i_learned.Trees.Avl.Model.{
  height, turn_ll, turn_rr, turn_lr, turn_rl, left_heavy, right_heavy, balance,
}

-- The second tree comes from the first by rotations.
pub data Turns : Tree → Tree → Type 0 where
  stays : (t : Tree) → Turns t t
  to_right :
      (x : Tree) (c : Ptr) (e : ℤ) (y : Tree) (a : Ptr) (d : ℤ) (z : Tree)
      → Turns (node (node x c e y) a d z) (node x c e (node y a d z))
  to_left :
      (x : Tree) (c : Ptr) (e : ℤ) (y : Tree) (a : Ptr) (d : ℤ) (z : Tree)
      → Turns (node x c e (node y a d z)) (node (node x c e y) a d z)
  on_left :
      (l l' : Tree) (a : Ptr) (d : ℤ) (r : Tree) → Turns l l' → Turns (node l a d r) (node l' a d r)
  on_right :
      (l : Tree) (a : Ptr) (d : ℤ) (r r' : Tree) → Turns r r' → Turns (node l a d r) (node l a d r')
  turns_twice : (t u v : Tree) → Turns t u → Turns u v → Turns t v

pub contains-Turns : (t u : Tree) → Turns t u → (x : ℤ) → contains u x ≡ contains t x
unfolding contains
contains-Turns _ _ (stays t) x = refl
contains-Turns _ _ (to_right x c e y a d z) v = ground arith
contains-Turns _ _ (to_left x c e y a d z) v = ground arith
contains-Turns _ _ (on_left l l' a d r s) x = rw (contains-Turns l l' s x) refl
contains-Turns _ _ (on_right l a d r r' s) x = rw (contains-Turns r r' s x) refl
contains-Turns _ _ (turns_twice t u v s s') x = contains-Turns u v s' x ∙ contains-Turns t u s x

All-Turns : (P : ℤ → Type 0) (t u : Tree) → Turns t u → All P t → All P u
All-Turns P _ _ (stays t) h = h
All-Turns P _ _ (to_right x c e y a d z) h = (h.0.0, h.0.1, (h.0.2, h.1, h.2))
All-Turns P _ _ (to_left x c e y a d z) h = ((h.0, h.1, h.2.0), h.2.1, h.2.2)
All-Turns P _ _ (on_left l l' a d r s) h = (All-Turns P l l' s h.0, h.1, h.2)
All-Turns P _ _ (on_right l a d r r' s) h = (h.0, h.1, All-Turns P r r' s h.2)
All-Turns P _ _ (turns_twice t u v s s') h = All-Turns P u v s' (All-Turns P t u s h)

lt_trans : (a b c : ℤ) → ltb_ℤ a b ≡ true → ltb_ℤ b c ≡ true → ltb_ℤ a c ≡ true
lt_trans a b c h k = ground arith

pub IsOrdered-Turns : (t u : Tree) → Turns t u → IsOrdered t → IsOrdered u
IsOrdered-Turns _ _ (stays t) o = o
IsOrdered-Turns _ _ (to_right x c e y a d z) o = (
  o.2.0,
  (o.2.1, o.0.1, All-imp _ _ z (λ v h. lt_trans e d v o.0.1 h) o.1),
  o.2.2,
  (o.0.2, o.1, o.2.3, o.3),
)
IsOrdered-Turns _ _ (to_left x c e y a d z) o = (
  (All-imp _ _ x (λ v h. lt_trans v e d h o.1.1) o.0, o.1.1, o.3.0),
  o.3.1,
  (o.0, o.1.0, o.2, o.3.2),
  o.3.3,
)
IsOrdered-Turns _ _ (on_left l l' a d r s) o =
    (All-Turns _ l l' s o.0, o.1, IsOrdered-Turns l l' s o.2, o.3)
IsOrdered-Turns _ _ (on_right l a d r r' s) o =
    (o.0, All-Turns _ r r' s o.1, o.2, IsOrdered-Turns r r' s o.3)
IsOrdered-Turns _ _ (turns_twice t u v s s') o = IsOrdered-Turns u v s' (IsOrdered-Turns t u s o)

turn_ll-Turns : (t : Tree) → Turns t (turn_ll t)
unfolding turn_ll
turn_ll-Turns leaf = stays leaf
turn_ll-Turns (node leaf a d r) = stays (node leaf a d r)
turn_ll-Turns (node (node x c e y) a d z) = to_right x c e y a d z

turn_rr-Turns : (t : Tree) → Turns t (turn_rr t)
unfolding turn_rr
turn_rr-Turns leaf = stays leaf
turn_rr-Turns (node l a d leaf) = stays (node l a d leaf)
turn_rr-Turns (node x c e (node y a d z)) = to_left x c e y a d z

turn_lr-Turns : (t : Tree) → Turns t (turn_lr t)
unfolding turn_lr
turn_lr-Turns leaf = stays leaf
turn_lr-Turns (node l a d r) =
    turns_twice _ (node (turn_rr l) a d r) _ (on_left l (turn_rr l) a d r (turn_rr-Turns l))
      (turn_ll-Turns (node (turn_rr l) a d r))

turn_rl-Turns : (t : Tree) → Turns t (turn_rl t)
unfolding turn_rl
turn_rl-Turns leaf = stays leaf
turn_rl-Turns (node l a d r) =
    turns_twice _ (node l a d (turn_ll r)) _ (on_right l a d r (turn_ll r) (turn_ll-Turns r))
      (turn_rr-Turns (node l a d (turn_ll r)))

if_either : (P : Tree → Type 0) {t u : Tree} (b : Bool) → P t → P u → P (if b then t else u)
if_either P true h k = h
if_either P false h k = k

left_heavy-Turns : (t : Tree) → Turns t (left_heavy t)
unfolding left_heavy
left_heavy-Turns leaf = stays leaf
left_heavy-Turns (node leaf a d r) = stays (node leaf a d r)
left_heavy-Turns (node (node x c e y) a d z) =
    let t = node (node x c e y) a d z in
    if_either (Turns t) (ltb (height y) (height x)) (turn_ll-Turns t) (turn_lr-Turns t)

right_heavy-Turns : (t : Tree) → Turns t (right_heavy t)
unfolding right_heavy
right_heavy-Turns leaf = stays leaf
right_heavy-Turns (node l a d leaf) = stays (node l a d leaf)
right_heavy-Turns (node x c e (node y a d z)) =
    let t = node x c e (node y a d z) in
    if_either (Turns t) (ltb (height y) (height z)) (turn_rr-Turns t) (turn_rl-Turns t)

pub balance-Turns : (t : Tree) → Turns t (balance t)
unfolding balance
balance-Turns leaf = stays leaf
balance-Turns (node l a d r) =
    let t = node l a d r in
    if_either (Turns t) (ltb (suc (height r)) (height l)) (left_heavy-Turns t)
      (if_either (Turns t) (ltb (suc (height l)) (height r)) (right_heavy-Turns t) (stays t))
