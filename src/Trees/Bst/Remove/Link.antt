-- ===== src/Trees/Bst/Remove/Link.antt =====
-- A node with a child on one side or the other, and the change of that child.
use today_i_learned.Common.{
  ◌≡◌, ◌≢◌, refl, Bool, true, false, some, arith, ◌==◌, if◌then◌else◌, sym,
}
use today_i_learned.Trees.{
  Ptr, null, Node, Store, update, get_left_sub_tree, change_left_sub_tree, change_right_sub_tree,
}
use today_i_learned.Trees.Shape.{
  Tree, leaf, node, root, cell, IsStored, IsProper, Misses, Apart, Apart-sym,
}
use today_i_learned.Trees.Bst.Remove.{remove_childless}
use today_i_learned.Common.Int.{ℤ}
use today_i_learned.Common.Run.{ok, ◌>>=◌}
use today_i_learned.Trees.Access.{
  get_left-cell, change_left-cell, change_right-cell, remove_left-cell, remove_right-cell,
}

-- The node `p` with `t` on the right, or on the left, and `s` on the other side.
abbrev pub link : (right : Bool) → Tree → Ptr → ℤ → Tree → Tree
link true s p e t = node s p e t
link false s p e t = node t p e s

abbrev pub parent_cell : (right : Bool) → Tree → ℤ → Ptr → Node
parent_cell true s e c = cell (root s) e c
parent_cell false s e c = cell c e (root s)

pub link-cell :
    (b : Bool) (h : Store) (s : Tree) (p : Ptr) (e : ℤ) (t : Tree)
    → IsStored h (link b s p e t)
    → (p ≢ null) × (h p ≡ some (parent_cell b s e (root t))) × IsStored h s × IsStored h t
link-cell true h s p e t v = (v.1, v.2, v.0, v.3)
link-cell false h s p e t v = (v.1, v.2, v.3, v.0)

pub link-IsStored :
    (b : Bool) (h : Store) (s : Tree) (p : Ptr) (e : ℤ) (t : Tree)
    → p ≢ null
    → h p ≡ some (parent_cell b s e (root t))
    → IsStored h s
    → IsStored h t
    → IsStored h (link b s p e t)
link-IsStored true h s p e t p0 c vs vt = (vs, p0, c, vt)
link-IsStored false h s p e t p0 c vs vt = (vt, p0, c, vs)

pub link-IsProper :
    (b : Bool) (s : Tree) (p : Ptr) (e : ℤ) (t : Tree)
    → IsProper (link b s p e t)
    → IsProper t × Misses p s × Misses p t × Apart s t
link-IsProper true s p e t v = (v.1, v.2, v.3, v.4)
link-IsProper false s p e t v = (v.0, v.3, v.2, Apart-sym t s v.4)

-- The root of a tree apart from another is not in it.
pub root-ne :
    (s l : Tree) (a : Ptr) (d : ℤ) (r : Tree) → Apart s (node l a d r) → a ≢ null → root s ≢ a
root-ne leaf l a d r m a0 e = a0 (sym e)
root-ne (node sl b i sr) l a d r m a0 e = m.1.1 e

module _ (h : Store) (s : Tree) (p : Ptr) (e : ℤ) (a : Ptr) (p0 : p ≢ null)
    (other : root s ≢ a) where
  -- The test of the code finds the side.
  pub change_child :
      (b : Bool) (c : Ptr)
      → h p ≡ some (parent_cell b s e a)
      → (do
        pl ← get_left_sub_tree h p
        if pl == a then change_left_sub_tree h p c else change_right_sub_tree h p c)
        ≡ ok (update h p (some (parent_cell b s e c)))
  change_child true c v =
      let n = cell (root s) e a in
      let test : (root s == a) ≡ false = ground arith in
      rw (get_left-cell h p n p0 v, test) (change_right-cell h p n p0 v c)
  change_child false c v =
      let n = cell a e (root s) in
      let test : (a == a) ≡ true = ground arith in
      rw (get_left-cell h p n p0 v, test) (change_left-cell h p n p0 v c)

  pub remove_childless-cell :
      (b : Bool)
      → h p ≡ some (parent_cell b s e a)
      → remove_childless h p a ≡ ok (update h p (some (parent_cell b s e null)))
  unfolding remove_childless
  remove_childless-cell true v =
      let n = cell (root s) e a in
      let test : (root s == a) ≡ false = ground arith in
      rw (get_left-cell h p n p0 v, test) (rw (remove_right-cell h p n p0 v) refl)
  remove_childless-cell false v =
      let n = cell a e (root s) in
      let test : (a == a) ≡ true = ground arith in
      rw (get_left-cell h p n p0 v, test) (rw (remove_left-cell h p n p0 v) refl)
