-- ===== src/Trees/Access.antt =====
-- The accesses to a node that is there.
use today_i_learned.Common.{◌≡◌, ◌≢◌, refl, none, some}
use today_i_learned.Trees.{
  Ptr, null, Node, Store, update, free, get_data, set_data, get_left_sub_tree, get_right_sub_tree,
  change_left_sub_tree, change_right_sub_tree, make_left_sub_tree, make_right_sub_tree,
  remove_left_sub_tree, remove_right_sub_tree,
}
use today_i_learned.Trees.Shape.{load-stored, eq-null}
use today_i_learned.Common.Int.{ℤ}
use today_i_learned.Common.Run.{ok}

module _ (h : Store) (a : Ptr) (n : Node) (a0 : a ≢ null) (e : h a ≡ some n) where
  pub free-cell : free h a ≡ ok (update h a none)
  unfolding free
  free-cell = rw (load-stored h a n a0 e) refl

  pub get_data-cell : get_data h a ≡ ok n.datum
  unfolding get_data
  get_data-cell = rw (load-stored h a n a0 e) refl

  pub set_data-cell : (x : ℤ) → set_data h a x ≡ ok (update h a (some (record n { datum = x })))
  unfolding set_data
  set_data-cell x = rw (load-stored h a n a0 e) refl

  pub get_left-cell : get_left_sub_tree h a ≡ ok n.left
  unfolding get_left_sub_tree
  get_left-cell = rw (load-stored h a n a0 e) refl

  pub get_right-cell : get_right_sub_tree h a ≡ ok n.right
  unfolding get_right_sub_tree
  get_right-cell = rw (load-stored h a n a0 e) refl

  pub change_left-cell :
      (p : Ptr) → change_left_sub_tree h a p ≡ ok (update h a (some (record n { left = p })))
  unfolding change_left_sub_tree
  change_left-cell p = rw (load-stored h a n a0 e) refl

  pub change_right-cell :
      (p : Ptr) → change_right_sub_tree h a p ≡ ok (update h a (some (record n { right = p })))
  unfolding change_right_sub_tree
  change_right-cell p = rw (load-stored h a n a0 e) refl

  -- Where no child is there yet.
  pub make_left-cell :
      (p : Ptr)
      → n.left ≡ null
      → make_left_sub_tree h a p ≡ ok (update h a (some (record n { left = p })))
  unfolding make_left_sub_tree
  make_left-cell p none_yet = rw (get_left-cell, none_yet) (change_left-cell p)

  pub make_right-cell :
      (p : Ptr)
      → n.right ≡ null
      → make_right_sub_tree h a p ≡ ok (update h a (some (record n { right = p })))
  unfolding make_right_sub_tree
  make_right-cell p none_yet = rw (get_right-cell, none_yet) (change_right-cell p)

  pub remove_left-cell :
      remove_left_sub_tree h a ≡ ok (n.left, update h a (some (record n { left = null })))
  unfolding remove_left_sub_tree
  remove_left-cell = rw (eq-null a a0, get_left-cell, change_left-cell null) refl

  pub remove_right-cell :
      remove_right_sub_tree h a ≡ ok (n.right, update h a (some (record n { right = null })))
  unfolding remove_right_sub_tree
  remove_right-cell = rw (eq-null a a0, get_right-cell, change_right-cell null) refl
