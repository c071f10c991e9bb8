-- ===== src/Trees/Bst/Remove/Set.antt =====
-- What `BSTRemove` does to the set of a search tree's values.
use today_i_learned.Common.{
  ℕ, ◌<◌, ◌≡◌, ◌≢◌, refl, true, false, inl, inr, if◌then◌else◌, sym, ◌∙◌, arith,
}
use today_i_learned.Trees.{Ptr, null, Store, get_data}
use today_i_learned.Trees.Shape.{Tree, leaf, node, root, size, IsStored, IsProper, Misses}
use today_i_learned.Trees.Bst.Model.{contains, locate}
use today_i_learned.Trees.Bst.Order.{IsOrdered}
use today_i_learned.Trees.Bst.Set.{IsSearchTree, locate-IsHit}
use today_i_learned.Trees.Bst.Remove.{bst_remove}
use today_i_learned.Trees.Bst.Remove.Model.{remove, cut, spares}
use today_i_learned.Trees.Bst.Remove.Order.{remove-IsOrdered, contains-remove}
use today_i_learned.Trees.Bst.Remove.Proper.{remove-IsProper}
use today_i_learned.Trees.Bst.Remove.Result.{bst_remove-IsRemoved}
use today_i_learned.Common.Int.{ℤ, eqb_ℤ}
use today_i_learned.Common.Run.{Ends, Ends-map, ok}
use today_i_learned.Trees.Bst.Remove.Walk.{at_node}

-- The store holds a search tree with the values of `t` but `x`; the node that is given has `x`.
abbrev pub IsWithout : Tree → ℤ → Ptr × Ptr × Store → Type 0
IsWithout t x (q, r, h) =
    (t' : Tree) × IsSearchTree h r t'
    × ((y : ℤ) → contains t' y ≡ (if eqb_ℤ x y then false else contains t y))
    × (get_data h q ≡ ok x)

-- A value that the tree has is found by the search.
pub found_there :
    (h : Store) (t : Tree) (x : ℤ)
    → IsStored h t
    → IsOrdered t
    → contains t x ≡ true
    → locate t x ≢ null
found_there h t x s o there = (rw there at (locate-IsHit t h x s o)).0

-- `BSTRemove` of a value that a search tree has, with a fresh address for its virtual root, gives
-- a node with that value and leaves a search tree with the other values, if no node with two
-- children of which the right one has a right child but no left one holds the value.
pub bst_remove-IsWithout :
    (t : Tree) (k : ℕ) (v : Ptr) (garbage : ℤ) (h : Store) (p : Ptr) (x : ℤ)
    → IsSearchTree h p t
    → Misses v t
    → v ≢ null
    → size t < k
    → contains t x ≡ true
    → spares t x ≡ true
    → Ends (IsWithout t x) (bst_remove k v garbage h p x)
bst_remove-IsWithout t k v garbage h p x s m v0 fuel there spared = rw s.at_root (
    Ends-map _ _ _ (bst_remove-IsRemoved t k v garbage h x s.stored s.proper m v0 fuel)
      λ (q, r, h') out. elim out [
        | inl (found, o) ↦ (
          remove t x,
          record {
            at_root = o.at_root;
            stored = o.stored;
            proper = remove-IsProper t x s.proper;
            ordered = remove-IsOrdered t x s.ordered;
          },
          (λ y. contains-remove t x y s.ordered spared),
          o.given,
        )
        | inr (missing, o) ↦ absurd (found_there h t x s.stored s.ordered there missing)
      ])

-- Where the root of the tree has two children of which the right one has no left child, `BSTRemove`
-- of the root's value leaves the root with the right child's value and without a right part, so
-- that the values below the right child are lost.
pub bst_remove-loses :
    (l : Tree) (a : Ptr) (d : ℤ) (b : Ptr) (f : ℤ) (rr : Tree) (k : ℕ) (v : Ptr) (garbage : ℤ)
    (h : Store)
    → root l ≢ null
    → IsStored h (node l a d (node leaf b f rr))
    → IsProper (node l a d (node leaf b f rr))
    → Misses v (node l a d (node leaf b f rr))
    → v ≢ null
    → size (node l a d (node leaf b f rr)) < k
    → Ends (λ (q, r, h'). (r ≡ a) × IsStored h' (node l a f leaf)) (bst_remove k v garbage h a d)
unfolding cut
bst_remove-loses leaf a d b f rr k v garbage h ne s pr m v0 fuel = absurd (ne refl)
bst_remove-loses (node ll c e lr) a d b f rr k v garbage h ne s pr m v0 fuel =
    let l = node ll c e lr in
    let r = node leaf b f rr in
    let same : eqb_ℤ d d ≡ true = ground arith in
    let (located, removed) = at_node l a d r d same in
    Ends-map _ _ _ (bst_remove-IsRemoved (node l a d r) k v garbage h d s pr m v0 fuel)
      λ (q, p, h') out. elim out [
        | inl (found, o) ↦ (rw removed at o.at_root, rw removed at o.stored)
        | inr (missing, o) ↦ absurd (s.1 (sym located ∙ missing))
      ]
