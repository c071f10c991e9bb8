-- ===== src/Trees/Avl/Set.antt =====
-- An AVL tree as the set of its values.
use today_i_learned.Common.{
  ℕ, ◌<◌, ◌≡◌, suc, ◌+◌, refl, sym, ap, ◌∙◌, ◌≢◌, Option, none, some, arith, inl, inr, true, false,
  ◌==◌, if◌then◌else◌,
}
use today_i_learned.Common.Int.{ℤ, eqb_ℤ}
use today_i_learned.Common.Run.{Ends, Ends-map, ok, ◌>>=◌, Ends-bind}
use today_i_learned.Trees.{Ptr, Store, null, load, get_data}
use today_i_learned.Trees.Shape.{Tree, size, leaf, node, root, Misses, eq-null}
use today_i_learned.Trees.Bst.Model.{contains, insert, parent}
use today_i_learned.Trees.Bst.Set.{IsSearchTree, IsGrown}
use today_i_learned.Trees.Avl.{rebalance, avl_insert, avl_remove}
use today_i_learned.Trees.Bst.Insert.{add_node-IsStoredAt}
use today_i_learned.Trees.Avl.Model.{balance}
use today_i_learned.Trees.Avl.Rebalance.{rebalance-IsTurned}
use today_i_learned.Trees.Avl.Order.{balance-Turns, contains-Turns, IsOrdered-Turns}
use today_i_learned.Trees.Bst.{add_node}
use today_i_learned.Trees.Bst.Proper.{insert-IsProper}
use today_i_learned.Trees.Bst.Insert.{insert-parent-none}
use today_i_learned.Trees.Bst.Walk.{find_parent-parent}
use today_i_learned.Trees.Bst.Order.{insert-IsOrdered, contains-insert}
use today_i_learned.Trees.Bst.Remove.Model.{drop_least, cut, remove, spares}
use today_i_learned.Trees.Bst.Remove.Result.{bst_remove-IsRemoved}
use today_i_learned.Trees.Bst.Remove.Proper.{remove-IsProper}
use today_i_learned.Trees.Bst.Remove.Order.{remove-IsOrdered, contains-remove}
use today_i_learned.Trees.Bst.Remove.Set.{found_there}

-- The same values in a search tree; nothing else in the store has changed.
abbrev pub IsRebalanced : Store → Tree → Ptr × Store → Type 0
IsRebalanced h₀ t (p, h) =
    IsSearchTree h p (balance t)
    × ((x : ℤ) → contains (balance t) x ≡ contains t x)
    × ((b : Ptr) → Misses b t → h b ≡ h₀ b)

-- `Rebalance` on a search tree of fewer than 2^31 nodes leaves a search tree with the same values.
pub rebalance-IsRebalanced :
    (t : Tree) (k : ℕ) (h : Store) (p : Ptr)
    → IsSearchTree h p t
    → size t < k
    → size t < 2147483648
    → Ends (IsRebalanced h t) (rebalance k h p)
rebalance-IsRebalanced t k h p v f b = rw v.at_root (
    Ends-map _ _ _ (rebalance-IsTurned t k h v.stored v.proper f b) λ (p', h') turned. (
      record {
        at_root = turned.at_root;
        stored = turned.stored;
        proper = turned.proper;
        ordered = IsOrdered-Turns t (balance t) (balance-Turns t) v.ordered;
      },
      (λ x. contains-Turns t (balance t) (balance-Turns t) x),
      turned.frame,
    ))

size-insert : (t : Tree) (x : ℤ) (p : Ptr) → size (insert t x p) < suc (suc (size t))
unfolding insert
size-insert leaf x p = omega arith
size-insert (node l a d r) x p = ground (arith, size-insert l x p, size-insert r x p)

-- The store holds a search tree with the values of `t` but `x`; the node that is given has `x`.
abbrev pub IsLess : Tree → ℤ → Ptr × Ptr × Store → Type 0
IsLess t x (q, r, h) =
    (t' : Tree) × IsSearchTree h r t'
    × ((y : ℤ) → contains t' y ≡ (if eqb_ℤ x y then false else contains t y))
    × (get_data h q ≡ ok x)

inserted_at_root :
    (t : Tree) (k : ℕ) (fresh : Ptr) (garbage : ℤ) (h : Store) (x : ℤ)
    → IsSearchTree h (root t) t
    → Misses fresh t
    → fresh ≢ null
    → suc (size t) < k
    → suc (size t) < 2147483648
    → Ends (IsGrown t x) (avl_insert k fresh garbage h (root t) x)
unfolding avl_insert
inserted_at_root t k fresh garbage h x v m f0 f b =
    rw (find_parent-parent t k h null x v.stored (omega arith)) (go (parent t x null) refl)
  where
    there : (parent t x null ≡ none) → IsGrown t x (root t, h)
    there e =
        let same : insert t x fresh ≡ t = insert-parent-none t x fresh null e in
        (t, v, λ y. sym (ap (λ u. contains u y) same) ∙ contains-insert t x fresh y)

    go :
        (o : Option Ptr)
        → parent t x null ≡ o
        → Ends (IsGrown t x) (elim o [
          | none ↦ ok (root t, h)
          | some q ↦ (do (root', h') ← add_node fresh garbage h (root t) q x; rebalance k h' root')
        ])
    go none e = ((root t, h), refl, there e)
    go (some q) e =
        let t' = insert t x fresh in
        let small = size-insert t x fresh in
        Ends-bind _ _ _ _ (add_node-IsStoredAt t fresh garbage h x q v.stored v.proper m f0 e)
          λ (p', h') (er, stored, frame).
            Ends-map _ _ _
              (rebalance-IsRebalanced t' k h' p'
                (record {
                  at_root = er;
                  stored = stored;
                  proper = insert-IsProper t x fresh v.proper m;
                  ordered = insert-IsOrdered t x fresh v.ordered;
                })
                (omega arith) (omega arith))
              λ (p'', h'') (tree, same, frame').
                (balance t', tree, λ y. same y ∙ contains-insert t x fresh y)

-- `BSTInsert` of the AVL tree, of a value into a search tree, with a fresh address from `malloc` and
-- fewer than 2^31 nodes after it, leaves a search tree that has the value and those that were there.
pub avl_insert-IsGrown :
    (t : Tree) (k : ℕ) (fresh : Ptr) (garbage : ℤ) (h : Store) (p : Ptr) (x : ℤ)
    → IsSearchTree h p t
    → Misses fresh t
    → fresh ≢ null
    → suc (size t) < k
    → suc (size t) < 2147483648
    → Ends (IsGrown t x) (avl_insert k fresh garbage h p x)
avl_insert-IsGrown t k fresh garbage h p x v m f0 f b =
    let at_root : IsSearchTree h (root t) t = record {
      at_root = refl;
      stored = v.stored;
      proper = v.proper;
      ordered = v.ordered;
    } in
    rw v.at_root (inserted_at_root t k fresh garbage h x at_root m f0 f b)

size-drop_least :
    (l : Tree) (a : Ptr) (d : ℤ) (r : Tree)
    → suc (size (drop_least (node l a d r))) ≡ size (node l a d r)
unfolding drop_least
size-drop_least leaf a d r = omega arith
size-drop_least (node ll b e lr) a d r = ground (arith, size-drop_least ll b e lr)

size-cut : (l : Tree) (a : Ptr) (r : Tree) → size (cut l a r) < suc (size l + size r)
unfolding cut
size-cut leaf a r = omega arith
size-cut (node ll b e lr) a leaf = omega arith
size-cut (node ll b e lr) a (node leaf c f rr) = omega arith
size-cut (node ll b e lr) a (node (node rll g i rlr) c f rr) =
    ground (arith, size-drop_least rll g i rlr)

size-remove : (t : Tree) (x : ℤ) → size (remove t x) < suc (size t)
unfolding remove
size-remove leaf x = omega arith
size-remove (node l a d r) x = ground (arith, size-remove l x, size-remove r x, size-cut l a r)

no_value_at_null : (h : Store) (q : Ptr) (x : ℤ) → get_data h q ≡ ok x → q ≢ null
unfolding get_data load
no_value_at_null h q x e q0 = ground arith

same-get_data : (h h' : Store) (q : Ptr) → h' q ≡ h q → get_data h' q ≡ get_data h q
unfolding get_data load
same-get_data h h' q e = rw e refl

-- `BSTRemove` of the AVL tree, of a value that a search tree of fewer than 2^31 nodes has, with a
-- fresh address for its virtual root, gives a node with that value and leaves a search tree with the other values,
-- if no node with two children of which the right one has a right child but no left one holds the
-- value.
pub avl_remove-IsWithout :
    (t : Tree) (k : ℕ) (v : Ptr) (garbage : ℤ) (h : Store) (p : Ptr) (x : ℤ)
    → IsSearchTree h p t
    → Misses v t
    → v ≢ null
    → size t < k
    → size t < 2147483648
    → contains t x ≡ true
    → spares t x ≡ true
    → Ends (IsLess t x) (avl_remove k v garbage h p x)
unfolding avl_remove
avl_remove-IsWithout t k v garbage h p x s m v0 f b there spared = rw s.at_root (
    Ends-bind _ _ _ _ (bst_remove-IsRemoved t k v garbage h x s.stored s.proper m v0 f)
      λ (q, r, h') out. elim out [
        | inl (found, o) ↦
            let q0 : (q == null) ≡ false = eq-null q (no_value_at_null h' q x o.given) in
            let small = size-remove t x in
            let t' = remove t x in
            rw q0 (
              Ends-bind _ _ _ _
                (rebalance-IsRebalanced t' k h' r
                  (record {
                    at_root = o.at_root;
                    stored = o.stored;
                    proper = remove-IsProper t x s.proper;
                    ordered = remove-IsOrdered t x s.ordered;
                  })
                  (omega arith) (omega arith))
                λ (r', h₁) (tree, same, frame). (
                  (q, r', h₁),
                  refl,
                  (
                    balance t',
                    tree,
                    (λ y. same y ∙ contains-remove t x y s.ordered spared),
                    same-get_data h' h₁ q (frame q o.gone) ∙ o.given,
                  ),
                ))
        | inr (missing, o) ↦ absurd (found_there h t x s.stored s.ordered there missing)
      ])
