-- ===== src/Trees/Bst/Insert.antt =====
-- `BSTInsert` on a stored tree.
use today_i_learned.Common.{
  ℕ, ◌<◌, ◌≡◌, ◌≢◌, refl, inl, inr, Bool-cases, some, arith, if◌then◌else◌, sym, ◌∙◌, none, Option,
  ◌==◌,
}
use today_i_learned.Trees.{
  Ptr, null, Store, update, get_data, make_left_sub_tree, make_right_sub_tree, make_bt_node,
}
use today_i_learned.Trees.Bst.{add_node, bst_insert}
use today_i_learned.Trees.Bst.Model.{insert, parent}
use today_i_learned.Common.Int.{ℤ, ltb_ℤ}
use today_i_learned.Common.Run.{ok, ◌>>=◌, Ends, Ends-map}
use today_i_learned.Trees.Access.{get_data-cell, make_left-cell, make_right-cell, set_data-cell}
use today_i_learned.Trees.Shape.{
  Tree, leaf, node, root, cell, size, Misses, IsProper, IsStored, eq-null, IsStored-update,
  update_self, update_ne,
}
use today_i_learned.Trees.Bst.Place.{some-injective, root-insert, place_lem}
use today_i_learned.Trees.Bst.Walk.{find_parent-parent}

-- A function that gives a root and a store leaves `t'` there, and other addresses than those of `t`
-- and `p` as they were.
abbrev pub IsStoredAt : Tree → Tree → Ptr → Store → Ptr × Store → Type 0
IsStoredAt t' t p h (r, h') =
    (r ≡ root t') × IsStored h' t' × ((b : Ptr) → Misses b t → b ≢ p → h' b ≡ h b)

-- With the new node at `p`, and its parent known.
module _ (h : Store) (x : ℤ) (p : Ptr) (p0 : p ≢ null) (new : h p ≡ some (cell null x null)) where
  add_node_lem :
      (t : Tree) (q : Ptr)
      → IsStored h t
      → IsProper t
      → Misses p t
      → root t ≢ null
      → parent t x null ≡ some q
      → Ends (IsStoredAt (insert t x p) t p h) (do
        d ← get_data h q
        h₃ ← if ltb_ℤ d x then make_right_sub_tree h q p else make_left_sub_tree h q p
        ok (root t, h₃))
  add_node_lem t q s pr m ne e =
      let (n, eq, q0, free_side, stored, other) = place_lem h x p p0 new t null q s pr m ne e in
      rw (get_data-cell h q n q0 eq) (elim (Bool-cases (ltb_ℤ n.datum x)) [
        | inl low ↦
            rw (low, make_right-cell h q n q0 eq p (rw low at free_side))
              (
                _,
                refl,
                (
                  sym (root-insert t x p ne),
                  rw low at stored,
                  λ b mb bp. update_ne h q b _ (other b mb),
                ),
              )
        | inr high ↦
            rw (high, make_left-cell h q n q0 eq p (rw high at free_side))
              (
                _,
                refl,
                (
                  sym (root-insert t x p ne),
                  rw high at stored,
                  λ b mb bp. update_ne h q b _ (other b mb),
                ),
              )
      ])

pub insert-parent-none :
    (t : Tree) (x : ℤ) (p from : Ptr) → parent t x from ≡ none → insert t x p ≡ t
unfolding insert parent
insert-parent-none leaf x p from e = absurd (no_parent e)
  where
    no_parent : some from ≡ none → ⊥
    no_parent k = cc
insert-parent-none (node l a d r) x p from e =
    ground (arith, insert-parent-none l x p a, insert-parent-none r x p a)

hang_lem :
    (t : Tree) (fresh : Ptr) (h h₂ : Store) (x : ℤ) (q : Ptr)
    → IsStored h₂ t
    → IsProper t
    → Misses fresh t
    → fresh ≢ null
    → h₂ fresh ≡ some (cell null x null)
    → ((b : Ptr) → b ≢ fresh → h₂ b ≡ h b)
    → parent t x null ≡ some q
    → Ends (IsStoredAt (insert t x fresh) t fresh h) (
        if q == null then ok (fresh, h₂) else do
          d ← get_data h₂ q
          h₃ ← if ltb_ℤ d x then make_right_sub_tree h₂ q fresh else make_left_sub_tree h₂ q fresh
          ok (root t, h₃))
unfolding parent insert
hang_lem leaf fresh h h₂ x q s pr m f0 new same e =
    let first : q ≡ null = sym (some-injective e) in
    rw first ((fresh, h₂), refl, (refl, (tt, f0, new, tt), λ b mb bp. same b bp))
hang_lem (node l a d r) fresh h h₂ x q s pr m f0 new same e =
    let (n, eq, q0, empty, stored, other) =
      place_lem h₂ x fresh f0 new (node l a d r) null q s pr m s.1 e in
    rw (eq-null q q0) (
      Ends-map _ _ _ (add_node_lem h₂ x fresh f0 new (node l a d r) q s pr m s.1 e)
        λ (p, h₃) (er, stored, frame). (er, stored, λ b mb bp. frame b mb bp ∙ same b bp))

-- The new node under the parent that the search gave.
pub add_node-IsStoredAt :
    (t : Tree) (fresh : Ptr) (garbage : ℤ) (h : Store) (x : ℤ) (q : Ptr)
    → IsStored h t
    → IsProper t
    → Misses fresh t
    → fresh ≢ null
    → parent t x null ≡ some q
    → Ends (IsStoredAt (insert t x fresh) t fresh h) (add_node fresh garbage h (root t) q x)
unfolding add_node make_bt_node
add_node-IsStoredAt t fresh garbage h x q s pr m f0 e =
    let blank = cell null garbage null in
    let h₁ = update h fresh (some blank) in
    let h₂ = update h₁ fresh (some (cell null x null)) in
    let s₂ = IsStored-update h₁ fresh _ t m (IsStored-update h fresh _ t m s) in
    rw (set_data-cell h₁ fresh blank f0 (update_self h fresh _) x) (
      hang_lem t fresh h h₂ x q s₂ pr m f0 (update_self h₁ fresh _)
        (λ b bp. update_ne h₁ fresh b _ bp ∙ update_ne h fresh b _ bp) e)

-- `BSTInsert` on a stored tree, with a fresh address from `malloc`, returns the root of a stored
-- tree: the one with the value inserted in its place, or the same tree where the value is there
-- already. Nothing else in the store changes.
pub bst_insert-IsStored :
    (t : Tree) (k : ℕ) (fresh : Ptr) (garbage : ℤ) (h : Store) (x : ℤ)
    → IsStored h t
    → IsProper t
    → Misses fresh t
    → fresh ≢ null
    → size t < k
    → Ends (IsStoredAt (insert t x fresh) t fresh h) (bst_insert k fresh garbage h (root t) x)
unfolding bst_insert
bst_insert-IsStored t k fresh garbage h x s pr m f0 f =
    rw (find_parent-parent t k h null x s f) (go (parent t x null) refl)
  where
    go :
        (o : Option Ptr)
        → parent t x null ≡ o
        → Ends
            (IsStoredAt (insert t x fresh) t fresh h)
            (elim o [ none ↦ ok (root t, h) | some p ↦ add_node fresh garbage h (root t) p x ])
    go none e =
        let same : insert t x fresh ≡ t = insert-parent-none t x fresh null e in
        rw same ((root t, h), refl, (refl, s, λ b m bp. refl))
    go (some q) e = add_node-IsStoredAt t fresh garbage h x q s pr m f0 e
