-- ===== src/Trees/Delete.antt =====
-- `DeleteTree`.
use today_i_learned.Common.{
  ℕ, zero, suc, ◌<◌, ◌≡◌, ◌≢◌, refl, ◌∙◌, List, none, arith, some, [], ◌==◌, if◌then◌else◌,
}
use today_i_learned.Trees.{Ptr, null, Store, delete_tree, update}
use today_i_learned.Trees.Shape.{
  Tree, leaf, node, root, size, IsStored, IsProper, Apart, cell, update_self, update_ne, eq-null,
  Apart-sym, Same, IsStored-Same,
}
use today_i_learned.Trees.Traverse.{postorder}
use today_i_learned.Common.Int.{ℤ}
use today_i_learned.Common.Run.{Ends, ok, Ends-bind}
use today_i_learned.Trees.Access.{free-cell, get_data-cell, get_left-cell, get_right-cell}

-- Nothing is allocated at the addresses of the tree.
abbrev pub IsGone : Store → Tree → Type 0
IsGone h leaf = Unit {0}
IsGone h (node l a d r) = IsGone h l × (h a ≡ none) × IsGone h r

abbrev pub IsDeleted : Store → Tree → List ℤ × Store → Type 0
IsDeleted h t (xs, h') = (xs ≡ postorder t) × IsGone h' t × Same h h' t

IsGone-Same : (h h' : Store) (u t : Tree) → Apart u t → Same h h' t → IsGone h u → IsGone h' u
IsGone-Same h h' leaf t a same g = tt
IsGone-Same h h' (node l b d r) t a same g =
    (IsGone-Same h h' l t a.0 same g.0, same b a.1 ∙ g.1, IsGone-Same h h' r t a.2 same g.2)

child_part :
    (t : Tree) (k : ℕ) (h : Store)
    → (root t ≢ null → Ends (IsDeleted h t) (delete_tree k h (root t)))
    → IsStored h t
    → Ends (IsDeleted h t) (if root t == null then ok ([], h) else delete_tree k h (root t))
child_part leaf k h ih s = (([], h), refl, (refl, tt, λ a m. refl))
child_part (node l a d r) k h ih s = rw (eq-null a s.1) (ih s.1)

IsGone-update : (h : Store) (a : Ptr) (t : Tree) → IsGone h t → IsGone (update h a none) t
unfolding update
IsGone-update h a leaf g = tt
IsGone-update h a (node l b d r) g =
    (IsGone-update h a l g.0, ground arith, IsGone-update h a r g.2)

-- `DeleteTree` on a stored tree with a node prints the data, the children before their parent, and
-- frees each of its nodes once; all else in the store stays.
pub delete_tree-IsDeleted :
    (t : Tree) (k : ℕ) (h : Store)
    → IsStored h t
    → IsProper t
    → root t ≢ null
    → size t < k
    → Ends (IsDeleted h t) (delete_tree k h (root t))
unfolding delete_tree
delete_tree-IsDeleted t zero h s p ne f = absurd (omega arith)
delete_tree-IsDeleted leaf (suc k) h s p ne f = absurd (ne refl)
delete_tree-IsDeleted (node l a d r) (suc k) h s p ne f =
    let n = cell (root l) d (root r) in
    rw (get_left-cell h a n s.1 s.2) (
      Ends-bind _ _ _ _
        (child_part l k h (λ q. delete_tree-IsDeleted l k h s.0 p.0 q (omega arith)) s.0)
        λ (xs, h₁) (ex, gone₁, same₁).
          let e₁ : h₁ a ≡ some n = same₁ a p.2 ∙ s.2 in
          let sr₁ = IsStored-Same h h₁ r l (Apart-sym l r p.4) same₁ s.3 in
          rw (get_right-cell h₁ a n s.1 e₁) (
            Ends-bind _ _ _ _
              (child_part r k h₁ (λ q. delete_tree-IsDeleted r k h₁ sr₁ p.1 q (omega arith)) sr₁)
              λ (ys, h₂) (ey, gone₂, same₂).
                let e₂ : h₂ a ≡ some n = same₂ a p.3 ∙ e₁ in
                rw (get_data-cell h₂ a n s.1 e₂, free-cell h₂ a n s.1 e₂)
                  (
                    _,
                    refl,
                    (
                      rw (ex, ey) refl,
                      (
                        IsGone-update h₂ a l (IsGone-Same h₁ h₂ l r p.4 same₂ gone₁),
                        update_self h₂ a none,
                        IsGone-update h₂ a r gone₂,
                      ),
                      λ b m. update_ne h₂ a b none m.1 ∙ same₂ b m.2 ∙ same₁ b m.0,
                    ),
                  )))
