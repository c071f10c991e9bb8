-- ===== src/Trees/Bst/Walk.antt =====
-- The walks of `BSTInsert` and `BSTSearch` down a stored tree.
use today_i_learned.Common.{ℕ, zero, suc, ◌<◌, ◌≡◌, refl, inl, inr, Bool-cases, arith, true, false}
use today_i_learned.Trees.{Ptr, Store}
use today_i_learned.Trees.Bst.{find_parent, bst_search}
use today_i_learned.Trees.Bst.Model.{parent, locate}
use today_i_learned.Common.Int.{ℤ, eqb_ℤ, ltb_ℤ}
use today_i_learned.Common.Run.{ok}
use today_i_learned.Trees.Access.{get_data-cell, get_left-cell, get_right-cell}
use today_i_learned.Trees.Shape.{Tree, leaf, node, root, cell, size, IsStored, eq-null}

-- Neither equal nor less is greater.
pub greater : (d x : ℤ) → eqb_ℤ d x ≡ false → ltb_ℤ d x ≡ false → ltb_ℤ x d ≡ true
greater d x e l = ground arith

pub find_parent-parent :
    (t : Tree) (k : ℕ) (h : Store) (p : Ptr) (x : ℤ)
    → IsStored h t
    → size t < k
    → find_parent k h (root t) p x ≡ ok (parent t x p)
unfolding find_parent parent
find_parent-parent t zero h p x s f = absurd (omega arith)
find_parent-parent leaf (suc k) h p x s f = refl
find_parent-parent (node l a d r) (suc k) h p x s f =
    let n = cell (root l) d (root r) in
    rw (eq-null a s.1, get_data-cell h a n s.1 s.2)
      (elim (Bool-cases (eqb_ℤ d x)) [
        | inl same ↦ rw same refl
        | inr other ↦ rw other (elim (Bool-cases (ltb_ℤ d x)) [
          | inl low ↦
              rw (low, get_right-cell h a n s.1 s.2)
                (find_parent-parent r k h a x s.3 (omega arith))
          | inr high ↦
              rw (high, greater d x other high, get_left-cell h a n s.1 s.2)
                (find_parent-parent l k h a x s.0 (omega arith))
        ])
      ])

pub bst_search-locate :
    (t : Tree) (k : ℕ) (h : Store) (x : ℤ)
    → IsStored h t
    → size t < k
    → bst_search k h (root t) x ≡ ok (locate t x)
unfolding bst_search locate
bst_search-locate t zero h x s f = absurd (omega arith)
bst_search-locate leaf (suc k) h x s f = refl
bst_search-locate (node l a d r) (suc k) h x s f =
    let n = cell (root l) d (root r) in
    rw (eq-null a s.1, get_data-cell h a n s.1 s.2)
      (elim (Bool-cases (eqb_ℤ d x)) [
        | inl same ↦ rw same refl
        | inr other ↦ rw other (elim (Bool-cases (ltb_ℤ d x)) [
          | inl low ↦
              rw (low, get_right-cell h a n s.1 s.2) (bst_search-locate r k h x s.3 (omega arith))
          | inr high ↦
              rw (high, get_left-cell h a n s.1 s.2) (bst_search-locate l k h x s.0 (omega arith))
        ])
      ])
