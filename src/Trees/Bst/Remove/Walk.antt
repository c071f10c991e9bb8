-- ===== src/Trees/Bst/Remove/Walk.antt =====
-- The walk of `BSTRemove` to the node that it takes out.
use today_i_learned.Common.{
  ℕ, zero, suc, ◌<◌, ◌≡◌, ◌≢◌, ◌⊎◌, refl, ◌∙◌, inl, inr, arith, Bool, true, false, Bool-cases,
}
use today_i_learned.Trees.{Ptr, null, Store}
use today_i_learned.Trees.Shape.{Tree, leaf, node, root, size, cell, IsStored, IsProper, eq-null}
use today_i_learned.Trees.Bst.Remove.{find_target, unlink}
use today_i_learned.Trees.Bst.Remove.Model.{remove, cut}
use today_i_learned.Trees.Bst.Remove.Two.{IsTaken}
use today_i_learned.Trees.Bst.Remove.Unlink.{lift, unlink-IsTaken}
use today_i_learned.Trees.Bst.Model.{locate}
use today_i_learned.Common.Int.{ℤ, eqb_ℤ, ltb_ℤ, eq_of_parts}
use today_i_learned.Common.Run.{Ends, Ends-map}
use today_i_learned.Trees.Access.{get_data-cell, get_left-cell, get_right-cell}
use today_i_learned.Trees.Bst.Remove.Link.{link, link-cell, link-IsProper}

-- What the first walk finds: no node with the value, or one that can be taken out.
abbrev pub Walked : Store → Bool → Tree → Ptr → ℤ → Tree → ℤ → Ptr × Ptr → Type 0
Walked h b s p e t x (p', c) =
    ((c ≡ null) × (locate t x ≡ null))
    ⊎ ((c ≢ null)
        × (locate t x ≡ c)
        × ((k : ℕ)
            → size t < k
            → Ends (IsTaken h (link b s p e t) (link b s p e (remove t x)) x) (unlink k h p' c)))

-- The walk goes on in a child `t'` of `t`, from which `n` comes by the removal there.
further :
    (h : Store) (b b' : Bool) (s s' : Tree) (p p' : Ptr) (e e' : ℤ) (t' : Tree) (x : ℤ)
    (out : Ptr × Ptr)
    → IsStored h (link b s p e (link b' s' p' e' t'))
    → IsProper (link b s p e (link b' s' p' e' t'))
    → size t' < size (link b' s' p' e' t')
    → locate (link b' s' p' e' t') x ≡ locate t' x
    → remove (link b' s' p' e' t') x ≡ link b' s' p' e' (remove t' x)
    → Walked h b' s' p' e' t' x out
    → Walked h b s p e (link b' s' p' e' t') x out
further h b b' s s' p p' e e' t' x out v pr smaller located removed (inl (c0, missing)) =
    inl (c0, located ∙ missing)
further h b b' s s' p p' e e' t' x out v pr smaller located removed (inr (c0, found, take)) = inr (
  c0,
  located ∙ found,
  λ k fuel. rw removed (
      Ends-map _ _ _ (take k (omega arith)) λ o taken.
        lift h b s p e (link b' s' p' e' t') v pr (link b' s' p' e' (remove t' x)) x o
          (same_root b') taken),
)
  where
    same_root : (b' : Bool) → root (link b' s' p' e' (remove t' x)) ≡ root (link b' s' p' e' t')
    same_root true = refl
    same_root false = refl

module _ (l : Tree) (a : Ptr) (d : ℤ) (r : Tree) (x : ℤ) where
  pub at_node :
      eqb_ℤ d x ≡ true → (locate (node l a d r) x ≡ a) × (remove (node l a d r) x ≡ cut l a r)
  unfolding locate remove
  at_node same = (rw same refl, rw same refl)

  at_left :
      eqb_ℤ d x ≡ false
      → ltb_ℤ x d ≡ true
      → (locate (node l a d r) x ≡ locate l x) × (remove (node l a d r) x ≡ node (remove l x) a d r)
  unfolding locate remove
  at_left other low =
      let high' : ltb_ℤ d x ≡ false = ground arith in (rw (other, high') refl, rw (other, low) refl)

  at_right :
      eqb_ℤ d x ≡ false
      → ltb_ℤ x d ≡ false
      → (locate (node l a d r) x ≡ locate r x) × (remove (node l a d r) x ≡ node l a d (remove r x))
  unfolding locate remove
  at_right other high =
      let low' : ltb_ℤ d x ≡ true = ground arith in (rw (other, low') refl, rw (other, high) refl)

pub find_target-Walked :
    (t : Tree) (k : ℕ) (h : Store) (b : Bool) (s : Tree) (p : Ptr) (e : ℤ) (x : ℤ)
    → IsStored h (link b s p e t)
    → IsProper (link b s p e t)
    → size t < k
    → Ends (Walked h b s p e t x) (find_target k h p (root t) x)
unfolding find_target
find_target-Walked t zero h b s p e x v pr fuel = absurd (omega arith)
find_target-Walked leaf (suc k) h b s p e x v pr fuel =
    ((p, null), refl, inl (refl, unfold locate in refl))
find_target-Walked (node l a d r) (suc k) h b s p e x v pr fuel =
    let t = node l a d r in
    let vt = (link-cell b h s p e t v).3 in
    let prt = (link-IsProper b s p e t pr).0 in
    let n = cell (root l) d (root r) in
    rw (eq-null a vt.1, get_data-cell h a n vt.1 vt.2)
      (elim (Bool-cases (eqb_ℤ d x)) [
        | inl same ↦
            let same' : d ≡ x = eq_of_parts d x (ground arith) in
            let (located, removed) = at_node l a d r x same in
            rw same (
              (p, a),
              refl,
              inr (
                vt.1,
                located,
                λ k' fuel'.
                    rw (removed, ← same') (unlink-IsTaken l r h b s p e a d k' v pr (omega arith)),
              ),
            )
        | inr other ↦ elim (Bool-cases (ltb_ℤ x d)) [
          | inl low ↦
              let (located, removed) = at_left l a d r x other low in
              rw (other, low, get_left-cell h a n vt.1 vt.2)
                (Ends-map _ _ _ (find_target-Walked l k h false r a d x vt prt (omega arith))
                  λ out w.
                    further h b false s r p a e d l x out v pr (omega arith) located removed w)
          | inr high ↦
              let (located, removed) = at_right l a d r x other high in
              rw (other, high, get_right-cell h a n vt.1 vt.2)
                (Ends-map _ _ _ (find_target-Walked r k h true l a d x vt prt (omega arith))
                  λ out w.
                    further h b true s l p a e d r x out v pr (omega arith) located removed w)
        ]
      ])
