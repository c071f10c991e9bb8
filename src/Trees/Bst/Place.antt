-- ===== src/Trees/Bst/Place.antt =====
-- Where `BSTInsert` hangs the new node, and what the store holds then.
use today_i_learned.Common.{
  ◌≡◌, ◌≢◌, refl, inl, inr, Bool-cases, some, arith, if◌then◌else◌, true, false, sym, ap, ◌∙◌, none,
}
use today_i_learned.Trees.{Ptr, null, Node, Store, update}
use today_i_learned.Trees.Bst.Model.{insert, parent}
use today_i_learned.Common.Int.{ℤ, eqb_ℤ, ltb_ℤ}
use today_i_learned.Trees.Shape.{
  Tree, leaf, node, root, cell, Misses, IsProper, IsStored, IsStored-update, update_self, update_ne,
  Apart-Misses, Apart-sym,
}
use mathlib.Core.Path.{subst}

pub some-injective : {a b : Ptr} → some a ≡ some b → a ≡ b
some-injective e = cc

-- The node under which a new one hangs, with the new pointer.
abbrev pub hung : Node → ℤ → Ptr → Node
hung n x p = if ltb_ℤ n.datum x then record n { right = p } else record n { left = p }

-- Where the walk in `t` ends, in a store `h` that has the new node at `p`: with the pointer to it
-- the store holds `t'`.
abbrev pub IsPlace : Store → (t t' : Tree) → ℤ → Ptr → Ptr → Type 0
IsPlace h t t' x p q =
    (n : Node) × (h q ≡ some n)
    × (q ≢ null)
    × ((if ltb_ℤ n.datum x then n.right else n.left) ≡ null)
    × IsStored (update h q (some (hung n x p))) t'
    × ((b : Ptr) → Misses b t → b ≢ q)

pub root-insert : (t : Tree) (x : ℤ) (p : Ptr) → root t ≢ null → root (insert t x p) ≡ root t
unfolding insert
root-insert leaf x p ne = absurd (ne refl)
root-insert (node l a d r) x p ne = ground arith

module _ (h : Store) (x : ℤ) (p : Ptr) (p0 : p ≢ null) (new : h p ≡ some (cell null x null))
    (l : Tree) (a : Ptr) (d : ℤ) (r : Tree) (s : IsStored h (node l a d r))
    (pr : IsProper (node l a d r)) (m : Misses p (node l a d r)) where
  here_right :
      ltb_ℤ d x ≡ true
      → root r ≡ null
      → IsPlace h (node l a d r) (node l a d (node leaf p x leaf)) x p a
  here_right low end =
      let n = cell (root l) d (root r) in
      let changed : update h a (some (hung n x p)) a ≡ some (cell (root l) d p) =
        update_self h a _
        ∙ ap (λ b. some (if b then cell (root l) d p else cell p d (root r))) low in
      (
        n,
        s.2,
        s.1,
        rw low end,
        (IsStored-update h a _ l pr.2 s.0, s.1, changed, (tt, p0, update_ne h a p _ m.1 ∙ new, tt)),
        λ b mb. mb.1,
      )

  here_left :
      ltb_ℤ d x ≡ false
      → root l ≡ null
      → IsPlace h (node l a d r) (node (node leaf p x leaf) a d r) x p a
  here_left high end =
      let n = cell (root l) d (root r) in
      let changed : update h a (some (hung n x p)) a ≡ some (cell p d (root r)) =
        update_self h a _
        ∙ ap (λ b. some (if b then cell (root l) d p else cell p d (root r))) high in
      (
        n,
        s.2,
        s.1,
        rw high end,
        ((tt, p0, update_ne h a p _ m.1 ∙ new, tt), s.1, changed, IsStored-update h a _ r pr.3 s.3),
        λ b mb. mb.1,
      )

  down_right :
      (r' : Tree) (q : Ptr)
      → root r' ≡ root r
      → IsPlace h r r' x p q
      → IsPlace h (node l a d r) (node l a d r') x p q
  down_right r' q same (n, e, q0, free_side, stored, other) = (
    n,
    e,
    q0,
    free_side,
    (
      IsStored-update h q _ l (Apart-Misses q l r pr.4 other) s.0,
      s.1,
      update_ne h q a _ (other a pr.3) ∙ s.2 ∙ ap (λ c. some (cell (root l) d c)) (sym same),
      stored,
    ),
    λ b mb. other b mb.2,
  )

  down_left :
      (l' : Tree) (q : Ptr)
      → root l' ≡ root l
      → IsPlace h l l' x p q
      → IsPlace h (node l a d r) (node l' a d r) x p q
  down_left l' q same (n, e, q0, free_side, stored, other) = (
    n,
    e,
    q0,
    free_side,
    (
      stored,
      s.1,
      update_ne h q a _ (other a pr.2) ∙ s.2 ∙ ap (λ c. some (cell c d (root r))) (sym same),
      IsStored-update h q _ r (Apart-Misses q r l (Apart-sym l r pr.4) other) s.3,
    ),
    λ b mb. other b mb.0,
  )

module _ (h : Store) (x : ℤ) (p : Ptr) (p0 : p ≢ null) (new : h p ≡ some (cell null x null)) where
  in_right :
      (l : Tree) (a : Ptr) (d : ℤ) (r : Tree) (q : Ptr)
      → IsStored h (node l a d r)
      → IsProper (node l a d r)
      → Misses p (node l a d r)
      → ltb_ℤ d x ≡ true
      → parent r x a ≡ some q
      → (root r ≢ null → IsPlace h r (insert r x p) x p q)
      → IsPlace h (node l a d r) (node l a d (insert r x p)) x p q
  unfolding parent insert
  in_right l a d leaf q s pr m low e ih =
      subst (λ c. IsPlace h (node l a d leaf) (node l a d (insert leaf x p)) x p c)
        (some-injective e) (here_right h x p p0 new l a d leaf s pr m low refl)
  in_right l a d (node rl b c rr) q s pr m low e ih =
      down_right h x p p0 new l a d (node rl b c rr) s pr m (insert (node rl b c rr) x p) q
        (root-insert (node rl b c rr) x p s.3.1) (ih s.3.1)

  in_left :
      (l : Tree) (a : Ptr) (d : ℤ) (r : Tree) (q : Ptr)
      → IsStored h (node l a d r)
      → IsProper (node l a d r)
      → Misses p (node l a d r)
      → ltb_ℤ d x ≡ false
      → parent l x a ≡ some q
      → (root l ≢ null → IsPlace h l (insert l x p) x p q)
      → IsPlace h (node l a d r) (node (insert l x p) a d r) x p q
  unfolding parent insert
  in_left leaf a d r q s pr m high e ih =
      subst (λ c. IsPlace h (node leaf a d r) (node (insert leaf x p) a d r) x p c)
        (some-injective e) (here_left h x p p0 new leaf a d r s pr m high refl)
  in_left (node ll b c lr) a d r q s pr m high e ih =
      down_left h x p p0 new (node ll b c lr) a d r s pr m (insert (node ll b c lr) x p) q
        (root-insert (node ll b c lr) x p s.0.1) (ih s.0.1)

  stays : (q : Ptr) → none ≡ some q → ⊥
  stays q k = cc

  pub place_lem :
      (t : Tree) (from q : Ptr)
      → IsStored h t
      → IsProper t
      → Misses p t
      → root t ≢ null
      → parent t x from ≡ some q
      → IsPlace h t (insert t x p) x p q
  unfolding parent insert
  place_lem leaf from q s pr m ne e = absurd (ne refl)
  place_lem (node l a d r) from q s pr m ne e = elim (Bool-cases (eqb_ℤ d x)) [
    | inl same ↦ absurd (stays q (rw same at e))
    | inr other ↦ elim (Bool-cases (ltb_ℤ d x)) [
      | inl low ↦
          let e' : parent r x a ≡ some q = rw (other, low) at e in
          rw (other, low)
            (in_right l a d r q s pr m low e' λ ne'. place_lem r a q s.3 pr.1 m.2 ne' e')
      | inr high ↦
          let e' : parent l x a ≡ some q = rw (other, high) at e in
          rw (other, high)
            (in_left l a d r q s pr m high e' λ ne'. place_lem l a q s.0 pr.0 m.0 ne' e')
    ]
  ]
