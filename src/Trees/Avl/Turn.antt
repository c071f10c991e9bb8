-- ===== src/Trees/Avl/Turn.antt =====
-- The rotations on a stored tree.
use today_i_learned.Common.{◌≡◌, ◌≢◌, refl, sym, ◌∙◌, some}
use today_i_learned.Common.Int.{ℤ}
use today_i_learned.Common.Run.{Ends}
use today_i_learned.Trees.{Ptr, Store, update, change_left_sub_tree, change_right_sub_tree}
use today_i_learned.Trees.Shape.{
  Tree, node, root, IsStored, IsProper, Misses, Same, cell, IsStored-update, update_self, update_ne,
  Apart-node, Apart-sym, IsStored-Same,
}
use today_i_learned.Trees.Bst.Remove.Proper.{Apart-fewer}
use today_i_learned.Trees.Avl.{rotate_ll, rotate_rr}
use today_i_learned.Trees.Access.{
  get_left-cell, get_right-cell, change_left-cell, change_right-cell,
}

-- The store holds `t'` in place of `t`, at no other addresses; the rest is as it was.
pub record IsTurned (h : Store) (t t' : Tree) (p : Ptr) (h' : Store) : Type 0 where
  pub at_root : p ≡ root t'
  pub stored : IsStored h' t'
  pub proper : IsProper t'
  pub within : (b : Ptr) → Misses b t → Misses b t'
  pub frame : Same h h' t

abbrev pub Turned : Store → Tree → Tree → Ptr × Store → Type 0
Turned h t t' (p, h') = IsTurned h t t' p h'

pub IsTurned-refl : (h : Store) (t : Tree) → IsStored h t → IsProper t → IsTurned h t t (root t) h
IsTurned-refl h t s pr = record {
  at_root = refl;
  stored = s;
  proper = pr;
  within = λ b m. m;
  frame = λ b m. refl;
}

-- A node between three trees that turns over.
module _ (h : Store) (x : Tree) (c : Ptr) (e : ℤ) (y : Tree) (a : Ptr) (d : ℤ) (z : Tree) where
  pub rotate_ll-IsTurned :
      IsStored h (node (node x c e y) a d z)
      → IsProper (node (node x c e y) a d z)
      → Ends (Turned h (node (node x c e y) a d z) (node x c e (node y a d z))) (rotate_ll h a)
  unfolding rotate_ll
  rotate_ll-IsTurned s pr =
      let n = cell c d (root z) in
      let m = cell (root x) e (root y) in
      let c0 = s.0.1 in
      let a0 = s.1 in
      let ca : c ≢ a = λ q. pr.2.1 (sym q) in
      let h₁ = update h a (some (cell (root y) d (root z))) in
      let h₂ = update h₁ c (some (cell (root x) e a)) in
      let at_c : h₁ c ≡ some m = update_ne h a c _ ca ∙ s.0.2 in
      rw
        (
          get_left-cell h a n a0 s.2,
          get_right-cell h c m c0 s.0.2,
          change_left-cell h a n a0 s.2 (root y),
          change_right-cell h₁ c m c0 at_c a,
        )
        (
          (c, h₂),
          refl,
          record {
            at_root = refl;
            stored = (
              IsStored-update h₁ c _ x pr.0.2 (IsStored-update h a _ x pr.2.0 s.0.0),
              c0,
              update_self h₁ c _,
              (
                IsStored-update h₁ c _ y pr.0.3 (IsStored-update h a _ y pr.2.2 s.0.3),
                a0,
                update_ne h₁ c a _ pr.2.1 ∙ update_self h a _,
                IsStored-update h₁ c _ z pr.4.1 (IsStored-update h a _ z pr.3 s.3),
              ),
            );
            proper = (
              pr.0.0,
              (pr.0.1, pr.1, pr.2.2, pr.3, pr.4.2),
              pr.0.2,
              (pr.0.3, ca, pr.4.1),
              Apart-node x y a d z pr.0.4 pr.2.0 pr.4.0,
            );
            within = λ b mb. (mb.0.0, mb.0.1, (mb.0.2, mb.1, mb.2));
            frame = λ b mb. update_ne h₁ c b _ mb.0.1 ∙ update_ne h a b _ mb.1;
          },
        )

  pub rotate_rr-IsTurned :
      IsStored h (node x c e (node y a d z))
      → IsProper (node x c e (node y a d z))
      → Ends (Turned h (node x c e (node y a d z)) (node (node x c e y) a d z)) (rotate_rr h c)
  unfolding rotate_rr
  rotate_rr-IsTurned s pr =
      let n = cell (root x) e a in
      let m = cell (root y) d (root z) in
      let c0 = s.1 in
      let a0 = s.3.1 in
      let ac : a ≢ c = λ q. pr.3.1 (sym q) in
      let away = Apart-sym x (node y a d z) pr.4 in
      let h₁ = update h c (some (cell (root x) e (root y))) in
      let h₂ = update h₁ a (some (cell c d (root z))) in
      let at_a : h₁ a ≡ some m = update_ne h c a _ ac ∙ s.3.2 in
      rw
        (
          get_right-cell h c n c0 s.2,
          get_left-cell h a m a0 s.3.2,
          change_right-cell h c n c0 s.2 (root y),
          change_left-cell h₁ a m a0 at_a c,
        )
        (
          (a, h₂),
          refl,
          record {
            at_root = refl;
            stored = (
              (
                IsStored-update h₁ a _ x away.1 (IsStored-update h c _ x pr.2 s.0),
                c0,
                update_ne h₁ a c _ pr.3.1 ∙ update_self h c _,
                IsStored-update h₁ a _ y pr.1.2 (IsStored-update h c _ y pr.3.0 s.3.0),
              ),
              a0,
              update_self h₁ a _,
              IsStored-update h₁ a _ z pr.1.3 (IsStored-update h c _ z pr.3.2 s.3.3),
            );
            proper = (
              (pr.0, pr.1.0, pr.2, pr.3.0, Apart-sym y x away.0),
              pr.1.1,
              (away.1, ac, pr.1.2),
              pr.1.3,
              (Apart-sym z x away.2, pr.3.2, pr.1.4),
            );
            within = λ b mb. ((mb.0, mb.1, mb.2.0), mb.2.1, mb.2.2);
            frame = λ b mb. update_ne h₁ a b _ mb.2.1 ∙ update_ne h c b _ mb.1;
          },
        )

pub IsTurned-trans :
    (h h₁ h₂ : Store) (t t₁ t₂ : Tree) (p p₂ : Ptr)
    → IsTurned h t t₁ p h₁
    → IsTurned h₁ t₁ t₂ p₂ h₂
    → IsTurned h t t₂ p₂ h₂
IsTurned-trans h h₁ h₂ t t₁ t₂ p p₂ u v = record {
  at_root = v.at_root;
  stored = v.stored;
  proper = v.proper;
  within = λ b m. v.within b (u.within b m);
  frame = λ b m. v.frame b (u.within b m) ∙ u.frame b m;
}

-- A child that has turned is hung on its parent.
module _ (h : Store) (l : Tree) (a : Ptr) (d : ℤ) (r : Tree) (s : IsStored h (node l a d r))
    (pr : IsProper (node l a d r)) where
  pub hang_left :
      (l' : Tree) (c : Ptr) (h₁ : Store)
      → IsTurned h l l' c h₁
      → Ends (λ h₂. IsTurned h (node l a d r) (node l' a d r) a h₂) (change_left_sub_tree h₁ a c)
  hang_left l' c h₁ o =
      let n = cell (root l) d (root r) in
      let at_a : h₁ a ≡ some n = o.frame a pr.2 ∙ s.2 in
      let away = Apart-sym l r pr.4 in
      rw (change_left-cell h₁ a n s.1 at_a c, o.at_root)
        (
          _,
          refl,
          record {
            at_root = refl;
            stored = (
              IsStored-update h₁ a _ l' (o.within a pr.2) o.stored,
              s.1,
              update_self h₁ a _,
              IsStored-update h₁ a _ r pr.3 (IsStored-Same h h₁ r l away o.frame s.3),
            );
            proper = (
              o.proper,
              pr.1,
              o.within a pr.2,
              pr.3,
              Apart-sym r l' (Apart-fewer r l l' o.within away),
            );
            within = λ b m. (o.within b m.0, m.1, m.2);
            frame = λ b m. update_ne h₁ a b _ m.1 ∙ o.frame b m.0;
          },
        )

  pub hang_right :
      (r' : Tree) (c : Ptr) (h₁ : Store)
      → IsTurned h r r' c h₁
      → Ends (λ h₂. IsTurned h (node l a d r) (node l a d r') a h₂) (change_right_sub_tree h₁ a c)
  hang_right r' c h₁ o =
      let n = cell (root l) d (root r) in
      let at_a : h₁ a ≡ some n = o.frame a pr.3 ∙ s.2 in
      rw (change_right-cell h₁ a n s.1 at_a c, o.at_root)
        (
          _,
          refl,
          record {
            at_root = refl;
            stored = (
              IsStored-update h₁ a _ l pr.2 (IsStored-Same h h₁ l r pr.4 o.frame s.0),
              s.1,
              update_self h₁ a _,
              IsStored-update h₁ a _ r' (o.within a pr.3) o.stored,
            );
            proper = (pr.0, o.proper, pr.2, o.within a pr.3, Apart-fewer l r r' o.within pr.4);
            within = λ b m. (m.0, m.1, o.within b m.2);
            frame = λ b m. update_ne h₁ a b _ m.1 ∙ o.frame b m.2;
          },
        )
