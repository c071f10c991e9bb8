-- ===== src/Trees/Bst/Remove/Unlink.antt =====
-- The removal of a node from under its parent, and from further up.
use today_i_learned.Common.{ℕ, ◌<◌, ◌≡◌, ◌≢◌, refl, ◌∙◌, sym, ap, some, Bool, true, false}
use today_i_learned.Trees.{Ptr, null, Store, update}
use today_i_learned.Trees.Shape.{
  Tree, leaf, node, root, size, cell, IsStored, IsProper, Misses, IsStored-update, update_self,
  update_ne, Apart-Misses, eq-null, IsStored-Same,
}
use today_i_learned.Trees.Bst.Remove.{remove_single, unlink}
use today_i_learned.Trees.Bst.Remove.Model.{cut}
use today_i_learned.Trees.Bst.Remove.Two.{IsTaken, remove_two-IsTaken}
use today_i_learned.Common.Int.{ℤ}
use today_i_learned.Common.Run.{Ends, Ends-map}
use today_i_learned.Trees.Access.{get_data-cell, get_left-cell, get_right-cell}
use today_i_learned.Trees.Bst.Remove.Link.{
  link, parent_cell, link-cell, link-IsStored, link-IsProper, root-ne, change_child,
  remove_childless-cell,
}

link-Misses :
    (b : Bool) (s : Tree) (p : Ptr) (e : ℤ) (t : Tree) (q : Ptr)
    → Misses q (link b s p e t)
    → Misses q s × (q ≢ p) × Misses q t
link-Misses true s p e t q m = m
link-Misses false s p e t q m = (m.2, m.1, m.0)

Misses-link :
    (b : Bool) (s : Tree) (p : Ptr) (e : ℤ) (t : Tree) (q : Ptr)
    → Misses q s
    → q ≢ p
    → Misses q t
    → Misses q (link b s p e t)
Misses-link true s p e t q ms qp mt = (ms, qp, mt)
Misses-link false s p e t q ms qp mt = (mt, qp, ms)

module _ (h : Store) (b : Bool) (s : Tree) (p : Ptr) (e : ℤ) (t : Tree)
    (v : IsStored h (link b s p e t)) (pr : IsProper (link b s p e t)) where
  -- What is taken out of `t` is taken out of the whole.
  pub lift :
      (t' : Tree) (x : ℤ) (out : Ptr × Store)
      → root t' ≡ root t
      → IsTaken h t t' x out
      → IsTaken h (link b s p e t) (link b s p e t') x out
  lift t' x out same k =
      let (p0, at_p, vs, vt) = link-cell b h s p e t v in
      let (prt, ps, pt, ap_st) = link-IsProper b s p e t pr in
      let gone_s = Apart-Misses out.0 s t ap_st k.ours in
      record {
        stored =
            link-IsStored b out.1 s p e t' p0
              (k.frame p pt ∙ at_p ∙ ap (λ c. some (parent_cell b s e c)) (sym same))
              (IsStored-Same h out.1 s t ap_st k.frame vs) k.stored;
        gone = Misses-link b s p e t' out.0 gone_s (λ q. k.ours p pt (sym q)) k.gone;
        given = k.given;
        not_null = k.not_null;
        frame = λ q m. k.frame q (link-Misses b s p e t q m).2;
        ours = λ q m. k.ours q (link-Misses b s p e t q m).2;
      }

module _ (h : Store) (b : Bool) (s : Tree) (p : Ptr) (e : ℤ) (l : Tree) (a : Ptr) (d : ℤ) (r : Tree)
    (v : IsStored h (link b s p e (node l a d r)))
    (pr : IsProper (link b s p e (node l a d r))) where
  -- The parent gets another child.
  relink :
      (t' : Tree)
      → IsStored h t'
      → Misses p t'
      → Misses a t'
      → IsTaken h
          (link b s p e (node l a d r))
          (link b s p e t')
          d
          (a, update h p (some (parent_cell b s e (root t'))))
  relink t' vt' pt' at' =
      let t = node l a d r in
      let (p0, at_p, vs, vt) = link-cell b h s p e t v in
      let (prt, ps, pt, ap_st) = link-IsProper b s p e t pr in
      let a_s = Apart-Misses a s t ap_st (λ q m. m.1) in
      record {
        stored =
            link-IsStored b _ s p e t' p0 (update_self h p _) (IsStored-update h p _ s ps vs)
              (IsStored-update h p _ t' pt' vt');
        gone = Misses-link b s p e t' a a_s (λ q. pt.1 (sym q)) at';
        given =
            get_data-cell _ a (cell (root l) d (root r)) vt.1
              (update_ne h p a _ (λ q. pt.1 (sym q)) ∙ vt.2);
        not_null = vt.1;
        frame = λ q m. update_ne h p q _ (link-Misses b s p e t q m).1;
        ours = λ q m. (link-Misses b s p e t q m).2.1;
      }

root-cut :
    (ll : Tree) (c : Ptr) (f : ℤ) (lr : Tree) (a : Ptr) (rl : Tree) (g : Ptr) (i : ℤ) (rr : Tree)
    → root (cut (node ll c f lr) a (node rl g i rr)) ≡ a
unfolding cut
root-cut ll c f lr a leaf g i rr = refl
root-cut ll c f lr a (node j m y j') g i rr = refl

pub unlink-IsTaken :
    (l r : Tree) (h : Store) (b : Bool) (s : Tree) (p : Ptr) (e : ℤ) (a : Ptr) (d : ℤ) (k : ℕ)
    → IsStored h (link b s p e (node l a d r))
    → IsProper (link b s p e (node l a d r))
    → size r < k
    → Ends (IsTaken h (link b s p e (node l a d r)) (link b s p e (cut l a r)) d) (unlink k h p a)
unfolding unlink cut remove_single
unlink-IsTaken leaf leaf h b s p e a d k v pr fuel =
    let t = node leaf a d leaf in
    let (p0, at_p, vs, vt) = link-cell b h s p e t v in
    let (prt, ps, pt, ap_st) = link-IsProper b s p e t pr in
    let n = cell null d null in
    rw
      (
        get_left-cell h a n vt.1 vt.2,
        get_right-cell h a n vt.1 vt.2,
        remove_childless-cell h s p e a p0 (root-ne s leaf a d leaf ap_st vt.1) b at_p,
      )
      (_, refl, relink h b s p e leaf a d leaf v pr leaf tt tt tt)
unlink-IsTaken leaf (node rl c f rr) h b s p e a d k v pr fuel =
    let r = node rl c f rr in
    let t = node leaf a d r in
    let (p0, at_p, vs, vt) = link-cell b h s p e t v in
    let (prt, ps, pt, ap_st) = link-IsProper b s p e t pr in
    let n = cell null d c in
    rw (get_left-cell h a n vt.1 vt.2, get_right-cell h a n vt.1 vt.2, eq-null c vt.3.1)
      (rw (change_child h s p e a p0 (root-ne s leaf a d r ap_st vt.1) b c at_p)
        (_, refl, relink h b s p e leaf a d r v pr r vt.3 pt.2 prt.3))
unlink-IsTaken (node ll c f lr) leaf h b s p e a d k v pr fuel =
    let l = node ll c f lr in
    let t = node l a d leaf in
    let (p0, at_p, vs, vt) = link-cell b h s p e t v in
    let (prt, ps, pt, ap_st) = link-IsProper b s p e t pr in
    let n = cell c d null in
    rw (get_left-cell h a n vt.1 vt.2, get_right-cell h a n vt.1 vt.2, eq-null c vt.0.1)
      (rw (change_child h s p e a p0 (root-ne s l a d leaf ap_st vt.1) b c at_p)
        (_, refl, relink h b s p e l a d leaf v pr l vt.0 pt.0 prt.2))
unlink-IsTaken (node ll c f lr) (node rl g i rr) h b s p e a d k v pr fuel =
    let l = node ll c f lr in
    let r = node rl g i rr in
    let t = node l a d r in
    let (p0, at_p, vs, vt) = link-cell b h s p e t v in
    let (prt, ps, pt, ap_st) = link-IsProper b s p e t pr in
    let n = cell c d g in
    rw
      (
        get_left-cell h a n vt.1 vt.2,
        get_right-cell h a n vt.1 vt.2,
        eq-null c vt.0.1,
        eq-null g vt.3.1,
      )
      (Ends-map _ _ _ (remove_two-IsTaken h ll c f lr a d k r vt.3.1 vt prt fuel)
        λ out taken. lift h b s p e t v pr (cut l a r) d out (root-cut ll c f lr a rl g i rr) taken)
