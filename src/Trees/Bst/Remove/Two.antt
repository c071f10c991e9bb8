-- ===== src/Trees/Bst/Remove/Two.antt =====
-- The removal of a node with two children.
use today_i_learned.Common.{
  ℕ, suc, ◌≡◌, ◌≢◌, refl, ◌∙◌, sym, some, arith, ◌==◌, false, ◌<◌, zero, true,
}
use today_i_learned.Trees.{Ptr, null, Store, update, get_data}
use today_i_learned.Trees.Shape.{
  Tree, leaf, node, root, cell, IsStored, IsProper, Misses, update_self, update_ne, Apart-Misses,
  size, IsStored-update, eq-null,
}
use today_i_learned.Trees.Bst.Remove.{find_least, remove_two, take_out}
use today_i_learned.Common.Int.{ℤ}
use today_i_learned.Common.Run.{ok, Ends, Ends-bind}
use today_i_learned.Trees.Access.{
  get_data-cell, set_data-cell, get_left-cell, get_right-cell, change_right-cell, change_left-cell,
}
use today_i_learned.Trees.Bst.Remove.Model.{cut, least, drop_least}
use today_i_learned.Trees.Bst.Remove.Least.{find_least-IsLeast, IsLeast}

-- In place of `t`, from which the node with the data `x` is taken out and given, the store holds
-- `t'`, and all else in the store but the cell of `p` is as it was.
pub record IsTaken (h : Store) (t t' : Tree) (x : ℤ) (out : Ptr × Store) : Type 0 where
  pub stored : IsStored out.1 t'
  pub gone : Misses out.0 t'
  pub given : get_data out.1 out.0 ≡ ok x
  pub not_null : out.0 ≢ null
  pub frame : (b : Ptr) → Misses b t → out.1 b ≡ h b
  pub ours : (b : Ptr) → Misses b t → b ≢ out.0

module _ (h : Store) (ll : Tree) (c : Ptr) (g : ℤ) (lr : Tree) (a : Ptr) (d : ℤ) where
  abbrev l : Tree
  l = node ll c g lr

  -- The right child has no left child.
  two_direct :
      (k : ℕ) (b : Ptr) (f : ℤ) (rr : Tree)
      → IsStored h (node l a d (node leaf b f rr))
      → IsProper (node l a d (node leaf b f rr))
      → Ends
          (IsTaken h (node l a d (node leaf b f rr)) (node l a f leaf) d)
          (remove_two (suc k) h a)
  unfolding remove_two find_least take_out
  two_direct k b f rr s pr =
      let na = cell c d b in
      let nb = cell null f (root rr) in
      let ba : b ≢ a = λ e. pr.3.1 (sym e) in
      let h₁ = update h a (some (cell c f b)) in
      let e₁ : h₁ b ≡ some nb = update_ne h a b _ ba ∙ s.3.2 in
      let test : (c == b) ≡ false = ground arith in
      let h₂ = update h₁ a (some (cell c f null)) in
      let e₂ : h₂ b ≡ some nb = update_ne h₁ a b _ ba ∙ e₁ in
      let missed = Apart-Misses b l (node leaf b f rr) pr.4 (λ q m. m.1) in
      rw
        (
          get_right-cell h a na s.1 s.2,
          get_left-cell h b nb s.3.1 s.3.2,
          get_data-cell h a na s.1 s.2,
        )
        (rw (get_data-cell h b nb s.3.1 s.3.2, set_data-cell h a na s.1 s.2 f)
          (rw (get_left-cell h₁ a (cell c f b) s.1 (update_self h a _), test)
            (rw
              (
                get_left-cell h₁ b nb s.3.1 e₁,
                change_right-cell h₁ a (cell c f b) s.1 (update_self h a _) null,
              )
              (rw (set_data-cell h₂ b nb s.3.1 e₂ d) (
                _,
                refl,
                record {
                  stored = (
                    IsStored-update h₂ b _ l missed
                        (IsStored-update h₁ a _ l pr.2 (IsStored-update h a _ l pr.2 s.0)),
                    s.1,
                    update_ne h₂ b a _ pr.3.1 ∙ update_self h₁ a _,
                    tt,
                  );
                  gone = (missed, ba, tt);
                  given = get_data-cell _ b (cell null d (root rr)) s.3.1 (update_self h₂ b _);
                  not_null = s.3.1;
                  frame = λ q m.
                      update_ne h₂ b q _ m.2.1 ∙ update_ne h₁ a q _ m.1 ∙ update_ne h a q _ m.1;
                  ours = λ q m. m.2.1;
                },
              )))))

  -- It has one, and its least node is taken.
  take_least :
      (b : Ptr) (f : ℤ) (rl : Tree) (rr : Tree) (x : ℤ) (mp m : Ptr)
      → IsStored h (node l a d (node rl b f rr))
      → IsProper (node l a d (node rl b f rr))
      → IsLeast h (node rl b f rr) x mp m
      → drop_least (node rl b f rr) ≡ node (drop_least rl) b f rr
      → Ends
          (IsTaken h (node l a d (node rl b f rr)) (node l a x (node (drop_least rl) b f rr)) d)
          (take_out h a mp m)
  unfolding take_out
  take_least b f rl rr x mp m s pr v shape =
      let r = node rl b f rr in
      let na = cell c d b in
      let away = v.within a pr.3 in
      let mpa : mp ≢ a = λ e. away.0 (sym e) in
      let ma : m ≢ a = λ e. away.1 (sym e) in
      let mmp : m ≢ mp = λ e. v.apart (sym e) in
      let h₁ = update h a (some (cell c x b)) in
      let s₁ = IsStored-update h a (some (cell c x b)) r pr.3 s.3 in
      let n₁ = cell m v.datum v.right in
      let e₁ : h₁ mp ≡ some n₁ = update_ne h a mp _ mpa ∙ v.at_mp in
      let e₁' : h₁ m ≡ some (cell null x v.rest) = update_ne h a m _ ma ∙ v.at_m in
      let test : (m == m) ≡ true = ground arith in
      let h₂ = update h₁ mp (some (cell v.rest v.datum v.right)) in
      let e₂ : h₂ m ≡ some (cell null x v.rest) = update_ne h₁ mp m _ mmp ∙ e₁' in
      let missed = Apart-Misses m l r pr.4 (λ q mq. (v.within q mq).1) in
      let missed' = Apart-Misses mp l r pr.4 (λ q mq. (v.within q mq).0) in
      let gone' : Misses m (node (drop_least rl) b f rr) = rw shape at v.gone in
      let dropped' : IsStored h₂ (node (drop_least rl) b f rr) = rw shape at (v.dropped h₁ s₁) in
      rw (get_data-cell h a na s.1 s.2, get_data-cell h m (cell null x v.rest) v.m_null v.at_m)
        (rw (set_data-cell h a na s.1 s.2 x) (
          rw (get_left-cell h₁ mp n₁ v.mp_null e₁, test)
            (rw
              (
                get_right-cell h₁ m (cell null x v.rest) v.m_null e₁',
                change_left-cell h₁ mp n₁ v.mp_null e₁ v.rest,
              )
              (rw (set_data-cell h₂ m (cell null x v.rest) v.m_null e₂ d) (
                _,
                refl,
                record {
                  stored = (
                    IsStored-update h₂ m _ l missed
                        (IsStored-update h₁ mp _ l missed' (IsStored-update h a _ l pr.2 s.0)),
                    s.1,
                    update_ne h₂ m a _ away.1 ∙ update_ne h₁ mp a _ away.0 ∙ update_self h a _,
                    IsStored-update h₂ m _ (node (drop_least rl) b f rr) gone' dropped',
                  );
                  gone = (missed, ma, gone');
                  given = get_data-cell _ m (cell null d v.rest) v.m_null (update_self h₂ m _);
                  not_null = v.m_null;
                  frame = λ q mq.
                      let far = v.within q mq.2 in
                      update_ne h₂ m q _ far.1 ∙ update_ne h₁ mp q _ far.0 ∙ update_ne h a q _ mq.1;
                  ours = λ q mq. (v.within q mq.2).1;
                },
              )))))

  two_deep :
      (k : ℕ) (b : Ptr) (f : ℤ) (j : Tree) (i : Ptr) (y : ℤ) (i' : Tree) (rr : Tree)
      → IsStored h (node l a d (node (node j i y i') b f rr))
      → IsProper (node l a d (node (node j i y i') b f rr))
      → size (node j i y i') < k
      → Ends
          (IsTaken h
            (node l a d (node (node j i y i') b f rr))
            (cut l a (node (node j i y i') b f rr))
            d)
          (remove_two (suc k) h a)
  unfolding remove_two cut find_least drop_least
  two_deep k b f j i y i' rr s pr fuel =
      let rl = node j i y i' in
      rw
        (
          get_right-cell h a (cell c d b) s.1 s.2,
          get_left-cell h b (cell i f (root rr)) s.3.1 s.3.2,
          eq-null i s.3.0.1,
        )
        (Ends-bind _ _ _ _ (find_least-IsLeast rl k h b f rr s.3 pr.1 s.3.0.1 fuel)
          λ (mp, m) v. take_least b f rl rr (least rl f) mp m s pr v refl)

  pub remove_two-IsTaken :
      (k : ℕ) (r : Tree)
      → root r ≢ null
      → IsStored h (node l a d r)
      → IsProper (node l a d r)
      → size r < k
      → Ends (IsTaken h (node l a d r) (cut l a r) d) (remove_two k h a)
  unfolding cut
  remove_two-IsTaken zero r ne s pr fuel = absurd (omega arith)
  remove_two-IsTaken (suc k) leaf ne s pr fuel = absurd (ne refl)
  remove_two-IsTaken (suc k) (node leaf b f rr) ne s pr fuel = two_direct k b f rr s pr
  remove_two-IsTaken (suc k) (node (node j i y i') b f rr) ne s pr fuel =
      two_deep k b f j i y i' rr s pr (omega arith)
