-- ===== src/Trees/Bst/Remove/Least.antt =====
-- The walk to the least node of a right part.
use today_i_learned.Common.{◌≡◌, ◌≢◌, some, ℕ, zero, suc, ◌<◌, refl, sym, ◌∙◌, arith}
use today_i_learned.Trees.{Ptr, null, Store, update}
use today_i_learned.Trees.Shape.{
  Tree, cell, IsStored, Misses, leaf, node, root, size, IsProper, IsStored-update, update_ne,
  Apart-Misses, eq-null, Apart-sym, update_self,
}
use today_i_learned.Trees.Bst.Remove.Model.{drop_least, least}
use today_i_learned.Common.Int.{ℤ}
use today_i_learned.Trees.Access.{get_left-cell}
use today_i_learned.Trees.Bst.Remove.{find_least}
use today_i_learned.Common.Run.{Ends, Ends-map}

-- The node `m` of `t` is the leftmost one, with the data `x`, and `mp` is its parent.
pub record IsLeast (h : Store) (t : Tree) (x : ℤ) (mp m : Ptr) : Type 0 where
  pub rest : Ptr
  pub datum : ℤ
  pub right : Ptr
  pub at_m : h m ≡ some (cell null x rest)
  pub m_null : m ≢ null
  pub at_mp : h mp ≡ some (cell m datum right)
  pub mp_null : mp ≢ null
  pub apart : mp ≢ m
  pub dropped :
      (h' : Store)
      → IsStored h' t
      → IsStored (update h' mp (some (cell rest datum right))) (drop_least t)
  pub gone : Misses m (drop_least t)
  pub within : (b : Ptr) → Misses b t → (b ≢ mp) × (b ≢ m)

module _ (h : Store) (b : Ptr) (f : ℤ) (r : Tree) (c : Ptr) (g : ℤ) (lr : Tree) where
  at_once :
      IsStored h (node (node leaf c g lr) b f r)
      → IsProper (node (node leaf c g lr) b f r)
      → IsLeast h (node (node leaf c g lr) b f r) g b c
  unfolding drop_least
  at_once s pr =
      let sl = s.0 in
      let pl = pr.0 in
      record {
        rest = root lr;
        datum = f;
        right = root r;
        at_m = sl.2;
        m_null = sl.1;
        at_mp = s.2;
        mp_null = s.1;
        apart = pr.2.1;
        dropped = λ h' s'. (
          IsStored-update h' b _ lr pr.2.2 s'.0.3,
          s'.1,
          update_self h' b _,
          IsStored-update h' b _ r pr.3 s'.3,
        );
        gone = (pl.3, (λ e. pr.2.1 (sym e)), pr.4.1);
        within = λ q m. (m.1, m.0.1);
      }

  -- From the left child, which has a left child itself.
  further :
      (ll : Tree) (x : ℤ) (mp m : Ptr)
      → root ll ≢ null
      → IsStored h (node (node ll c g lr) b f r)
      → IsProper (node (node ll c g lr) b f r)
      → IsLeast h (node ll c g lr) x mp m
      → IsLeast h (node (node ll c g lr) b f r) x mp m
  unfolding drop_least
  further leaf x mp m ne s pr v = absurd (ne refl)
  further (node l3 j i r3) x mp m ne s pr v =
      let l = node (node l3 j i r3) c g lr in
      let missed : Misses mp r =
        Apart-Misses mp r l (Apart-sym l r pr.4) (λ q mq. (v.within q mq).0) in
      let missed' : Misses m r =
        Apart-Misses m r l (Apart-sym l r pr.4) (λ q mq. (v.within q mq).1) in
      let away = v.within b pr.2 in
      record {
        rest = v.rest;
        datum = v.datum;
        right = v.right;
        at_m = v.at_m;
        m_null = v.m_null;
        at_mp = v.at_mp;
        mp_null = v.mp_null;
        apart = v.apart;
        dropped = λ h' s'. (
          v.dropped h' s'.0,
          s'.1,
          update_ne h' mp b _ away.0 ∙ s'.2,
          IsStored-update h' mp _ r missed s'.3,
        );
        gone = (v.gone, (λ e. away.1 (sym e)), missed');
        within = λ q mq. v.within q mq.0;
      }

pub find_least-IsLeast :
    (l : Tree) (k : ℕ) (h : Store) (b : Ptr) (f : ℤ) (r : Tree)
    → IsStored h (node l b f r)
    → IsProper (node l b f r)
    → root l ≢ null
    → size l < k
    → Ends (λ (mp, m). IsLeast h (node l b f r) (least l f) mp m) (find_least k h b (root l))
unfolding find_least least
find_least-IsLeast leaf k h b f r s pr ne fuel = absurd (ne refl)
find_least-IsLeast l zero h b f r s pr ne fuel = absurd (omega arith)
find_least-IsLeast (node leaf c g lr) (suc k) h b f r s pr ne fuel =
    rw (get_left-cell h c (cell null g (root lr)) s.0.1 s.0.2)
      ((b, c), refl, at_once h b f r c g lr s pr)
find_least-IsLeast (node (node l3 j i r3) c g lr) (suc k) h b f r s pr ne fuel =
    let ll = node l3 j i r3 in
    rw (get_left-cell h c (cell j g (root lr)) s.0.1 s.0.2, eq-null j s.0.0.1)
      (Ends-map _ _ _ (find_least-IsLeast ll k h c g lr s.0 pr.0 s.0.0.1 (omega arith))
        λ (mp, m) v. further h b f r c g lr ll (least ll g) mp m s.0.0.1 s pr v)
