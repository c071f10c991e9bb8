-- ===== src/Trees/Bst/Remove/Result.antt =====
-- `BSTRemove` on a stored tree.
use today_i_learned.Common.{
  ℕ, ◌<◌, ◌≡◌, ◌≢◌, ◌⊎◌, some, none, arith, ◌==◌, if◌then◌else◌, true, refl, sym, ◌∙◌, inl, inr,
}
use today_i_learned.Trees.{Ptr, null, Store, update, get_data, make_bt_node, load}
use today_i_learned.Trees.Shape.{
  Tree, leaf, root, size, cell, IsStored, IsProper, Misses, IsStored-update, update_self, update_ne,
  eq-null,
}
use today_i_learned.Trees.Bst.Remove.{bst_remove}
use today_i_learned.Trees.Bst.Remove.Model.{remove}
use today_i_learned.Trees.Bst.Remove.Walk.{find_target-Walked}
use today_i_learned.Trees.Bst.Model.{locate}
use today_i_learned.Common.Int.{ℤ}
use today_i_learned.Common.Run.{ok, Ends, Ends-bind}
use today_i_learned.Trees.Access.{change_right-cell, free-cell, get_right-cell}
use today_i_learned.Trees.Bst.Remove.Order.{Misses-remove}

-- What is left where `x` is in `t`: the smaller tree, the node that is taken out with `x` in it,
-- and nothing at `v`.
pub record IsOut (h : Store) (t : Tree) (x : ℤ) (v : Ptr) (q r : Ptr) (h' : Store) : Type 0 where
  pub at_root : r ≡ root (remove t x)
  pub stored : IsStored h' (remove t x)
  pub gone : Misses q (remove t x)
  pub given : get_data h' q ≡ ok x
  pub freed : h' v ≡ none
  pub frame : (b : Ptr) → Misses b t → b ≢ v → h' b ≡ h b

-- And where it is not: the same tree, and a node at `v` that nothing points to.
pub record IsLeaked (h : Store) (t : Tree) (garbage : ℤ) (v : Ptr) (q r : Ptr) (h' : Store)
    : Type 0 where
  pub at_root : r ≡ root t
  pub stored : IsStored h' t
  pub no_node : q ≡ null
  pub leaked : h' v ≡ some (cell null garbage (root t))
  pub frame : (b : Ptr) → b ≢ v → h' b ≡ h b

abbrev pub IsRemoved : Store → Tree → ℤ → ℤ → Ptr → Ptr × Ptr × Store → Type 0
IsRemoved h t x garbage v (q, r, h') =
    ((locate t x ≢ null) × IsOut h t x v q r h')
    ⊎ ((locate t x ≡ null) × IsLeaked h t garbage v q r h')

either_same : (a b : Ptr) → (if a == b then b else a) ≡ a
either_same a b = ground arith

get_data-ne : (h : Store) (q v : Ptr) → q ≢ v → get_data (update h v none) q ≡ get_data h q
unfolding get_data load
get_data-ne h q v ne = rw (update_ne h v q none ne) refl

-- `BSTRemove` on a stored tree, with a fresh address for its virtual root: a target that its search
-- finds is taken out, its node is given, the smaller tree is stored and the virtual root freed; for
-- a target that it does not find the tree stays, and the virtual root is never freed. Nothing else
-- in the store changes.
pub bst_remove-IsRemoved :
    (t : Tree) (k : ℕ) (v : Ptr) (garbage : ℤ) (h : Store) (x : ℤ)
    → IsStored h t
    → IsProper t
    → Misses v t
    → v ≢ null
    → size t < k
    → Ends (IsRemoved h t x garbage v) (bst_remove k v garbage h (root t) x)
unfolding bst_remove make_bt_node
bst_remove-IsRemoved t k v garbage h x s pr m v0 fuel =
    let blank = cell null garbage null in
    let h₀ = update h v (some blank) in
    let h₁ = update h₀ v (some (cell null garbage (root t))) in
    let s₁ = IsStored-update h₀ v _ t m (IsStored-update h v _ t m s) in
    let at_v : h₁ v ≡ some (cell null garbage (root t)) = update_self h₀ v _ in
    rw (change_right-cell h₀ v blank v0 (update_self h v _) (root t)) (
      Ends-bind _ _ _ _
        (find_target-Walked t k h₁ true leaf v garbage x (tt, v0, at_v, s₁) (tt, pr, tt, m, tt)
          fuel)
        λ (p, c) w. elim w [
          | inl (c0, missing) ↦ rw c0 (
            _,
            refl,
            inr (
              missing,
              record {
                at_root = refl;
                stored = s₁;
                no_node = refl;
                leaked = at_v;
                frame = λ b bv. update_ne h₀ v b _ bv ∙ update_ne h v b _ bv;
              },
            ),
          )
          | inr (c0, found, take) ↦ rw (eq-null c c0) (
              Ends-bind _ _ _ _ (take k fuel) λ (q, h₂) taken.
                let n = cell null garbage (root (remove t x)) in
                rw (get_right-cell h₂ v n v0 taken.stored.2, free-cell h₂ v n v0 taken.stored.2)
                  (
                    _,
                    refl,
                    inl (
                      λ e. c0 (sym found ∙ e),
                      record {
                        at_root = either_same (root (remove t x)) (root t);
                        stored =
                            IsStored-update h₂ v _ (remove t x) (Misses-remove v t x m)
                              taken.stored.3;
                        gone = taken.gone.2;
                        given = get_data-ne h₂ q v taken.gone.1 ∙ taken.given;
                        freed = update_self h₂ v _;
                        frame = λ b mb bv.
                            update_ne h₂ v b _ bv
                            ∙ taken.frame b (tt, bv, mb)
                            ∙ update_ne h₀ v b _ bv
                            ∙ update_ne h v b _ bv;
                      },
                    ),
                  ))
        ])
