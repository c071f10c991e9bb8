-- ===== src/Linked/Cursor.antt =====
-- `LFirst`, `LNext` and `LRemove`.
use today_i_learned.Common.{
  ℕ, zero, suc, ◌<◌, ◌≡◌, ◌≢◌, ◌∙◌, refl, sym, List, [], ◌∷◌, ◌++◌, some, none, arith, true, ap,
}
use today_i_learned.Common.Int.{ℤ, pos, ◌-ℤ◌, in_int}
use today_i_learned.Common.Run.{Run, ok, out_of_fuel, ◌>>=◌, Ends}
use today_i_learned.Common.Store.{
  Ptr, null, update, free, update_self, update_ne, load-stored, eq-null,
}
use today_i_learned.Linked.{Store, LinkedList, l_first, l_next, l_remove}
use today_i_learned.Linked.Chain.{
  Nodes, cell, first, count, IsChain, Avoids, IsProper, IsChain-update, set_next-cell,
}

-- The data that `LNext` gives until it returns FALSE.
unfoldable pub walk_on : ℕ → LinkedList → Store → Run (List ℤ)
walk_on zero l h = out_of_fuel
walk_on (suc k) l h = do
  (found, l') ← l_next l h
  let further : ℤ → Run (List ℤ) = (λ x. do xs ← walk_on k l' h; ok (x ∷ xs))
  elim found [ none ↦ ok [] | some x ↦ further x ]

-- And with `LFirst` before it.
unfoldable pub walk : ℕ → LinkedList → Store → Run (List ℤ)
walk k l h = do
  (found, l') ← l_first l h
  let further : ℤ → Run (List ℤ) = (λ x. do xs ← walk_on k l' h; ok (x ∷ xs))
  elim found [ none ↦ ok [] | some x ↦ further x ]

abbrev pub data_of : Nodes → List ℤ
data_of [] = []
data_of ((a, d) ∷ xs) = d ∷ data_of xs

walk_on-data :
    (xs : Nodes) (l : LinkedList) (k : ℕ) (h : Store) (d : ℤ)
    → IsChain h ((l.cur, d) ∷ xs)
    → count xs < k
    → walk_on k l h ≡ ok (data_of xs)
unfolding walk_on l_next
walk_on-data xs l zero h d s f = absurd (omega arith)
walk_on-data [] l (suc k) h d s f = rw (load-stored h l.cur (cell d null) s.0 s.1) refl
walk_on-data ((a, e) ∷ xs) l (suc k) h d s f =
    rw
      (
        load-stored h l.cur (cell d a) s.0 s.1,
        eq-null a s.2.0,
        load-stored h a (cell e (first xs)) s.2.0 s.2.1,
        walk_on-data xs (record l { before = l.cur; cur = a }) k h e s.2 (omega arith),
      )
      refl

-- A call of `LFirst`, and calls of `LNext` until it returns FALSE, give the data of a stored list in
-- order.
pub walk-data_of :
    (xs : Nodes) (l : LinkedList) (k : ℕ) (h : Store) (e : ℤ)
    → IsChain h ((l.head, e) ∷ xs)
    → count xs < k
    → walk k l h ≡ ok (data_of xs)
unfolding walk l_first
walk-data_of [] l k h e s f = rw (load-stored h l.head (cell e null) s.0 s.1) refl
walk-data_of ((a, d) ∷ xs) l k h e s f =
    rw
      (
        load-stored h l.head (cell e a) s.0 s.1,
        eq-null a s.2.0,
        load-stored h a (cell d (first xs)) s.2.0 s.2.1,
        walk_on-data xs (record l { before = l.head; cur = a }) k h d s.2 (omega arith),
      )
      refl

IsChain-rest : (ys zs : Nodes) (h : Store) → IsChain h (ys ++ zs) → IsChain h zs
IsChain-rest [] zs h s = s
IsChain-rest ((a, d) ∷ ys) zs h s = IsChain-rest ys zs h s.2

IsProper-rest : (ys zs : Nodes) → IsProper (ys ++ zs) → IsProper zs
IsProper-rest [] zs s = s
IsProper-rest ((a, d) ∷ ys) zs s = IsProper-rest ys zs s.1

Avoids-rest : (a : Ptr) (ys zs : Nodes) → Avoids a (ys ++ zs) → Avoids a zs
Avoids-rest a [] zs m = m
Avoids-rest a ((b, e) ∷ ys) zs m = Avoids-rest a ys zs m.1

first-append :
    (ys u v : Nodes) (b : Ptr) (e : ℤ) → first (ys ++ (b, e) ∷ u) ≡ first (ys ++ (b, e) ∷ v)
first-append [] u v b e = refl
first-append ((a, d) ∷ ys) u v b e = refl

-- The chain without the node at `c`.
without :
    (ys : Nodes) (b : Ptr) (e : ℤ) (c : Ptr) (d : ℤ) (zs : Nodes) (h : Store)
    → IsChain h (ys ++ (b, e) ∷ (c, d) ∷ zs)
    → IsProper (ys ++ (b, e) ∷ (c, d) ∷ zs)
    → IsChain (update (update h b (some (cell e (first zs)))) c none) (ys ++ (b, e) ∷ zs)
without [] b e c d zs h s pr =
    let h₁ = update h b (some (cell e (first zs))) in
    (
      s.0,
      update_ne h₁ c b _ pr.0.0 ∙ update_self h b _,
      IsChain-update h₁ c _ zs pr.1.0 (IsChain-update h b _ zs pr.0.1 s.2.2),
    )
without ((a, f) ∷ ys) b e c d zs h s pr =
    let h₁ = update h b (some (cell e (first zs))) in
    let (ab, (ac, others)) = Avoids-rest a ys ((b, e) ∷ (c, d) ∷ zs) pr.0 in
    (
      s.0,
      update_ne h₁ c a _ ac
          ∙ update_ne h b a _ ab
          ∙ s.1
          ∙ ap (λ q. some (cell f q)) (first-append ys ((c, d) ∷ zs) zs b e),
      without ys b e c d zs h s.2 pr.1,
    )

-- The datum of the node under the cursor is given and the node freed; the cursor is on the node
-- before it, and one less is counted.
abbrev pub IsCut : LinkedList → Store → Nodes → ℤ → ℤ → Nodes → ℤ × LinkedList × Store → Type 0
IsCut l h ys e d zs (x, l', h') =
    (x ≡ d)
    × (l' ≡ record l { cur = l.before; num_of_count = l.num_of_count -ℤ pos 1 })
    × IsChain h' (ys ++ (l.before, e) ∷ zs)
    × (h' l.cur ≡ none)
    × ((a : Ptr) → a ≢ l.before → a ≢ l.cur → h' a ≡ h a)

-- `LRemove` on a stored list, with the cursor on a node and `before` on the one before it, takes the
-- node out of the chain and frees it, moves the cursor back and counts one less.
pub l_remove-IsCut :
    (ys zs : Nodes) (e d : ℤ) (l : LinkedList) (h : Store)
    → IsChain h (ys ++ (l.before, e) ∷ (l.cur, d) ∷ zs)
    → IsProper (ys ++ (l.before, e) ∷ (l.cur, d) ∷ zs)
    → in_int (l.num_of_count -ℤ pos 1) ≡ true
    → Ends (IsCut l h ys e d zs) (l_remove l h)
unfolding l_remove free
l_remove-IsCut ys zs e d l h s pr fits =
    let here = IsChain-rest ys ((l.before, e) ∷ (l.cur, d) ∷ zs) h s in
    let apart = (IsProper-rest ys ((l.before, e) ∷ (l.cur, d) ∷ zs) pr).0.0 in
    let back : l.cur ≢ l.before = λ q. apart (sym q) in
    let n = cell d (first zs) in
    let h₁ = update h l.before (some (cell e (first zs))) in
    rw
      (
        load-stored h l.cur n here.2.0 here.2.1,
        set_next-cell h l.before (cell e l.cur) (first zs) here.0 here.1,
        load-stored h₁ l.cur n here.2.0 (update_ne h l.before l.cur _ back ∙ here.2.1),
        fits,
      )
      (
        _,
        refl,
        (
          refl,
          refl,
          without ys l.before e l.cur d zs h s pr,
          update_self h₁ l.cur none,
          λ a ab ac. update_ne h₁ l.cur a _ ac ∙ update_ne h l.before a _ ab,
        ),
      )
