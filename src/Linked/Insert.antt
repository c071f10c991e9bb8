-- ===== src/Linked/Insert.antt =====
-- `LInsert`.
use today_i_learned.Common.{
  ◌≡◌, ◌≢◌, ◌∙◌, [], ◌∷◌, some, if◌then◌else◌, ℕ, zero, suc, ◌<◌, refl, sym, inl, inr, true, Option,
  none, arith, Bool-cases,
}
use today_i_learned.Common.Int.{ℤ, pos, eqb_ℤ, ◌+ℤ◌, in_int}
use today_i_learned.Common.Store.{Ptr, null, update, update_self, update_ne, eq-null, load-stored}
use today_i_learned.Linked.{Store, Node, LinkedList, link, f_insert, find_pred, s_insert, l_insert}
use today_i_learned.Linked.Chain.{
  Nodes, cell, first, IsChain, Avoids, IsProper, IsChain-update, count, set_next-cell,
}
use today_i_learned.Common.Run.{Ends, Ends-bind, Ends-map}

-- Where `SInsert` puts the new node: before the first datum that the rule lets it come before.
abbrev pub place : (ℤ → ℤ → ℤ) → ℤ → Ptr → Nodes → Nodes
place comp x p [] = (p, x) ∷ []
place comp x p ((a, d) ∷ xs) =
    if eqb_ℤ (comp x d) (pos 0) then (p, x) ∷ (a, d) ∷ xs else (a, d) ∷ place comp x p xs

-- The two writes that hang the new node behind a node of a chain.
module _ (h : Store) (p : Ptr) (x : ℤ) (g : Ptr) (p0 : p ≢ null) (new : h p ≡ some (cell x g)) where
  abbrev linked : (b : Ptr) (e : ℤ) (xs : Nodes) → Store
  linked b e xs = update (update h p (some (cell x (first xs)))) b (some (cell e p))

  linked-IsChain :
      (b : Ptr) (e : ℤ) (xs : Nodes)
      → IsChain h ((b, e) ∷ xs)
      → IsProper ((b, e) ∷ xs)
      → Avoids p ((b, e) ∷ xs)
      → IsChain (linked b e xs) ((b, e) ∷ (p, x) ∷ xs)
  linked-IsChain b e xs s pr av =
      let h₁ = update h p (some (cell x (first xs))) in
      (
        s.0,
        update_self h₁ b _,
        (
          p0,
          update_ne h₁ b p _ av.0 ∙ update_self h p _,
          IsChain-update h₁ b _ xs pr.0 (IsChain-update h p _ xs av.1 s.2),
        ),
      )

  -- The search gives a node of the chain behind which the new one may be hung.
  record IsPred (comp : ℤ → ℤ → ℤ) (b : Ptr) (e : ℤ) (xs : Nodes) (q : Ptr) : Type 0 where
    found : Node
    there : h q ≡ some found
    not_null : q ≢ null
    one_of_them : (a : Ptr) → Avoids a ((b, e) ∷ xs) → a ≢ q
    result :
        IsChain
          (update (update h p (some (cell x found.next))) q (some (cell found.datum p)))
          ((b, e) ∷ place comp x p xs)

  find_pred-IsPred :
      (comp : ℤ → ℤ → ℤ) (xs : Nodes) (b : Ptr) (e : ℤ) (k : ℕ)
      → IsChain h ((b, e) ∷ xs)
      → IsProper ((b, e) ∷ xs)
      → Avoids p ((b, e) ∷ xs)
      → count xs < k
      → Ends (IsPred comp b e xs) (find_pred k comp h b x)
  unfolding find_pred
  find_pred-IsPred comp xs b e zero s pr av f = absurd (omega arith)
  find_pred-IsPred comp [] b e (suc k) s pr av f = rw (load-stored h b (cell e null) s.0 s.1) (
    b,
    refl,
    record {
      found = cell e null;
      there = s.1;
      not_null = s.0;
      one_of_them = λ a m. m.0;
      result = linked-IsChain b e [] s pr av;
    },
  )
  find_pred-IsPred comp ((a, d) ∷ xs) b e (suc k) s pr av f =
      rw
        (
          load-stored h b (cell e a) s.0 s.1,
          eq-null a s.2.0,
          load-stored h a (cell d (first xs)) s.2.0 s.2.1,
        )
        (elim (Bool-cases (eqb_ℤ (comp x d) (pos 0))) [
          | inl here ↦ rw here (
            b,
            refl,
            record {
              found = cell e a;
              there = s.1;
              not_null = s.0;
              one_of_them = λ c m. m.0;
              result = rw here (linked-IsChain b e ((a, d) ∷ xs) s pr av);
            },
          )
          | inr later ↦ rw later (
              Ends-map _ _ _ (find_pred-IsPred comp xs a d k s.2 pr.1 av.1 (omega arith)) λ q r.
                record {
                  found = r.found;
                  there = r.there;
                  not_null = r.not_null;
                  one_of_them = λ c m. r.one_of_them c m.1;
                  result = rw later (
                    s.0,
                    update_ne _ q b _ (r.one_of_them b pr.0)
                        ∙ update_ne h p b _ (λ same. av.0 (sym same))
                        ∙ s.1,
                    r.result,
                  );
                })
        ])

-- What an insertion leaves: the chain with the new node, one more counted, and the rest as it was.
abbrev pub IsInserted : LinkedList → Store → Ptr → Nodes → Nodes → LinkedList × Store → Type 0
IsInserted l h p old new (l', h') =
    IsChain h' new
    × (l' ≡ record l { num_of_count = l.num_of_count +ℤ pos 1 })
    × ((a : Ptr) → Avoids a old → a ≢ p → h' a ≡ h a)

-- Behind which node the new one goes: the head, where no rule is set.
abbrev pub inserted : Option (ℤ → ℤ → ℤ) → ℤ → Ptr → Nodes → Nodes
inserted none x p xs = (p, x) ∷ xs
inserted (some comp) x p xs = place comp x p xs

link-IsInserted :
    (l : LinkedList) (h h₀ : Store) (p : Ptr) (x : ℤ) (g : Ptr) (q : Ptr) (n : Node)
    (old new : Nodes)
    → p ≢ null
    → h₀ p ≡ some (cell x g)
    → q ≢ null
    → h₀ q ≡ some n
    → q ≢ p
    → ((a : Ptr) → Avoids a old → a ≢ q)
    → ((a : Ptr) → a ≢ p → h₀ a ≡ h a)
    → IsChain (update (update h₀ p (some (cell x n.next))) q (some (cell n.datum p))) new
    → in_int (l.num_of_count +ℤ pos 1) ≡ true
    → Ends (IsInserted l h p old new) (link l h₀ p q)
unfolding link
link-IsInserted l h h₀ p x g q n old new p0 ep q0 eq qp apart others chain fits =
    let h₁ = update h₀ p (some (cell x n.next)) in
    rw
      (
        load-stored h₀ q n q0 eq,
        set_next-cell h₀ p (cell x g) n.next p0 ep,
        set_next-cell h₁ q n p q0 (update_ne h₀ p q _ qp ∙ eq),
        fits,
      )
      (
        _,
        refl,
        (
          chain,
          refl,
          λ a av ne. update_ne h₁ q a _ (apart a av) ∙ update_ne h₀ p a _ ne ∙ others a ne,
        ),
      )

-- `LInsert` into a list whose chain is stored, with a fresh address from `malloc`, puts the new node
-- behind the head where no rule is set, and else before the first datum that the rule lets it come
-- before; it counts one more, and nothing else in the store changes.
pub l_insert-IsInserted :
    (k : ℕ) (p g : Ptr) (l : LinkedList) (h : Store) (x e : ℤ) (xs : Nodes)
    → IsChain h ((l.head, e) ∷ xs)
    → IsProper ((l.head, e) ∷ xs)
    → Avoids p ((l.head, e) ∷ xs)
    → p ≢ null
    → count xs < k
    → in_int (l.num_of_count +ℤ pos 1) ≡ true
    → Ends
        (IsInserted l h p ((l.head, e) ∷ xs) ((l.head, e) ∷ inserted l.comp x p xs))
        (l_insert k p g l h x)
unfolding l_insert f_insert s_insert
l_insert-IsInserted k p g l h x e xs s pr av p0 f fits = go l.comp
  where
    h₀ : Store
    h₀ = update h p (some (cell x g))

    new : h₀ p ≡ some (cell x g)
    new = update_self h p _

    s₀ : IsChain h₀ ((l.head, e) ∷ xs)
    s₀ = IsChain-update h p _ ((l.head, e) ∷ xs) av s

    others : (a : Ptr) → a ≢ p → h₀ a ≡ h a
    others a ne = update_ne h p a _ ne

    go :
        (rule : Option (ℤ → ℤ → ℤ))
        → Ends
            (IsInserted l h p ((l.head, e) ∷ xs) ((l.head, e) ∷ inserted rule x p xs))
            (elim rule [ none ↦ f_insert p g l h x | some comp ↦ s_insert k comp p g l h x ])
    go none =
        link-IsInserted l h h₀ p x g l.head (cell e (first xs)) ((l.head, e) ∷ xs)
          ((l.head, e) ∷ (p, x) ∷ xs) p0 new s.0 s₀.1 (λ q. av.0 (sym q)) (λ a m. m.0) others
          (linked-IsChain h₀ p x g p0 new l.head e xs s₀ pr av) fits
    go (some comp) =
        Ends-bind _ _ _ _ (find_pred-IsPred h₀ p x g p0 new comp xs l.head e k s₀ pr av f) λ q r.
          link-IsInserted l h h₀ p x g q r.found ((l.head, e) ∷ xs)
            ((l.head, e) ∷ place comp x p xs) p0 new r.not_null r.there
            (λ same. r.one_of_them p av (sym same)) r.one_of_them others r.result fits
