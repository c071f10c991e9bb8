-- ===== src/Jobs/Chain.antt =====
-- aisys/thread/mini_shell_game_queue.c: the jobs of a queue in memory, first in first out.
use today_i_learned.Common.{
  ℕ, suc, ◌≡◌, ◌≢◌, List, [], ◌∷◌, ◌++◌, some, none, Option, ◌∙◌, sym, ◌+◌, refl, ap, arith,
}
use today_i_learned.Common.Store.{Ptr, null, StoreOf, update, update_ne, update_self}
use today_i_learned.Jobs.{Job, Queue}

-- The jobs of a queue with their addresses.
abbrev pub Jobs : Type 0 → Type 0
Jobs D = List (Ptr × D)

abbrev pub cell : {D : Type 0} → D → Ptr → Job D
cell d q = record { damage = d; next = q }

module _ {D : Type 0} where
  abbrev pub first : Jobs D → Ptr
  first [] = null
  first ((a, d) ∷ xs) = a

  abbrev pub last : Jobs D → Ptr
  last [] = null
  last ((a, d) ∷ []) = a
  last ((a, d) ∷ (x ∷ xs)) = last (x ∷ xs)

  abbrev pub count : Jobs D → ℕ
  count [] = 0
  count (x ∷ xs) = suc (count xs)

  abbrev pub damages : Jobs D → List D
  damages [] = []
  damages ((a, d) ∷ xs) = d ∷ damages xs

  abbrev pub IsChain : StoreOf (Job D) → Jobs D → Type 0
  IsChain h [] = Unit {0}
  IsChain h ((a, d) ∷ xs) = (a ≢ null) × (h a ≡ some (cell d (first xs))) × IsChain h xs

  abbrev pub Avoids : Ptr → Jobs D → Type 0
  Avoids p [] = Unit {0}
  Avoids p ((a, d) ∷ xs) = (p ≢ a) × Avoids p xs

  abbrev pub IsProper : Jobs D → Type 0
  IsProper [] = Unit {0}
  IsProper ((a, d) ∷ xs) = Avoids a xs × IsProper xs

  -- The queue holds these jobs, in this order.
  pub record Holds (q : Queue D) (xs : Jobs D) : Type 0 where
    pub chain : IsChain q.store xs
    pub proper : IsProper xs
    pub head_is : q.head ≡ first xs
    pub tail_is : q.tail ≡ last xs
    pub length_is : q.queue_len ≡ count xs

  pub IsChain-update :
      (h : StoreOf (Job D)) (p : Ptr) (c : Option (Job D)) (xs : Jobs D)
      → Avoids p xs
      → IsChain h xs
      → IsChain (update h p c) xs
  IsChain-update h p c [] av s = tt
  IsChain-update h p c ((a, d) ∷ xs) av s =
      (s.0, update_ne h p a c (λ e. av.0 (sym e)) ∙ s.1, IsChain-update h p c xs av.1 s.2)

  pub free-Avoids :
      (h : StoreOf (Job D)) (p : Ptr) (xs : Jobs D) → h p ≡ none → IsChain h xs → Avoids p xs
  free-Avoids h p [] e s = tt
  free-Avoids h p ((a, d) ∷ xs) e s = ((λ same. cc), free-Avoids h p xs e s.2)

  pub snoc-IsProper :
      (p : Ptr) (d : D) (xs : Jobs D) → Avoids p xs → IsProper xs → IsProper (xs ++ ((p, d) ∷ []))
  snoc-IsProper p d [] av s = (tt, tt)
  snoc-IsProper p d ((a, e) ∷ xs) av s = (snoc-Avoids xs s.0, snoc-IsProper p d xs av.1 s.1)
    where
      snoc-Avoids : (ys : Jobs D) → Avoids a ys → Avoids a (ys ++ ((p, d) ∷ []))
      snoc-Avoids [] h = ((λ same. av.0 (sym same)), tt)
      snoc-Avoids ((b, f) ∷ ys) h = (h.0, snoc-Avoids ys h.1)

  Avoids-last : (a : Ptr) (x : Ptr × D) (xs : Jobs D) → Avoids a (x ∷ xs) → a ≢ last (x ∷ xs)
  Avoids-last a (b, d) [] av = av.0
  Avoids-last a (b, d) (x ∷ xs) av = Avoids-last a x xs av.1

  -- The last job of a chain, and the chain with one more behind it.
  pub snoc-IsChain :
      (h : StoreOf (Job D)) (p : Ptr) (d : D) (x : Ptr × D) (xs : Jobs D)
      → p ≢ null
      → h p ≡ some (cell d null)
      → Avoids p (x ∷ xs)
      → IsProper (x ∷ xs)
      → IsChain h (x ∷ xs)
      → (n : Job D) × (last (x ∷ xs) ≢ null)
        × (h (last (x ∷ xs)) ≡ some n)
        × IsChain
            (update h (last (x ∷ xs)) (some (record n { next = p })))
            ((x ∷ xs) ++ ((p, d) ∷ []))
  snoc-IsChain h p d (a, e) [] p0 hp av pr ch = (
    cell e null,
    ch.0,
    ch.1,
    (
      ch.0,
      update_self h a (some (cell e p)),
      (p0, update_ne h a p (some (cell e p)) av.0 ∙ hp, tt),
    ),
  )
  snoc-IsChain h p d (a, e) ((b, f) ∷ xs) p0 hp av pr ch =
      let (n, l0, ln, rest) = snoc-IsChain h p d (b, f) xs p0 hp av.1 pr.1 ch.2 in
      (
        n,
        l0,
        ln,
        (
          ch.0,
          update_ne h (last ((b, f) ∷ xs)) a (some (record n { next = p }))
                (Avoids-last a (b, f) xs pr.0)
              ∙ ch.1,
          rest,
        ),
      )

  pub last-snoc : (p : Ptr) (d : D) (xs : Jobs D) → last (xs ++ ((p, d) ∷ [])) ≡ p
  last-snoc p d [] = refl
  last-snoc p d (x ∷ []) = refl
  last-snoc p d (x ∷ (y ∷ xs)) = last-snoc p d (y ∷ xs)

  pub count-snoc : (x : Ptr × D) (xs : Jobs D) → count (xs ++ (x ∷ [])) ≡ count xs + 1
  count-snoc x [] = refl
  count-snoc x (y ∷ xs) = ground (arith, count-snoc x xs)

  pub damages-snoc :
      (p : Ptr) (d : D) (xs : Jobs D) → damages (xs ++ ((p, d) ∷ [])) ≡ damages xs ++ (d ∷ [])
  damages-snoc p d [] = refl
  damages-snoc p d (x ∷ xs) = ap (λ ys. x.1 ∷ ys) (damages-snoc p d xs)
