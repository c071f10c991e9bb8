-- ===== src/Linked/Chain.antt =====
-- The nodes of a list, with their addresses, and that a store holds them.
use today_i_learned.Common.{ℕ, suc, ◌≡◌, ◌≢◌, List, [], ◌∷◌, some, Option, ◌∙◌, refl, sym}
use today_i_learned.Common.Int.{ℤ}
use today_i_learned.Common.Run.{ok}
use today_i_learned.Common.Store.{Ptr, null, update, update_ne, load-stored}
use today_i_learned.Linked.{Node, Store, set_next}

abbrev pub Nodes : Type 0
Nodes = List (Ptr × ℤ)

abbrev pub cell : ℤ → Ptr → Node
cell d q = record { datum = d; next = q }

abbrev pub first : Nodes → Ptr
first [] = null
first ((a, d) ∷ xs) = a

abbrev pub count : Nodes → ℕ
count [] = 0
count ((a, d) ∷ xs) = suc (count xs)

abbrev pub IsChain : Store → Nodes → Type 0
IsChain h [] = Unit {0}
IsChain h ((a, d) ∷ xs) = (a ≢ null) × (h a ≡ some (cell d (first xs))) × IsChain h xs

-- The address is not one of the list's.
abbrev pub Avoids : Ptr → Nodes → Type 0
Avoids p [] = Unit {0}
Avoids p ((a, d) ∷ xs) = (p ≢ a) × Avoids p xs

-- No address occurs twice.
abbrev pub IsProper : Nodes → Type 0
IsProper [] = Unit {0}
IsProper ((a, d) ∷ xs) = Avoids a xs × IsProper xs

pub IsChain-update :
    (h : Store) (p : Ptr) (c : Option Node) (xs : Nodes)
    → Avoids p xs
    → IsChain h xs
    → IsChain (update h p c) xs
IsChain-update h p c [] av s = tt
IsChain-update h p c ((a, d) ∷ xs) av s =
    (s.0, update_ne h p a c (λ e. av.0 (sym e)) ∙ s.1, IsChain-update h p c xs av.1 s.2)

pub set_next-cell :
    (h : Store) (p : Ptr) (n : Node) (q : Ptr)
    → p ≢ null
    → h p ≡ some n
    → set_next h p q ≡ ok (update h p (some (record n { next = q })))
unfolding set_next
set_next-cell h p n q p0 e = rw (load-stored h p n p0 e) refl
