-- ===== src/Trees/Shape.antt =====
-- Trees with the addresses of their nodes, and that a store holds one.
use today_i_learned.Common.{
  ℕ, suc, ◌+◌, ◌≡◌, ◌≢◌, List, [], ◌∷◌, ◌++◌, Option, some, arith, sym, ◌∙◌,
}
use today_i_learned.Trees.{Ptr, null, Node, Store, update, load}
pub use today_i_learned.Common.Store.{eq-null, update_self, update_ne, load-stored}
use today_i_learned.Common.Int.{ℤ}
use today_i_learned.Common.Run.{ok}

pub data Tree : Type 0 where
  leaf : Tree
  node : Tree → Ptr → ℤ → Tree → Tree

abbrev pub root : Tree → Ptr
root leaf = null
root (node l a d r) = a

abbrev pub cell : Ptr → ℤ → Ptr → Node
cell l d r = record { left = l; datum = d; right = r }

abbrev pub size : Tree → ℕ
size leaf = 0
size (node l a d r) = suc (size l + size r)

abbrev pub inorder : Tree → List ℤ
inorder leaf = []
inorder (node l a d r) = inorder l ++ d ∷ inorder r

-- The address is not one of the tree's.
abbrev pub Misses : Ptr → Tree → Type 0
Misses p leaf = Unit {0}
Misses p (node l a d r) = Misses p l × (p ≢ a) × Misses p r

-- Two trees have no address in common.
abbrev pub Apart : Tree → Tree → Type 0
Apart leaf t = Unit {0}
Apart (node l a d r) t = Apart l t × Misses a t × Apart r t

-- No address occurs twice.
abbrev pub IsProper : Tree → Type 0
IsProper leaf = Unit {0}
IsProper (node l a d r) = IsProper l × IsProper r × Misses a l × Misses a r × Apart l r

abbrev pub IsStored : Store → Tree → Type 0
IsStored h leaf = Unit {0}
IsStored h (node l a d r) =
    IsStored h l × (a ≢ null) × (h a ≡ some (cell (root l) d (root r))) × IsStored h r

-- A write elsewhere.
pub IsStored-update :
    (h : Store) (p : Ptr) (c : Option Node) (t : Tree)
    → Misses p t
    → IsStored h t
    → IsStored (update h p c) t
unfolding update
IsStored-update h p c leaf m s = tt
IsStored-update h p c (node l a d r) (ml, pa, mr) (sl, a0, e, sr) =
    (IsStored-update h p c l ml sl, a0, ground arith, IsStored-update h p c r mr sr)

pub Apart-Misses :
    (q : Ptr) (l t : Tree) → Apart l t → ((b : Ptr) → Misses b t → b ≢ q) → Misses q l
Apart-Misses q leaf t a h = tt
Apart-Misses q (node l b d r) t (al, ab, ar) h =
    (Apart-Misses q l t al h, (λ e. h b ab (sym e)), Apart-Misses q r t ar h)

-- The node of a stored tree is read.
pub load-node :
    (h : Store) (l : Tree) (a : Ptr) (d : ℤ) (r : Tree)
    → IsStored h (node l a d r)
    → load h a ≡ ok (cell (root l) d (root r))
load-node h l a d r (sl, a0, e, sr) = load-stored h a (cell (root l) d (root r)) a0 e

pub Apart-leaf : (t : Tree) → Apart t leaf
Apart-leaf leaf = tt
Apart-leaf (node l a d r) = (Apart-leaf l, tt, Apart-leaf r)

pub Apart-node :
    (t l : Tree) (a : Ptr) (d : ℤ) (r : Tree)
    → Apart t l
    → Misses a t
    → Apart t r
    → Apart t (node l a d r)
Apart-node leaf l a d r al m ar = tt
Apart-node (node tl b e tr) l a d r al m ar = (
  Apart-node tl l a d r al.0 m.0 ar.0,
  (al.1, (λ q. m.1 (sym q)), ar.1),
  Apart-node tr l a d r al.2 m.2 ar.2,
)

pub Apart-sym : (l t : Tree) → Apart l t → Apart t l
Apart-sym leaf t a = Apart-leaf t
Apart-sym (node l b d r) t a = Apart-node t l b d r (Apart-sym l t a.0) a.1 (Apart-sym r t a.2)

-- The stores agree but at the addresses of the tree.
abbrev pub Same : Store → Store → Tree → Type 0
Same h h' t = (a : Ptr) → Misses a t → h' a ≡ h a

pub IsStored-Same :
    (h h' : Store) (u t : Tree) → Apart u t → Same h h' t → IsStored h u → IsStored h' u
IsStored-Same h h' leaf t a same s = tt
IsStored-Same h h' (node l b d r) t a same s = (
  IsStored-Same h h' l t a.0 same s.0,
  s.1,
  same b a.1 ∙ s.2,
  IsStored-Same h h' r t a.2 same s.3,
)
