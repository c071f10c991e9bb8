-- ===== src/Trees/Bst/Set.antt =====
-- A search tree as the set of its values.
use today_i_learned.Common.{
  ℕ, ◌<◌, ◌≡◌, ◌≢◌, refl, ◌||◌, if◌then◌else◌, inl, inr, Bool, true, false, arith, Bool-cases,
}
use today_i_learned.Trees.{Ptr, null, Store, get_data}
use today_i_learned.Trees.Shape.{Tree, leaf, node, root, size, IsStored, IsProper, Misses, cell}
use today_i_learned.Trees.Bst.{bst_insert, bst_search}
use today_i_learned.Trees.Bst.Model.{insert, locate, contains}
use today_i_learned.Trees.Bst.Order.{IsOrdered, insert-IsOrdered, contains-insert, All-contains}
use today_i_learned.Trees.Bst.Walk.{bst_search-locate}
use today_i_learned.Trees.Bst.Insert.{bst_insert-IsStored}
use today_i_learned.Trees.Bst.Proper.{insert-IsProper}
use today_i_learned.Common.Int.{ℤ, eqb_ℤ, ltb_ℤ, eq_of_parts}
use today_i_learned.Common.Run.{ok, Ends, Ends-map}
use today_i_learned.Trees.Access.{get_data-cell}

-- The store holds a search tree at `p`.
pub record IsSearchTree (h : Store) (p : Ptr) (t : Tree) : Type 0 where
  pub at_root : p ≡ root t
  pub stored : IsStored h t
  pub proper : IsProper t
  pub ordered : IsOrdered t

-- The store holds a search tree with the values of `t` and `x`.
abbrev pub IsGrown : Tree → ℤ → Ptr × Store → Type 0
IsGrown t x (p, h) =
    (t' : Tree) × IsSearchTree h p t' × ((y : ℤ) → contains t' y ≡ (eqb_ℤ x y || contains t y))

-- `BSTInsert` of a value into a search tree, with a fresh address from `malloc`, leaves a search tree
-- that has the value and those that were there.
pub bst_insert-IsGrown :
    (t : Tree) (k : ℕ) (fresh : Ptr) (garbage : ℤ) (h : Store) (p : Ptr) (x : ℤ)
    → IsSearchTree h p t
    → Misses fresh t
    → fresh ≢ null
    → size t < k
    → Ends (IsGrown t x) (bst_insert k fresh garbage h p x)
bst_insert-IsGrown t k fresh garbage h p x v m f0 f = rw v.at_root (
    Ends-map _ _ _ (bst_insert-IsStored t k fresh garbage h x v.stored v.proper m f0 f)
      λ (p', h') (e, stored, frame). (
        insert t x fresh,
        record {
          at_root = e;
          stored = stored;
          proper = insert-IsProper t x fresh v.proper m;
          ordered = insert-IsOrdered t x fresh v.ordered;
        },
        contains-insert t x fresh,
      ))

-- What the search in `t` gives: a node with the value if the tree has it, and null if not.
abbrev pub IsHit : Store → Tree → ℤ → Ptr → Type 0
IsHit h t x q = if contains t x then (q ≢ null) × (get_data h q ≡ ok x) else (q ≡ null)

or_false : (b : Bool) → (b || false) ≡ b
or_false true = refl
or_false false = refl

pub locate-IsHit :
    (t : Tree) (h : Store) (x : ℤ) → IsStored h t → IsOrdered t → IsHit h t x (locate t x)
unfolding locate contains
locate-IsHit leaf h x s o = refl
locate-IsHit (node l a d r) h x s o =
    let n = cell (root l) d (root r) in
    elim (Bool-cases (eqb_ℤ d x)) [
      | inl same ↦
          let same' : d ≡ x = eq_of_parts d x (ground arith) in
          rw same (s.1, rw (get_data-cell h a n s.1 s.2, same') refl)
      | inr other ↦ rw other (elim (Bool-cases (ltb_ℤ d x)) [
        | inl low ↦
            let missing : contains l x ≡ false = All-contains _ l x (λ y below. ground arith) o.0 in
            rw (low, missing) (locate-IsHit r h x s.3 o.3)
        | inr high ↦
            let missing : contains r x ≡ false = All-contains _ r x (λ y above. ground arith) o.1 in
            rw (high, missing, or_false (contains l x)) (locate-IsHit l h x s.0 o.2)
      ])
    ]

-- `BSTSearch` in a search tree gives a node with the target if the tree has it, and null if not.
pub bst_search-IsHit :
    (t : Tree) (k : ℕ) (h : Store) (p : Ptr) (x : ℤ)
    → IsSearchTree h p t
    → size t < k
    → Ends (IsHit h t x) (bst_search k h p x)
bst_search-IsHit t k h p x v f =
    rw (v.at_root, bst_search-locate t k h x v.stored f)
      (locate t x, refl, locate-IsHit t h x v.stored v.ordered)
