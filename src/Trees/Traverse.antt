-- ===== src/Trees/Traverse.antt =====
-- What the traversals visit, and what the deletion of a tree prints and frees.
use today_i_learned.Common.{ℕ, zero, suc, ◌<◌, ◌≡◌, refl, List, [], ◌∷◌, ◌++◌, arith, ap}
use today_i_learned.Trees.{Store, preorder_traverse, postorder_traverse, inorder_traverse}
use today_i_learned.Trees.Shape.{
  Tree, leaf, node, root, size, inorder, IsStored, eq-null, load-node,
}
use today_i_learned.Common.Int.{ℤ}
use today_i_learned.Common.Run.{ok}
use mathlib.Core.List.{reverse, append_assoc, reverse-append, reverse-cons}

abbrev pub preorder : Tree → List ℤ
preorder leaf = []
preorder (node l a d r) = d ∷ preorder l ++ preorder r

abbrev pub postorder : Tree → List ℤ
postorder leaf = []
postorder (node l a d r) = postorder l ++ (postorder r ++ d ∷ [])

-- `InorderTraverse` on a stored tree visits the left part, the node and the right part.
pub inorder_traverse-inorder :
    (t : Tree) (k : ℕ) (h : Store)
    → IsStored h t
    → size t < k
    → inorder_traverse k h (root t) ≡ ok (inorder t)
unfolding inorder_traverse
inorder_traverse-inorder t zero h s f = absurd (omega arith)
inorder_traverse-inorder leaf (suc k) h s f = refl
inorder_traverse-inorder (node l a d r) (suc k) h s f =
    rw
      (
        eq-null a s.1,
        load-node h l a d r s,
        inorder_traverse-inorder l k h s.0 (omega arith),
        inorder_traverse-inorder r k h s.3 (omega arith),
      )
      refl

-- `PreorderTraverse` visits the node, the left part and the right part.
pub preorder_traverse-preorder :
    (t : Tree) (k : ℕ) (h : Store)
    → IsStored h t
    → size t < k
    → preorder_traverse k h (root t) ≡ ok (preorder t)
unfolding preorder_traverse
preorder_traverse-preorder t zero h s f = absurd (omega arith)
preorder_traverse-preorder leaf (suc k) h s f = refl
preorder_traverse-preorder (node l a d r) (suc k) h s f =
    rw
      (
        eq-null a s.1,
        load-node h l a d r s,
        preorder_traverse-preorder l k h s.0 (omega arith),
        preorder_traverse-preorder r k h s.3 (omega arith),
      )
      refl

-- `PostorderTraverse` visits a stored tree in the order of `InorderTraverse` backwards, not its
-- children before it.
pub postorder_traverse-reverse :
    (t : Tree) (k : ℕ) (h : Store)
    → IsStored h t
    → size t < k
    → postorder_traverse k h (root t) ≡ ok (reverse (inorder t))
unfolding postorder_traverse
postorder_traverse-reverse t zero h s f = absurd (omega arith)
postorder_traverse-reverse leaf (suc k) h s f = refl
postorder_traverse-reverse (node l a d r) (suc k) h s f =
    rw
      (
        eq-null a s.1,
        load-node h l a d r s,
        postorder_traverse-reverse r k h s.3 (omega arith),
        postorder_traverse-reverse l k h s.0 (omega arith),
      )
      (ap ok backwards)
  where
    backwards :
        reverse (inorder r) ++ d ∷ reverse (inorder l) ≡ reverse (inorder l ++ d ∷ inorder r)
    backwards = simp (reverse-append, reverse-cons, append_assoc)
