-- ===== src/Trees/Tests.antt =====
-- The theorems of the trees at concrete stores.
use today_i_learned.Common.{ℕ, ◌≢◌, ◌<◌, refl, none, some, arith, ◌≡◌, true, [], ◌∷◌}
use today_i_learned.Common.Int.{pos}
use today_i_learned.Trees.{Store, update, preorder_traverse, inorder_traverse, delete_tree}
use today_i_learned.Trees.Shape.{Tree, leaf, node, cell, IsStored, IsProper, Misses}
use today_i_learned.Trees.Bst.Order.{IsOrdered}
use today_i_learned.Trees.Bst.Set.{
  IsSearchTree, IsGrown, bst_insert-IsGrown, IsHit, bst_search-IsHit,
}
use today_i_learned.Trees.Traverse.{inorder_traverse-inorder, preorder_traverse-preorder}
use today_i_learned.Trees.Bst.{bst_insert, bst_search}
use today_i_learned.Trees.Delete.{IsDeleted, delete_tree-IsDeleted}
use today_i_learned.Trees.Bst.Remove.{bst_remove}
use today_i_learned.Trees.Bst.Model.{contains}
use today_i_learned.Trees.Bst.Remove.Model.{spares, cut_spares}
use today_i_learned.Trees.Bst.Remove.Set.{IsWithout, bst_remove-IsWithout, bst_remove-loses}
use today_i_learned.Common.Run.{ok, Ends}

abbrev three : Tree
three = node (node leaf 2 (pos 1) leaf) 5 (pos 2) (node leaf 7 (pos 3) leaf)

abbrev four : Tree
four = node (node leaf 2 (pos 1) leaf) 5 (pos 2) (node leaf 7 (pos 3) (node leaf 8 (pos 4) leaf))

abbrev no_nodes : Store
no_nodes a = none

abbrev three_nodes : Store
three_nodes =
    update (update (update no_nodes 2 (some (cell 0 (pos 1) 0))) 7 (some (cell 0 (pos 3) 0))) 5
      (some (cell 2 (pos 2) 7))

abbrev four_nodes : Store
four_nodes = update (update three_nodes 8 (some (cell 0 (pos 4) 0))) 7 (some (cell 0 (pos 3) 8))

not_zero : (n : ℕ) → 0 < n → n ≢ 0
not_zero n h = omega arith

three-IsStored : IsStored three_nodes three
unfolding update
three-IsStored = (
  (tt, not_zero 2 (omega arith), refl, tt),
  not_zero 5 (omega arith),
  refl,
  (tt, not_zero 7 (omega arith), refl, tt),
)

four-IsStored : IsStored four_nodes four
unfolding update
four-IsStored = (
  (tt, not_zero 2 (omega arith), refl, tt),
  not_zero 5 (omega arith),
  refl,
  (tt, not_zero 7 (omega arith), refl, (tt, not_zero 8 (omega arith), refl, tt)),
)

three-IsProper : IsProper three
three-IsProper = ground arith

four-IsProper : IsProper four
four-IsProper = ground arith

three-IsOrdered : IsOrdered three
three-IsOrdered = ground arith

four-IsOrdered : IsOrdered four
four-IsOrdered = ground arith

three-IsSearchTree : IsSearchTree three_nodes 5 three
three-IsSearchTree = record {
  at_root = refl;
  stored = three-IsStored;
  proper = three-IsProper;
  ordered = three-IsOrdered;
}

three-Misses : Misses 9 three
three-Misses = ground arith

four-Misses : Misses 9 four
four-Misses = ground arith

four-IsSearchTree : IsSearchTree four_nodes 5 four
four-IsSearchTree = record {
  at_root = refl;
  stored = four-IsStored;
  proper = four-IsProper;
  ordered = four-IsOrdered;
}

inorder_traverse-inorder_example :
    inorder_traverse 4 three_nodes 5 ≡ ok (pos 1 ∷ pos 2 ∷ pos 3 ∷ [])
inorder_traverse-inorder_example =
    inorder_traverse-inorder three 4 three_nodes three-IsStored (omega arith)

preorder_traverse-preorder_example :
    preorder_traverse 4 three_nodes 5 ≡ ok (pos 2 ∷ pos 1 ∷ pos 3 ∷ [])
preorder_traverse-preorder_example =
    preorder_traverse-preorder three 4 three_nodes three-IsStored (omega arith)

delete_tree-IsDeleted_example : Ends (IsDeleted three_nodes three) (delete_tree 4 three_nodes 5)
delete_tree-IsDeleted_example =
    delete_tree-IsDeleted three 4 three_nodes three-IsStored three-IsProper
      (not_zero 5 (omega arith)) (omega arith)

bst_insert-IsGrown_example :
    Ends (IsGrown three (pos 4)) (bst_insert 4 9 (pos 0) three_nodes 5 (pos 4))
bst_insert-IsGrown_example =
    bst_insert-IsGrown three 4 9 (pos 0) three_nodes 5 (pos 4) three-IsSearchTree three-Misses
      (not_zero 9 (omega arith)) (omega arith)

bst_search-IsHit_example :
    Ends (IsHit three_nodes three (pos 3)) (bst_search 4 three_nodes 5 (pos 3))
bst_search-IsHit_example =
    bst_search-IsHit three 4 three_nodes 5 (pos 3) three-IsSearchTree (omega arith)

three_has_two : contains three (pos 2) ≡ true
unfolding contains
three_has_two = refl

two_is_spared : spares three (pos 2) ≡ true
unfolding spares cut_spares
two_is_spared = refl

bst_remove-IsWithout_example :
    Ends (IsWithout three (pos 2)) (bst_remove 4 9 (pos 0) three_nodes 5 (pos 2))
bst_remove-IsWithout_example =
    bst_remove-IsWithout three 4 9 (pos 0) three_nodes 5 (pos 2) three-IsSearchTree three-Misses
      (not_zero 9 (omega arith)) (omega arith) three_has_two two_is_spared

bst_remove-loses_example :
    Ends
      (λ (q, r, h'). (r ≡ 5) × IsStored h' (node (node leaf 2 (pos 1) leaf) 5 (pos 3) leaf))
      (bst_remove 5 9 (pos 0) four_nodes 5 (pos 2))
bst_remove-loses_example =
    bst_remove-loses (node leaf 2 (pos 1) leaf) 5 (pos 2) 7 (pos 3) (node leaf 8 (pos 4) leaf) 5 9
      (pos 0) four_nodes (not_zero 2 (omega arith)) four-IsStored four-IsProper four-Misses
      (not_zero 9 (omega arith)) (omega arith)
