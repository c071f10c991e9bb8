-- ===== src/Trees/Avl/Tests.antt =====
-- The theorems of the AVL tree at concrete stores.
use today_i_learned.Common.{ℕ, ◌≡◌, ◌≢◌, ◌<◌, refl, none, some, true, arith}
use today_i_learned.Common.Int.{pos}
use today_i_learned.Common.Run.{Ends}
use today_i_learned.Trees.{Store, update}
use today_i_learned.Trees.Shape.{Tree, leaf, node, cell, IsStored, IsProper, Misses}
use today_i_learned.Trees.Bst.Model.{contains}
use today_i_learned.Trees.Bst.Set.{IsSearchTree, IsGrown}
use today_i_learned.Trees.Bst.Remove.Model.{spares, cut_spares}
use today_i_learned.Trees.Avl.{rebalance, avl_insert, avl_remove}
use today_i_learned.Trees.Avl.Model.{balance, right_heavy, turn_rr}
use today_i_learned.Trees.Avl.Turn.{Turned}
use today_i_learned.Trees.Avl.Rebalance.{rebalance-IsTurned}
use today_i_learned.Trees.Avl.Set.{IsLess, avl_remove-IsWithout, avl_insert-IsGrown}
use today_i_learned.Trees.Avl.Level.{IsBalanced, IsLeveled, rebalance-IsBalanced}

-- Three nodes in a chain to the right.
abbrev chain : Tree
chain = node leaf 5 (pos 1) (node leaf 7 (pos 2) (node leaf 8 (pos 3) leaf))

abbrev chain_nodes : Store
chain_nodes =
    update (update (update (λ a. none) 8 (some (cell 0 (pos 3) 0))) 7 (some (cell 0 (pos 2) 8))) 5
      (some (cell 0 (pos 1) 7))

not_zero : (n : ℕ) → 0 < n → n ≢ 0
not_zero n h = omega arith

chain-IsStored : IsStored chain_nodes chain
unfolding update
chain-IsStored = (
  tt,
  not_zero 5 (omega arith),
  refl,
  (tt, not_zero 7 (omega arith), refl, (tt, not_zero 8 (omega arith), refl, tt)),
)

chain-IsProper : IsProper chain
chain-IsProper = ground arith

chain-Misses : Misses 9 chain
chain-Misses = ground arith

chain-IsSearchTree : IsSearchTree chain_nodes 5 chain
chain-IsSearchTree = record {
  at_root = refl;
  stored = chain-IsStored;
  proper = chain-IsProper;
  ordered = ground arith;
}

turned_chain : balance chain ≡ node (node leaf 5 (pos 1) leaf) 7 (pos 2) (node leaf 8 (pos 3) leaf)
unfolding balance right_heavy turn_rr
turned_chain = refl

rebalance-IsTurned_example :
    Ends (Turned chain_nodes chain (balance chain)) (rebalance 4 chain_nodes 5)
rebalance-IsTurned_example =
    rebalance-IsTurned chain 4 chain_nodes chain-IsStored chain-IsProper (omega arith) (omega arith)

avl_insert-IsGrown_example :
    Ends (IsGrown chain (pos 4)) (avl_insert 5 9 (pos 0) chain_nodes 5 (pos 4))
avl_insert-IsGrown_example =
    avl_insert-IsGrown chain 5 9 (pos 0) chain_nodes 5 (pos 4) chain-IsSearchTree chain-Misses
      (not_zero 9 (omega arith)) (omega arith) (omega arith)

chain_has_two : contains chain (pos 2) ≡ true
unfolding contains
chain_has_two = refl

two_is_spared : spares chain (pos 2) ≡ true
unfolding spares cut_spares
two_is_spared = refl

avl_remove-IsWithout_example :
    Ends (IsLess chain (pos 2)) (avl_remove 4 9 (pos 0) chain_nodes 5 (pos 2))
avl_remove-IsWithout_example =
    avl_remove-IsWithout chain 4 9 (pos 0) chain_nodes 5 (pos 2) chain-IsSearchTree chain-Misses
      (not_zero 9 (omega arith)) (omega arith) (omega arith) chain_has_two two_is_spared

one_and_two : IsBalanced (node leaf 7 (pos 2) (node leaf 8 (pos 3) leaf))
one_and_two = ground arith

rebalance-IsBalanced_example : Ends (IsLeveled chain_nodes chain) (rebalance 4 chain_nodes 5)
rebalance-IsBalanced_example =
    rebalance-IsBalanced leaf 5 (pos 1) (node leaf 7 (pos 2) (node leaf 8 (pos 3) leaf)) 4
      chain_nodes chain-IsStored chain-IsProper (omega arith) (omega arith) tt one_and_two
      (omega arith) (omega arith) (λ e. omega arith) (λ e. omega arith)
