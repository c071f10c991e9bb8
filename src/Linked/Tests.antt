-- ===== src/Linked/Tests.antt =====
-- The theorems of the linked list at concrete lists.
use today_i_learned.Common.{ℕ, ◌≡◌, ◌≢◌, ◌<◌, refl, [], ◌∷◌, some, none, arith, if◌then◌else◌}
use today_i_learned.Common.Int.{ℤ, pos, ltb_ℤ, ◌+ℤ◌, ◌-ℤ◌}
use today_i_learned.Common.Run.{Ends}
use today_i_learned.Common.Store.{update}
use today_i_learned.Linked.{Store, LinkedList, l_insert, l_remove}
use today_i_learned.Linked.Chain.{Nodes, cell, IsChain, IsProper, Avoids}
use today_i_learned.Linked.Insert.{place, IsInserted, l_insert-IsInserted}
use today_i_learned.Linked.Cursor.{IsCut, l_remove-IsCut}

-- 0 where the first comes before the second.
abbrev ascending : ℤ → ℤ → ℤ
ascending a b = if ltb_ℤ a b then pos 0 else pos 1

-- The head and two nodes, with the cursor on the second.
abbrev two : LinkedList
two = record { head = 4; before = 6; cur = 8; num_of_count = pos 2; comp = some ascending }

abbrev two_nodes : Store
two_nodes =
    update (update (update (λ a. none) 8 (some (cell (pos 30) 0))) 6 (some (cell (pos 10) 8))) 4
      (some (cell (pos 0) 6))

abbrev members : Nodes
members = (6, pos 10) ∷ (8, pos 30) ∷ []

not_zero : (n : ℕ) → 0 < n → n ≢ 0
not_zero n h = omega arith

two-IsChain : IsChain two_nodes ((4, pos 0) ∷ members)
unfolding update
two-IsChain = (
  not_zero 4 (omega arith),
  refl,
  (not_zero 6 (omega arith), refl, (not_zero 8 (omega arith), refl, tt)),
)

two-IsProper : IsProper ((4, pos 0) ∷ members)
two-IsProper = ground arith

two-Avoids : Avoids 9 ((4, pos 0) ∷ members)
two-Avoids = ground arith

between : place ascending (pos 20) 9 members ≡ (6, pos 10) ∷ (9, pos 20) ∷ (8, pos 30) ∷ []
between = refl

l_insert-IsInserted_example :
    Ends
      (IsInserted two two_nodes 9
        ((4, pos 0) ∷ members)
        ((4, pos 0) ∷ place ascending (pos 20) 9 members))
      (l_insert 3 9 5 two two_nodes (pos 20))
unfolding ◌+ℤ◌
l_insert-IsInserted_example =
    l_insert-IsInserted 3 9 5 two two_nodes (pos 20) (pos 0) members two-IsChain two-IsProper
      two-Avoids (not_zero 9 (omega arith)) (omega arith) refl

l_remove-IsCut_example :
    Ends (IsCut two two_nodes ((4, pos 0) ∷ []) (pos 10) (pos 30) []) (l_remove two two_nodes)
unfolding ◌-ℤ◌
l_remove-IsCut_example =
    l_remove-IsCut ((4, pos 0) ∷ []) [] (pos 10) (pos 30) two two_nodes two-IsChain two-IsProper
      refl
