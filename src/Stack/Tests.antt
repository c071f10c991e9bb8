-- ===== src/Stack/Tests.antt =====
-- The linked stack at concrete calls, which use a freed address again.
use today_i_learned.Common.Store.{null, load, free, update}
use today_i_learned.Stack.Memory.{
  ListStack, Call, push, pop, peek, link_is_empty, link_push, link_pop, run_calls, run_list,
  IsFresh, IsLinked, EndsAlike,
}
use today_i_learned.Common.{ℕ, ◌≡◌, refl, none, some, List, [], ◌∷◌, arith}
use today_i_learned.Stack.Memory.Refine.{run_calls-list}
use today_i_learned.Common.Run.{ok, Ends-inv}

abbrev no_nodes : ListStack ℕ
no_nodes = record { store = λ p. none; head = null }

abbrev rest : List (Call ℕ)
rest = push 2 9 ∷ peek ∷ pop ∷ []

abbrev calls : List (Call ℕ)
calls = push 1 5 ∷ push 2 7 ∷ pop ∷ rest

abbrev one_node : ListStack ℕ
one_node = record {
  store =
      update
        (update (update (no_nodes.store) 1 (some (record { datum = 5; next = null }))) 2
          (some (record { datum = 7; next = 1 })))
        2 none;
  head = 1;
}

abbrev two_nodes : ListStack ℕ
two_nodes = link_push 2 (link_push 1 no_nodes 5) 7

popped : link_pop two_nodes ≡ ok (7, one_node)
unfolding link_pop link_push link_is_empty load free update
popped = refl

rest-IsFresh : IsFresh rest one_node
unfolding IsFresh update
rest-IsFresh = ((λ e. omega arith), refl, λ x s₁ e. tt)

calls-IsFresh : IsFresh calls no_nodes
unfolding IsFresh link_push update link_pop
calls-IsFresh = (
  (λ e. omega arith),
  refl,
  (
    (λ e. omega arith),
    refl,
    λ x s₁ e.
        Ends-inv (λ ((x', s') : ℕ × ListStack ℕ). IsFresh rest s') (_, popped, rest-IsFresh) e,
  ),
)

no_nodes-IsLinked : IsLinked no_nodes (record { head = [] })
no_nodes-IsLinked = record {
  nodes = [];
  holds = record { chain = tt; head_is = refl; only = λ p h. refl };
  same = refl;
}

run_calls-list_example :
    EndsAlike (run_calls calls no_nodes) (run_list calls (record { head = [] }))
run_calls-list_example =
    run_calls-list calls no_nodes (record { head = [] }) calls-IsFresh no_nodes-IsLinked
