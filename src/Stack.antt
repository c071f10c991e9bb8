-- ===== src/Stack.antt =====
-- C++/Datastruct/Stack/ListBaseStack/ListBaseStack.c and .h, also copied into ExpressionStack:
-- a stack as a linked list. A node belongs to one stack and is reached from nowhere else, so the
-- chain from `head` is the list of its data, with `[]` for the null pointer, and `free` shows in
-- nothing; `Stack.Memory` has the functions over nodes in memory. `malloc` is taken to succeed, as
-- the code takes it.
pub mod Laws
pub mod Memory
mod Tests
use today_i_learned.Common.{if◌then◌else◌, Bool, true, false, List, [], ◌∷◌}
use today_i_learned.Common.Int.{negsuc}
use today_i_learned.Common.Run.{Run, ok, exit, fault, ◌>>=◌}

module _ {ℓ} {A : Type ℓ} where
  -- `p->data` and `p->next`.
  abbrev pub data_of : List A → Run A
  data_of [] = fault
  data_of (x ∷ xs) = ok x

  abbrev pub next_of : List A → Run (List A)
  next_of [] = fault
  next_of (x ∷ xs) = ok xs

pub record Stack {ℓ} (A : Type ℓ) : Type ℓ where
  pub head : List A

module _ {ℓ} {A : Type ℓ} where
  unfoldable pub stack_init : Stack A
  stack_init = record { head = [] }

  unfoldable pub s_is_empty : Stack A → Bool
  s_is_empty s = elim s.head [ [] ↦ true | x ∷ xs ↦ false ]

  unfoldable pub s_push : Stack A → A → Stack A
  s_push s x = record { head = x ∷ s.head }

  -- The data is read before the test for the empty stack.
  unfoldable pub s_pop : Stack A → Run (A × Stack A)
  unfolding s_is_empty
  s_pop s = do
    p ← data_of s.head
    if s_is_empty s
        then exit (negsuc 0)
        else do rest ← next_of s.head; ok (p, record { head = rest })

  unfoldable pub s_peek : Stack A → Run A
  unfolding s_is_empty
  s_peek s = if s_is_empty s then exit (negsuc 0) else data_of s.head
