-- ===== src/Stack/Memory.antt =====
-- C++/Datastruct/Stack/ListBaseStack/ListBaseStack.c and .h with the nodes in memory: the functions
-- of `Stack` over a store, where `malloc` and `free` show.
pub mod Refine
use today_i_learned.Stack.{Stack, s_push, s_pop, s_peek}
use today_i_learned.Common.{◌≡◌, ◌≢◌, Bool, none, some, List, [], ◌∷◌, ◌==◌, if◌then◌else◌}
use today_i_learned.Common.Int.{negsuc}
use today_i_learned.Common.Run.{Run, ok, exit, fault, ◌>>=◌}
use today_i_learned.Common.Store.{StoreOf, update, Ptr, null, load, free}

pub record Node (A : Type 0) : Type 0 where
  pub datum : A
  pub next : Ptr

-- The stack, and the part of the memory that `malloc` gave for it.
pub record ListStack (A : Type 0) : Type 0 where
  pub store : StoreOf (Node A)
  pub head : Ptr

module _ {A : Type 0} where
  unfoldable pub link_is_empty : ListStack A → Bool
  link_is_empty s = s.head == null

  -- `fresh` is the address that `malloc` gives.
  unfoldable pub link_push : (fresh : Ptr) → ListStack A → A → ListStack A
  link_push fresh s x = record {
    store = update s.store fresh (some (record { datum = x; next = s.head }));
    head = fresh;
  }

  unfoldable pub link_pop : ListStack A → Run (A × ListStack A)
  link_pop s = do
    node ← load s.store s.head
    if link_is_empty s then exit (negsuc 0) else do
      tmp ← load s.store s.head
      store ← free s.store s.head
      ok (node.datum, record { store = store; head = tmp.next })

  unfoldable pub link_peek : ListStack A → Run A
  link_peek s =
      if link_is_empty s then exit (negsuc 0) else do node ← load s.store s.head; ok node.datum

-- What a client calls, with the address that `malloc` gives to a push.
pub data Call (A : Type 0) : Type 0 where
  push : (fresh : Ptr) (x : A) → Call A
  pop peek : Call A

module _ {A : Type 0} where
  -- The answers of a sequence of calls, and the stack it leaves.
  unfoldable pub run_calls : List (Call A) → ListStack A → Run (List A × ListStack A)
  run_calls [] s = ok ([], s)
  run_calls (push fresh x ∷ calls) s = run_calls calls (link_push fresh s x)
  run_calls (pop ∷ calls) s = do
    (x, s₁) ← link_pop s
    (xs, s₂) ← run_calls calls s₁
    ok (x ∷ xs, s₂)
  run_calls (peek ∷ calls) s = do x ← link_peek s; (xs, s₂) ← run_calls calls s; ok (x ∷ xs, s₂)

  -- The same calls of the stack that is the list of its data.
  unfoldable pub run_list : List (Call A) → Stack A → Run (List A × Stack A)
  run_list [] t = ok ([], t)
  run_list (push fresh x ∷ calls) t = run_list calls (s_push t x)
  run_list (pop ∷ calls) t = do (x, t₁) ← s_pop t; (xs, t₂) ← run_list calls t₁; ok (x ∷ xs, t₂)
  run_list (peek ∷ calls) t = do x ← s_peek t; (xs, t₂) ← run_list calls t; ok (x ∷ xs, t₂)

  -- `malloc` gives each push an address that is not null and not in use.
  unfoldable pub IsFresh : List (Call A) → ListStack A → Type 0
  IsFresh [] s = Unit
  IsFresh (push fresh x ∷ calls) s =
      (fresh ≢ null) × (s.store fresh ≡ none) × IsFresh calls (link_push fresh s x)
  IsFresh (pop ∷ calls) s = (x : A) (s₁ : ListStack A) → link_pop s ≡ ok (x, s₁) → IsFresh calls s₁
  IsFresh (peek ∷ calls) s = IsFresh calls s

  -- The nodes of a stack with their addresses, and where it starts.
  abbrev pub first : List (Ptr × A) → Ptr
  first [] = null
  first ((a, x) ∷ nodes) = a

  abbrev pub values : List (Ptr × A) → List A
  values [] = []
  values ((a, x) ∷ nodes) = x ∷ values nodes

  abbrev pub Avoids : Ptr → List (Ptr × A) → Type 0
  Avoids p [] = Unit
  Avoids p ((a, x) ∷ nodes) = (p ≢ a) × Avoids p nodes

  abbrev pub IsChain : StoreOf (Node A) → List (Ptr × A) → Type 0
  IsChain h [] = Unit
  IsChain h ((a, x) ∷ nodes) =
      (a ≢ null)
      × (h a ≡ some (record { datum = x; next = first nodes }))
      × Avoids a nodes
      × IsChain h nodes

  -- The stack consists of these nodes, and its memory holds nothing else.
  pub record Holds (s : ListStack A) (nodes : List (Ptr × A)) : Type 0 where
    pub chain : IsChain s.store nodes
    pub head_is : s.head ≡ first nodes
    pub only : (p : Ptr) → Avoids p nodes → s.store p ≡ none

  pub record IsLinked (s : ListStack A) (t : Stack A) : Type 0 where
    pub nodes : List (Ptr × A)
    pub holds : Holds s nodes
    pub same : t.head ≡ values nodes

  -- Both return the same answers and linked stacks, or both end in the same way.
  abbrev pub EndsAlike : Run (List A × ListStack A) → Run (List A × Stack A) → Type 0
  EndsAlike (ok (xs, s)) (ok (ys, t)) = (xs ≡ ys) × IsLinked s t
  EndsAlike (exit c) (exit d) = c ≡ d
  EndsAlike fault fault = Unit
  EndsAlike _ _ = ⊥
