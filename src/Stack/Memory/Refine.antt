-- ===== src/Stack/Memory/Refine.antt =====
-- The linked stack in memory against the stack that is the list of its data.
use today_i_learned.Common.Store.{
  Ptr, null, StoreOf, load, free, update, update_self, update_ne, load-stored, eq-null,
}
use mathlib.Core.Path.{subst, sym, ap}
use today_i_learned.Stack.Memory.{
  IsFresh, Avoids, first, values, IsChain, pop, push, peek, Node, Holds, ListStack, link_is_empty,
  link_push, link_pop, link_peek, Call, run_calls, run_list, IsLinked, EndsAlike,
}
use today_i_learned.Stack.{Stack, s_is_empty, s_push, s_pop, s_peek}
use today_i_learned.Common.{◌≡◌, refl, ◌∙◌, ◌≢◌, Option, none, List, [], ◌∷◌, arith}
use today_i_learned.Stack.Laws.{stack, s_pop-stack, s_peek-stack}
use today_i_learned.Common.Int.{negsuc}
use today_i_learned.Common.Run.{Run, ok, exit, fault, out_of_fuel, ◌>>=◌}

module _ {A : Type 0} where
  -- A chain does not see a cell that it avoids.
  IsChain-update :
      (h : StoreOf (Node A)) (p : Ptr) (c : Option (Node A)) (nodes : List (Ptr × A))
      → Avoids p nodes
      → IsChain h nodes
      → IsChain (update h p c) nodes
  IsChain-update h p c [] av s = tt
  IsChain-update h p c ((a, x) ∷ nodes) av s =
      (s.0, update_ne h p a c (λ e. av.0 (sym e)) ∙ s.1, s.2, IsChain-update h p c nodes av.1 s.3)

  unused-Avoids :
      (h : StoreOf (Node A)) (p : Ptr) (nodes : List (Ptr × A))
      → h p ≡ none
      → IsChain h nodes
      → Avoids p nodes
  unused-Avoids h p [] e s = tt
  unused-Avoids h p ((a, x) ∷ nodes) e s = ((λ same. cc), unused-Avoids h p nodes e s.3)

  link_push-Holds :
      (fresh : Ptr) (s : ListStack A) (x : A) (nodes : List (Ptr × A))
      → fresh ≢ null
      → s.store fresh ≡ none
      → Holds s nodes
      → Holds (link_push fresh s x) ((fresh, x) ∷ nodes)
  unfolding link_push
  link_push-Holds fresh s x nodes n e v =
      let av = unused-Avoids s.store fresh nodes e v.chain in
      record {
        chain = (
          n,
          rw (← v.head_is) (update_self s.store fresh _),
          av,
          IsChain-update s.store fresh _ nodes av v.chain,
        );
        head_is = refl;
        only = λ p h. update_ne s.store fresh p _ h.0 ∙ v.only p h.1;
      }

  cleared : (h : StoreOf (Node A)) (a p : Ptr) → (p ≢ a → h p ≡ none) → update h a none p ≡ none
  unfolding update
  cleared h a p e = ground arith

  -- `SPop` gives the first value, frees its node and no other.
  link_pop-Holds :
      (s : ListStack A) (a : Ptr) (x : A) (nodes : List (Ptr × A))
      → Holds s ((a, x) ∷ nodes)
      → (s' : ListStack A) × (link_pop s ≡ ok (x, s')) × Holds s' nodes
  unfolding link_pop link_is_empty free
  link_pop-Holds s a x nodes v =
      let c = v.chain in
      (
        record { store = update s.store a none; head = first nodes },
        rw (v.head_is, load-stored s.store a _ c.0 c.1, eq-null a c.0) refl,
        record {
          chain = IsChain-update s.store a none nodes c.2 c.3;
          head_is = refl;
          only = λ p h. cleared s.store a p λ n. v.only p (n, h);
        },
      )

  link_pop-empty : (s : ListStack A) → Holds s [] → link_pop s ≡ fault
  unfolding link_pop load
  link_pop-empty s v = rw v.head_is refl

  s_pop-empty : s_pop (stack {A = A} []) ≡ fault
  unfolding s_pop
  s_pop-empty = refl

  link_peek-empty : (s : ListStack A) → Holds s [] → link_peek s ≡ exit (negsuc 0)
  unfolding link_peek link_is_empty
  link_peek-empty s v = rw v.head_is refl

  s_peek-empty : s_peek (stack {A = A} []) ≡ exit (negsuc 0)
  unfolding s_peek s_is_empty
  s_peek-empty = refl

  link_peek-Holds :
      (s : ListStack A) (a : Ptr) (x : A) (nodes : List (Ptr × A))
      → Holds s ((a, x) ∷ nodes)
      → link_peek s ≡ ok x
  unfolding link_peek link_is_empty
  link_peek-Holds s a x nodes v =
      let c = v.chain in rw (v.head_is, eq-null a c.0, load-stored s.store a _ c.0 c.1) refl

  answer :
      (x : A) (r : Run (List A × ListStack A)) (q : Run (List A × Stack A))
      → EndsAlike r q
      → EndsAlike (do (xs, s) ← r; ok (x ∷ xs, s)) (do (xs, t) ← q; ok (x ∷ xs, t))
  answer x (ok (xs, s)) (ok (ys, t)) e = (ap (λ zs. x ∷ zs) e.0, e.1)
  answer x (ok _) (exit d) e = absurd e
  answer x (ok _) fault e = absurd e
  answer x (ok _) out_of_fuel e = absurd e
  answer x (exit c) (ok _) e = absurd e
  answer x (exit c) (exit d) e = e
  answer x (exit c) fault e = absurd e
  answer x (exit c) out_of_fuel e = absurd e
  answer x fault (ok _) e = absurd e
  answer x fault (exit d) e = absurd e
  answer x fault fault e = e
  answer x fault out_of_fuel e = absurd e
  answer x out_of_fuel q e = absurd e

  run_nodes :
      (calls : List (Call A)) (s : ListStack A) (nodes : List (Ptr × A))
      → IsFresh calls s
      → Holds s nodes
      → EndsAlike (run_calls calls s) (run_list calls (stack (values nodes)))
  unfolding run_calls run_list IsFresh s_push
  run_nodes [] s nodes f v = (refl, record { nodes = nodes; holds = v; same = refl })
  run_nodes (push fresh x ∷ calls) s nodes f v =
      run_nodes calls (link_push fresh s x) ((fresh, x) ∷ nodes) f.2
        (link_push-Holds fresh s x nodes f.0 f.1 v)
  run_nodes (pop ∷ calls) s [] f v = rw (link_pop-empty s v, s_pop-empty) tt
  run_nodes (pop ∷ calls) s ((a, x) ∷ nodes) f v =
      let (s', e, w) = link_pop-Holds s a x nodes v in
      rw (e, s_pop-stack x (values nodes))
        (answer x (run_calls calls s') (run_list calls (stack (values nodes)))
          (run_nodes calls s' nodes (f x s' e) w))
  run_nodes (peek ∷ calls) s [] f v = rw (link_peek-empty s v, s_peek-empty) refl
  run_nodes (peek ∷ calls) s ((a, x) ∷ nodes) f v =
      rw (link_peek-Holds s a x nodes v, s_peek-stack x (values nodes))
        (answer x (run_calls calls s) (run_list calls (stack (x ∷ values nodes)))
          (run_nodes calls s ((a, x) ∷ nodes) f v))

  -- A linked stack whose memory holds its nodes and nothing else gives, for any sequence of pushes,
  -- pops and peeks in which `malloc` gives addresses that are not null and not in use, the answers
  -- of the list of its data. It ends as the list does, with the exit or the null pointer read of a
  -- call on the empty stack, or with a memory that holds just the nodes of the stack that is left:
  -- no node is used after it is freed, and none is leaked.
  pub run_calls-list :
      (calls : List (Call A)) (s : ListStack A) (t : Stack A)
      → IsFresh calls s
      → IsLinked s t
      → EndsAlike (run_calls calls s) (run_list calls t)
  run_calls-list calls s t f v =
      subst (λ xs. EndsAlike (run_calls calls s) (run_list calls (stack xs))) (sym v.same)
        (run_nodes calls s v.nodes f v.holds)
