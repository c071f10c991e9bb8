-- ===== src/Stack/Laws.antt =====
-- What the stack does on a stack of given data.
use today_i_learned.Stack.{Stack, s_is_empty, s_pop, s_peek}
use today_i_learned.Common.{◌≡◌, refl, true, false, List, [], ◌∷◌}
use today_i_learned.Common.Run.{ok}

pub s_is_empty-nil {ℓ} : (A : Type ℓ) → s_is_empty {A = A} (record { head = [] }) ≡ true
unfolding s_is_empty
s_is_empty-nil A = refl

module _ {ℓ} {A : Type ℓ} where
  abbrev pub stack : List A → Stack A
  stack xs = record { head = xs }

  pub s_is_empty-stack : (x : A) (xs : List A) → s_is_empty (stack (x ∷ xs)) ≡ false
  unfolding s_is_empty
  s_is_empty-stack x xs = refl

  pub s_pop-stack : (x : A) (xs : List A) → s_pop (stack (x ∷ xs)) ≡ ok (x, stack xs)
  unfolding s_pop
  s_pop-stack x xs = refl

  pub s_peek-stack : (x : A) (xs : List A) → s_peek (stack (x ∷ xs)) ≡ ok x
  unfolding s_peek
  s_peek-stack x xs = refl
