-- ===== src/Trees/ExpTree/Build.antt =====
-- `MakeExpTree` on an expression in postfix notation.
use today_i_learned.Common.{
  ℕ, suc, ◌+◌, ◌<◌, ◌≤◌, ◌≡◌, ◌≢◌, ◌∙◌, List, ◌∷◌, refl, sym, arith, some, false, true, ◌-◌, [],
  ◌++◌,
}
use today_i_learned.Common.Int.{ℤ, pos, to_char}
use today_i_learned.Common.Run.{Ends}
use today_i_learned.Stack.{stack_init, s_push, s_pop}
use today_i_learned.Expression.Syntax.{
  Expr, Term, Factor, term, sum, factor, product, digit, paren, plus, minus, times, over, AddOp,
  MulOp, add_code, mul_code, postfix_expr, postfix_term, postfix_factor, HasDigits, HasDigitsT,
  HasDigitsF,
}
use today_i_learned.Stack.Laws.{stack}
use today_i_learned.Expression.Convert.{is_digit}
use today_i_learned.Trees.{Ptr, null, Store, update, make_bt_node}
use today_i_learned.Trees.Access.{set_data-cell, make_left-cell, make_right-cell}
use today_i_learned.Trees.Shape.{Tree, leaf, node, root, cell, IsStored, update_self, update_ne}
use today_i_learned.Trees.ExpTree.{fill_node, build_loop, make_exp_tree}
use today_i_learned.Trees.ExpTree.Plant.{
  chars_expr, chars_term, chars_factor, plant_expr, plant_term, plant_factor,
}
use mathlib.Core.List.{append-nil, append_assoc}

module _ (fresh : ℕ → Ptr) (distinct : (x y : ℕ) → fresh x ≡ fresh y → x ≡ y)
    (not_null : (x : ℕ) → fresh x ≢ null) (garbage : ℕ → ℤ) where
  -- Not one of the `n` addresses from the round `i` on.
  abbrev Beyond : (i n : ℕ) → Ptr → Type 0
  Beyond i n b = (j : ℕ) → i ≤ j → j < i + n → b ≢ fresh j

  abbrev pub Kept : (i n : ℕ) → Store → Store → Type 0
  Kept i n h h' = (b : Ptr) → Beyond i n b → h' b ≡ h b

  abbrev InRange : (i n : ℕ) → Tree → Type 0
  InRange i n leaf = Unit {0}
  InRange i n (node l a d r) =
      InRange i n l × ((j : ℕ) × (i ≤ j) × (j < i + n) × (a ≡ fresh j)) × InRange i n r

  InRange-wider :
      (i n i' n' : ℕ) (t : Tree) → i' ≤ i → i + n ≤ i' + n' → InRange i n t → InRange i' n' t
  InRange-wider i n i' n' leaf p q m = tt
  InRange-wider i n i' n' (node l a d r) p q (ml, (j, lo, hi, e), mr) = (
    InRange-wider i n i' n' l p q ml,
    (j, omega arith, omega arith, e),
    InRange-wider i n i' n' r p q mr,
  )

  IsStored-Kept :
      (i n j m : ℕ) (h h' : Store) (t : Tree)
      → i + n ≤ j
      → InRange i n t
      → Kept j m h h'
      → IsStored h t
      → IsStored h' t
  IsStored-Kept i n j m h h' leaf p ir k s = tt
  IsStored-Kept i n j m h h' (node l a d r) p (il, (x, lo, hi, e), ir) k s = (
    IsStored-Kept i n j m h h' l p il k s.0,
    s.1,
    k a (λ y from to same. let alike : x ≡ y = distinct x y (sym e ∙ same) in absurd (omega arith))
        ∙ s.2,
    IsStored-Kept i n j m h h' r p ir k s.3,
  )

  -- `t` is planted in the rounds from `i` on.
  record IsPlanted (h : Store) (i n : ℕ) (t : Tree) (h' : Store) : Type 0 where
    stored : IsStored h' t
    range : InRange i n t
    frame : Kept i n h h'

  join :
      (t u : Tree) (x : ℤ) (i m n : ℕ) (h h₁ h₂ h₃ : Store)
      → IsPlanted h i m t h₁
      → IsPlanted h₁ (i + m) n u h₂
      → h₃ (fresh (i + m + n)) ≡ some (cell (root t) x (root u))
      → Kept (i + m + n) 1 h₂ h₃
      → IsPlanted h i (suc (m + n)) (node t (fresh (i + m + n)) x u) h₃
  join t u x i m n h h₁ h₂ h₃ p q new k = record {
    stored = (
      IsStored-Kept i m (i + m + n) 1 h₂ h₃ t (omega arith) p.range k
          (IsStored-Kept i m (i + m) n h₁ h₂ t (omega arith) p.range q.frame p.stored),
      not_null (i + m + n),
      new,
      IsStored-Kept (i + m) n (i + m + n) 1 h₂ h₃ u (omega arith) q.range k q.stored,
    );
    range = (
      InRange-wider i m i (suc (m + n)) t (omega arith) (omega arith) p.range,
      (i + m + n, omega arith, omega arith, refl),
      InRange-wider (i + m) n i (suc (m + n)) u (omega arith) (omega arith) q.range,
    );
    frame = λ b out.
        k b (λ j lo hi. out j (omega arith) (omega arith))
        ∙ q.frame b (λ j lo hi. out j (omega arith) (omega arith))
        ∙ p.frame b (λ j lo hi. out j (omega arith) (omega arith));
  }

  -- A round on an operator, with its operands on the stack.
  operator_round :
      (c : ℕ) (k : List ℕ) (i : ℕ) (p q : Ptr) (xs : List Ptr) (h : Store)
      → is_digit c ≡ false
      → to_char (pos c) ≡ pos c
      → (h' : Store) × (h' (fresh i) ≡ some (cell p (pos c) q))
        × Kept i 1 h h'
        × (build_loop fresh garbage (c ∷ k) i (stack (q ∷ p ∷ xs)) h
            ≡ build_loop fresh garbage k (suc i) (stack (fresh i ∷ xs)) h')
  unfolding build_loop make_bt_node fill_node s_pop s_push
  operator_round c k i p q xs h no_digit narrow =
      let a = fresh i in
      let h₁ = update h a (some (cell null (garbage i) null)) in
      let h₂ = update h₁ a (some (cell null (garbage i) q)) in
      let h₃ = update h₂ a (some (cell p (garbage i) q)) in
      let h₄ = update h₃ a (some (cell p (pos c) q)) in
      (
        h₄,
        update_self h₃ a _,
        (λ b out.
            let ne : b ≢ a = out i (omega arith) (omega arith) in
            update_ne h₃ a b _ ne
            ∙ update_ne h₂ a b _ ne
            ∙ update_ne h₁ a b _ ne
            ∙ update_ne h a b _ ne),
        rw
            (
              no_digit,
              narrow,
              make_right-cell h₁ a _ (not_null i) (update_self h a _) q refl,
              make_left-cell h₂ a _ (not_null i) (update_self h₁ a _) p refl,
              set_data-cell h₃ a _ (not_null i) (update_self h₂ a _) (pos c),
            )
            refl,
      )

  -- A round on a digit.
  digit_round :
      (d : ℕ) (k : List ℕ) (i : ℕ) (xs : List Ptr) (h : Store)
      → d < 10
      → (h' : Store) × IsPlanted h i 1 (node leaf (fresh i) (pos d) leaf) h'
        × (build_loop fresh garbage ((b'0' + d) ∷ k) i (stack xs) h
            ≡ build_loop fresh garbage k (i + 1) (stack (fresh i ∷ xs)) h')
  unfolding build_loop make_bt_node fill_node s_push
  digit_round d k i xs h small =
      let a = fresh i in
      let h₁ = update h a (some (cell null (garbage i) null)) in
      let h₂ = update h₁ a (some (cell null (pos d) null)) in
      let a_digit : is_digit (b'0' + d) ≡ true = ground arith in
      let worth : b'0' + d - b'0' ≡ d = omega arith in
      let next : suc i ≡ i + 1 = omega arith in
      (
        h₂,
        record {
          stored = (tt, not_null i, update_self h₁ a _, tt);
          range = (tt, (i, omega arith, omega arith, refl), tt);
          frame = λ b out.
              let ne : b ≢ a = out i (omega arith) (omega arith) in
              update_ne h₁ a b _ ne ∙ update_ne h a b _ ne;
        },
        rw (a_digit, worth, set_data-cell h₁ a _ (not_null i) (update_self h a _) (pos d), next)
            refl,
      )

  -- What a part of the text that starts at `i` does.
  abbrev Built : (text : List ℕ) (n : ℕ) (t : Tree) (i : ℕ) → Type 0
  Built text n t i =
      (k : List ℕ) (xs : List Ptr) (h : Store)
      → (h' : Store) × IsPlanted h i n t h'
        × (build_loop fresh garbage (text ++ k) i (stack xs) h
            ≡ build_loop fresh garbage k (i + n) (stack (root t ∷ xs)) h')

  -- Two operands and their operator.
  operation :
      (c : ℕ) (v w : List ℕ) (m n : ℕ) (t u : Tree) (i : ℕ)
      → is_digit c ≡ false
      → to_char (pos c) ≡ pos c
      → Built v m t i
      → Built w n u (i + m)
      → Built (v ++ (w ++ c ∷ [])) (suc (m + n)) (node t (fresh (i + m + n)) (pos c) u) i
  operation c v w m n t u i no_digit narrow left right k xs h =
      let (h₁, p, first) = left (w ++ c ∷ k) xs h in
      let (h₂, q, second) = right (c ∷ k) (root t ∷ xs) h₁ in
      let (h₃, new, others, third) =
        operator_round c k (i + m + n) (root t) (root u) xs h₂ no_digit narrow in
      let next : suc (i + m + n) ≡ i + suc (m + n) = omega arith in
      (
        h₃,
        join t u (pos c) i m n h h₁ h₂ h₃ p q new others,
        rw (append_assoc v, append_assoc w, ← next) (first ∙ second ∙ third),
      )

  no_digit-add : (o : AddOp) → is_digit (add_code o) ≡ false
  no_digit-add plus = refl
  no_digit-add minus = refl

  no_digit-mul : (o : MulOp) → is_digit (mul_code o) ≡ false
  no_digit-mul times = refl
  no_digit-mul over = refl

  to_char-add : (o : AddOp) → to_char (pos (add_code o)) ≡ pos (add_code o)
  unfolding to_char
  to_char-add plus = refl
  to_char-add minus = refl

  to_char-mul : (o : MulOp) → to_char (pos (mul_code o)) ≡ pos (mul_code o)
  unfolding to_char
  to_char-mul times = refl
  to_char-mul over = refl

  mutual
    unfolding postfix_expr

    build_expr :
        (e : Expr) (i : ℕ)
        → HasDigits e
        → Built (postfix_expr e) (chars_expr e) (plant_expr fresh e i) i
    build_expr (term t) i d = build_term t i d
    build_expr (sum e o t) i d =
        operation (add_code o) (postfix_expr e) (postfix_term t) (chars_expr e) (chars_term t)
          (plant_expr fresh e i) (plant_term fresh t (i + chars_expr e)) i (no_digit-add o)
          (to_char-add o) (build_expr e i d.0) (build_term t (i + chars_expr e) d.1)

    build_term :
        (t : Term) (i : ℕ)
        → HasDigitsT t
        → Built (postfix_term t) (chars_term t) (plant_term fresh t i) i
    build_term (factor f) i d = build_factor f i d
    build_term (product t o f) i d =
        operation (mul_code o) (postfix_term t) (postfix_factor f) (chars_term t) (chars_factor f)
          (plant_term fresh t i) (plant_factor fresh f (i + chars_term t)) i (no_digit-mul o)
          (to_char-mul o) (build_term t i d.0) (build_factor f (i + chars_term t) d.1)

    build_factor :
        (f : Factor) (i : ℕ)
        → HasDigitsF f
        → Built (postfix_factor f) (chars_factor f) (plant_factor fresh f i) i
    build_factor (digit n) i d = λ k xs h. digit_round n k i xs h d
    build_factor (paren e) i d = build_expr e i d

  -- The root of a stored tree of the expression, and nothing else changed.
  abbrev pub IsMade : Expr → Store → Ptr × Store → Type 0
  IsMade e h (p, h') =
      (p ≡ root (plant_expr fresh e 0))
      × IsStored h' (plant_expr fresh e 0)
      × Kept 0 (chars_expr e) h h'

  -- `MakeExpTree` on an expression over digits in postfix notation, with distinct addresses from
  -- `malloc`, returns the root of a stored tree of the expression; nothing else in the store changes.
  pub make_exp_tree-IsMade :
      (e : Expr) (h : Store)
      → HasDigits e
      → Ends (IsMade e h) (make_exp_tree fresh garbage (postfix_expr e) h)
  unfolding make_exp_tree stack_init s_pop build_loop
  make_exp_tree-IsMade e h d =
      let (h', p, run) = build_expr e 0 d [] [] h in
      let ended = rw (append-nil (postfix_expr e)) at run in
      rw ended (_, refl, (refl, p.stored, p.frame))
