-- ===== src/Expression/Convert/Buffer.antt =====
-- The buffer of the conversion, and what each of its loops pops.
use today_i_learned.Common.{
  ℕ, zero, suc, ◌+◌, ◌≤◌, ◌<◌, ◌≡◌, refl, ap, true, false, List, [], ◌∷◌, ◌++◌, arith, ◌==◌, length,
  set, length-append, ◌∙◌,
}
use today_i_learned.Stack.Laws.{stack, s_is_empty-stack, s_is_empty-nil, s_pop-stack, s_peek-stack}
use today_i_learned.Expression.Convert.{
  who_prec_op, Conversion, put, pop_to_bracket, pop_higher, pop_all,
}
use today_i_learned.Common.Int.{pos, leb_ℤ}
use today_i_learned.Common.Run.{ok}
use mathlib.Core.List.{append-nil, append_assoc}

-- A buffer that held `fresh`, with `out` written over its beginning.
unfoldable pub overlay : List ℕ → List ℕ → List ℕ
overlay [] fresh = fresh
overlay (x ∷ out) [] = []
overlay (x ∷ out) (f ∷ fresh) = x ∷ overlay out fresh

length-overlay : (out fresh : List ℕ) → length (overlay out fresh) ≡ length fresh
unfolding overlay
length-overlay [] fresh = refl
length-overlay (x ∷ out) [] = refl
length-overlay (x ∷ out) (f ∷ fresh) = ap suc (length-overlay out fresh)

set-overlay :
    (out fresh : List ℕ) (c : ℕ)
    → length out < length fresh
    → set (overlay out fresh) (length out) c ≡ overlay (out ++ c ∷ []) fresh
unfolding overlay
set-overlay [] [] c h = absurd (omega arith)
set-overlay [] (f ∷ fresh) c h = refl
set-overlay (x ∷ out) [] c h = absurd (omega arith)
set-overlay (x ∷ out) (f ∷ fresh) c h = ap (◌∷◌ x) (set-overlay out fresh c (omega arith))

-- All of `pending` are popped by `tok`.
abbrev pub Yields : ℕ → List ℕ → Type 0
Yields tok [] = Unit
Yields tok (x ∷ pending) = (leb_ℤ (pos 0) (who_prec_op x tok) ≡ true) × Yields tok pending

-- The operator on top, if any, is not popped by `tok`.
abbrev pub Stops : ℕ → List ℕ → Type 0
Stops tok [] = Unit
Stops tok (x ∷ rest) = leb_ℤ (pos 0) (who_prec_op x tok) ≡ false

abbrev pub NoBracket : List ℕ → Type 0
NoBracket [] = Unit
NoBracket (x ∷ pending) = ((x == b'(') ≡ false) × NoBracket pending

module _ (fresh : List ℕ) where
  -- The state with the given stack, after the text `out` was put out.
  abbrev pub state : List ℕ → List ℕ → Conversion
  state xs out = record { stack = stack xs; result = overlay out fresh; idx = length out }

  pub put-state :
      (c : ℕ) (xs out : List ℕ)
      → length out < length fresh
      → put c (state xs out) ≡ ok (state xs (out ++ c ∷ []))
  unfolding put
  put-state c xs out h =
      ground (arith, length-overlay out fresh, set-overlay out fresh c, length-append out (c ∷ []))

  pub pop_higher-Yields :
      (tok k : ℕ) (pending xs out : List ℕ)
      → length pending < k
      → Yields tok pending
      → Stops tok xs
      → length out + length pending ≤ length fresh
      → pop_higher tok k (state (pending ++ xs) out) ≡ ok (state xs (out ++ pending))
  unfolding pop_higher
  pop_higher-Yields tok zero pending xs out f y s h = absurd (omega arith)
  pop_higher-Yields tok (suc k) [] [] out f y s h = rw (s_is_empty-nil, append-nil out) refl
  pop_higher-Yields tok (suc k) [] (x ∷ xs) out f y s h =
      rw (s_is_empty-stack, s_peek-stack, s) (rw (append-nil out))
  pop_higher-Yields tok (suc k) (p ∷ pending) xs out f y s h =
      rw
        (
          s_is_empty-stack,
          s_peek-stack,
          y.0,
          s_pop-stack,
          put-state p (pending ++ xs) out (omega arith),
        )
        (pop_higher-Yields tok k pending xs (out ++ p ∷ []) (omega arith) y.1 s
            (omega (arith, length-append out (p ∷ [])))
          ∙ ap (λ o. ok (state xs o)) (append_assoc out (p ∷ []) pending))

  pub pop_to_bracket-NoBracket :
      (k : ℕ) (pending xs out : List ℕ)
      → length pending < k
      → NoBracket pending
      → length out + length pending ≤ length fresh
      → pop_to_bracket k (state (pending ++ b'(' ∷ xs) out) ≡ ok (state xs (out ++ pending))
  unfolding pop_to_bracket
  pop_to_bracket-NoBracket zero pending xs out f n h = absurd (omega arith)
  pop_to_bracket-NoBracket (suc k) [] xs out f n h = rw s_pop-stack (rw (append-nil out))
  pop_to_bracket-NoBracket (suc k) (p ∷ pending) xs out f n h =
      rw (s_pop-stack, n.0, put-state p _ out (omega arith))
        (pop_to_bracket-NoBracket k pending xs (out ++ p ∷ []) (omega arith) n.1
            (omega (arith, length-append out (p ∷ [])))
          ∙ ap (λ o. ok (state xs o)) (append_assoc out (p ∷ []) pending))

  pub pop_all-state :
      (k : ℕ) (pending out : List ℕ)
      → length pending < k
      → length out + length pending ≤ length fresh
      → pop_all k (state pending out) ≡ ok (state [] (out ++ pending))
  unfolding pop_all
  pop_all-state zero pending out f h = absurd (omega arith)
  pop_all-state (suc k) [] out f h = rw (s_is_empty-nil, append-nil out) refl
  pop_all-state (suc k) (p ∷ pending) out f h =
      rw (s_is_empty-stack, s_pop-stack, put-state p pending out (omega arith))
        (pop_all-state k pending (out ++ p ∷ []) (omega arith)
            (omega (arith, length-append out (p ∷ [])))
          ∙ ap (λ o. ok (state [] o)) (append_assoc out (p ∷ []) pending))
