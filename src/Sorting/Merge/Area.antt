-- ===== src/Sorting/Merge/Area.antt =====
-- The invariant of a merge: what each of its steps keeps.
use today_i_learned.Common.{
  ℕ, suc, ◌+◌, ◌≤◌, ◌<◌, ◌≡◌, refl, List, arith, length, set, ◌-◌, inr, ◌∙◌, length-set,
}
use today_i_learned.Sorting.Array.{at, at-set, one}
use today_i_learned.Sorting.Between.{count_between, count_between-set_out}
use today_i_learned.Common.Int.{ℤ, ◌≤ℤ◌}

-- The `n` elements from `l` on are in order.
abbrev pub IsSortedIn : (l n : ℕ) → List ℤ → Type 0
IsSortedIn l n a = (p q : ℕ) → l ≤ p → p ≤ q → q < l + n → at a p ≤ℤ at a q

-- `a` elements of the area that starts at `l`, and `b` of the one from `r` to `e`, are merged.
pub record IsMerged (l r e : ℕ) (arr : List ℤ) (a b : ℕ) (out : List ℤ) : Type 0 where
  pub size : length out ≡ e
  pub first : l + a ≤ r
  pub second : r + b ≤ e
  pub sorted : IsSortedIn l (a + b) out
  pub ahead_first : (p q : ℕ) → l ≤ p → p < l + (a + b) → l + a ≤ q → q < r → at out p ≤ℤ at arr q
  pub ahead_second : (p q : ℕ) → l ≤ p → p < l + (a + b) → r + b ≤ q → q < e → at out p ≤ℤ at arr q
  pub same :
      (y : ℤ) → count_between y out l (a + b) ≡ count_between y arr l a + count_between y arr r b

module _ (l r e : ℕ) (arr : List ℤ) where
  -- One more element behind the sorted ones.
  IsSortedIn-set :
      (n : ℕ) (out : List ℤ) (v : ℤ)
      → l + n < length out
      → IsSortedIn l n out
      → ((p : ℕ) → l ≤ p → p < l + n → at out p ≤ℤ v)
      → IsSortedIn l (suc n) (set out (l + n) v)
  IsSortedIn-set n out v h s below p q lp pq qn =
      ground (arith, at-set out (l + n) p v h, at-set out (l + n) q v h, s p q, below p)

  count_between-push :
      (n : ℕ) (out : List ℤ) (v y : ℤ)
      → l + n < length out
      → count_between y (set out (l + n) v) l (suc n) ≡ count_between y out l n + one y v
  unfolding count_between
  count_between-push n out v y h =
      let here : at (set out (l + n) v) (l + n) ≡ v =
        ground (arith, at-set out (l + n) (l + n) v h) in
      rw (here, count_between-set_out out (l + n) v y l n h (inr (omega arith))) refl

  count_between-next :
      (y : ℤ) (out : List ℤ) (m n : ℕ)
      → count_between y out m (suc n) ≡ count_between y out m n + one y (at out (m + n))
  unfolding count_between
  count_between-next y out m n = refl

  pub take_first :
      (a b : ℕ) (out : List ℤ)
      → IsMerged l r e arr a b out
      → IsSortedIn l (r - l) arr
      → l + a < r
      → r ≤ e
      → ((q : ℕ) → r + b ≤ q → q < e → at arr (l + a) ≤ℤ at arr q)
      → IsMerged l r e arr (suc a) b (set out (l + (a + b)) (at arr (l + a)))
  take_first a b out v s more re low =
      let h : l + (a + b) < length out = omega (arith, v.size, v.second) in
      let x = at arr (l + a) in
      let shift : suc a + b ≡ suc (a + b) = omega arith in
      record {
        size = length-set out (l + (a + b)) x ∙ v.size;
        first = omega arith;
        second = v.second;
        sorted = λ p q lp pq qn.
            IsSortedIn-set (a + b) out x h v.sorted
              (λ i li ia. v.ahead_first i (l + a) li ia (omega arith) more) p q lp pq (omega arith);
        ahead_first = λ p q lp pn lq qr.
            ground (arith, at-set out (l + (a + b)) p x h, v.ahead_first p q, s (l + a) q);
        ahead_second = λ p q lp pn lq qr.
            ground (arith, at-set out (l + (a + b)) p x h, v.ahead_second p q, low q);
        same = λ y.
            rw (shift, count_between-push (a + b) out x y h, count_between-next y arr l a)
              (omega (arith, v.same y));
      }

  pub take_second :
      (a b : ℕ) (out : List ℤ)
      → IsMerged l r e arr a b out
      → IsSortedIn r (e - r) arr
      → r + b < e
      → ((q : ℕ) → l + a ≤ q → q < r → at arr (r + b) ≤ℤ at arr q)
      → IsMerged l r e arr a (suc b) (set out (l + (a + b)) (at arr (r + b)))
  take_second a b out v s more low =
      let h : l + (a + b) < length out = omega (arith, v.size, v.first) in
      let x = at arr (r + b) in
      let shift : a + suc b ≡ suc (a + b) = omega arith in
      record {
        size = length-set out (l + (a + b)) x ∙ v.size;
        first = v.first;
        second = omega arith;
        sorted = λ p q lp pq qn.
            IsSortedIn-set (a + b) out x h v.sorted
              (λ i li ia. v.ahead_second i (r + b) li ia (omega arith) more) p q lp pq
              (omega arith);
        ahead_first = λ p q lp pn lq qr.
            ground (arith, at-set out (l + (a + b)) p x h, v.ahead_first p q, low q);
        ahead_second = λ p q lp pn lq qr.
            ground (arith, at-set out (l + (a + b)) p x h, v.ahead_second p q, s (r + b) q);
        same = λ y.
            rw (shift, count_between-push (a + b) out x y h, count_between-next y arr r b)
              (omega (arith, v.same y));
      }
