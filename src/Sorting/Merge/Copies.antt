-- ===== src/Sorting/Merge/Copies.antt =====
-- The loops of `MergeTwoArea` that copy.
use today_i_learned.Common.{
  ℕ, zero, suc, ◌+◌, ◌-◌, ◌≤◌, ◌<◌, ◌≡◌, ◌⊎◌, refl, List, arith, length, set, ◌∙◌, length-set,
}
use today_i_learned.Sorting.Array.{at, read-at, write-set, at-set}
use today_i_learned.Sorting.Merge.{copy_loop}
use today_i_learned.Sorting.Merge.Area.{IsSortedIn, IsMerged, take_first, take_second}
use today_i_learned.Common.Int.{ℤ}
use today_i_learned.Common.Run.{Ends}

-- Both areas are used up.
abbrev pub IsDone : (l r e : ℕ) → List ℤ → List ℤ → Type 0
IsDone l r e arr out = (a : ℕ) × (b : ℕ) × (l + a ≡ r) × (r + b ≡ e) × IsMerged l r e arr a b out

module _ (l r e : ℕ) (arr : List ℤ) (within : e ≤ length arr) (order : l ≤ r) (order' : r ≤ e) where
  pub copy_first :
      (left i s a b : ℕ) (out : List ℤ)
      → IsSortedIn l (r - l) arr
      → i ≡ l + a
      → s ≡ l + (a + b)
      → i + left ≡ r
      → r + b ≡ e
      → IsMerged l r e arr a b out
      → Ends (IsDone l r e arr) (copy_loop left i s arr out)
  unfolding copy_loop
  copy_first zero i s a b out sorted ei es more full v = (out, refl, (a, b, omega arith, full, v))
  copy_first (suc left) i s a b out sorted ei es more full v =
      rw (read-at arr i (omega arith), write-set out s (at arr i) (omega (arith, v.size)))
        (copy_first left (i + 1) (s + 1) (suc a) b (set out s (at arr i)) sorted (omega arith)
          (omega arith) (omega arith) full
          (rw (es, ei)
            (take_first l r e arr a b out v sorted (omega arith) order'
              (λ q rq qe. absurd (omega arith)))))

  pub copy_second :
      (left i s a b : ℕ) (out : List ℤ)
      → IsSortedIn r (e - r) arr
      → i ≡ r + b
      → s ≡ l + (a + b)
      → i + left ≡ e
      → l + a ≡ r
      → IsMerged l r e arr a b out
      → Ends (IsDone l r e arr) (copy_loop left i s arr out)
  unfolding copy_loop
  copy_second zero i s a b out sorted ei es more full v = (out, refl, (a, b, full, omega arith, v))
  copy_second (suc left) i s a b out sorted ei es more full v =
      rw (read-at arr i (omega arith), write-set out s (at arr i) (omega (arith, v.size)))
        (copy_second left (i + 1) (s + 1) a (suc b) (set out s (at arr i)) sorted (omega arith)
          (omega arith) (omega arith) full
          (rw (es, ei)
            (take_second l r e arr a b out v sorted (omega arith)
              (λ q rq qe. absurd (omega arith)))))

-- The elements from `l` to `l + n` of another array.
pub record IsCopied (l n : ℕ) (from to to' : List ℤ) : Type 0 where
  pub size : length to' ≡ length to
  pub inside : (c : ℕ) → l ≤ c → c < l + n → at to' c ≡ at from c
  pub outside : (c : ℕ) → (c < l) ⊎ (l + n ≤ c) → at to' c ≡ at to c

pub copy_loop-IsCopied :
    (n l : ℕ) (from to : List ℤ)
    → l + n ≤ length from
    → l + n ≤ length to
    → Ends (IsCopied l n from to) (copy_loop n l l from to)
unfolding copy_loop
copy_loop-IsCopied zero l from to h h' = (
  to,
  refl,
  record { size = refl; inside = λ c lc cn. absurd (omega arith); outside = λ c out. refl },
)
copy_loop-IsCopied (suc n) l from to h h' =
    let hl : l < length to = omega arith in
    let x = at from l in
    let (b, e, r) =
      copy_loop-IsCopied n (l + 1) from (set to l x) (omega arith) (rw length-set (omega arith)) in
    rw (read-at from l (omega arith), write-set to l x hl)
      (
        b,
        e,
        record {
          size = r.size ∙ length-set to l x;
          inside = λ c lc cn. ground (arith, at-set to l c x hl, r.inside c, r.outside c);
          outside = λ c out. ground (arith, at-set to l c x hl, r.outside c);
        },
      )
