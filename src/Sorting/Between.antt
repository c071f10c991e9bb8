-- ===== src/Sorting/Between.antt =====
-- How often a value occurs in a part of an array.
use today_i_learned.Common.{
  ℕ, zero, suc, ◌+◌, ◌≤◌, ◌<◌, ◌≡◌, refl, ◌⊎◌, inr, List, arith, length, set, inl, Bool-cases, ap,
  ◌∙◌, [], ◌∷◌,
}
use today_i_learned.Sorting.Array.{at, at-set, one, count}
use today_i_learned.Common.Int.{ℤ, eqb_ℤ}
use native.Mathlib.Decide.{ℕ_discrete}
use native.Mathlib.Nat.{zero-add}

-- Among the `k` elements from `l` on.
unfoldable pub count_between : ℤ → List ℤ → (l k : ℕ) → ℕ
count_between x a l zero = 0
count_between x a l (suc k) = count_between x a l k + one x (at a (l + k))

-- A write outside of the part.
pub count_between-set_out :
    (a : List ℤ) (i : ℕ) (v x : ℤ) (l k : ℕ)
    → i < length a
    → (i < l) ⊎ (l + k ≤ i)
    → count_between x (set a i v) l k ≡ count_between x a l k
unfolding count_between
count_between-set_out a i v x l zero h out = refl
count_between-set_out a i v x l (suc k) h out =
    let other : at (set a i v) (l + k) ≡ at a (l + k) = ground (arith, at-set a i (l + k) v h) in
    rw (other, count_between-set_out a i v x l k h (omega arith)) refl

-- A write within it.
pub count_between-set :
    (a : List ℤ) (i : ℕ) (v x : ℤ) (l k : ℕ)
    → i < length a
    → l ≤ i
    → i < l + k
    → count_between x (set a i v) l k + one x (at a i) ≡ count_between x a l k + one x v
unfolding count_between
count_between-set a i v x l zero h li ik = absurd (omega arith)
count_between-set a i v x l (suc k) h li ik = elim (ℕ_discrete i (l + k)) [
  | yes e ↦
      let here : at (set a i v) (l + k) ≡ v = ground (arith, at-set a i (l + k) v h) in
      rw (here, count_between-set_out a i v x l k h (inr (omega arith)), ← e) (omega arith)
  | no e ↦
      let other : at (set a i v) (l + k) ≡ at a (l + k) = ground (arith, at-set a i (l + k) v h) in
      rw other (omega (arith, count_between-set a i v x l k h li (omega arith)))
]

-- A value that occurs stands somewhere.
pub count_between-at :
    (y : ℤ) (a : List ℤ) (l k : ℕ)
    → 0 < count_between y a l k
    → (c : ℕ) × (l ≤ c) × (c < l + k) × (at a c ≡ y)
unfolding count_between
count_between-at y a l zero h = absurd (omega arith)
count_between-at y a l (suc k) h = elim (Bool-cases (eqb_ℤ (at a (l + k)) y)) [
  | inl e ↦ (l + k, omega arith, omega arith, ground arith)
  | inr e ↦ let (c, lc, ck, v) = count_between-at y a l k (ground arith) in (c, lc, omega arith, v)
]

count_between-cons :
    (y x : ℤ) (a : List ℤ) (k : ℕ)
    → count_between y (x ∷ a) 0 (suc k) ≡ one y x + count_between y a 0 k
unfolding count_between at
count_between-cons y x a zero = omega arith
count_between-cons y x a (suc k) =
    let there : at (x ∷ a) (0 + suc k) ≡ at a (0 + k) = rw (zero-add, zero-add) refl in
    rw there (omega (arith, count_between-cons y x a k))

pub count_between-count : (y : ℤ) (a : List ℤ) → count_between y a 0 (length a) ≡ count y a
count_between-count y [] = unfold count_between count in refl
count_between-count y (x ∷ a) =
    count_between-cons y x a (length a)
    ∙ ap (λ n. one y x + n) (count_between-count y a)
    ∙ unfold count in refl

pub count_between-zero : (y : ℤ) (a : List ℤ) (l : ℕ) → count_between y a l 0 ≡ 0
unfolding count_between
count_between-zero y a l = refl

pub count_between-first :
    (y : ℤ) (a : List ℤ) (k : ℕ)
    → count_between y a 0 (suc k) ≡ count_between y a 0 k + one y (at a k)
unfolding count_between
count_between-first y a k = rw zero-add refl

-- Two parts next to each other.
pub count_between-split :
    (y : ℤ) (a : List ℤ) (l j k : ℕ)
    → count_between y a l (j + k) ≡ count_between y a l j + count_between y a (l + j) k
unfolding count_between
count_between-split y a l j zero = let e : j + 0 ≡ j = omega arith in rw e (omega arith)
count_between-split y a l j (suc k) =
    let there : at a (l + (j + k)) ≡ at a (l + j + k) = ap (at a) (omega arith) in
    let next : j + suc k ≡ suc (j + k) = omega arith in
    rw (next, there) (omega (arith, count_between-split y a l j k))

-- Parts with the same elements.
pub count_between_cong :
    (y : ℤ) (a b : List ℤ) (l k : ℕ)
    → ((i : ℕ) → l ≤ i → i < l + k → at a i ≡ at b i)
    → count_between y a l k ≡ count_between y b l k
unfolding count_between
count_between_cong y a b l zero h = refl
count_between_cong y a b l (suc k) h =
    let here : at a (l + k) ≡ at b (l + k) = h (l + k) (omega arith) (omega arith) in
    rw here (omega (arith, count_between_cong y a b l k (λ i p q. h i p (omega arith))))
