-- ===== src/Sorting/Array.antt =====
-- Arrays of integers by index: reads and writes within the bounds, what a swap does to each
-- element, and the number of times that each value occurs.
use today_i_learned.Common.{
  ℕ, zero, suc, ◌+◌, ◌≤◌, ◌<◌, ◌≡◌, refl, List, [], ◌∷◌, arith, ◌==◌, if◌then◌else◌, lt→ltb, length,
  set, length-set, Bool, true, false,
}
use today_i_learned.Common.Int.{ℤ, pos, ◌≤ℤ◌, eqb_ℤ}
use today_i_learned.Common.Run.{Run, ok, ◌>>=◌, read, write}

-- The element at an index below the length.
unfoldable pub at : List ℤ → ℕ → ℤ
at [] i = pos 0
at (x ∷ a) zero = x
at (x ∷ a) (suc i) = at a i

pub read-at : (a : List ℤ) (i : ℕ) → i < length a → read a (pos i) ≡ ok (at a i)
unfolding at
read-at [] i h = absurd (omega arith)
read-at (x ∷ a) zero h = refl
read-at (x ∷ a) (suc i) h = read-at a i (omega arith)

pub write-set : (a : List ℤ) (i : ℕ) (v : ℤ) → i < length a → write a (pos i) v ≡ ok (set a i v)
write-set a i v h = rw (lt→ltb i (length a) h)

pub at-set :
    (a : List ℤ) (i j : ℕ) (v : ℤ)
    → i < length a
    → at (set a i v) j ≡ (if i == j then v else at a j)
unfolding at
at-set [] i j v h = absurd (omega arith)
at-set (x ∷ a) zero zero v h = refl
at-set (x ∷ a) zero (suc j) v h = ground arith
at-set (x ∷ a) (suc i) zero v h = ground arith
at-set (x ∷ a) (suc i) (suc j) v h = ground (arith, at-set a i j v)

-- `tmp = arr[i]; arr[i] = arr[j]; arr[j] = tmp;`
unfoldable pub swap : List ℤ → ℕ → ℕ → Run (List ℤ)
swap a i j = do tmp ← read a (pos i); y ← read a (pos j); b ← write a (pos i) y; write b (pos j) tmp

abbrev pub swapped : List ℤ → ℕ → ℕ → List ℤ
swapped a i j = set (set a i (at a j)) j (at a i)

-- How often a value occurs.
abbrev pub one : ℤ → ℤ → ℕ
one x v = if eqb_ℤ v x then 1 else 0

unfoldable pub count : ℤ → List ℤ → ℕ
count x [] = 0
count x (v ∷ a) = one x v + count x a

abbrev pub SameItems : List ℤ → List ℤ → Type 0
SameItems a b = (x : ℤ) → count x a ≡ count x b

pub count-set :
    (a : List ℤ) (i : ℕ) (v x : ℤ)
    → i < length a
    → count x (set a i v) + one x (at a i) ≡ count x a + one x v
unfolding at count
count-set [] i v x h = absurd (omega arith)
count-set (y ∷ a) zero v x h = omega arith
count-set (y ∷ a) (suc i) v x h = omega (arith, count-set a i v x)

module _ (a : List ℤ) (i j : ℕ) (hi : i < length a) (hj : j < length a) where
  pub swap-ok : swap a i j ≡ ok (swapped a i j)
  unfolding swap
  swap-ok =
      rw (read-at a i hi, read-at a j hj)
        (rw (write-set a i (at a j) hi) (write-set _ j (at a i) (rw length-set hj)))

  pub length-swapped : length (swapped a i j) ≡ length a
  length-swapped = rw (length-set, length-set) refl

  pub at-swapped :
      (c : ℕ)
      → at (swapped a i j) c ≡ (if j == c then at a i else if i == c then at a j else at a c)
  at-swapped c =
      rw (at-set (set a i (at a j)) j c (at a i) (rw length-set hj), at-set a i c (at a j) hi) refl

  pub swapped-SameItems : SameItems (swapped a i j) a
  swapped-SameItems x =
      let first = count-set a i (at a j) x hi in
      let second = count-set (set a i (at a j)) j (at a i) x (rw length-set hj) in
      let there : at (set a i (at a j)) j ≡ at a j = ground (arith, at-set a i j (at a j)) in
      omega (arith, first, rw there at second)

-- Every element satisfies `P`.
abbrev pub Holds : (ℤ → Type 0) → List ℤ → Type 0
Holds P a = (i : ℕ) → i < length a → P (at a i)

pub Holds-set :
    (P : ℤ → Type 0) (a : List ℤ) (i : ℕ) (v : ℤ)
    → i < length a
    → Holds P a
    → P v
    → Holds P (set a i v)
Holds-set P a i v hi h pv c hc = rw (at-set a i c v hi) (either (i == c))
  where
    either : (b : Bool) → P (if b then v else at a c)
    either true = pv
    either false = h c (rw length-set at hc)

pub Holds-swapped :
    (P : ℤ → Type 0) (a : List ℤ) (i j : ℕ)
    → i < length a
    → j < length a
    → Holds P a
    → Holds P (swapped a i j)
Holds-swapped P a i j hi hj h =
    Holds-set P (set a i (at a j)) j (at a i) (rw length-set hj)
      (Holds-set P a i (at a j) hi h (h j hj)) (h i hi)

-- The first `n` elements are in order.
abbrev pub IsSortedTo : ℕ → List ℤ → Type 0
IsSortedTo n a = (p q : ℕ) → p ≤ q → q < n → at a p ≤ℤ at a q

-- What a sort of the whole array leaves: the same values as often, in ascending order.
pub record IsSortOf (a b : List ℤ) : Type 0 where
  pub sorted : IsSortedTo (length b) b
  pub same : SameItems b a
  pub size : length b ≡ length a
