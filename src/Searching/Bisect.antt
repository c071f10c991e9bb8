-- ===== src/Searching/Bisect.antt =====
-- What the search finds.
use today_i_learned.Common.{
  suc, ℕ, ◌+◌, ◌/◌, ◌^◌, ◌≤◌, ◌<◌, ◌≡◌, true, false, List, arith, length, if◌then◌else◌, zero, refl,
  inl, inr, Bool-cases, ◌-◌, [], ◌∷◌,
}
use today_i_learned.Searching.{narrow, search_loop, bsearch}
use today_i_learned.Sorting.Array.{at, read-at, IsSortedTo}
use today_i_learned.Common.Int.{
  ℤ, pos, negsuc, sub_ℕ, ◌+ℤ◌, ◌-ℤ◌, ltb_ℤ, eqb_ℤ, pos_part, leb_ℤ, eq_of_parts, neg_part,
}
use today_i_learned.Common.Run.{ok, ◌>>=◌, read, Ends, checked, fault}
use native.Mathlib.Decide.{dec_le, dec_lt}

-- An index where the target stands, or -1 if it stands nowhere.
abbrev pub IsFound : List ℤ → ℤ → ℤ → Type 0
IsFound x target (pos i) = (i < length x) × (at x i ≡ target)
IsFound x target (negsuc n) = (n ≡ 0) × ((i : ℕ) → i < length x → eqb_ℤ (at x i) target ≡ false)

sum : (f l : ℕ) → f + l < 2 ^ 31 → checked (pos f +ℤ pos l) ≡ ok (pos (f + l))
unfolding ◌+ℤ◌
sum f l h = ground arith

-- A round with both bounds in the range of `int`, at the index `m` in the middle.
round :
    (k : ℕ) (x : List ℤ) (f l m : ℕ) (target : ℤ)
    → f ≤ l
    → f + l < 2 ^ 31
    → m ≡ (f + l) / 2
    → search_loop (suc k) x (pos f) (pos l) target ≡ (
        read x (pos m) >>= λ v.
        if eqb_ℤ v target
        then ok (pos m)
        else (narrow (pos f) (pos l) (pos m) v target >>= λ (first, last).
            search_loop k x first last target))
unfolding search_loop
round k x f l m target fl small e = rw (leb_yes f l fl, sum f l small, e) refl
  where
    leb_yes : (f l : ℕ) → f ≤ l → leb_ℤ (pos f) (pos l) ≡ true
    leb_yes f l h = ground arith

right :
    (f l m : ℕ) (last v target : ℤ)
    → m < 2 ^ 30
    → ltb_ℤ v target ≡ true
    → narrow (pos f) last (pos m) v target ≡ ok (pos (suc m), last)
unfolding narrow ◌+ℤ◌
right f l m last v target small e = rw e (ground arith)

left :
    (f m : ℕ) (last v target : ℤ)
    → m < 2 ^ 30
    → ltb_ℤ target v ≡ true
    → narrow (pos f) last (pos m) v target ≡ ok (pos f, sub_ℕ m 1)
unfolding narrow ◌-ℤ◌
left f m last v target small e =
    let other : ltb_ℤ v target ≡ false = ground arith in rw (other, e) (ground arith)

-- The range is empty.
stop :
    (k : ℕ) (x : List ℤ) (f : ℕ) (last target : ℤ)
    → pos_part last < f + neg_part last
    → search_loop (suc k) x (pos f) last target ≡ ok (negsuc 0)
unfolding search_loop
stop k x f last target h = rw crossed refl
  where
    crossed : leb_ℤ (pos f) last ≡ false
    crossed = ground arith

absent :
    (x : List ℤ) (f : ℕ) (target : ℤ)
    → ((i : ℕ) → i < f → ltb_ℤ (at x i) target ≡ true)
    → ((i : ℕ) → f ≤ i → i < length x → ltb_ℤ target (at x i) ≡ true)
    → IsFound x target (negsuc 0)
absent x f target below above = (
  refl,
  λ i h. elim (dec_lt i f) [
    | yes low ↦ ground (arith, below i low)
    | no high ↦ ground (arith, above i (omega arith) h)
  ],
)

sub-suc : (l : ℕ) → sub_ℕ (suc l) 1 ≡ pos l
sub-suc l = ground arith

search_lem :
    (k : ℕ) (x : List ℤ) (f l : ℕ) (target : ℤ)
    → length x ≤ 2 ^ 30
    → IsSortedTo (length x) x
    → f ≤ l
    → l < f + k
    → l ≤ length x
    → ((i : ℕ) → i < f → ltb_ℤ (at x i) target ≡ true)
    → ((i : ℕ) → l ≤ i → i < length x → ltb_ℤ target (at x i) ≡ true)
    → Ends (IsFound x target) (search_loop k x (pos f) (sub_ℕ l 1) target)
search_lem zero x f l target small sorted order fuel within below above = absurd (omega arith)
search_lem (suc k) x f zero target small sorted order fuel within below above = (
  negsuc 0,
  stop k x f (negsuc 0) target (omega arith),
  absent x f target (λ i h. below i h) (λ i h h'. above i (omega arith) h'),
)
search_lem (suc k) x f (suc l) target small sorted order fuel within below above =
    elim (dec_le f l) [
      | no crossed ↦ (
        negsuc 0,
        rw sub-suc (stop k x f (pos l) target (omega arith)),
        absent x f target below (λ i h h'. above i (omega arith) h'),
      )
      | yes fl ↦
          let m = (f + l) / 2 in
          let hm : m < length x = omega arith in
          rw (sub-suc l, round k x f l m target fl (omega arith) refl, read-at x m hm)
            (elim (Bool-cases (eqb_ℤ (at x m) target)) [
              | inl here ↦ rw here (pos m, refl, (hm, eq_of_parts (at x m) target (ground arith)))
              | inr other ↦ rw other (elim (Bool-cases (ltb_ℤ (at x m) target)) [
                | inl low ↦ rw (right f l m (pos l) (at x m) target (omega arith) low) (
                    rw sub-suc at (
                      search_lem k x (suc m) (suc l) target small sorted (omega arith) (omega arith)
                        within (λ i h. ground (arith, sorted i m (omega arith) hm)) above))
                | inr high ↦ rw (left f m (pos l) (at x m) target (omega arith) (ground arith)) (
                    search_lem k x f m target small sorted (omega arith) (omega arith) (omega arith)
                      below (λ i h h'. ground (arith, sorted m i h h')))
              ])
            ])
    ]

size : (n : ℕ) → n < 0 + (pos_part (sub_ℕ n 1 -ℤ pos 0) + 2)
unfolding ◌-ℤ◌
size n = ground arith

-- `Bsearch` on the whole of a sorted array of at most 2^30 elements, with the last index as its
-- upper bound, returns the index of an element that is the target, or -1 where there is none.
pub bsearch-IsFound :
    (x : List ℤ) (target : ℤ)
    → length x ≤ 2 ^ 30
    → IsSortedTo (length x) x
    → Ends (IsFound x target) (bsearch x (pos 0) (sub_ℕ (length x) 1) target)
unfolding bsearch
bsearch-IsFound x target small sorted =
    search_lem (pos_part (sub_ℕ (length x) 1 -ℤ pos 0) + 2) x 0 (length x) target small sorted
      (omega arith) (size (length x)) (omega arith) (λ i h. absurd (omega arith))
      (λ i h h'. absurd (omega arith))

read-length : (x : List ℤ) → read x (pos (length x)) ≡ fault
read-length [] = refl
read-length (v ∷ x) = read-length x

past_end_lem :
    (k : ℕ) (x : List ℤ) (f : ℕ) (target : ℤ)
    → length x ≤ 2 ^ 30 - 1
    → f ≤ length x
    → length x < f + k
    → ((i : ℕ) → i < length x → ltb_ℤ (at x i) target ≡ true)
    → search_loop k x (pos f) (pos (length x)) target ≡ fault
past_end_lem zero x f target small order fuel less = absurd (omega arith)
past_end_lem (suc k) x f target small order fuel less = elim (dec_le (length x) f) [
  | yes last ↦
      rw (round k x f (length x) (length x) target order (omega arith) (omega arith), read-length x)
        refl
  | no before ↦
      let m = (f + length x) / 2 in
      let hm : m < length x = omega arith in
      let low : ltb_ℤ (at x m) target ≡ true = less m hm in
      let other : eqb_ℤ (at x m) target ≡ false = ground arith in
      rw (round k x f (length x) m target order (omega arith) refl, read-at x m hm)
        (rw (other, right f (length x) m (pos (length x)) (at x m) target (omega arith) low)
          (past_end_lem k x (suc m) target small (omega arith) (omega arith) less))
]

-- With the number of elements as the upper bound, as `main` calls it, `Bsearch` for a target above
-- every element of an array of fewer than 2^30 reads behind the end.
pub bsearch-past_end :
    (x : List ℤ) (target : ℤ)
    → length x < 2 ^ 30
    → ((i : ℕ) → i < length x → ltb_ℤ (at x i) target ≡ true)
    → bsearch x (pos 0) (pos (length x)) target ≡ fault
unfolding bsearch ◌-ℤ◌
bsearch-past_end x target small less =
    past_end_lem (pos_part (pos (length x) -ℤ pos 0) + 2) x 0 target (omega arith) (omega arith)
      (fuel (length x)) less
  where
    fuel : (n : ℕ) → n < 0 + (pos_part (pos n -ℤ pos 0) + 2)
    fuel n = ground arith
