-- ===== src/Cpu/Input.antt =====
-- Standard input as a text of character codes, and the two calls of the C library by which
-- C++/ComputerArchitecture/Mission4/Mission4-3.c reads it: `scanf("%d", &n)` and `getchar()`.
use today_i_learned.Common.Int.{ℤ, pos, sub_ℕ, in_int}
use today_i_learned.Common.{
  ℕ, ◌+◌, ◌-◌, ◌*◌, ◌≡◌, refl, Bool, true, false, ◌&&◌, ◌||◌, Option, none, some, List, [], ◌∷◌,
  arith, leb, ◌==◌, if◌then◌else◌,
}
use today_i_learned.Common.Run.{Run, ok, ◌>>=◌, checked}

-- What `scanf` has read of a number: nothing but whitespace, a sign, or some digits.
pub data Reading : Type 0 where
  idle : Reading
  signed : (negative : Bool) → Reading
  digits : (negative : Bool) (n : ℕ) → Reading

abbrev pub is_space : ℕ → Bool
is_space c = (c == 32) || (leb 9 c && leb c 13)

abbrev pub is_digit : ℕ → Bool
is_digit c = leb 48 c && leb c 57

-- How `scanf` goes on at a character, `none` where it leaves the character unread.
unfoldable pub scan_char : Reading → ℕ → Option Reading
scan_char idle c =
    if is_space c
    then some idle
    else if c == 45
    then some (signed true)
    else if c == 43
    then some (signed false)
    else if is_digit c
    then some (digits false (c - 48))
    else none
scan_char (signed negative) c = if is_digit c then some (digits negative (c - 48)) else none
scan_char (digits negative n) c =
    if is_digit c then some (digits negative (10 * n + (c - 48))) else none

-- The number read, `none` where there is none.
abbrev pub number_of : Reading → Option ℤ
number_of idle = none
number_of (signed negative) = none
number_of (digits true n) = some (sub_ℕ 0 n)
number_of (digits false n) = some (pos n)

-- The number and the text behind it.
unfoldable pub scan_number : Reading → List ℕ → Option ℤ × List ℕ
scan_number r [] = (number_of r, [])
scan_number r (c ∷ text) = elim (scan_char r c) [
  | some r' ↦ scan_number r' text
  | none ↦ (number_of r, c ∷ text)
]

-- `scanf("%d", &n)` on a variable that holds `n`, which a failure leaves alone. A number out of
-- the range of `int` is undefined.
unfoldable pub scanf_int : ℤ → List ℕ → Run (ℤ × List ℕ)
scanf_int n text =
    let (found, rest) = scan_number idle text in
    elim found [ some z ↦ (do z' ← checked z; ok (z', rest)) | none ↦ ok (n, rest) ]

-- `getchar()` drops a character, if one is left.
abbrev pub getchar : List ℕ → List ℕ
getchar [] = []
getchar (c ∷ text) = text

-- The numbers that calls of `scanf` alone read from a text, up to the first that fails.
unfoldable pub numbers : Reading → List ℕ → List ℤ
numbers r [] = elim (number_of r) [ some z ↦ z ∷ [] | none ↦ [] ]
numbers r (c ∷ text) = elim (scan_char r c) [
  | some r' ↦ numbers r' text
  | none ↦ elim (number_of r) [
    | none ↦ []
    | some z ↦ z ∷ elim (scan_char idle c) [ some r' ↦ numbers r' text | none ↦ [] ]
  ]
]

-- The text holds only numbers of the range of `int`, each with whitespace or the end behind it.
unfoldable pub is_spaced : Reading → List ℕ → Bool
is_spaced r [] = elim (number_of r) [ some z ↦ in_int z | none ↦ true ]
is_spaced r (c ∷ text) = elim (scan_char r c) [
  | some r' ↦ is_spaced r' text
  | none ↦ elim (number_of r) [
    | none ↦ false
    | some z ↦ in_int z && is_space c && is_spaced idle text
  ]
]

-- What `scanf` and `getchar` have read, and the text they leave, against `numbers`.
abbrev pub Reads : List ℤ → Option ℤ × List ℕ → Type 0
Reads ns (none, rest) = (ns ≡ []) × (numbers idle (getchar rest) ≡ [])
Reads ns (some z, rest) = (ns ≡ z ∷ numbers idle (getchar rest)) × (in_int z ≡ true)

space-idle : (c : ℕ) → is_space c ≡ true → scan_char idle c ≡ some idle
unfolding scan_char
space-idle c e = ground arith

-- In a spaced text the character that `getchar` drops behind a number is whitespace, which the
-- next `scanf` would have skipped.
pub scan_number-numbers :
    (r : Reading) (text : List ℕ)
    → is_spaced r text ≡ true
    → Reads (numbers r text) (scan_number r text)
      × (is_spaced idle (getchar ((scan_number r text).1)) ≡ true)
unfolding numbers is_spaced scan_number
scan_number-numbers r [] e = at_end (number_of r) e
  where
    at_end :
        (found : Option ℤ)
        → elim found [ some z ↦ in_int z | none ↦ true ] ≡ true
        → Reads (elim found [ some z ↦ z ∷ [] | none ↦ [] ]) (found, []) × (true ≡ true)
    at_end none e = ((refl, refl), refl)
    at_end (some z) e = ((refl, e), refl)
scan_number-numbers r (c ∷ text) e =
    by_char (scan_char r c) (number_of r) (λ r'. scan_number-numbers r' text) e
  where
    by_char :
        (next : Option Reading) (found : Option ℤ)
        → ((r' : Reading)
            → is_spaced r' text ≡ true
            → Reads (numbers r' text) (scan_number r' text)
              × (is_spaced idle (getchar ((scan_number r' text).1)) ≡ true))
        → elim next [
          | some r' ↦ is_spaced r' text
          | none ↦ elim found [
            | none ↦ false
            | some z ↦ in_int z && is_space c && is_spaced idle text
          ]
        ]
          ≡ true
        → Reads
            (elim next [
              | some r' ↦ numbers r' text
              | none ↦ elim found [
                | none ↦ []
                | some z ↦ z ∷ elim (scan_char idle c) [ some r' ↦ numbers r' text | none ↦ [] ]
              ]
            ])
            (elim next [ some r' ↦ scan_number r' text | none ↦ (found, c ∷ text) ])
          × (is_spaced idle (
                getchar (
                  (elim next as (λ _. Option ℤ × List ℕ) [
                    | some r' ↦ scan_number r' text
                    | none ↦ (found, c ∷ text)
                  ]).1))
              ≡ true)
    by_char (some r') found later e = later r' e
    by_char none none later e = ground arith
    by_char none (some z) later e =
        rw (space-idle c (ground arith)) ((refl, ground arith), ground arith)
