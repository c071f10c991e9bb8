-- ===== src/Recursion/Legal.antt =====
-- The rules of the puzzle, and that the program's moves keep them.
use today_i_learned.Common.{
  zero, suc, ℕ, ◌+◌, ◌^◌, ◌≡◌, ◌≢◌, refl, true, Bool, ltb, ◌==◌, if◌then◌else◌, Option, some, none,
  List, [], ◌∷◌, ◌++◌, arith, length, sym, ap, ◌∙◌, false, length-append,
}
use today_i_learned.Recursion.{Move, hanoi}
use today_i_learned.Common.Run.{Ends}

-- The discs on a peg, the top first.
abbrev pub Pegs : Type 0
Pegs = ℕ → List ℕ

-- No disc lies on a smaller one.
abbrev pub fits : ℕ → List ℕ → Bool
fits d [] = true
fits d (x ∷ below) = ltb d x

unfoldable pub lift_disc : ℕ → List ℕ → Option (List ℕ)
lift_disc d [] = none
lift_disc d (x ∷ below) = if x == d then some below else none

abbrev pub and_then {ℓ κ} : {A : Type ℓ} {B : Type κ} → Option A → (A → Option B) → Option B
and_then none f = none
and_then (some x) f = f x

unfoldable pub move : Move → Pegs → Option Pegs
move m s = and_then (lift_disc m.disc (s m.source)) λ below.
    if fits m.disc (s m.target)
    then some
        (λ r. if r == m.target then m.disc ∷ s m.target else if r == m.source then below else s r)
    else none

unfoldable pub play : List Move → Pegs → Option Pegs
play [] s = some s
play (m ∷ ms) s = and_then (move m s) (play ms)

-- The discs from 1 to `n` on top of a peg.
abbrev pub tower : ℕ → List ℕ → List ℕ
tower zero below = below
tower (suc n) below = tower n (suc n ∷ below)

-- What the three pegs hold.
abbrev pub Holds : (from by to : ℕ) → Pegs → (a b c : List ℕ) → Type 0
Holds from by to s a b c = (s from ≡ a) × (s by ≡ b) × (s to ≡ c)

-- The moves take `n` discs from the first peg to the third, whatever larger discs lie below.
abbrev pub Solves : (n from by to : ℕ) → List Move → Type 0
Solves n from by to ms =
    (s : Pegs) (a b c : List ℕ)
    → Holds from by to s (tower n a) b c
    → fits n a ≡ true
    → fits n b ≡ true
    → fits n c ≡ true
    → (s' : Pegs) × (play ms s ≡ some s') × Holds from by to s' a b (tower n c)

play-append :
    (xs ys : List Move) (s s' : Pegs) → play xs s ≡ some s' → play (xs ++ ys) s ≡ play ys s'
unfolding play
play-append [] ys s s' e = ap (play ys) cc
play-append (x ∷ xs) ys s s' e = next (move x s) e (play-append xs ys)
  where
    next :
        (o : Option Pegs)
        → and_then o (play xs) ≡ some s'
        → ((t t' : Pegs) → play xs t ≡ some t' → play (xs ++ ys) t ≡ play ys t')
        → and_then o (play (xs ++ ys)) ≡ play ys s'
    next none h rest = cc
    next (some t) h rest = rest t s' h

fits-smaller : (n : ℕ) (a : List ℕ) → fits (suc n) a ≡ true → fits n a ≡ true
fits-smaller n [] h = refl
fits-smaller n (x ∷ a) h = ground arith

self-eq : (d : ℕ) → (d == d) ≡ true
self-eq d = ground arith

move-Holds :
    (from by to d : ℕ) (s : Pegs) (a b c : List ℕ)
    → from ≢ to
    → from ≢ by
    → by ≢ to
    → Holds from by to s (d ∷ a) b c
    → fits d c ≡ true
    → (s' : Pegs) × (move (record { disc = d; source = from; target = to }) s ≡ some s')
      × Holds from by to s' a b (d ∷ c)
unfolding move lift_disc
move-Holds from by to d s a b c ft fb bt (hf, hb, ht) fit =
    rw (move, hf, ht, self-eq d, fit) (_, refl, (ground arith, ground arith, ground arith))

play-cons :
    (m : Move) (s s' : Pegs) (ms : List Move) → move m s ≡ some s' → play (m ∷ ms) s ≡ play ms s'
unfolding play
play-cons m s s' ms e = ap (λ o. and_then o (play ms)) e

join :
    (n from by to : ℕ) (first second : List Move)
    → from ≢ to
    → from ≢ by
    → by ≢ to
    → Solves n from to by first
    → Solves n by from to second
    → Solves
        (suc n)
        from
        by
        to
        (first ++ record { disc = suc n; source = from; target = to } ∷ second)
join n from by to first second ft fb bt h k s a b c (hf, hb, ht) fa fb' fc =
    let larger : fits n (suc n ∷ a) ≡ true = ground arith in
    let (s₁, played₁, (f₁, t₁, b₁)) =
      h s (suc n ∷ a) c b (hf, ht, hb) larger (fits-smaller n c fc) (fits-smaller n b fb') in
    let (s₂, played₂, (f₂, b₂, t₂)) =
      move-Holds from by to (suc n) s₁ a (tower n b) c ft fb bt (f₁, b₁, t₁) fc in
    let larger' : fits n (suc n ∷ c) ≡ true = ground arith in
    let (s₃, played₃, (b₃, f₃, t₃)) =
      k s₂ b a (suc n ∷ c) (b₂, f₂, t₂) (fits-smaller n b fb') (fits-smaller n a fa) larger' in
    (
      s₃,
      rw (play-append first _ s s₁ played₁) (play-cons _ s₁ s₂ second played₂ ∙ played₃),
      (f₃, b₃, t₃),
    )

nothing : {from by to : ℕ} → Solves zero from by to []
nothing s a b c h fa fb fc = (s, unfold play in refl, h)

-- For `n + 1` discs and three different pegs `hanoi` returns, with 2^(n + 1) - 1 moves. By the
-- rules of the puzzle they take a tower of that many discs from the first peg to the third, and
-- leave every larger disc below and on the second peg where it is.
pub hanoi-Solves :
    (n from by to : ℕ)
    → from ≢ to
    → from ≢ by
    → by ≢ to
    → Ends
        (λ ms. Solves (suc n) from by to ms × (length ms + 1 ≡ 2 ^ suc n))
        (hanoi (suc n) from by to)
unfolding hanoi
hanoi-Solves zero from by to ft fb bt =
    (_, refl, (join zero from by to [] [] ft fb bt nothing nothing, refl))
hanoi-Solves (suc n) from by to ft fb bt =
    let (first, e, (solves, count)) = hanoi-Solves n from to by fb ft (λ q. bt (sym q)) in
    let (second, e', (solves', count')) = hanoi-Solves n by from to bt (λ q. fb (sym q)) ft in
    rw (not_zero, e, e')
      (
        _,
        refl,
        (
          join (suc n) from by to first second ft fb bt solves solves',
          omega (
            arith,
            length-append first
                (record { disc = suc (suc n); source = from; target = to } ∷ second),
            count,
            count',
          ),
        ),
      )
  where
    not_zero : (suc n == 0) ≡ false
    not_zero = ground arith
