-- ===== src/Common/Run.antt =====
-- How a C computation ends, and the rules for one that ends well.
use Prim.Native.Nat.{ℕ}
use mathlib.Core.Path.{ap, subst}
use mathlib.Core.Logic.{◌≢◌}
use today_i_learned.Common.Lists.{get_elem?-set_ne}
use today_i_learned.Common.Tests.{if◌then◌else◌}
use today_i_learned.Common.Lists.{get_elem?, set, length}
use today_i_learned.Common.Int.{ℤ, pos, negsuc, in_int}
use today_i_learned.Common.Tests.{ltb}
use mathlib.Core.Path.{◌≡◌, refl, subst, sym, ◌∙◌}
use mathlib.Core.Bool.{Bool, true, false}
use mathlib.Core.Option.{Option, none, some}
use mathlib.Core.List.{List}

-- A value, `exit` with a status, undefined behaviour (a bad pointer or index, signed overflow,
-- division by 0), or the end of the fuel that bounds a loop of the model.
pub data Run {ℓ} (A : Type ℓ) : Type ℓ where
  ok : A → Run A
  exit : ℤ → Run A
  fault out_of_fuel : Run A

infixl 5 ◌>>=◌ ◌>>◌
abbrev pub ◌>>=◌ {ℓ κ} : {A : Type ℓ} {B : Type κ} → Run A → (A → Run B) → Run B
ok a >>= f = f a
exit c >>= f = exit c
fault >>= f = fault
out_of_fuel >>= f = out_of_fuel

abbrev pub ◌>>◌ {ℓ} : {B : Type ℓ} → Run (Unit {0}) → Run B → Run B
m >> k = m >>= λ _. k

pub bind_assoc {ℓ κ κ'} :
    {A : Type ℓ} {B : Type κ} {C : Type κ'} (m : Run A) (f : A → Run B) (g : B → Run C)
    → (m >>= f >>= g) ≡ (m >>= λ a. f a >>= g)
bind_assoc (ok a) f g = refl
bind_assoc (exit c) f g = refl
bind_assoc fault f g = refl
bind_assoc out_of_fuel f g = refl

pub bind_cong {ℓ κ} :
    {A : Type ℓ} {B : Type κ} (m : Run A) {f g : A → Run B}
    → ((a : A) → f a ≡ g a)
    → (m >>= f) ≡ (m >>= g)
bind_cong (ok a) h = h a
bind_cong (exit c) h = refl
bind_cong fault h = refl
bind_cong out_of_fuel h = refl

abbrev pub or_fault {ℓ} : {A : Type ℓ} → Option A → Run A
or_fault (some a) = ok a
or_fault none = fault

-- The result of signed arithmetic: out of the range of `int` it is undefined.
abbrev pub checked : ℤ → Run ℤ
checked z = if in_int z then ok z else fault

-- `a[i]` and `a[i] = v` on an array of `length a` elements.
module _ {ℓ} {A : Type ℓ} where
  abbrev pub read : List A → ℤ → Run A
  read a (pos n) = or_fault (get_elem? a n)
  read a (negsuc n) = fault

  abbrev pub write : List A → ℤ → A → Run (List A)
  write a (pos n) v = if ltb n (length a) then ok (set a n v) else fault
  write a (negsuc n) v = fault

  -- A write leaves the other elements.
  pub read-set_ne : (a : List A) (i : ℕ) (j : ℤ) (v : A) → pos i ≢ j → read (set a i v) j ≡ read a j
  read-set_ne a i (pos j) v h = rw (get_elem?-set_ne a i j v (λ e. h (ap pos e)))
  read-set_ne a i (negsuc j) v h = refl

abbrev pub map_run {ℓ κ} : {A : Type ℓ} {B : Type κ} → (A → B) → Run A → Run B
map_run f (ok a) = ok (f a)
map_run f (exit c) = exit c
map_run f fault = fault
map_run f out_of_fuel = out_of_fuel

-- The run ends well, with a value that satisfies `P`.
abbrev pub Ends {ℓ κ} : {A : Type ℓ} → (A → Type κ) → Run A → Type (ℓ ⊔ κ)
Ends {A} P r = (a : A) × (r ≡ ok a) × P a

pub Ends-bind {ℓ κ ℓ' κ'} :
    {A : Type ℓ} {B : Type ℓ'} (P : A → Type κ) (Q : B → Type κ') (r : Run A) (f : A → Run B)
    → Ends P r
    → ((a : A) → P a → Ends Q (f a))
    → Ends Q (r >>= f)
Ends-bind P Q r f (a, e, p) next = rw e (next a p)

pub Ends-map {ℓ κ κ'} :
    {A : Type ℓ} (P : A → Type κ) (Q : A → Type κ') (r : Run A)
    → Ends P r
    → ((a : A) → P a → Q a)
    → Ends Q r
Ends-map P Q r (a, e, p) weaken = (a, e, weaken a p)

ok_injective {ℓ} : {A : Type ℓ} (x y : A) → ok x ≡ ok y → x ≡ y
ok_injective x y e = cc

pub Ends-inv {ℓ κ} : {A : Type ℓ} (P : A → Type κ) {r : Run A} {a : A} → Ends P r → r ≡ ok a → P a
Ends-inv P {a = a} (b, e, p) e' = subst P (ok_injective b a (sym e ∙ e')) p

-- The run does not return, or with a value that satisfies `P`.
pub data Keeps {ℓ κ} {A : Type ℓ} (P : A → Type κ) : Run A → Type (ℓ ⊔ κ) where
  kept : {a : A} → P a → Keeps P (ok a)
  exited : {c : ℤ} → Keeps P (exit c)
  faulted : Keeps P fault
  starved : Keeps P out_of_fuel

module _ {ℓ κ} {A : Type ℓ} {P : A → Type κ} where
  pub Keeps-bind {ℓ' κ'} :
      {B : Type ℓ'} {Q : B → Type κ'} {r : Run A} {f : A → Run B}
      → Keeps P r
      → ((a : A) → P a → Keeps Q (f a))
      → Keeps Q (r >>= f)
  Keeps-bind (kept p) k = k _ p
  Keeps-bind exited k = exited
  Keeps-bind faulted k = faulted
  Keeps-bind starved k = starved

  pub Keeps-if : {x y : Run A} (b : Bool) → Keeps P x → Keeps P y → Keeps P (if b then x else y)
  Keeps-if true h k = h
  Keeps-if false h k = k

  pub Keeps-inv : {r : Run A} {a : A} → Keeps P r → r ≡ ok a → P a
  Keeps-inv (kept {a = b} p) e = subst P (ok_injective b _ e) p
  Keeps-inv exited e = cc
  Keeps-inv faulted e = cc
  Keeps-inv starved e = cc
