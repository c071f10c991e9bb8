-- ===== src/Common/Store.antt =====
-- Memory with what `malloc` gave: something, or nothing, at each address, and 0 for `NULL`.
use today_i_learned.Common.{ℕ, ◌==◌, ◌≡◌, ◌≢◌, if◌then◌else◌, Option, some, none, arith, false}
use today_i_learned.Common.Run.{Run, ok, fault, ◌>>=◌, or_fault}

abbrev pub Ptr : Type 0
Ptr = ℕ

abbrev pub null : Ptr
null = 0

abbrev pub StoreOf {ℓ} : Type ℓ → Type ℓ
StoreOf A = Ptr → Option A

pub eq-null : (a : Ptr) → a ≢ null → (a == null) ≡ false
eq-null a h = ground arith

module _ {ℓ} {A : Type ℓ} where
  unfoldable pub update : StoreOf A → Ptr → Option A → StoreOf A
  update h p c a = if a == p then c else h a

  unfoldable pub load : StoreOf A → Ptr → Run A
  load h p = if p == null then fault else or_fault (h p)

  -- `free(p)`, for a pointer that is not null.
  unfoldable pub free : StoreOf A → Ptr → Run (StoreOf A)
  unfolding load update
  free h p = do n ← load h p; ok (update h p none)

  pub update_self : (h : StoreOf A) (p : Ptr) (c : Option A) → update h p c p ≡ c
  unfolding update
  update_self h p c = ground arith

  pub update_ne : (h : StoreOf A) (p a : Ptr) (c : Option A) → a ≢ p → update h p c a ≡ h a
  unfolding update
  update_ne h p a c n = ground arith

  pub load-stored : (h : StoreOf A) (a : Ptr) (n : A) → a ≢ null → h a ≡ some n → load h a ≡ ok n
  unfolding load
  load-stored h a n a0 e = ground arith
