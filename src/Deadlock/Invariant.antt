-- ===== src/Deadlock/Invariant.antt =====
-- aisys/deadlock_hunters.c: the invariant of a run, in which the fields of each mutex and the edges
-- of each thread follow from where the threads stand.
pub mod Lock
pub mod Keep
use today_i_learned.Common.{Bool, true, false, none, some, ◌≡◌, ◌⊎◌}
use today_i_learned.Deadlock.{Thread, one, two, edge}
use today_i_learned.Deadlock.System.{
  Mutex, free_mutex, Phase, set_owner, set_owner_idx, clear_edges, adding, Stage, first, second, Pc,
  locking, finished, System, work,
}

abbrev pub other : Thread → Thread
other one = two
other two = one

-- The stage at which the other thread takes the same mutex.
abbrev pub flip : Stage → Stage
flip first = second
flip second = first

-- How far a thread has come with a mutex.
pub data Level : Type 0 where
  untaken taken owned indexed : Level

abbrev pub is_taken : Level → Bool
is_taken untaken = false
is_taken _ = true

abbrev pub phase_level : Phase → Level
phase_level set_owner = taken
phase_level set_owner_idx = owned
phase_level clear_edges = indexed
phase_level _ = untaken

-- How far a thread at `p` has come with the mutex of a stage.
abbrev pub level : Stage → Pc → Level
level st finished = indexed
level first (locking first ph) = phase_level ph
level first (locking second ph) = indexed
level second (locking first ph) = untaken
level second (locking second ph) = phase_level ph

abbrev pub mutex_at : Thread → Level → Mutex
mutex_at t untaken = free_mutex
mutex_at t taken = record { locked = true; owner = none; owner_idx = none }
mutex_at t owned = record { locked = true; owner = some t; owner_idx = none }
mutex_at t indexed = record { locked = true; owner = some t; owner_idx = some t }

-- The mutex `m` at a point where `t` has come to `l` with it and the other thread to `l'`.
abbrev pub IsExclusive : Thread → Mutex → (l l' : Level) → Type 0
IsExclusive t m l l' =
    ((m ≡ mutex_at t l) × (l' ≡ untaken)) ⊎ ((m ≡ mutex_at (other t) l') × (l ≡ untaken))

-- A thread at `p` tries a mutex that the other, at `q`, has taken.
abbrev pub blocked : (p q : Pc) → Bool
blocked finished q = false
blocked (locking st set_owner) q = false
blocked (locking st set_owner_idx) q = false
blocked (locking st clear_edges) q = false
blocked (locking st _) q = is_taken (level (flip st) q)

abbrev pub AddsBlocked : Thread → (p q : Pc) → Type 0
AddsBlocked t (locking st (adding to)) q = (to ≡ other t) × (is_taken (level (flip st) q) ≡ true)
AddsBlocked t p q = Unit

pub record Inv (s : System) : Type 0 where
  pub exclusive :
      (t : Thread) (st : Stage)
      → IsExclusive t (s.mutex (work t st)) (level st (s.pc t)) (level (flip st) (s.pc (other t)))
  pub own : (t : Thread) → edge s.graph t t ≡ false
  pub waits :
      (t : Thread) → edge s.graph t (other t) ≡ true → blocked (s.pc t) (s.pc (other t)) ≡ true
  pub adds : (t : Thread) → AddsBlocked t (s.pc t) (s.pc (other t))
