-- ===== src/Deadlock/Invariant/Lock.antt =====
-- aisys/deadlock_hunters.c: what a step of `lock_mutex` does to the invariant.
use today_i_learned.Common.{none, some, arith, Option, ◌≡◌, true, false}
use today_i_learned.Deadlock.{Thread, Graph, edge, clear_edges_from, add_edge}
use today_i_learned.Deadlock.System.{
  Mutex, Phase, try_lock, set_owner, set_owner_idx, clear_edges, read_owner, read_owner_idx, adding,
  lock_mutex, Stage, Pc, locking, continue,
}
use today_i_learned.Deadlock.Invariant.{
  Level, indexed, phase_level, IsExclusive, other, flip, is_taken, level, blocked, AddsBlocked,
}

abbrev pub next_level : Option Phase → Level
next_level none = indexed
next_level (some ph) = phase_level ph

pub lock_mutex-IsExclusive :
    (t : Thread) (ph : Phase) (m : Mutex) (g : Graph) (l : Level)
    → IsExclusive t m (phase_level ph) l
    → IsExclusive t (lock_mutex t ph m g).res (next_level (lock_mutex t ph m g).next) l
unfolding lock_mutex
lock_mutex-IsExclusive t try_lock m g l h = ground arith
lock_mutex-IsExclusive t set_owner m g l h = ground arith
lock_mutex-IsExclusive t set_owner_idx m g l h = ground arith
lock_mutex-IsExclusive t clear_edges m g l h = ground arith
lock_mutex-IsExclusive t read_owner m g l h = ground arith
lock_mutex-IsExclusive t read_owner_idx m g l h = ground arith
lock_mutex-IsExclusive t (adding to) m g l h = ground arith

module _ (t : Thread) (st : Stage) where
  abbrev pub after : Phase → Mutex → Graph → Pc
  after ph m g = continue st (lock_mutex t ph m g).next

  pub continue-level : (next : Option Phase) → level st (continue st next) ≡ next_level next
  continue-level next = ground arith

  pub lock_mutex-flip :
      (ph : Phase) (m : Mutex) (g : Graph)
      → level (flip st) (after ph m g) ≡ level (flip st) (locking st ph)
  unfolding lock_mutex
  lock_mutex-flip try_lock m g = ground arith
  lock_mutex-flip read_owner m g = ground arith
  lock_mutex-flip read_owner_idx m g = ground arith
  lock_mutex-flip ph m g = ground arith

  -- What is taken stays taken.
  pub lock_mutex-taken :
      (ph : Phase) (m : Mutex) (g : Graph) (st' : Stage)
      → is_taken (level st' (locking st ph)) ≡ true
      → is_taken (level st' (after ph m g)) ≡ true
  unfolding lock_mutex
  lock_mutex-taken try_lock m g st' h = ground arith
  lock_mutex-taken read_owner m g st' h = ground arith
  lock_mutex-taken read_owner_idx m g st' h = ground arith
  lock_mutex-taken ph m g st' h = ground arith

  pub lock_mutex-own :
      (ph : Phase) (m : Mutex) (g : Graph) (q : Pc)
      → edge g t t ≡ false
      → AddsBlocked t (locking st ph) q
      → edge (lock_mutex t ph m g).graph t t ≡ false
  unfolding lock_mutex clear_edges_from add_edge
  lock_mutex-own ph m g q h k = ground arith

  pub lock_mutex-waits :
      (ph : Phase) (m : Mutex) (g : Graph) (q : Pc)
      → IsExclusive t m (phase_level ph) (level (flip st) q)
      → (edge g t (other t) ≡ true → blocked (locking st ph) q ≡ true)
      → AddsBlocked t (locking st ph) q
      → edge (lock_mutex t ph m g).graph t (other t) ≡ true
      → blocked (after ph m g) q ≡ true
  unfolding lock_mutex clear_edges_from add_edge
  lock_mutex-waits try_lock m g q x h k e = ground arith
  lock_mutex-waits read_owner m g q x h k e = ground arith
  lock_mutex-waits read_owner_idx m g q x h k e = ground arith
  lock_mutex-waits ph m g q x h k e = ground arith

  pub lock_mutex-AddsBlocked :
      (ph : Phase) (m : Mutex) (g : Graph) (q : Pc)
      → IsExclusive t m (phase_level ph) (level (flip st) q)
      → AddsBlocked t (after ph m g) q
  unfolding lock_mutex
  lock_mutex-AddsBlocked try_lock m g q x = ground arith
  lock_mutex-AddsBlocked read_owner m g q x = ground arith
  lock_mutex-AddsBlocked read_owner_idx m g q x = ground arith
  lock_mutex-AddsBlocked ph m g q x = ground arith

  pub lock_mutex-others :
      (ph : Phase) (m : Mutex) (g : Graph) (u : Thread)
      → edge (lock_mutex t ph m g).graph (other t) u ≡ edge g (other t) u
  unfolding lock_mutex clear_edges_from add_edge
  lock_mutex-others ph m g u = ground arith
