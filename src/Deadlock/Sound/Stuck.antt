-- ===== src/Deadlock/Sound/Stuck.antt =====
-- aisys/deadlock_hunters.c: two threads that wait for each other.
use today_i_learned.Common.{Bool, true, false, some, ◌≡◌, arith, refl, List, [], ◌∷◌}
use today_i_learned.Deadlock.{Thread, one, two, edge, Graph}
use today_i_learned.Deadlock.System.{
  Mutex, set_owner, set_owner_idx, clear_edges, first, second, Pc, locking, work, System, Phase,
  try_lock, read_owner, read_owner_idx, lock_mutex, finished, continue, advance, thread_step, Actor,
  worker, step, watcher, joiner, ticker, move, run_schedule,
}
use today_i_learned.Deadlock.Cycle.{has_cycle}
use today_i_learned.Deadlock.Invariant.{other, level, IsExclusive, Inv, blocked}
use today_i_learned.Deadlock.Invariant.Keep.{
  monitor_cycle-IsUnseen, main_step-IsUnseen, step-move, step-Inv, run_schedule-Inv,
}

-- The thread has one mutex and tries the other.
abbrev pub is_stuck : Pc → Bool
is_stuck (locking second set_owner) = false
is_stuck (locking second set_owner_idx) = false
is_stuck (locking second clear_edges) = false
is_stuck (locking second _) = true
is_stuck _ = false

abbrev pub BothStuck : System → Type 0
BothStuck s = (t : Thread) → is_stuck (s.pc t) ≡ true

-- Each thread tries to lock a mutex that the other thread owns.
abbrev pub IsDeadlocked : System → Type 0
IsDeadlocked s =
    (t : Thread)
    → (is_stuck (s.pc t) ≡ true) × ((s.mutex (work t second)).owner_idx ≡ some (other t))

stuck-locked :
    (t : Thread) (m : Mutex) (p q : Pc)
    → is_stuck p ≡ true
    → is_stuck q ≡ true
    → IsExclusive t m (level second p) (level first q)
    → (m.locked ≡ true) × (m.owner_idx ≡ some (other t))
stuck-locked t m p q h k x = ground arith

blocked-stuck : (p q : Pc) → blocked p q ≡ true → blocked q p ≡ true → is_stuck p ≡ true
blocked-stuck p q h k = ground arith

lock_mutex-stuck :
    (t : Thread) (ph : Phase) (m : Mutex) (g : Graph)
    → is_stuck (locking second ph) ≡ true
    → m.locked ≡ true
    → is_stuck (continue second (lock_mutex t ph m g).next) ≡ true
unfolding lock_mutex
lock_mutex-stuck t try_lock m g h k = rw k refl
lock_mutex-stuck t read_owner m g h k = ground arith
lock_mutex-stuck t read_owner_idx m g h k = ground arith
lock_mutex-stuck t ph m g h k = ground arith

module _ {s : System} (inv : Inv s) where
  owner_idx-stuck :
      BothStuck s
      → (t : Thread)
      → ((s.mutex (work t second)).locked ≡ true)
        × ((s.mutex (work t second)).owner_idx ≡ some (other t))
  owner_idx-stuck h t =
      stuck-locked t (s.mutex (work t second)) (s.pc t) (s.pc (other t)) (h t) (h (other t))
        (inv.exclusive t second)

  pub BothStuck-IsDeadlocked : BothStuck s → IsDeadlocked s
  BothStuck-IsDeadlocked h t = (h t, (owner_idx-stuck h t).1)

  has_cycle-edges : has_cycle s.graph ≡ true → (t : Thread) → edge s.graph t (other t) ≡ true
  has_cycle-edges h t = ground (arith, inv.own one, inv.own two)

  pub has_cycle-BothStuck : has_cycle s.graph ≡ true → BothStuck s
  has_cycle-BothStuck h one =
      blocked-stuck _ _ (inv.waits one (has_cycle-edges h one))
        (inv.waits two (has_cycle-edges h two))
  has_cycle-BothStuck h two =
      blocked-stuck _ _ (inv.waits two (has_cycle-edges h two))
        (inv.waits one (has_cycle-edges h one))

  advance-BothStuck : (t : Thread) (p : Pc) → s.pc t ≡ p → BothStuck s → BothStuck (advance t p s)
  unfolding advance
  advance-BothStuck t finished at h u = h u
  advance-BothStuck t (locking first ph) at h u = ground (arith, h t, at)
  advance-BothStuck t (locking second ph) at h u = ground (
    arith,
    h u,
    lock_mutex-stuck t ph (s.mutex (work t second)) s.graph (ground (arith, h t, at))
        (owner_idx-stuck h t).0,
  )

  pub move-BothStuck : (a : Actor) → BothStuck s → BothStuck (move a s)
  unfolding thread_step
  move-BothStuck (worker t) h u = advance-BothStuck t (s.pc t) refl h u
  move-BothStuck watcher h t = rw (monitor_cycle-IsUnseen s).2 (h t)
  move-BothStuck joiner h t = rw (main_step-IsUnseen s).2 (h t)
  move-BothStuck ticker h u = h u

  pub step-BothStuck : (a : Actor) → BothStuck s → BothStuck (step a s)
  step-BothStuck a h = step-move BothStuck a s h (move-BothStuck a h)

pub run_schedule-BothStuck :
    (l : List Actor) (s : System) → Inv s → BothStuck s → BothStuck (run_schedule l s)
unfolding run_schedule
run_schedule-BothStuck [] s inv h = h
run_schedule-BothStuck (a ∷ rest) s inv h =
    run_schedule-BothStuck rest (step a s) (step-Inv a s inv) (step-BothStuck inv a h)

-- A deadlock lasts: once each thread waits for the other, they do so after any further steps.
pub run_schedule-IsDeadlocked :
    (l : List Actor) (s : System) → Inv s → IsDeadlocked s → IsDeadlocked (run_schedule l s)
run_schedule-IsDeadlocked l s inv h =
    BothStuck-IsDeadlocked (run_schedule-Inv l s inv)
      (run_schedule-BothStuck l s inv (λ t. (h t).0))
