-- ===== src/Deadlock/Invariant/Keep.antt =====
-- aisys/deadlock_hunters.c: every step keeps the invariant.
use today_i_learned.Common.{
  ◌||◌, sym, if◌then◌else◌, ◌≡◌, arith, ◌⊎◌, inl, inr, true, false, ℕ, refl, List, [], ◌∷◌, Bool,
}
use today_i_learned.Deadlock.{Thread, one, two, edge}
use today_i_learned.Deadlock.System.{
  Mutex, Resource, Phase, Stage, first, second, Pc, locking, with_mutex, work, System, thread1_work,
  thread2_work, continue, lock_mutex, Locking, advance, finished, thread_step, monitor_cycle,
  main_step, Actor, worker, watcher, joiner, ticker, move, step, run_schedule, start, is_returned,
  watch,
}
use today_i_learned.Deadlock.Invariant.{
  other, flip, level, IsExclusive, Inv, is_taken, blocked, AddsBlocked,
}
use today_i_learned.Deadlock.Invariant.Lock.{
  next_level, lock_mutex-IsExclusive, continue-level, lock_mutex-flip, lock_mutex-taken,
  lock_mutex-waits, lock_mutex-AddsBlocked, lock_mutex-own, lock_mutex-others,
}

swap {ℓ κ} : {A : Type ℓ} {B : Type κ} → A ⊎ B → B ⊎ A
swap (inl a) = inr a
swap (inr b) = inl b

-- The mutexes as one thread sees them give what the other sees.
both-IsExclusive :
    (t : Thread) (mutex : Resource → Mutex) (pc : Thread → Pc)
    → ((st : Stage)
        → IsExclusive t (mutex (work t st)) (level st (pc t)) (level (flip st) (pc (other t))))
    → (u : Thread) (st : Stage)
    → IsExclusive u (mutex (work u st)) (level st (pc u)) (level (flip st) (pc (other u)))
unfolding thread1_work thread2_work
both-IsExclusive one mutex pc h one st = h st
both-IsExclusive two mutex pc h two st = h st
both-IsExclusive one mutex pc h two first = swap (h second)
both-IsExclusive one mutex pc h two second = swap (h first)
both-IsExclusive two mutex pc h one first = swap (h second)
both-IsExclusive two mutex pc h one second = swap (h first)

blocked_mono :
    (p q q' : Pc)
    → ((st : Stage) → is_taken (level st q) ≡ true → is_taken (level st q') ≡ true)
    → blocked p q ≡ true
    → blocked p q' ≡ true
blocked_mono (locking st ph) q q' h b = ground (arith, h (flip st))
blocked_mono finished q q' h b = cc

AddsBlocked-weaker :
    (t : Thread) (p q q' : Pc)
    → ((st : Stage) → is_taken (level st q) ≡ true → is_taken (level st q') ≡ true)
    → AddsBlocked t p q
    → AddsBlocked t p q'
AddsBlocked-weaker t (locking st ph) q q' h b = ground (arith, h (flip st))
AddsBlocked-weaker t finished q q' h b = tt

module _ (t : Thread) (stage : Stage) (ph : Phase) (s : System) (inv : Inv s)
    (at : s.pc t ≡ locking stage ph) where
  abbrev l : Locking
  l = lock_mutex t ph (s.mutex (work t stage)) s.graph

  here : IsExclusive t l.res (next_level l.next) (level (flip stage) (s.pc (other t)))
  here =
      lock_mutex-IsExclusive t ph (s.mutex (work t stage)) s.graph
        (level (flip stage) (s.pc (other t))) (ground (arith, inv.exclusive t stage, at))

  advance-IsExclusive :
      (st : Stage)
      → IsExclusive t
          (with_mutex s.mutex (work t stage) l.res (work t st))
          (level st (continue stage l.next))
          (level (flip st) (s.pc (other t)))
  unfolding thread1_work thread2_work
  advance-IsExclusive st = ground (
    arith,
    here,
    continue-level t stage l.next,
    lock_mutex-flip t stage ph (s.mutex (work t stage)) s.graph,
    inv.exclusive t st,
    at,
  )

  abbrev t' : Thread
  t' = other t

  advance-adds : AddsBlocked t (continue stage l.next) (s.pc t')
  advance-adds =
      lock_mutex-AddsBlocked t stage ph (s.mutex (work t stage)) s.graph (s.pc t')
        (ground (arith, inv.exclusive t stage, at))

  own_adds : AddsBlocked t (locking stage ph) (s.pc t')
  own_adds = ground (arith, inv.adds t, at)

  advance-waits : edge l.graph t t' ≡ true → blocked (continue stage l.next) (s.pc t') ≡ true
  advance-waits =
      lock_mutex-waits t stage ph (s.mutex (work t stage)) s.graph (s.pc t')
        (ground (arith, inv.exclusive t stage, at)) (ground (arith, inv.waits t, at)) own_adds

  -- The other thread stays blocked where it was.
  other_taken :
      (st : Stage)
      → is_taken (level st (s.pc t)) ≡ true
      → is_taken (level st (continue stage l.next)) ≡ true
  other_taken st h =
      lock_mutex-taken t stage ph (s.mutex (work t stage)) s.graph st (ground (arith, h, at))

  other_waits : edge l.graph t' t ≡ true → blocked (s.pc t') (continue stage l.next) ≡ true
  other_waits e = blocked_mono (s.pc t') _ _ other_taken (
      ground
        (arith, e, inv.waits t', lock_mutex-others t stage ph (s.mutex (work t stage)) s.graph t))

  other_adds : AddsBlocked t' (s.pc t') (continue stage l.next)
  other_adds = AddsBlocked-weaker t' (s.pc t') _ _ other_taken (ground (arith, inv.adds t'))

  own : edge l.graph t t ≡ false
  own = lock_mutex-own t stage ph (s.mutex (work t stage)) s.graph (s.pc t') (inv.own t) own_adds

  other_own : edge l.graph t' t' ≡ false
  other_own = rw (lock_mutex-others t stage ph (s.mutex (work t stage)) s.graph t', inv.own t')

  pub advance_lem : Inv (advance t (locking stage ph) s)
  unfolding advance
  advance_lem = record {
    exclusive =
        both-IsExclusive t (advance t (locking stage ph) s).mutex
          (advance t (locking stage ph) s).pc (λ st. ground (arith, advance-IsExclusive st));
    own = λ u. ground (arith, own, other_own);
    waits = λ u e. ground (arith, e, advance-waits, other_waits);
    adds = λ u. ground (arith, advance-adds, other_adds);
  }

advance-Inv : (t : Thread) (p : Pc) (s : System) → Inv s → s.pc t ≡ p → Inv (advance t p s)
unfolding advance
advance-Inv t finished s inv at = inv
advance-Inv t (locking stage ph) s inv at = advance_lem t stage ph s inv at

-- The two systems agree on what the threads see.
abbrev pub IsUnseen : System → System → Type 0
IsUnseen s s' = (s'.mutex ≡ s.mutex) × (s'.graph ≡ s.graph) × (s'.pc ≡ s.pc)

pub monitor_cycle-IsUnseen : (s : System) → IsUnseen s (monitor_cycle s)
unfolding monitor_cycle watch
monitor_cycle-IsUnseen s = ground arith

pub main_step-IsUnseen : (s : System) → IsUnseen s (main_step s)
unfolding main_step
main_step-IsUnseen s = ground arith

IsUnseen-Inv : (s s' : System) → IsUnseen s s' → Inv s → Inv s'
IsUnseen-Inv s s' (m, g, p) inv = record {
  exclusive = λ t st. rw (m, p) (inv.exclusive t st);
  own = λ t. rw g (inv.own t);
  waits = λ t e. rw p (inv.waits t (rw (sym g) e));
  adds = λ t. rw p (inv.adds t);
}

pub move-Inv : (a : Actor) (s : System) → Inv s → Inv (move a s)
unfolding thread_step
move-Inv (worker t) s inv = advance-Inv t (s.pc t) s inv refl
move-Inv watcher s inv = IsUnseen-Inv s (monitor_cycle s) (monitor_cycle-IsUnseen s) inv
move-Inv joiner s inv = IsUnseen-Inv s (main_step s) (main_step-IsUnseen s) inv
move-Inv ticker s inv = IsUnseen-Inv s (move ticker s) (refl, refl, refl) inv

-- A step is a move, or nothing.
pub step-move : (P : System → Type 0) (a : Actor) (s : System) → P s → P (move a s) → P (step a s)
unfolding step
step-move P a s p q = either (s.reported || is_returned s.main)
  where
    either : (b : Bool) → P (if b then s else move a s)
    either true = p
    either false = q

pub step-Inv : (a : Actor) (s : System) → Inv s → Inv (step a s)
step-Inv a s inv = step-move Inv a s inv (move-Inv a s inv)

pub run_schedule-Inv : (l : List Actor) (s : System) → Inv s → Inv (run_schedule l s)
unfolding run_schedule
run_schedule-Inv [] s inv = inv
run_schedule-Inv (a ∷ rest) s inv = run_schedule-Inv rest (step a s) (step-Inv a s inv)

pub start-Inv : (clock : ℕ) → Inv (start clock)
start-Inv clock = record {
  exclusive = λ t st. ground arith;
  own = λ t. ground arith;
  waits = λ t e. ground arith;
  adds = λ t. ground arith;
}
