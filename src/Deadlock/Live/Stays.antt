-- ===== src/Deadlock/Live/Stays.antt =====
-- aisys/deadlock_hunters.c: what stays true of a system whose threads wait for each other.
use today_i_learned.Common.{
  List, [], ◌∷◌, ◌⊎◌, ◌≡◌, refl, arith, ◌≤◌, ◌<◌, inl, inr, Bool, true, false, Bool-cases, ℕ,
}
use today_i_learned.Deadlock.{Thread, detect_cycle, one}
use today_i_learned.Deadlock.Invariant.Keep.{run_schedule-Inv, start-Inv}
use today_i_learned.Deadlock.Sound.Stuck.{IsDeadlocked}
use today_i_learned.Deadlock.System.{
  run_schedule, start, System, joining, Actor, worker, watcher, joiner, ticker, move, monitor_cycle,
  watch, main_step, advance, thread_step, Pc, locking, finished, Monitor, check, step, checking,
  deciding,
}
use today_i_learned.Deadlock.Invariant.{Inv}
use today_i_learned.Deadlock.Invariant.Keep.{move-Inv, step-move}
use today_i_learned.Deadlock.Sound.Stuck.{BothStuck, move-BothStuck}
use today_i_learned.Common.Run.{Run}

-- `main` is past the first `pthread_join` only when that thread is finished.
abbrev pub IsJoined : System → Type 0
IsJoined s = (s.main ≡ joining one) ⊎ (s.pc one ≡ finished)

advance-finished :
    (t : Thread) (p : Pc) (s : System)
    → s.pc t ≡ p
    → (u : Thread) → s.pc u ≡ finished
    → (advance t p s).pc u ≡ finished
unfolding advance
advance-finished t finished s at u e = e
advance-finished t (locking st ph) s at u e = ground (arith, at, e)

advance-main : (t : Thread) (p : Pc) (s : System) → (advance t p s).main ≡ s.main
unfolding advance
advance-main t finished s = refl
advance-main t (locking st ph) s = refl

pub advance-clock :
    (t : Thread) (p : Pc) (s : System)
    → ((advance t p s).clock ≡ s.clock)
      × ((advance t p s).deadlock_started ≡ s.deadlock_started)
      × ((advance t p s).monitor ≡ s.monitor)
      × ((advance t p s).reported ≡ s.reported)
unfolding advance
advance-clock t finished s = (refl, refl, refl, refl)
advance-clock t (locking st ph) s = (refl, refl, refl, refl)

-- A thread that has returned does not move.
pub move-finished :
    (a : Actor) (s : System) (u : Thread) → s.pc u ≡ finished → (move a s).pc u ≡ finished
unfolding thread_step monitor_cycle watch main_step
move-finished (worker t) s u e = advance-finished t (s.pc t) s refl u e
move-finished watcher s u e = ground arith
move-finished joiner s u e = ground arith
move-finished ticker s u e = e

pub move-IsJoined : (a : Actor) (s : System) → IsJoined s → IsJoined (move a s)
unfolding thread_step monitor_cycle watch main_step
move-IsJoined (worker t) s h =
    ground (arith, h, advance-main t (s.pc t) s, advance-finished t (s.pc t) s refl one)
move-IsJoined watcher s h = ground (arith, h)
move-IsJoined joiner s h = ground (arith, h)
move-IsJoined ticker s h = h

pub record Lasts (s : System) : Type 0 where
  pub inv : Inv s
  pub stuck : BothStuck s
  pub joins : IsJoined s
  pub clock_set : 0 < s.clock
  pub past : s.deadlock_started ≤ s.clock

move-past :
    (a : Actor) (s : System)
    → (0 < s.clock) × (s.deadlock_started ≤ s.clock)
    → (0 < (move a s).clock) × ((move a s).deadlock_started ≤ (move a s).clock)
unfolding thread_step monitor_cycle watch main_step
move-past (worker t) s h = ground (arith, h, advance-clock t (s.pc t) s)
move-past watcher s h = watch-past s.monitor
  where
    check-past :
        (r : Run Bool)
        → (0 < (check r s).clock) × ((check r s).deadlock_started ≤ (check r s).clock)
    check-past r = ground (arith, h)

    watch-past :
        (m : Monitor) → (0 < (watch m s).clock) × ((watch m s).deadlock_started ≤ (watch m s).clock)
    watch-past checking = check-past (detect_cycle 2 s.graph)
    watch-past (deciding n now) = ground (arith, h)
move-past joiner s h = ground (arith, h)
move-past ticker s h = ground (arith, h)

step-Lasts : (a : Actor) (s : System) → Lasts s → Lasts (step a s)
step-Lasts a s k = step-move Lasts a s k (record {
  inv = move-Inv a s k.inv;
  stuck = move-BothStuck k.inv a k.stuck;
  joins = move-IsJoined a s k.joins;
  clock_set = (move-past a s (k.clock_set, k.past)).0;
  past = (move-past a s (k.clock_set, k.past)).1;
})

-- A system has reported, or moves: `main` waits for a thread that is stuck.
step-moves : (a : Actor) (s : System) → Lasts s → s.reported ≡ false → step a s ≡ move a s
unfolding step
step-moves a s k e = ground (arith, e, k.joins, k.stuck one)

step-reported : (a : Actor) (s : System) → s.reported ≡ true → (step a s).reported ≡ true
unfolding step
step-reported a s e = ground (arith, e)

-- The system has reported, or satisfies `Q`.
abbrev pub Nears : (System → Type 0) → System → Type 0
Nears Q s = Lasts s × ((s.reported ≡ true) ⊎ Q s)

pub step-Nears :
    (Q Q' : System → Type 0) (a : Actor) (s : System)
    → (Lasts s → s.reported ≡ false → Q s → ((move a s).reported ≡ true) ⊎ Q' (move a s))
    → Nears Q s
    → Nears Q' (step a s)
step-Nears Q Q' a s next (k, inl r) = (step-Lasts a s k, inl (step-reported a s r))
step-Nears Q Q' a s next (k, inr q) = (
  step-Lasts a s k,
  elim (Bool-cases s.reported) [
    | inl r ↦ inl (step-reported a s r)
    | inr r ↦ rw (step-moves a s k r) (next k r q)
  ],
)

pub Nears-map :
    {Q Q' : System → Type 0} {s : System}
    → ((s : System) → Lasts s → Q s → Q' s)
    → Nears Q s
    → Nears Q' s
Nears-map f (k, inl r) = (k, inl r)
Nears-map {s = s} f (k, inr q) = (k, inr (f s k q))

abbrev Usual : System → Type 0
Usual s = IsJoined s × (0 < s.clock) × (s.deadlock_started ≤ s.clock)

run_schedule-Usual : (l : List Actor) (s : System) → Usual s → Usual (run_schedule l s)
unfolding run_schedule
run_schedule-Usual [] s u = u
run_schedule-Usual (a ∷ rest) s u = run_schedule-Usual rest (step a s) (
    step-move Usual a s u
      (move-IsJoined a s u.0, (move-past a s (u.1, u.2)).0, (move-past a s (u.1, u.2)).1))

pub start-Lasts :
    (clock : ℕ) (l : List Actor)
    → 0 < clock
    → IsDeadlocked (run_schedule l (start clock))
    → Lasts (run_schedule l (start clock))
start-Lasts clock l p d = record {
  inv = run_schedule-Inv l (start clock) (start-Inv clock);
  stuck = λ t. (d t).0;
  joins = u.0;
  clock_set = u.1;
  past = u.2;
}
  where
    u : Usual (run_schedule l (start clock))
    u = run_schedule-Usual l (start clock) (inl refl, p, omega arith)
