-- ===== src/Deadlock/Sound/Since.antt =====
-- aisys/deadlock_hunters.c: for how long the monitor has seen a cycle.
use mathlib.Core.List.{append-nil, append_assoc}
use today_i_learned.Common.{
  sym, leb→le, ℕ, zero, suc, ◌+◌, ◌≤◌, Bool, true, false, ◌≡◌, refl, arith, List, [], ◌∷◌, ◌++◌,
  leb, if◌then◌else◌,
}
use today_i_learned.Common.Run.{ok}
use today_i_learned.Deadlock.System.{
  System, Monitor, checking, deciding, restart, check, watch, Pc, locking, finished, advance,
  thread_step, monitor_cycle, main_step, Actor, worker, watcher, joiner, ticker, move, run_schedule,
  start, step,
}
use today_i_learned.Deadlock.Cycle.{has_cycle, detect_cycle-has_cycle}
use today_i_learned.Deadlock.Invariant.Lock.{after}
use today_i_learned.Deadlock.Sound.Stuck.{
  IsDeadlocked, BothStuck-IsDeadlocked, has_cycle-BothStuck, run_schedule-IsDeadlocked,
}
use today_i_learned.Deadlock.Invariant.{Inv}
use today_i_learned.Deadlock.Invariant.Keep.{step-move, run_schedule-Inv, start-Inv}
use mathlib.Core.Path.{subst}

-- `P` of a time other than 0, which stands for none.
abbrev IfSet : (ℕ → Type 0) → ℕ → Type 0
IfSet P zero = Unit
IfSet P (suc n) = P (suc n)

abbrev Decides : (ℕ → Type 0) → (clock : ℕ) → Monitor → Type 0
Decides P clock checking = Unit
Decides P clock (deciding started now) = IfSet P started × (now ≤ clock)

abbrev Reports : (ℕ → Type 0) → (clock : ℕ) → Bool → Type 0
Reports P clock true = (n : ℕ) × P n × (n + 5 ≤ clock)
Reports P clock false = Unit

-- What the monitor knows, where `P n` says that there has been a deadlock since the time `n`.
record Timed (P : ℕ → Type 0) (s : System) : Type 0 where
  started : IfSet P s.deadlock_started
  decides : Decides P s.clock s.monitor
  reports : Reports P s.clock s.reported

IfSet-restart :
    (P : ℕ → Type 0) (b : Bool) (now n : ℕ)
    → (b ≡ true → P now)
    → IfSet P n
    → IfSet P (restart b now n)
IfSet-restart P true zero zero h k = tt
IfSet-restart P true (suc now) zero h k = h refl
IfSet-restart P true now (suc n) h k = k
IfSet-restart P false now n h k = tt

module _ {P : ℕ → Type 0} (s : System) (h : Timed P s) where
  check-Timed : (b : Bool) → (b ≡ true → P s.clock) → Timed P (check (ok b) s)
  check-Timed b now = record {
    started = IfSet-restart P b s.clock s.deadlock_started now h.started;
    decides = (IfSet-restart P b s.clock s.deadlock_started now h.started, omega arith);
    reports = h.reports;
  }

  rest : Timed P (record s { monitor = checking })
  rest = record { started = h.started; decides = tt; reports = h.reports }

  watch-Timed :
      (m : Monitor) → s.monitor ≡ m → (has_cycle s.graph ≡ true → P s.clock) → Timed P (watch m s)
  unfolding watch
  watch-Timed checking at now =
      subst (λ r. Timed P (check r s)) (sym (detect_cycle-has_cycle 0 s.graph))
        (check-Timed (has_cycle s.graph) now)
  watch-Timed (deciding zero time) at now = rest
  watch-Timed (deciding (suc n) time) at now = either (leb (suc n + 5) time) refl
    where
      known : Decides P s.clock (deciding (suc n) time)
      known = subst (Decides P s.clock) at h.decides

      either :
          (b : Bool)
          → leb (suc n + 5) time ≡ b
          → Timed P (if b then record s { reported = true } else record s { monitor = checking })
      either true holds = record {
        started = h.started;
        decides = h.decides;
        reports = (suc n, known.0, ground (arith, known.1, leb→le (suc n + 5) time holds));
      }
      either false fails = rest

-- A move that neither the monitor nor the clock makes.
IsUntimed-Timed :
    {P : ℕ → Type 0} (s s' : System)
    → (s'.deadlock_started ≡ s.deadlock_started)
      × (s'.monitor ≡ s.monitor)
      × (s'.clock ≡ s.clock)
      × (s'.reported ≡ s.reported)
    → Timed P s
    → Timed P s'
IsUntimed-Timed {P} s s' (d, m, c, r) h = record {
  started = rw d h.started;
  decides = rw (m, c) h.decides;
  reports = rw (r, c) h.reports;
}

move-Timed :
    (P : ℕ → Type 0) (a : Actor) (s : System)
    → Timed P s
    → (has_cycle s.graph ≡ true → P s.clock)
    → Timed P (move a s)
unfolding thread_step monitor_cycle advance main_step
move-Timed P (worker t) s h now =
    IsUntimed-Timed s (advance t (s.pc t) s) (advance-timed (s.pc t)) h
  where
    advance-timed :
        (p : Pc)
        → ((advance t p s).deadlock_started ≡ s.deadlock_started)
          × ((advance t p s).monitor ≡ s.monitor)
          × ((advance t p s).clock ≡ s.clock)
          × ((advance t p s).reported ≡ s.reported)
    advance-timed finished = (refl, refl, refl, refl)
    advance-timed (locking st ph) = (refl, refl, refl, refl)
move-Timed P watcher s h now = watch-Timed s h s.monitor refl now
move-Timed P joiner s h now = IsUntimed-Timed s (main_step s) main_step-timed h
  where
    main_step-timed :
        ((main_step s).deadlock_started ≡ s.deadlock_started)
        × ((main_step s).monitor ≡ s.monitor)
        × ((main_step s).clock ≡ s.clock)
        × ((main_step s).reported ≡ s.reported)
    main_step-timed = ground arith
move-Timed P ticker s h now = record {
  started = h.started;
  decides = later s.monitor h.decides;
  reports = longer s.reported h.reports;
}
  where
    later : (m : Monitor) → Decides P s.clock m → Decides P (s.clock + 1) m
    later m k = ground (arith, k)

    longer : (b : Bool) → Reports P s.clock b → Reports P (s.clock + 1) b
    longer true (n, p, le) = (n, p, omega arith)
    longer false k = tt

Timed-weaker : {P Q : ℕ → Type 0} (s : System) → ((n : ℕ) → P n → Q n) → Timed P s → Timed Q s
Timed-weaker {P} {Q} s f h = record {
  started = set s.deadlock_started h.started;
  decides = decide s.monitor h.decides;
  reports = report s.reported h.reports;
}
  where
    set : (n : ℕ) → IfSet P n → IfSet Q n
    set zero k = tt
    set (suc n) k = f (suc n) k

    decide : (m : Monitor) → Decides P s.clock m → Decides Q s.clock m
    decide checking k = tt
    decide (deciding n now) (k, le) = (set n k, le)

    report : (b : Bool) → Reports P s.clock b → Reports Q s.clock b
    report true (n, p, le) = (n, f n p, le)
    report false k = tt

-- Along the schedule `l` from the start, the threads have been deadlocked since the time `n`.
abbrev pub Since : (clock : ℕ) → List Actor → ℕ → Type 0
Since clock l n =
    (before : List Actor) × (after : List Actor) × (before ++ after ≡ l)
    × IsDeadlocked (run_schedule before (start clock))
    × ((run_schedule before (start clock)).clock ≡ n)

Since-step :
    (clock : ℕ) (l : List Actor) (a : Actor) (n : ℕ)
    → Since clock l n
    → Since clock (l ++ (a ∷ [])) n
Since-step clock l a n (before, after, e, d, c) =
    (before, after ++ (a ∷ []), rw (← append_assoc before, e) refl, d, c)

pub run_schedule-append :
    (l l' : List Actor) (s : System) → run_schedule (l ++ l') s ≡ run_schedule l' (run_schedule l s)
unfolding run_schedule
run_schedule-append [] l' s = refl
run_schedule-append (a ∷ l) l' s = run_schedule-append l l' (step a s)

-- The state after the schedule `done`.
module _ (clock : ℕ) where
  abbrev at : List Actor → System
  at done = run_schedule done (start clock)

  has_cycle-Since :
      (done : List Actor) → has_cycle (at done).graph ≡ true → Since clock done (at done).clock
  has_cycle-Since done h =
      (done, [], append-nil done, BothStuck-IsDeadlocked inv (has_cycle-BothStuck inv h), refl)
    where
      inv : Inv (at done)
      inv = run_schedule-Inv done (start clock) (start-Inv clock)

  step-Timed :
      (done : List Actor) (a : Actor)
      → Timed (Since clock done) (at done)
      → Timed (Since clock (done ++ (a ∷ []))) (at (done ++ (a ∷ [])))
  unfolding run_schedule
  step-Timed done a h = rw (run_schedule-append done (a ∷ []) (start clock)) (
      Timed-weaker (step a (at done)) (λ n. Since-step clock done a n)
        (step-move (Timed (Since clock done)) a (at done) h
          (move-Timed (Since clock done) a (at done) h (has_cycle-Since done))))

  run_schedule-Timed :
      (done rest : List Actor)
      → Timed (Since clock done) (at done)
      → Timed (Since clock (done ++ rest)) (at (done ++ rest))
  run_schedule-Timed done [] h = rw (append-nil done) h
  run_schedule-Timed done (a ∷ rest) h =
      rw (← append_assoc done (a ∷ []) rest)
        (run_schedule-Timed (done ++ (a ∷ [])) rest (step-Timed done a h))

  start-Timed : Timed (Since clock []) (at [])
  unfolding run_schedule
  start-Timed = record { started = tt; decides = tt; reports = tt }

  -- Whenever the program has reported a deadlock and exited, each thread had come to wait for the
  -- other at an earlier point of the schedule, at least five seconds before on the clock.
  pub run_schedule-Since :
      (l : List Actor) → (at l).reported ≡ true → (n : ℕ) × Since clock l n × (n + 5 ≤ (at l).clock)
  run_schedule-Since l h =
      subst (Reports (Since clock l) (at l).clock) h (run_schedule-Timed [] l start-Timed).reports

  -- Then they wait for each other at that point too.
  pub run_schedule-reported : (l : List Actor) → (at l).reported ≡ true → IsDeadlocked (at l)
  run_schedule-reported l h =
      let (n, (before, after, e, d, c), le) = run_schedule-Since l h in
      rw (← e, run_schedule-append before after (start clock))
        (run_schedule-IsDeadlocked after (at before)
          (run_schedule-Inv before (start clock) (start-Inv clock)) d)
