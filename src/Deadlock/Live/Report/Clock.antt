-- ===== src/Deadlock/Live/Report/Clock.antt =====
-- aisys/deadlock_hunters.c: what `monitor_cycle` does once both edges are set.
use mathlib.Core.Path.{subst}
use today_i_learned.Common.{
  ◌⊎◌, inl, inr, ℕ, zero, suc, ◌+◌, leb, Bool, true, false, ◌≡◌, refl, arith, sym, ◌≤◌, ◌<◌, List,
}
use today_i_learned.Common.Run.{ok}
use today_i_learned.Deadlock.{one, two}
use today_i_learned.Deadlock.System.{
  System, Monitor, checking, deciding, restart, check, Actor, worker, watcher, joiner, ticker, move,
  monitor_cycle, watch, main_step, thread_step, run_schedule,
}
use today_i_learned.Deadlock.Cycle.{has_cycle, detect_cycle-has_cycle}
use today_i_learned.Deadlock.Live.Stays.{advance-clock, Lasts, Nears, step-Nears}
use today_i_learned.Deadlock.Live.Wait.{HasEdges, is_watcher, count, comes_down, move-edge}
use today_i_learned.Deadlock.Invariant.{other}

pub record Timer : Type 0 where
  pub started : ℕ
  pub at : Monitor
  pub time : ℕ

abbrev pub timer : System → Timer
timer s = record { started = s.deadlock_started; at = s.monitor; time = s.clock }

-- The monitor is about to report.
abbrev pub is_late : Monitor → Bool
is_late checking = false
is_late (deciding zero now) = false
is_late (deciding (suc n) now) = leb (suc n + 5) now

abbrev pub observe : Monitor → Timer → Timer
observe checking x = record x {
  started = restart true x.time x.started;
  at = deciding (restart true x.time x.started) x.time;
}
observe (deciding _ _) x = record x { at = checking }

abbrev pub timer_step : Actor → Timer → Timer
timer_step watcher x = observe x.at x
timer_step ticker x = record x { time = x.time + 1 }
timer_step (worker _) x = x
timer_step joiner x = x

HasEdges-has_cycle : (s : System) → HasEdges s → has_cycle s.graph ≡ true
HasEdges-has_cycle s h = ground (arith, h one, h two)

watch-timer :
    (s : System)
    → HasEdges s
    → (m : Monitor) → s.monitor ≡ m
    → ((watch m s).reported ≡ true)
      ⊎ ((is_late m ≡ false) × (timer (watch m s) ≡ observe m (timer s)))
unfolding watch
watch-timer s h checking at =
    subst
      (λ r.
        ((check r s).reported ≡ true)
        ⊎ ((false ≡ false) × (timer (check r s) ≡ observe checking (timer s))))
      (sym (detect_cycle-has_cycle 0 s.graph))
      (subst
        (λ b.
          ((check (ok b) s).reported ≡ true)
          ⊎ ((false ≡ false) × (timer (check (ok b) s) ≡ observe checking (timer s))))
        (sym (HasEdges-has_cycle s h)) (inr (refl, refl)))
watch-timer s h (deciding zero now) at = inr (refl, refl)
watch-timer s h (deciding (suc n) now) at = ground arith

-- A step that does not report moves the timer.
abbrev Moves : Actor → System → Type 0
Moves a s =
    ((is_watcher a ≡ true) → (is_late s.monitor ≡ false))
    × (timer (move a s) ≡ timer_step a (timer s))

move-timer : (a : Actor) (s : System) → HasEdges s → ((move a s).reported ≡ true) ⊎ Moves a s
unfolding thread_step monitor_cycle main_step
move-timer (worker t) s h = inr ((λ e. cc), ground (arith, advance-clock t (s.pc t) s))
move-timer watcher s h = elim (watch-timer s h s.monitor refl) [
  | inl r ↦ inl r
  | inr (l, e) ↦ inr ((λ _. l), e)
]
move-timer joiner s h = ground arith
move-timer ticker s h = ground arith

abbrev pub Timed : (ℕ → Timer → Type 0) → ℕ → System → Type 0
Timed T n s = HasEdges s × T n (timer s)

-- A measure on the timer that the steps of one kind bring down.
module _ (T : ℕ → Timer → Type 0) (hit : Actor → Bool)
    (stays : (n : ℕ) (a : Actor) (x : Timer)
      → (is_watcher a ≡ true → is_late x.at ≡ false)
      → 0 < x.time
      → T n x
      → T n (timer_step a x))
    (falls : (n : ℕ) (a : Actor) (x : Timer)
      → (is_watcher a ≡ true → is_late x.at ≡ false)
      → hit a ≡ true
      → 0 < x.time
      → T (suc n) x
      → T n (timer_step a x)) where
  moved :
      (m : ℕ) (a : Actor) (s : System)
      → Lasts s
      → HasEdges s
      → (Moves a s → T m (timer_step a (timer s)))
      → ((move a s).reported ≡ true) ⊎ Timed T m (move a s)
  moved m a s k h next = elim (move-timer a s h) [
    | inl r ↦ inl r
    | inr mv ↦ inr ((λ t. move-edge s k a t (other t) (h t)), subst (T m) (sym mv.1) (next mv))
  ]

  pub run_schedule-Timed :
      (l : List Actor) (n : ℕ) (s : System)
      → n ≤ count hit l
      → Nears (Timed T n) s
      → Nears (Timed T 0) (run_schedule l s)
  run_schedule-Timed l n s le =
      comes_down (λ n. Nears (Timed T n)) hit
        (λ n a s.
          step-Nears (Timed T n) (Timed T n) a s
            (λ k _ q. moved n a s k q.0 (λ mv. stays n a (timer s) mv.0 k.clock_set q.1)))
        (λ n a s e.
          step-Nears (Timed T (suc n)) (Timed T n) a s
            (λ k _ q. moved n a s k q.0 (λ mv. falls n a (timer s) mv.0 e k.clock_set q.1)))
        l n s le
