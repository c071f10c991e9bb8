-- ===== src/Deadlock/Live/Report.antt =====
-- aisys/deadlock_hunters.c: a deadlock is reported, whatever the order of the steps.
mod Clock
use today_i_learned.Common.{
  ℕ, zero, suc, ◌+◌, ◌≤◌, ◌<◌, if◌then◌else◌, true, false, ◌≡◌, arith, inl, inr, List, ◌++◌,
}
use today_i_learned.Deadlock.System.{
  Monitor, checking, deciding, Actor, System, run_schedule, start,
}
use today_i_learned.Deadlock.Live.Wait.{
  is_watcher, is_ticker, count, is_worker, Nears-HasEdges, HasEdges,
}
use today_i_learned.Deadlock.Live.Report.Clock.{
  Timer, timer_step, is_late, Timed, run_schedule-Timed,
}
use today_i_learned.Deadlock.{Thread}
use today_i_learned.Deadlock.Sound.Stuck.{IsDeadlocked}
use today_i_learned.Deadlock.Live.Stays.{start-Lasts, Lasts, Nears, Nears-map}
use today_i_learned.Deadlock.Sound.Since.{run_schedule-append}

-- First the monitor notes the time.
abbrev unarmed : ℕ → Monitor → ℕ
unarmed (suc n) m = 0
unarmed zero checking = 1
unarmed zero (deciding _ _) = 2

abbrev Arms : ℕ → Timer → Type 0
Arms n x = unarmed x.started x.at ≤ n

Arms-stays :
    (n : ℕ) (a : Actor) (x : Timer)
    → (is_watcher a ≡ true → is_late x.at ≡ false)
    → 0 < x.time
    → Arms n x
    → Arms n (timer_step a x)
Arms-stays n a x l c h = ground arith

Arms-falls :
    (n : ℕ) (a : Actor) (x : Timer)
    → (is_watcher a ≡ true → is_late x.at ≡ false)
    → is_watcher a ≡ true
    → 0 < x.time
    → Arms (suc n) x
    → Arms n (timer_step a x)
Arms-falls n a x l e c h = ground arith

-- Then five seconds pass.
abbrev Waits : ℕ → Timer → Type 0
Waits n x = (0 < x.started) × (x.started + 5 ≤ x.time + n)

Waits-stays :
    (n : ℕ) (a : Actor) (x : Timer)
    → (is_watcher a ≡ true → is_late x.at ≡ false)
    → 0 < x.time
    → Waits n x
    → Waits n (timer_step a x)
Waits-stays n a x l c h = ground arith

Waits-falls :
    (n : ℕ) (a : Actor) (x : Timer)
    → (is_watcher a ≡ true → is_late x.at ≡ false)
    → is_ticker a ≡ true
    → 0 < x.time
    → Waits (suc n) x
    → Waits n (timer_step a x)
Waits-falls n a x l e c h = ground arith

-- Then the next check finds that they have.
abbrev due : Monitor → ℕ
due checking = 2
due (deciding n now) = if is_late (deciding n now) then 1 else 3

abbrev IsDue : ℕ → Timer → Type 0
IsDue n x = (0 < x.started) × (x.started + 5 ≤ x.time) × (due x.at ≤ n)

IsDue-stays :
    (n : ℕ) (a : Actor) (x : Timer)
    → (is_watcher a ≡ true → is_late x.at ≡ false)
    → 0 < x.time
    → IsDue n x
    → IsDue n (timer_step a x)
IsDue-stays n a x l c h = ground arith

IsDue-falls :
    (n : ℕ) (a : Actor) (x : Timer)
    → (is_watcher a ≡ true → is_late x.at ≡ false)
    → is_watcher a ≡ true
    → 0 < x.time
    → IsDue (suc n) x
    → IsDue n (timer_step a x)
IsDue-falls n a x l e c h = ground arith

-- Steps among which the threads, the monitor and the clock have some each.
abbrev pub IsRound : List Actor → Type 0
IsRound l =
    ((t : Thread) → 4 ≤ count (is_worker t) l) × (3 ≤ count is_watcher l) × (5 ≤ count is_ticker l)

due-reported : (s : System) → Nears (Timed IsDue 0) s → s.reported ≡ true
due-reported s (k, inl r) = r
due-reported s (k, inr (h, q)) = ground (arith, q)

HasEdges-Arms : (s : System) → Lasts s → HasEdges s → Timed Arms 2 s
HasEdges-Arms s k h = (h, ground arith)

Arms-Waits : (s : System) → Lasts s → Timed Arms 0 s → Timed Waits 5 s
Arms-Waits s k (h, a) = (h, ground (arith, a, k.past))

Waits-IsDue : (s : System) → Lasts s → Timed Waits 0 s → Timed IsDue 3 s
Waits-IsDue s k (h, a) = (h, ground (arith, a))

-- From any state in which the threads wait for each other, four rounds of steps, in any order
-- within each, end with a report.
module _ (r₁ r₂ r₃ r₄ : List Actor) (s : System) (k : Lasts s) (i₁ : IsRound r₁) (i₂ : IsRound r₂)
    (i₃ : IsRound r₃) (i₄ : IsRound r₄) where
  abbrev s₁ : System
  s₁ = run_schedule r₁ s

  abbrev s₂ : System
  s₂ = run_schedule r₂ s₁

  abbrev s₃ : System
  s₃ = run_schedule r₃ s₂

  armed : Nears (Timed Arms 0) s₂
  armed =
      run_schedule-Timed Arms is_watcher Arms-stays Arms-falls r₂ 2 s₁ (omega (arith, i₂.1))
        (Nears-map HasEdges-Arms (Nears-HasEdges r₁ s i₁.0 k))

  waited : Nears (Timed Waits 0) s₃
  waited =
      run_schedule-Timed Waits is_ticker Waits-stays Waits-falls r₃ 5 s₂ i₃.2
        (Nears-map Arms-Waits armed)

  rounds-reported : (run_schedule r₄ s₃).reported ≡ true
  rounds-reported = due-reported (run_schedule r₄ s₃) (
      run_schedule-Timed IsDue is_watcher IsDue-stays IsDue-falls r₄ 3 s₃ i₄.1
        (Nears-map Waits-IsDue waited))

-- A deadlock is reported: from any point of a run at which each thread waits for the other, and the
-- clock started after 0, four rounds of steps, in any order within each, end with a report.
pub rounds-report :
    (clock : ℕ) (l r₁ r₂ r₃ r₄ : List Actor)
    → 0 < clock
    → IsDeadlocked (run_schedule l (start clock))
    → IsRound r₁
    → IsRound r₂
    → IsRound r₃
    → IsRound r₄
    → (run_schedule (l ++ r₁ ++ r₂ ++ r₃ ++ r₄) (start clock)).reported ≡ true
rounds-report clock l r₁ r₂ r₃ r₄ p d i₁ i₂ i₃ i₄ =
    rw
      (
        run_schedule-append (l ++ r₁ ++ r₂ ++ r₃) r₄,
        run_schedule-append (l ++ r₁ ++ r₂) r₃,
        run_schedule-append (l ++ r₁) r₂,
        run_schedule-append l r₁,
      )
      (rounds-reported r₁ r₂ r₃ r₄ (run_schedule l (start clock)) (start-Lasts clock l p d) i₁ i₂ i₃
        i₄)
