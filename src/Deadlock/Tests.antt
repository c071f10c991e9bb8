-- ===== src/Deadlock/Tests.antt =====
-- aisys/deadlock_hunters.c: the threads and the monitor on concrete schedules.
use today_i_learned.Common.{
  ℕ, zero, suc, ◌+◌, List, [], ◌∷◌, ◌++◌, true, false, ◌≡◌, ◌≢◌, refl, arith, ◌≤◌,
}
use today_i_learned.Common.Run.{Ends}
use mathlib.Core.Logic.{◌↔◌}
use today_i_learned.Deadlock.{
  one, two, Graph, dfs_loop, dfs_cycle, detect_loop, detect_cycle, clear_edges_from, add_edge,
}
use today_i_learned.Deadlock.System.{
  Actor, worker, watcher, ticker, lock_mutex, advance, thread_step, watch, monitor_cycle, step,
  run_schedule, thread1_work, thread2_work, start, finished,
}
use today_i_learned.Deadlock.Cycle.{HasCycle, detect_cycle-HasCycle}
use today_i_learned.Deadlock.Invariant.{Inv}
use today_i_learned.Deadlock.Invariant.Keep.{run_schedule-Inv, start-Inv}
use today_i_learned.Deadlock.Sound.Stuck.{IsDeadlocked}
use today_i_learned.Deadlock.Sound.Since.{Since, run_schedule-Since}
use today_i_learned.Deadlock.Live.Report.{IsRound, rounds-report}
use today_i_learned.Deadlock.Live.Hang.{run_schedule-hangs}

abbrev steps : Actor → ℕ → List Actor
steps a zero = []
steps a (suc n) = a ∷ steps a n

-- Each thread takes its first mutex.
abbrev crossing : List Actor
crossing = steps (worker one) 4 ++ steps (worker two) 4

abbrev round : List Actor
round = steps (worker one) 4 ++ steps (worker two) 4 ++ steps ticker 5 ++ steps watcher 3

-- The first thread takes both mutexes.
abbrev alone : List Actor
alone = steps (worker one) 8

abbrev waiting : Graph
waiting = record { edge11 = false; edge12 = true; edge21 = true; edge22 = false }

crossing-IsDeadlocked : IsDeadlocked (run_schedule crossing (start 1))
unfolding run_schedule step thread_step advance lock_mutex thread1_work thread2_work
crossing-IsDeadlocked t = ground arith

round-IsRound : IsRound round
round-IsRound = (λ t. ground arith, omega arith, omega arith)

alone-finished : (run_schedule alone (start 1)).pc one ≡ finished
unfolding run_schedule step thread_step advance lock_mutex thread1_work thread2_work
alone-finished = refl

reported : (run_schedule (crossing ++ round ++ round ++ round ++ round) (start 1)).reported ≡ true
unfolding run_schedule step thread_step advance lock_mutex thread1_work thread2_work monitor_cycle
    watch detect_cycle detect_loop dfs_cycle dfs_loop add_edge clear_edges_from
reported = refl

detect_cycle-HasCycle_example :
    Ends (λ found. (found ≡ true) ↔ HasCycle waiting) (detect_cycle 2 waiting)
detect_cycle-HasCycle_example = detect_cycle-HasCycle 0 waiting

run_schedule-Inv_example : Inv (run_schedule crossing (start 1))
run_schedule-Inv_example = run_schedule-Inv crossing (start 1) (start-Inv 1)

run_schedule-Since_example :
    (n : ℕ) × Since 1 (crossing ++ round ++ round ++ round ++ round) n
    × (n + 5 ≤ (run_schedule (crossing ++ round ++ round ++ round ++ round) (start 1)).clock)
run_schedule-Since_example =
    run_schedule-Since 1 (crossing ++ round ++ round ++ round ++ round) reported

rounds-report_example :
    (run_schedule (crossing ++ round ++ round ++ round ++ round) (start 1)).reported ≡ true
rounds-report_example =
    rounds-report 1 crossing round round round round (omega arith) crossing-IsDeadlocked
      round-IsRound round-IsRound round-IsRound round-IsRound

run_schedule-hangs_example :
    ((run_schedule (alone ++ round) (start 1)).pc two ≢ finished)
    × ((run_schedule (alone ++ round) (start 1)).reported ≡ false)
run_schedule-hangs_example = run_schedule-hangs 1 alone round one alone-finished
