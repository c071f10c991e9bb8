-- ===== src/Deadlock/Live/Hang.antt =====
-- aisys/deadlock_hunters.c: a thread that takes both mutexes keeps them.
use today_i_learned.Common.{◌≢◌, ℕ, List, [], ◌∷◌, ◌++◌, true, false, ◌≡◌, arith}
use today_i_learned.Deadlock.{Thread}
use today_i_learned.Deadlock.System.{first, System, Actor, step, run_schedule, start, finished}
use today_i_learned.Deadlock.Invariant.{other, Inv}
use today_i_learned.Deadlock.Invariant.Keep.{step-move, run_schedule-Inv, start-Inv}
use today_i_learned.Deadlock.Sound.Since.{run_schedule-append, run_schedule-reported}
use today_i_learned.Deadlock.Live.Stays.{move-finished}

run_schedule-finished :
    (l : List Actor) (s : System) (t : Thread)
    → s.pc t ≡ finished
    → (run_schedule l s).pc t ≡ finished
unfolding run_schedule
run_schedule-finished [] s t e = e
run_schedule-finished (a ∷ rest) s t e =
    run_schedule-finished rest (step a s) t
      (step-move (λ s'. s'.pc t ≡ finished) a s e (move-finished a s t e))

finished-other : (t : Thread) (s : System) → Inv s → s.pc t ≡ finished → s.pc (other t) ≢ finished
finished-other t s inv e h = ground (arith, inv.exclusive t first, e, h)

-- Once a thread has returned, with both mutexes, the other never returns and the monitor never
-- reports, in any continuation of the schedule: the program hangs.
pub run_schedule-hangs :
    (clock : ℕ) (l l' : List Actor) (t : Thread)
    → (run_schedule l (start clock)).pc t ≡ finished
    → ((run_schedule (l ++ l') (start clock)).pc (other t) ≢ finished)
      × ((run_schedule (l ++ l') (start clock)).reported ≡ false)
run_schedule-hangs clock l l' t e = (finished-other t s inv done, ground (arith, unreported))
  where
    s : System
    s = run_schedule (l ++ l') (start clock)

    inv : Inv s
    inv = run_schedule-Inv (l ++ l') (start clock) (start-Inv clock)

    done : s.pc t ≡ finished
    done =
        rw (run_schedule-append l l') (run_schedule-finished l' (run_schedule l (start clock)) t e)

    unreported : s.reported ≢ true
    unreported r = ground (arith, run_schedule-reported clock (l ++ l') r t, done)
