-- ===== src/Jobs/Safe/Play.antt =====
-- aisys/thread/mini_shell_game_queue.c: a game in any order of its steps: no fault, no attack lost
-- or out of turn, and no time at which every thread waits.
use mathlib.Core.List.{append_assoc}
use today_i_learned.Common.{refl, sym, arith, Bool, List, [], ◌∷◌, ◌++◌, if◌then◌else◌, ◌≡◌}
use today_i_learned.Common.Run.{Run, Ends}
use today_i_learned.Jobs.Chain.{Jobs}
use today_i_learned.Jobs.System.{
  Double, Worker, set_worker, Task, calling, striking, asleep, left_loop, rouse, signal_shell, Game,
  hit, worker_main, Action, work_on, shell_on, rouse_worker, rouse_shell, act, run_actions, opening,
}
use today_i_learned.Jobs.Safe.{Inv, IsGame}
use today_i_learned.Jobs.Safe.Steps.{
  Falls, calling-empty, calling-full, set-left, set-awake, set-asleep, rouse-awake, rouse-left,
  nothing_taken, pending-signal_shell, signal_shell-same,
}
use today_i_learned.Jobs.Safe.Prompt.{shell_main-IsGame}

module _ {D : Type 0} (f : Double D) (attacks : List D) where
  abbrev Goal : List D → Run (Game D × List D) → Type 0
  Goal taken = Ends (λ r. IsGame attacks (taken ++ r.1) r.0)

  pub calling-Falls :
      (taken : List D) (w : Worker) (t : Bool) (g : Game D)
      → g.task w ≡ calling
      → IsGame attacks taken g
      → Falls attacks taken g (worker_main f t w calling g)
  unfolding worker_main
  calling-Falls taken w t g at ([], inv) = calling-empty attacks taken w g at inv g.is_running refl
  calling-Falls taken w t g at ((a, d) ∷ xs, inv) = calling-full attacks taken w g at a d xs inv

  pub worker_main-IsGame :
      (taken : List D) (w : Worker) (t : Bool) (g : Game D) (task : Task D)
      → g.task w ≡ task
      → IsGame attacks taken g
      → Goal taken (worker_main f t w task g)
  unfolding worker_main
  worker_main-IsGame taken w t g calling at h =
      let (r, e, p) = calling-Falls taken w t g at h in (r, e, p.0)
  worker_main-IsGame taken w t g asleep at h = ((g, []), refl, nothing_taken attacks taken g h)
  worker_main-IsGame taken w t g left_loop at h = ((g, []), refl, nothing_taken attacks taken g h)
  worker_main-IsGame taken w t g (striking d) at (xs, inv) = (
    (struck, []),
    refl,
    nothing_taken attacks taken struck (
      xs,
      record {
        holds = inv.holds;
        few = inv.few;
        order = inv.order;
        running_is = inv.running_is;
        leaves = λ v h. inv.leaves v (set-left w g.task calling v refl h);
        awake = λ lt. set-awake w g.task calling refl;
        full = inv.full;
        woken = λ h. set-asleep w g.task calling refl (inv.woken h);
      },
    ),
  )
    where
      struck : Game D
      struck = record g {
        hp_boss = if t then g.hp_boss else hit f g.hp_boss d;
        task = set_worker g.task w calling;
      }

  rouse_worker-Inv :
      (taken : List D) (w : Worker) (g : Game D) (xs : Jobs D)
      → Inv attacks taken g xs
      → Inv attacks taken (record g { task = set_worker g.task w (rouse (g.task w)) }) xs
  rouse_worker-Inv taken w g xs inv = record {
    holds = inv.holds;
    few = inv.few;
    order = inv.order;
    running_is = inv.running_is;
    leaves = λ v h. inv.leaves v (rouse-left w g.task v h);
    awake = λ lt. rouse-awake w g.task (inv.awake lt);
    full = inv.full;
    woken = λ h. set-asleep w g.task (rouse (g.task w)) (ground arith) (inv.woken h);
  }

  rouse_shell-Inv :
      (taken : List D) (g : Game D) (xs : Jobs D)
      → Inv attacks taken g xs
      → Inv attacks taken (record g { shell = signal_shell g.shell }) xs
  rouse_shell-Inv taken g xs inv = record {
    holds = inv.holds;
    few = inv.few;
    order = rw (pending-signal_shell g.shell) inv.order;
    running_is = rw (signal_shell-same g.shell).0 inv.running_is;
    leaves = inv.leaves;
    awake = inv.awake;
    full = λ h. ground (arith, h, (signal_shell-same g.shell).2);
    woken = λ h. inv.woken (rw (sym (signal_shell-same g.shell).1) h);
  }

  act-IsGame :
      (taken : List D) (a : Action) (g : Game D) → IsGame attacks taken g → Goal taken (act f a g)
  unfolding act
  act-IsGame taken (work_on w t) g h = worker_main-IsGame taken w t g (g.task w) refl h
  act-IsGame taken (shell_on p w) g (xs, inv) =
      let (g', e, h) = shell_main-IsGame attacks taken g xs inv p w g.shell refl in
      ((g', []), rw e refl, nothing_taken attacks taken g' h)
  act-IsGame taken (rouse_worker w) g (xs, inv) = (
    (record g { task = set_worker g.task w (rouse (g.task w)) }, []),
    refl,
    nothing_taken attacks taken (record g { task = set_worker g.task w (rouse (g.task w)) })
        (xs, rouse_worker-Inv taken w g xs inv),
  )
  act-IsGame taken rouse_shell g (xs, inv) = (
    (record g { shell = signal_shell g.shell }, []),
    refl,
    nothing_taken attacks taken (record g { shell = signal_shell g.shell })
        (xs, rouse_shell-Inv taken g xs inv),
  )

  -- From a state with the invariant, every schedule ends without a fault, in such a state: the
  -- queue holds at most 8 jobs, and what was taken, what is in it and what is still to be added
  -- are the attacks in their order.
  pub run_actions-IsGame :
      (l : List Action) (taken : List D) (g : Game D)
      → IsGame attacks taken g
      → Ends (λ r. IsGame attacks (taken ++ r.1) r.0) (run_actions f l g)
  unfolding run_actions
  run_actions-IsGame [] taken g h = ((g, []), refl, nothing_taken attacks taken g h)
  run_actions-IsGame (a ∷ rest) taken g h =
      let ((g', t), e, h') = act-IsGame taken a g h in
      let ((g'', m), e', h'') = run_actions-IsGame rest (taken ++ t) g' h' in
      ((g'', t ++ m), rw (e, e') refl, rw (← append_assoc taken t m) h'')

  pub opening-IsGame : IsGame attacks [] (opening f attacks)
  opening-IsGame = (
    [],
    record {
      holds = record { chain = tt; proper = tt; head_is = refl; tail_is = refl; length_is = refl };
      few = omega arith;
      order = refl;
      running_is = refl;
      leaves = λ w h. cc;
      awake = λ lt. ground arith;
      full = λ h. cc;
      woken = λ h. cc;
    },
  )
