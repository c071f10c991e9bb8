-- ===== src/Jobs/Finish.antt =====
-- aisys/thread/mini_shell_game_queue.c: the workers leave once the program is at its end.
use today_i_learned.Common.{
  ℕ, zero, suc, ◌≤◌, ◌≡◌, refl, arith, Bool, true, false, List, [], ◌++◌, if◌then◌else◌, inl, inr,
  Bool-cases,
}
use today_i_learned.Common.Run.{Run, ok, Ends-inv, ◌>>=◌, Ends}
use today_i_learned.Jobs.System.{
  Double, Worker, worker0, worker1, worker2, Task, calling, striking, asleep, left_loop, is_asleep,
  all_left, set_worker, Game, hit, worker_main, work_on, act, Action, run_actions, opening,
}
use today_i_learned.Jobs.Safe.{is_awake, some_awake, IsGame, has_woken}
use today_i_learned.Jobs.Safe.Steps.{Falls, total, set-weigh, weigh}
use today_i_learned.Jobs.Safe.Play.{
  calling-Falls, worker_main-IsGame, run_actions-IsGame, opening-IsGame,
}

module _ {D : Type 0} (f : Double D) where
  -- `n` steps of workers, picked at each time from what the workers do; `late` says which of them
  -- time out.
  unfoldable pub run_picked :
      (pick : ℕ → (Worker → Task D) → Worker) → (late : ℕ → Bool) → ℕ → Game D → Run (Game D)
  run_picked pick late zero g = ok g
  run_picked pick late (suc n) g = do
    (g', taken) ← act f (work_on (pick n g.task) (late n)) g
    run_picked pick late n g'

  light-all_left :
      (task : Worker → Task D)
      → ((w : Worker) → is_asleep (task w) ≡ false)
      → total task ≤ 0
      → all_left task ≡ true
  light-all_left task h le = ground (arith, h worker0, h worker1, h worker2)

  idle-all_left :
      (task : Worker → Task D)
      → ((w : Worker) → is_asleep (task w) ≡ false)
      → some_awake task ≡ false
      → all_left task ≡ true
  idle-all_left task h e = ground (arith, h worker0, h worker1, h worker2)

  all_left-each :
      (task : Worker → Task D) → all_left task ≡ true → (w : Worker) → task w ≡ left_loop
  all_left-each task h w = ground arith

  module _ (attacks : List D) where
    worker_main-Falls :
        (taken : List D) (w : Worker) (t : Bool) (g : Game D) (task : Task D)
        → g.task w ≡ task
        → is_awake task ≡ true
        → IsGame attacks taken g
        → Falls attacks taken g (worker_main f t w task g)
    unfolding worker_main
    worker_main-Falls taken w t g calling at h i = calling-Falls f attacks taken w t g at i
    worker_main-Falls taken w t g (striking d) at h i =
        let (r, e, p) = worker_main-IsGame f attacks taken w t g (striking d) at i in
        (
          struck,
          refl,
          (
            Ends-inv (λ r. IsGame attacks (taken ++ r.1) r.0) (r, e, p) refl,
            ground (arith, at, set-weigh g.task w calling),
            λ k. k,
          ),
        )
      where
        struck : Game D × List D
        struck = (
          record g {
            hp_boss = if t then g.hp_boss else hit f g.hp_boss d;
            task = set_worker g.task w calling;
          },
          [],
        )
    worker_main-Falls taken w t g asleep at h i = cc
    worker_main-Falls taken w t g left_loop at h i = cc

  module _ (pick : ℕ → (Worker → Task D) → Worker) (late : ℕ → Bool) where
    run_picked-left :
        (n : ℕ) (g : Game D) → all_left g.task ≡ true → run_picked pick late n g ≡ ok g
    unfolding run_picked act worker_main
    run_picked-left zero g h = refl
    run_picked-left (suc n) g h =
        rw (all_left-each g.task h (pick n g.task)) (run_picked-left n g h)

    module _
        (picks_awake : (n : ℕ) (task : Worker → Task D)
          → some_awake task ≡ true
          → is_awake (task (pick n task)) ≡ true)
        (attacks : List D) where
      weigh-all_left :
          (n : ℕ) (taken : List D) (g : Game D)
          → IsGame attacks taken g
          → has_woken g.shell ≡ true
          → weigh g ≤ n
          → Ends (λ g'. all_left g'.task ≡ true) (run_picked pick late n g)
      unfolding run_picked act
      weigh-all_left zero taken g (xs, inv) k le =
          (g, refl, light-all_left g.task (inv.woken k) (omega arith))
      weigh-all_left (suc n) taken g (xs, inv) k le = elim (Bool-cases (some_awake g.task)) [
        | inl e ↦
            let (r, eq, (i, lt, keeps)) =
              worker_main-Falls attacks taken (pick n g.task) (late n) g (g.task (pick n g.task))
                refl (picks_awake n g.task e) (xs, inv) in
            let (g', eq', h) = weigh-all_left n (taken ++ r.1) r.0 i (keeps k) (omega arith) in
            (g', rw eq eq', h)
        | inr e ↦
            let h = idle-all_left g.task (inv.woken k) e in (g, run_picked-left (suc n) g h, h)
      ]

      weigh-le : (taken : List D) (g : Game D) → IsGame attacks taken g → weigh g ≤ 30
      weigh-le taken g (xs, inv) = ground (arith, inv.few, inv.holds.length_is)

      -- The program comes to its end: from any point of a run at which `main` has set `running` to
      -- 0 and woken the workers, thirty steps of workers that do not wait, while there are such,
      -- whichever they are and whether or not their locks time out, leave no worker in its loop.
      pub run_picked-all_left :
          (l : List Action) (g : Game D) (taken : List D)
          → run_actions f l (opening f attacks) ≡ ok (g, taken)
          → has_woken g.shell ≡ true
          → Ends (λ g'. all_left g'.task ≡ true) (run_picked pick late 30 g)
      run_picked-all_left l g taken played k =
          weigh-all_left 30 taken g reached k (weigh-le taken g reached)
        where
          reached : IsGame attacks taken g
          reached =
              Ends-inv (λ r. IsGame attacks r.1 r.0)
                (run_actions-IsGame f attacks l [] (opening f attacks) (opening-IsGame f attacks))
                played
