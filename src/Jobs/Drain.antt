-- ===== src/Jobs/Drain.antt =====
-- aisys/thread/mini_shell_game_queue.c: what the workers have taken when they have all left, and
-- that somebody can always go on.
use mathlib.Core.Path.{subst}
use mathlib.Core.List.{append-nil}
use today_i_learned.Common.{
  ◌≡◌, refl, sym, ◌∙◌, arith, Bool, true, false, List, [], ◌∷◌, ◌++◌, if◌then◌else◌,
}
use today_i_learned.Common.Run.{ok}
use today_i_learned.Common.Run.{Ends-inv}
use today_i_learned.Jobs.Chain.{Jobs, damages, count}
use today_i_learned.Jobs.System.{
  Double, Worker, worker0, worker1, worker2, Task, has_left, is_asleep, all_left, Shell, waiting,
  joining, Game, Action, run_actions, opening,
}
use today_i_learned.Jobs.Safe.{pending, runs, some_awake, Inv, IsGame}
use today_i_learned.Jobs.Safe.Play.{run_actions-IsGame, opening-IsGame}

module _ {D : Type 0} where
  -- `main` waits for room in the queue, or for a worker to end.
  abbrev pub is_blocked : Shell D → (Worker → Task D) → Bool
  is_blocked (waiting d ds) task = true
  is_blocked joining task = if all_left task then false else true
  is_blocked s task = false

  stopped-pending : (s : Shell D) → runs s ≡ false → pending s ≡ []
  stopped-pending s h = ground arith

  count-nil : (xs : Jobs D) → count xs ≡ 0 → xs ≡ []
  count-nil [] e = refl
  count-nil (x ∷ xs) e = ground arith

  awake-all :
      (task : Worker → Task D)
      → all_left task ≡ false
      → ((w : Worker) → is_asleep (task w) ≡ false)
      → some_awake task ≡ true
  awake-all task h k = ground (arith, h, k worker0, k worker1, k worker2)

  first_left : (task : Worker → Task D) → all_left task ≡ true → has_left (task worker0) ≡ true
  first_left task h = ground arith

  module _ (attacks taken : List D) (g : Game D) (xs : Jobs D) (inv : Inv attacks taken g xs) where
    left-taken : all_left g.task ≡ true → taken ≡ attacks
    left-taken h = sym (append-nil taken) ∙ subst (λ r. taken ++ r ≡ attacks) nothing_left inv.order
      where
        done : (g.is_running ≡ false) × (count xs ≡ 0)
        done = inv.leaves worker0 (first_left g.task h)

        nothing_left : damages xs ++ pending g.shell ≡ []
        nothing_left =
            rw (count-nil xs done.1, stopped-pending g.shell (sym inv.running_is ∙ done.0)) refl

    blocked-awake : is_blocked g.shell g.task ≡ true → some_awake g.task ≡ true
    blocked-awake h = by_shell g.shell refl h
      where
        by_shell :
            (s : Shell D) → g.shell ≡ s → is_blocked s g.task ≡ true → some_awake g.task ≡ true
        by_shell (waiting d ds) at h = inv.awake (ground (arith, inv.full, at))
        by_shell joining at h =
            awake-all g.task (ground (arith, h)) (inv.woken (ground (arith, at)))
        by_shell s at h = cc

  module _ (f : Double D) (attacks : List D) (l : List Action) (g : Game D) (taken : List D)
      (played : run_actions f l (opening f attacks) ≡ ok (g, taken)) where
    reached : IsGame attacks taken g
    reached =
        Ends-inv (λ r. IsGame attacks r.1 r.0)
          (run_actions-IsGame f attacks l [] (opening f attacks) (opening-IsGame f attacks)) played

    -- Once all workers have left, the jobs they took are the attacks, each once and in their
    -- order: the end of the program loses none.
    pub run_actions-taken : all_left g.task ≡ true → taken ≡ attacks
    run_actions-taken h = left-taken attacks taken g reached.0 reached.1 h

    -- No wake-up is lost: whenever `main` waits for room in the queue, or for a worker to end, some
    -- worker does not wait.
    pub run_actions-awake : is_blocked g.shell g.task ≡ true → some_awake g.task ≡ true
    run_actions-awake h = blocked-awake attacks taken g reached.0 reached.1 h
