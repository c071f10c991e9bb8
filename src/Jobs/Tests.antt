-- ===== src/Jobs/Tests.antt =====
-- aisys/thread/mini_shell_game_queue.c: a short game, with whole numbers for `double`.
use today_i_learned.Common.{
  ℕ, ◌-◌, ◌==◌, ltb, ◌≡◌, refl, true, false, List, [], ◌∷◌, ◌++◌, ◌≢◌, none, some, arith,
  if◌then◌else◌,
}
use today_i_learned.Common.Run.{Run, ok, Ends}
use today_i_learned.Common.Store.{update, load, null}
use today_i_learned.Jobs.{append_job, enqueue_job, take_job, dequeue_job, Queue}
use today_i_learned.Jobs.System.{
  Double, worker0, worker1, worker2, all_left, Game, Action, work_on, shell_on, act, run_actions,
  worker_main, shell_main, after_enqueue, after_dequeue, start_job, hit, opening, Worker,
}
use today_i_learned.Jobs.Chain.{Holds}
use today_i_learned.Jobs.Access.{take_job-Holds}
use today_i_learned.Jobs.System.{Task}
use today_i_learned.Jobs.Finish.{run_picked, run_picked-all_left}
use today_i_learned.Jobs.Safe.{is_awake, has_woken, some_awake, IsGame}
use today_i_learned.Jobs.Drain.{is_blocked, run_actions-taken, run_actions-awake}
use today_i_learned.Jobs.Safe.Play.{run_actions-IsGame, opening-IsGame}

abbrev whole : Double ℕ
whole = record {
  minus = λ x y. x - y;
  lt_zero = λ x. false;
  le_zero = λ x. x == 0;
  gt_zero = λ x. ltb 0 x;
  nothing = 0;
  full = 1000;
}

abbrev attacks : List ℕ
attacks = 400 ∷ 700 ∷ []

abbrev both_added : List Action
both_added = shell_on 1 worker0 ∷ shell_on 2 worker0 ∷ []

-- Both attacks are added, taken by two workers, and strike; then the shell ends.
abbrev whole_game : List Action
whole_game =
    both_added
    ++ (work_on worker1 false
        ∷ work_on worker0 false
        ∷ work_on worker0 false
        ∷ work_on worker1 false
        ∷ work_on worker2 false
        ∷ [])
    ++ (shell_on 3 worker0 ∷ shell_on 3 worker0 ∷ shell_on 3 worker0 ∷ [])
    ++ (work_on worker0 false ∷ work_on worker1 false ∷ work_on worker2 false ∷ [])

abbrev after : List Action → Game ℕ
after l = game (run_actions whole l (opening whole attacks))
  where
    game : Run (Game ℕ × List ℕ) → Game ℕ
    game (ok (g, taken)) = g
    game r = opening whole attacks

abbrev taken_in : List Action → List ℕ
taken_in l = taken (run_actions whole l (opening whole attacks))
  where
    taken : Run (Game ℕ × List ℕ) → List ℕ
    taken (ok (g, ds)) = ds
    taken r = []

whole_game-taken :
    run_actions whole whole_game (opening whole attacks)
    ≡ ok (after whole_game, taken_in whole_game)
unfolding run_actions act worker_main shell_main after_enqueue after_dequeue start_job hit
    append_job enqueue_job take_job dequeue_job update load
whole_game-taken = refl

all_left-whole_game : all_left (after whole_game).task ≡ true
unfolding run_actions act worker_main shell_main after_enqueue after_dequeue start_job hit
    append_job enqueue_job take_job dequeue_job update load
all_left-whole_game = refl

-- The shell is at its end, with both attacks in the queue.
abbrev closing : List Action
closing = both_added ++ (shell_on 3 worker0 ∷ shell_on 3 worker0 ∷ shell_on 3 worker0 ∷ [])

closing-taken : run_actions whole closing (opening whole attacks) ≡ ok (after closing, [])
unfolding run_actions act worker_main shell_main after_enqueue enqueue_job append_job update load
closing-taken = refl

is_blocked-closing : is_blocked (after closing).shell (after closing).task ≡ true
unfolding run_actions act worker_main shell_main after_enqueue enqueue_job append_job update load
is_blocked-closing = refl

abbrev no_jobs : Queue ℕ
no_jobs = (opening whole attacks).queue

abbrev one_job : Queue ℕ
one_job = record {
  store = update no_jobs.store 5 (some (record { damage = 400; next = null }));
  head = 5;
  tail = 5;
  queue_len = 1;
}

one_job-Holds : Holds one_job ((5, 400) ∷ [])
unfolding update
one_job-Holds = record {
  chain = ((λ e. omega arith), refl, tt);
  proper = (tt, tt);
  head_is = refl;
  tail_is = refl;
  length_is = refl;
}

take_job-Holds_example :
    Ends
      (λ r.
        (r.0 ≡ 5)
        × (5 ≢ null)
        × (r.1.store 5 ≡ some (record { damage = 400; next = null }))
        × Holds (record r.1 { store = update r.1.store 5 none }) [])
      (take_job one_job)
take_job-Holds_example = take_job-Holds 5 400 one_job [] one_job-Holds

run_actions-IsGame_example :
    Ends (λ r. IsGame attacks r.1 r.0) (run_actions whole whole_game (opening whole attacks))
run_actions-IsGame_example =
    run_actions-IsGame whole attacks whole_game [] (opening whole attacks)
      (opening-IsGame whole attacks)

run_actions-taken_example : taken_in whole_game ≡ attacks
run_actions-taken_example =
    run_actions-taken whole attacks whole_game (after whole_game) (taken_in whole_game)
      whole_game-taken all_left-whole_game

run_actions-awake_example : some_awake (after closing).task ≡ true
run_actions-awake_example =
    run_actions-awake whole attacks closing (after closing) [] closing-taken is_blocked-closing

abbrev first_awake : ℕ → (Worker → Task ℕ) → Worker
first_awake n task =
    if is_awake (task worker0)
    then worker0
    else if is_awake (task worker1)
    then worker1
    else worker2

first_awake-picks :
    (n : ℕ) (task : Worker → Task ℕ)
    → some_awake task ≡ true
    → is_awake (task (first_awake n task)) ≡ true
first_awake-picks n task h = ground arith

has_woken-closing : has_woken (after closing).shell ≡ true
unfolding run_actions act worker_main shell_main after_enqueue enqueue_job append_job update load
has_woken-closing = refl

run_picked-all_left_example :
    Ends
      (λ g. all_left g.task ≡ true)
      (run_picked whole first_awake (λ n. false) 30 (after closing))
run_picked-all_left_example =
    run_picked-all_left whole first_awake (λ n. false) first_awake-picks attacks closing
      (after closing) [] closing-taken has_woken-closing
