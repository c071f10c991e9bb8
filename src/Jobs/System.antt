-- ===== src/Jobs/System.antt =====
-- aisys/thread/mini_shell_game_queue.c: `worker_main`, the attacks of `main` and its end, as steps
-- that a schedule interleaves. What a thread does under `queue_mutex`, up to `pthread_cond_wait`, is
-- one step, together with what it then does to memory that no other thread can reach; what it does
-- under `hp_mutex` is one step. A schedule says which address `malloc` gives, which waiting worker a
-- signal wakes first, whether `pthread_mutex_timedlock` times out, and where a wait ends unasked.
use today_i_learned.Common.{
  ◌==◌, if◌then◌else◌, Bool, true, false, ◌&&◌, Option, none, some, List, [], ◌∷◌, ◌++◌,
}
use today_i_learned.Common.Run.{Run, ok, ◌>>=◌}
use today_i_learned.Common.Store.{Ptr, null, update, load}
use today_i_learned.Jobs.{Job, Queue, enqueue_job, dequeue_job}

-- What the program uses of `double`: subtraction, the tests against 0, 0 and 1000.
pub record Double (D : Type 0) : Type 0 where
  pub minus : D → D → D
  pub lt_zero : D → Bool
  pub le_zero : D → Bool
  pub gt_zero : D → Bool
  pub nothing : D
  pub full : D

pub data Worker : Type 0 where
  worker0 worker1 worker2 : Worker

abbrev pub next_worker : Worker → Worker
next_worker worker0 = worker1
next_worker worker1 = worker2
next_worker worker2 = worker0

abbrev pub set_worker {ℓ} : {A : Type ℓ} → (Worker → A) → Worker → A → Worker → A
set_worker f worker0 v worker0 = v
set_worker f worker0 v worker1 = f worker1
set_worker f worker0 v worker2 = f worker2
set_worker f worker1 v worker0 = f worker0
set_worker f worker1 v worker1 = v
set_worker f worker1 v worker2 = f worker2
set_worker f worker2 v worker0 = f worker0
set_worker f worker2 v worker1 = f worker1
set_worker f worker2 v worker2 = v

-- A worker is before the loop of `dequeue_job`, in `pthread_cond_wait`, before
-- `pthread_mutex_timedlock`, or has returned.
pub data Task (D : Type 0) : Type 0 where
  calling asleep : Task D
  striking : (damage : D) → Task D
  left_loop : Task D

-- `main` has attacks to enqueue, is in `pthread_cond_wait` with the first of them, has left its
-- loop, has set `running` to 0, waits for the workers, or has returned.
pub data Shell (D : Type 0) : Type 0 where
  adding : List D → Shell D
  waiting : D → List D → Shell D
  stopping waking joining ended : Shell D

pub record Game (D : Type 0) : Type 0 where
  pub queue : Queue D
  pub is_running : Bool
  pub hp_boss : D
  pub task : Worker → Task D
  pub shell : Shell D

module _ {D : Type 0} where
  abbrev pub is_asleep : Task D → Bool
  is_asleep asleep = true
  is_asleep t = false

  abbrev pub has_left : Task D → Bool
  has_left left_loop = true
  has_left t = false

  abbrev pub rouse : Task D → Task D
  rouse asleep = calling
  rouse t = t

  -- `pthread_cond_signal(&not_empty)`, which wakes `w` first.
  abbrev pub signal : Worker → (Worker → Task D) → Worker → Task D
  signal w task =
      if is_asleep (task w)
      then set_worker task w calling
      else if is_asleep (task (next_worker w))
      then set_worker task (next_worker w) calling
      else set_worker task (next_worker (next_worker w))
          (rouse (task (next_worker (next_worker w))))

  -- `pthread_cond_signal(&not_full)`.
  abbrev pub signal_shell : Shell D → Shell D
  signal_shell (waiting d ds) = adding (d ∷ ds)
  signal_shell s = s

  -- The critical section of `worker_main`.
  unfoldable pub hit : Double D → (hp_boss damage : D) → D
  hit f hp_boss damage =
      let hp = f.minus hp_boss damage in
      let hp' = if f.lt_zero hp then f.nothing else hp in
      if f.le_zero hp' && f.gt_zero hp_boss then f.full else hp'

  -- The job that `dequeue_job` has returned: its damage is read and its memory freed.
  unfoldable pub start_job : Worker → Game D → Ptr → Queue D → Run (Game D × List D)
  start_job w g j q =
      let start : Run (Game D × List D) = (do
        n ← load q.store j
        ok (
          record g {
            queue = record q { store = update q.store j none };
            task = set_worker g.task w (striking n.damage);
            shell = signal_shell g.shell;
          },
          n.damage ∷ [],
        )) in
      if j == null
      then ok (record g { queue = q; task = set_worker g.task w left_loop }, [])
      else start

  unfoldable pub after_dequeue : Worker → Game D → Option (Ptr × Queue D) → Run (Game D × List D)
  after_dequeue w g none = ok (record g { task = set_worker g.task w asleep }, [])
  after_dequeue w g (some (j, q)) = start_job w g j q

  -- A step of `worker_main`, with the damage of the job it takes.
  unfoldable pub worker_main :
      Double D → (timed_out : Bool) → Worker → Task D → Game D → Run (Game D × List D)
  worker_main f timed_out w calling g = do r ← dequeue_job g.is_running g.queue; after_dequeue w g r
  worker_main f timed_out w asleep g = ok (g, [])
  worker_main f timed_out w (striking damage) g = ok (
    record g {
      hp_boss = if timed_out then g.hp_boss else hit f g.hp_boss damage;
      task = set_worker g.task w calling;
    },
    [],
  )
  worker_main f timed_out w left_loop g = ok (g, [])

  abbrev pub all_left : (Worker → Task D) → Bool
  all_left task = has_left (task worker0) && (has_left (task worker1) && has_left (task worker2))

  -- `malloc` gives no null pointer and no address in use.
  abbrev pub is_free : Queue D → Ptr → Bool
  is_free q p = if p == null then false else is_none (q.store p)
    where
      is_none : Option (Job D) → Bool
      is_none none = true
      is_none (some _) = false

  unfoldable pub after_enqueue : Worker → D → List D → Game D → Option (Queue D) → Game D
  after_enqueue w d ds g none = record g { shell = waiting d ds }
  after_enqueue w d ds g (some q) = record g {
    queue = q;
    task = signal w g.task;
    shell = adding ds;
  }

  -- A step of `main`.
  unfoldable pub shell_main : (fresh : Ptr) → Worker → Shell D → Game D → Run (Game D)
  shell_main fresh w (adding []) g = ok (record g { shell = stopping })
  shell_main fresh w (adding (d ∷ ds)) g =
      let add : Run (Game D) = (do
        r ← enqueue_job fresh d g.queue
        ok (after_enqueue w d ds g r)) in
      if is_free g.queue fresh then add else ok g
  shell_main fresh w (waiting d ds) g = ok g
  shell_main fresh w stopping g = ok (record g { is_running = false; shell = waking })
  shell_main fresh w waking g = ok (record g { task = λ v. rouse (g.task v); shell = joining })
  shell_main fresh w joining g = ok (if all_left g.task then record g { shell = ended } else g)
  shell_main fresh w ended g = ok g

-- Whose step is next.
pub data Action : Type 0 where
  work_on : Worker → (timed_out : Bool) → Action
  shell_on : (fresh : Ptr) → Worker → Action
  rouse_worker : Worker → Action
  rouse_shell : Action

module _ {D : Type 0} where
  unfoldable pub act : Double D → Action → Game D → Run (Game D × List D)
  act f (work_on w timed_out) g = worker_main f timed_out w (g.task w) g
  act f (shell_on fresh w) g = do g' ← shell_main fresh w g.shell g; ok (g', [])
  act f (rouse_worker w) g = ok (record g { task = set_worker g.task w (rouse (g.task w)) }, [])
  act f rouse_shell g = ok (record g { shell = signal_shell g.shell }, [])

  -- The damages of the jobs that the workers take are given in order.
  unfoldable pub run_actions : Double D → List Action → Game D → Run (Game D × List D)
  run_actions f [] g = ok (g, [])
  run_actions f (a ∷ rest) g = do
    (g', taken) ← act f a g
    (g'', more) ← run_actions f rest g'
    ok (g'', taken ++ more)

  -- `main` after the creation of the workers, with the attacks it will be asked for.
  abbrev pub opening : Double D → List D → Game D
  opening f attacks = record {
    queue = record { store = λ p. none; head = null; tail = null; queue_len = 0 };
    is_running = true;
    hp_boss = f.full;
    task = λ w. calling;
    shell = adding attacks;
  }
