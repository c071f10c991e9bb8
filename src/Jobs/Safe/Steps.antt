-- ===== src/Jobs/Safe/Steps.antt =====
-- aisys/thread/mini_shell_game_queue.c: every step keeps the invariant of the game, without a fault.
use today_i_learned.Common.{
  ◌+◌, ◌*◌, ◌<◌, ◌≡◌, arith, true, false, ◌∙◌, Bool, List, [], ◌∷◌, ◌++◌, refl, sym, ◌≢◌, none,
  some, ℕ, suc, ◌==◌,
}
use today_i_learned.Jobs.System.{
  Worker, set_worker, worker0, worker1, worker2, Task, is_asleep, has_left, rouse, signal, Shell,
  Game, signal_shell, start_job, after_dequeue, asleep, striking, left_loop, calling,
}
use today_i_learned.Jobs.Safe.{
  is_awake, some_awake, Inv, pending, runs, has_woken, is_waiting, IsGame,
}
use today_i_learned.Common.Store.{Ptr, null, update, load-stored, eq-null}
use today_i_learned.Jobs.{dequeue_job, Queue, take_job}
use today_i_learned.Jobs.Chain.{Jobs, cell, first, damages, count}
use today_i_learned.Jobs.Access.{take_job-Holds}
use today_i_learned.Common.Run.{Run, ◌>>=◌, Ends, ok}
use mathlib.Core.List.{append_assoc, append-nil}

module _ {D : Type 0} where
  -- How many steps a task has before it at most, where there is a job for no other.
  abbrev pub weight : Task D → ℕ
  weight calling = 1
  weight (striking d) = 2
  weight t = 0

  abbrev pub total : (Worker → Task D) → ℕ
  total task = weight (task worker0) + (weight (task worker1) + weight (task worker2))

  abbrev pub weigh : Game D → ℕ
  weigh g = 3 * g.queue.queue_len + total g.task

  pub signal-awake :
      (w : Worker) (task : Worker → Task D)
      → ((v : Worker) → has_left (task v) ≡ false)
      → some_awake (signal w task) ≡ true
  signal-awake w task h = ground (arith, h worker0, h worker1, h worker2)

  pub signal-left :
      (w : Worker) (task : Worker → Task D) (v : Worker)
      → has_left (signal w task v) ≡ true
      → has_left (task v) ≡ true
  signal-left w task v h = ground (arith, h)

  pub set-left :
      (w : Worker) (task : Worker → Task D) (t : Task D) (v : Worker)
      → has_left t ≡ false
      → has_left (set_worker task w t v) ≡ true
      → has_left (task v) ≡ true
  set-left w task t v n h = ground (arith, n, h)

  pub set-awake :
      (w : Worker) (task : Worker → Task D) (t : Task D)
      → is_awake t ≡ true
      → some_awake (set_worker task w t) ≡ true
  set-awake w task t h = ground (arith, h)

  pub set-asleep :
      (w : Worker) (task : Worker → Task D) (t : Task D)
      → is_asleep t ≡ false
      → ((v : Worker) → is_asleep (task v) ≡ false)
      → (v : Worker) → is_asleep (set_worker task w t v) ≡ false
  set-asleep w task t n h v = ground (arith, n, h v)

  pub rouse-awake :
      (w : Worker) (task : Worker → Task D)
      → some_awake task ≡ true
      → some_awake (set_worker task w (rouse (task w))) ≡ true
  rouse-awake w task h = ground (arith, h)

  pub rouse-left :
      (w : Worker) (task : Worker → Task D) (v : Worker)
      → has_left (set_worker task w (rouse (task w)) v) ≡ true
      → has_left (task v) ≡ true
  rouse-left w task v h = ground (arith, h)

  pub pending-signal_shell : (s : Shell D) → pending (signal_shell s) ≡ pending s
  pending-signal_shell s = ground arith

  pub signal_shell-same :
      (s : Shell D)
      → (runs (signal_shell s) ≡ runs s)
        × (has_woken (signal_shell s) ≡ has_woken s)
        × (is_waiting (signal_shell s) ≡ false)
  signal_shell-same s = ground arith

  woken-stopped : (s : Shell D) → has_woken s ≡ true → runs s ≡ false
  woken-stopped s h = ground arith

  after-take :
      (attacks taken : List D) (d : D) (rest : List D)
      → taken ++ (d ∷ rest) ≡ attacks
      → (taken ++ (d ∷ [])) ++ rest ≡ attacks
  after-take attacks taken d rest e = append_assoc taken (d ∷ []) rest ∙ e

  -- The game goes on, and its end is nearer.
  abbrev pub Falls : (attacks taken : List D) → Game D → Run (Game D × List D) → Type 0
  Falls attacks taken g = Ends (λ r.
      IsGame attacks (taken ++ r.1) r.0
      × (weigh r.0 < weigh g)
      × (has_woken g.shell ≡ true → has_woken r.0.shell ≡ true))

  pub set-weigh :
      (task : Worker → Task D) (w : Worker) (t : Task D)
      → total (set_worker task w t) + weight (task w) ≡ total task + weight t
  set-weigh task w t = ground arith

  pub nothing_taken :
      (attacks taken : List D) (g : Game D)
      → IsGame attacks taken g
      → IsGame attacks (taken ++ []) g
  nothing_taken attacks taken g h = rw (append-nil taken) h

  suc-busy : (q : Queue D) (n : ℕ) → q.queue_len ≡ suc n → (q.queue_len == 0) ≡ false
  suc-busy q n l = ground (arith, l)

  dequeue_job-taken :
      (b : Bool) (q : Queue D) (r : Ptr × Queue D) (n : ℕ)
      → q.queue_len ≡ suc n
      → take_job q ≡ ok r
      → dequeue_job b q ≡ ok (some r)
  unfolding dequeue_job
  dequeue_job-taken true q r n l e = rw (suc-busy q n l, e) refl
  dequeue_job-taken false q r n l e = rw (suc-busy q n l, e) refl

  module _ (attacks taken : List D) (w : Worker) (g : Game D) (at : g.task w ≡ calling) where
    pub calling-empty :
        Inv attacks taken g []
        → (b : Bool) → g.is_running ≡ b
        → Falls attacks taken g (dequeue_job b g.queue >>= after_dequeue w g)
    unfolding dequeue_job after_dequeue start_job
    calling-empty inv true e = (
      (record g { task = set_worker g.task w asleep }, []),
      rw inv.holds.length_is refl,
      (
        nothing_taken attacks taken (record g { task = set_worker g.task w asleep })
            (
              [],
              record {
                holds = inv.holds;
                few = inv.few;
                order = inv.order;
                running_is = inv.running_is;
                leaves = λ v h. inv.leaves v (set-left w g.task asleep v refl h);
                awake = λ lt. ground arith;
                full = inv.full;
                woken = λ h v. ground (arith, woken-stopped g.shell h, inv.running_is, e);
              },
            ),
        ground (arith, at, set-weigh g.task w asleep),
        λ h. h,
      ),
    )
    calling-empty inv false e = (
      (record g { task = set_worker g.task w left_loop }, []),
      rw inv.holds.length_is refl,
      (
        nothing_taken attacks taken (record g { task = set_worker g.task w left_loop })
            (
              [],
              record {
                holds = inv.holds;
                few = inv.few;
                order = inv.order;
                running_is = inv.running_is;
                leaves = λ v h. (e, refl);
                awake = λ lt. ground arith;
                full = inv.full;
                woken = λ h v. set-asleep w g.task left_loop refl (inv.woken h) v;
              },
            ),
        ground (arith, at, set-weigh g.task w left_loop),
        λ h. h,
      ),
    )

    start_job-taken :
        (a : Ptr) (d : D) (xs : Jobs D) (q : Queue D)
        → a ≢ null
        → q.store a ≡ some (cell d (first xs))
        → start_job w g a q
          ≡ ok (
            record g {
              queue = record q { store = update q.store a none };
              task = set_worker g.task w (striking d);
              shell = signal_shell g.shell;
            },
            d ∷ [],
          )
    unfolding start_job
    start_job-taken a d xs q a0 e =
        rw (eq-null a a0, load-stored q.store a (cell d (first xs)) a0 e) refl

    pub calling-full :
        (a : Ptr) (d : D) (xs : Jobs D)
        → Inv attacks taken g ((a, d) ∷ xs)
        → Falls attacks taken g (dequeue_job g.is_running g.queue >>= after_dequeue w g)
    unfolding after_dequeue
    calling-full a d xs inv =
        let ((j, q), e, (ja, a0, stored, holds)) = take_job-Holds a d g.queue xs inv.holds in
        (
          (
            record g {
              queue = record q { store = update q.store a none };
              task = set_worker g.task w (striking d);
              shell = signal_shell g.shell;
            },
            d ∷ [],
          ),
          rw (dequeue_job-taken g.is_running g.queue (j, q) (count xs) inv.holds.length_is e, ja)
              (start_job-taken a d xs q a0 stored),
          (
            (
              xs,
              record {
                holds = holds;
                few = ground (arith, inv.few);
                order =
                    rw (pending-signal_shell g.shell)
                      (after-take attacks taken d (damages xs ++ pending g.shell) inv.order);
                running_is = rw (signal_shell-same g.shell).0 inv.running_is;
                leaves =
                    λ v h. ground (arith, inv.leaves v (set-left w g.task (striking d) v refl h));
                awake = λ lt. set-awake w g.task (striking d) refl;
                full = λ h. ground (arith, h, (signal_shell-same g.shell).2);
                woken = λ h.
                    set-asleep w g.task (striking d) refl
                      (inv.woken (rw (sym (signal_shell-same g.shell).1) h));
              },
            ),
            ground
                (arith, at, set-weigh g.task w (striking d), holds.length_is, inv.holds.length_is),
            λ h. rw (signal_shell-same g.shell).1 h,
          ),
        )
