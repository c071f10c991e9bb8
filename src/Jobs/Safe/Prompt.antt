-- ===== src/Jobs/Safe/Prompt.antt =====
-- aisys/thread/mini_shell_game_queue.c: a step of `main` keeps the invariant of the game.
use mathlib.Core.Path.{subst}
use mathlib.Core.List.{append_assoc}
use today_i_learned.Common.{
  ◌≡◌, ◌≢◌, inl, inr, refl, arith, true, false, none, List, [], ◌∷◌, Bool-cases, ◌++◌, leb, leb→le,
}
use today_i_learned.Common.Run.{Run, Ends, ok, ◌>>=◌}
use today_i_learned.Common.Store.{Ptr, null, free}
use today_i_learned.Jobs.{Queue, max_queue_size, enqueue_job}
use today_i_learned.Jobs.Chain.{Jobs, Holds, damages, count-snoc, damages-snoc}
use today_i_learned.Jobs.Access.{append_job-Holds}
use today_i_learned.Jobs.System.{
  Worker, Task, has_left, rouse, all_left, is_free, Shell, adding, waiting, stopping, waking,
  joining, ended, Game, shell_main, signal, after_enqueue,
}
use today_i_learned.Jobs.Safe.{pending, runs, some_awake, Inv, IsGame}
use today_i_learned.Jobs.Safe.Steps.{signal-awake, signal-left}

module _ {D : Type 0} where
  roused_awake :
      (task : Worker → Task D) → some_awake task ≡ true → some_awake (λ v. rouse (task v)) ≡ true
  roused_awake task h = ground (arith, h)

  is_free-gives : (q : Queue D) (p : Ptr) → is_free q p ≡ true → (p ≢ null) × (q.store p ≡ none)
  is_free-gives q p h = ground (arith, h)

  module _ (attacks taken : List D) (g : Game D) (xs : Jobs D) (inv : Inv attacks taken g xs) where
    abbrev Goal : Run (Game D) → Type 0
    Goal = Ends (IsGame attacks taken)

    -- While the game runs no worker has left.
    none_left : runs g.shell ≡ true → (v : Worker) → has_left (g.task v) ≡ false
    none_left h v = ground (arith, h, inv.running_is, inv.leaves v)

    refused :
        (d : D) (ds : List D)
        → g.shell ≡ adding (d ∷ ds)
        → leb max_queue_size g.queue.queue_len ≡ true
        → Inv attacks taken (record g { shell = waiting d ds }) xs
    refused d ds at e = record {
      holds = inv.holds;
      few = inv.few;
      order = ground (arith, inv.order, at);
      running_is = ground (arith, inv.running_is, at);
      leaves = inv.leaves;
      awake = inv.awake;
      full = λ h.
          ground (arith, inv.few, leb→le max_queue_size g.queue.queue_len e, inv.holds.length_is);
      woken = λ h. cc;
    }

    added :
        (p : Ptr) (w : Worker) (d : D) (ds : List D) (q : Queue D)
        → g.shell ≡ adding (d ∷ ds)
        → leb max_queue_size g.queue.queue_len ≡ false
        → Holds q (xs ++ ((p, d) ∷ []))
        → Inv attacks taken
            (record g { queue = q; task = signal w g.task; shell = adding ds })
            (xs ++ ((p, d) ∷ []))
    added p w d ds q at e h = record {
      holds = h;
      few = ground (arith, e, inv.few, inv.holds.length_is, count-snoc (p, d) xs);
      order =
          rw (damages-snoc p d xs, append_assoc (damages xs) (d ∷ []) ds)
            (subst (λ s. taken ++ (damages xs ++ pending s) ≡ attacks) at inv.order);
      running_is = ground (arith, inv.running_is, at);
      leaves = λ v l. ground (arith, none_left (ground (arith, at)) v, signal-left w g.task v l);
      awake = λ lt. signal-awake w g.task (none_left (ground (arith, at)));
      full = λ l. cc;
      woken = λ l. cc;
    }

    adds :
        (p : Ptr) (w : Worker) (d : D) (ds : List D)
        → g.shell ≡ adding (d ∷ ds)
        → is_free g.queue p ≡ true
        → Goal (enqueue_job p d g.queue >>= λ r. ok (after_enqueue w d ds g r))
    unfolding enqueue_job after_enqueue
    adds p w d ds at free = elim (Bool-cases (leb max_queue_size g.queue.queue_len)) [
      | inl e ↦ (record g { shell = waiting d ds }, rw e refl, (xs, refused d ds at e))
      | inr e ↦
          let (q, eq, h) =
            append_job-Holds p d g.queue xs (is_free-gives g.queue p free).0
              (is_free-gives g.queue p free).1 inv.holds in
          (
            record g { queue = q; task = signal w g.task; shell = adding ds },
            rw (e, eq) refl,
            (xs ++ ((p, d) ∷ []), added p w d ds q at e h),
          )
    ]

    pub shell_main-IsGame :
        (p : Ptr) (w : Worker) (s : Shell D) → g.shell ≡ s → Goal (shell_main p w s g)
    unfolding shell_main
    shell_main-IsGame p w (adding []) at = (
      record g { shell = stopping },
      refl,
      (
        xs,
        record {
          holds = inv.holds;
          few = inv.few;
          order = ground (arith, inv.order, at);
          running_is = ground (arith, inv.running_is, at);
          leaves = inv.leaves;
          awake = inv.awake;
          full = λ h. cc;
          woken = λ h. cc;
        },
      ),
    )
    shell_main-IsGame p w (adding (d ∷ ds)) at = elim (Bool-cases (is_free g.queue p)) [
      | inl e ↦ let (g', eq, h) = adds p w d ds at e in (g', rw e eq, h)
      | inr e ↦ (g, rw e refl, (xs, inv))
    ]
    shell_main-IsGame p w (waiting d ds) at = (g, refl, (xs, inv))
    shell_main-IsGame p w stopping at = (
      record g { is_running = false; shell = waking },
      refl,
      (
        xs,
        record {
          holds = inv.holds;
          few = inv.few;
          order = ground (arith, inv.order, at);
          running_is = refl;
          leaves = λ v h. ground (arith, none_left (ground (arith, at)) v, h);
          awake = inv.awake;
          full = λ h. cc;
          woken = λ h. cc;
        },
      ),
    )
    shell_main-IsGame p w waking at = (
      record g { task = λ v. rouse (g.task v); shell = joining },
      refl,
      (
        xs,
        record {
          holds = inv.holds;
          few = inv.few;
          order = ground (arith, inv.order, at);
          running_is = ground (arith, inv.running_is, at);
          leaves = λ v h. inv.leaves v (ground (arith, h));
          awake = λ lt. roused_awake g.task (inv.awake lt);
          full = λ h. cc;
          woken = λ h v. ground arith;
        },
      ),
    )
    shell_main-IsGame p w joining at = elim (Bool-cases (all_left g.task)) [
      | inl e ↦ (
        record g { shell = ended },
        rw e refl,
        (
          xs,
          record {
            holds = inv.holds;
            few = inv.few;
            order = ground (arith, inv.order, at);
            running_is = ground (arith, inv.running_is, at);
            leaves = inv.leaves;
            awake = inv.awake;
            full = λ h. cc;
            woken = λ h. inv.woken (ground (arith, at));
          },
        ),
      )
      | inr e ↦ (g, rw e refl, (xs, inv))
    ]
    shell_main-IsGame p w ended at = (g, refl, (xs, inv))
