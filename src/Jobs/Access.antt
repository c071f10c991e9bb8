-- ===== src/Jobs/Access.antt =====
-- aisys/thread/mini_shell_game_queue.c: what the two critical sections do to the jobs of a queue.
use today_i_learned.Common.{
  ◌==◌, if◌then◌else◌, ◌-◌, ◌≡◌, ◌≢◌, [], ◌∷◌, ◌++◌, some, none, sym, ◌+◌, refl, arith,
}
use today_i_learned.Common.Store.{Ptr, null, StoreOf, update, update_self, eq-null, load-stored}
use today_i_learned.Jobs.{Job, Queue, append_job, take_job}
use today_i_learned.Common.Run.{Ends}
use today_i_learned.Jobs.Chain.{
  Jobs, cell, first, last, IsChain, Avoids, Holds, IsChain-update, free-Avoids, snoc-IsProper,
  snoc-IsChain, last-snoc, count-snoc,
}

module _ {D : Type 0} where
  -- A job goes behind the others.
  pub append_job-Holds :
      (p : Ptr) (d : D) (q : Queue D) (xs : Jobs D)
      → p ≢ null
      → q.store p ≡ none
      → Holds q xs
      → Ends (λ q'. Holds q' (xs ++ ((p, d) ∷ []))) (append_job p d q)
  unfolding append_job
  append_job-Holds p d q [] p0 e h = (
    record { store = added; head = p; tail = p; queue_len = q.queue_len + 1 },
    rw (h.tail_is) refl,
    record {
      chain = (p0, update_self q.store p (some (cell d null)), tt);
      proper = (tt, tt);
      head_is = refl;
      tail_is = refl;
      length_is = ground (arith, h.length_is);
    },
  )
    where
      added : StoreOf (Job D)
      added = update q.store p (some (cell d null))
  append_job-Holds p d q (x ∷ xs) p0 e h = (
    record q { store = longer; tail = p; queue_len = q.queue_len + 1 },
    rw
        (
          h.tail_is,
          eq-null (last (x ∷ xs)) snoc.1,
          load-stored added (last (x ∷ xs)) snoc.0 snoc.1 snoc.2,
        )
        refl,
    record {
      chain = snoc.3;
      proper = snoc-IsProper p d (x ∷ xs) avoids h.proper;
      head_is = h.head_is;
      tail_is = sym (last-snoc p d (x ∷ xs));
      length_is = ground (arith, h.length_is, count-snoc (p, d) (x ∷ xs));
    },
  )
    where
      added : StoreOf (Job D)
      added = update q.store p (some (cell d null))

      avoids : Avoids p (x ∷ xs)
      avoids = free-Avoids q.store p (x ∷ xs) e h.chain

      snoc :
          (n : Job D) × (last (x ∷ xs) ≢ null)
          × (added (last (x ∷ xs)) ≡ some n)
          × IsChain
              (update added (last (x ∷ xs)) (some (record n { next = p })))
              ((x ∷ xs) ++ ((p, d) ∷ []))
      snoc =
          snoc-IsChain added p d x xs p0 (update_self q.store p (some (cell d null))) avoids
            h.proper (IsChain-update q.store p (some (cell d null)) (x ∷ xs) avoids h.chain)

      longer : StoreOf (Job D)
      longer = update added (last (x ∷ xs)) (some (record snoc.0 { next = p }))

  -- A job leaves from the front; its memory is left for the worker to free.
  pub take_job-Holds :
      (a : Ptr) (d : D) (q : Queue D) (xs : Jobs D)
      → Holds q ((a, d) ∷ xs)
      → Ends
          (λ r.
            (r.0 ≡ a)
            × (a ≢ null)
            × (r.1.store a ≡ some (cell d (first xs)))
            × Holds (record r.1 { store = update r.1.store a none }) xs)
          (take_job q)
  unfolding take_job
  take_job-Holds a d q xs h = (
    (
      q.head,
      record q {
        head = first xs;
        tail = if first xs == null then null else q.tail;
        queue_len = q.queue_len - 1;
      },
    ),
    rw
        (
          h.head_is,
          eq-null a h.chain.0,
          load-stored q.store a (cell d (first xs)) h.chain.0 h.chain.1,
        )
        refl,
    (
      h.head_is,
      h.chain.0,
      h.chain.1,
      record {
        chain = IsChain-update q.store a none xs h.proper.0 h.chain.2;
        proper = h.proper.1;
        head_is = refl;
        tail_is = tail_left xs h.tail_is h.chain.2;
        length_is = ground (arith, h.length_is);
      },
    ),
  )
    where
      tail_left :
          (ys : Jobs D)
          → q.tail ≡ last ((a, d) ∷ ys)
          → IsChain q.store ys
          → (if first ys == null then null else q.tail) ≡ last ys
      tail_left [] e c = refl
      tail_left ((b, f) ∷ ys) e c = rw (eq-null b c.0) e
