-- ===== src/Jobs.antt =====
-- aisys/thread/mini_shell_game_queue.c: the bounded queue of attacks. `double` is a parameter, and
-- so is the address that `malloc` gives.
pub mod Chain
pub mod Access
pub mod System
pub mod Safe
pub mod Drain
pub mod Finish
mod Tests
use today_i_learned.Common.{
  ℕ, ◌+◌, ◌-◌, ◌==◌, if◌then◌else◌, leb, Bool, ◌&&◌, Option, none, some, false,
}
use today_i_learned.Common.Run.{Run, ok, ◌>>=◌}
use today_i_learned.Common.Store.{Ptr, null, StoreOf, update, load}

pub record Job (D : Type 0) : Type 0 where
  pub damage : D
  pub next : Ptr

-- `head`, `tail` and `queue_len`, with the memory of the jobs.
pub record Queue (D : Type 0) : Type 0 where
  pub store : StoreOf (Job D)
  pub head : Ptr
  pub tail : Ptr
  pub queue_len : ℕ

abbrev pub max_queue_size : ℕ
max_queue_size = 8

module _ {D : Type 0} where
  -- `enqueue_job` behind its loop, `fresh` being what `malloc` gave.
  unfoldable pub append_job : (fresh : Ptr) → D → Queue D → Run (Queue D)
  append_job fresh dmg q =
      let h = update q.store fresh (some (record { damage = dmg; next = null })) in
      let first : Run (Queue D) =
        ok (record { store = h; head = fresh; tail = fresh; queue_len = q.queue_len + 1 }) in
      let behind : Run (Queue D) = (do
        last ← load h q.tail
        ok (record q {
          store = update h q.tail (some (record last { next = fresh }));
          tail = fresh;
          queue_len = q.queue_len + 1;
        })) in
      if q.tail == null then first else behind

  -- From the lock to `pthread_cond_wait` (`none`) or to the end.
  unfoldable pub enqueue_job : (fresh : Ptr) → D → Queue D → Run (Option (Queue D))
  enqueue_job fresh dmg q =
      let append : Run (Option (Queue D)) = (do q' ← append_job fresh dmg q; ok (some q')) in
      if leb max_queue_size q.queue_len then ok none else append

  -- `dequeue_job` behind its loop and its test for the end.
  unfoldable pub take_job : Queue D → Run (Ptr × Queue D)
  take_job q =
      let take : Run (Ptr × Queue D) = (do
        j ← load q.store q.head
        ok (
          q.head,
          record q {
            head = j.next;
            tail = if j.next == null then null else q.tail;
            queue_len = q.queue_len - 1;
          },
        )) in
      if q.head == null then ok (null, q) else take

  -- From the lock to `pthread_cond_wait` (`none`) or to `return`.
  unfoldable pub dequeue_job : (running : Bool) → Queue D → Run (Option (Ptr × Queue D))
  dequeue_job running q =
      let take : Run (Option (Ptr × Queue D)) = (do r ← take_job q; ok (some r)) in
      if (q.queue_len == 0) && running
      then ok none
      else if (if running then false else q.queue_len == 0)
      then ok (some (null, q))
      else take
