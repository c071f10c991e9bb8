-- ===== src/Deadlock/System.antt =====
-- aisys/deadlock_hunters.c: `lock_mutex`, the two threads that call it, `monitor_cycle` and `main`,
-- as steps that a schedule interleaves.
use today_i_learned.Common.{
  ℕ, zero, suc, ◌+◌, if◌then◌else◌, Bool, true, false, Option, none, some, leb, zero, ◌||◌, List,
  [], ◌∷◌,
}
use today_i_learned.Common.Run.{Run, ok}
use today_i_learned.Deadlock.{
  Thread, one, two, Graph, clear_edges_from, add_edge, update, detect_cycle,
}
use today_i_learned.Deadlock.Cycle.{has_cycle}

-- `locked` is the state of the `pthread_mutex_t`. A label stands for its thread, `NULL` and -1 are
-- `none`.
pub record Mutex : Type 0 where
  pub locked : Bool
  pub owner : Option Thread
  pub owner_idx : Option Thread

-- Where a thread stands in `lock_mutex`, by the access to shared memory it makes next. The test of
-- `owner_idx` and its use as an argument are one access.
pub data Phase : Type 0 where
  try_lock set_owner set_owner_idx clear_edges read_owner read_owner_idx : Phase
  adding : (to : Thread) → Phase

-- The phase after a step, `none` after `return`, with the memory it leaves.
pub record Locking : Type 0 where
  pub next : Option Phase
  pub res : Mutex
  pub graph : Graph

unfoldable pub lock_mutex : (idx : Thread) → Phase → Mutex → Graph → Locking
lock_mutex idx try_lock res g =
    if res.locked
    then record { next = some read_owner; res = res; graph = g }
    else record { next = some set_owner; res = record res { locked = true }; graph = g }
lock_mutex idx set_owner res g = record {
  next = some set_owner_idx;
  res = record res { owner = some idx };
  graph = g;
}
lock_mutex idx set_owner_idx res g = record {
  next = some clear_edges;
  res = record res { owner_idx = some idx };
  graph = g;
}
lock_mutex idx clear_edges res g = record { next = none; res = res; graph = clear_edges_from g idx }
lock_mutex idx read_owner res g = record {
  next = some (after_owner res.owner);
  res = res;
  graph = g;
}
  where
    after_owner : Option Thread → Phase
    after_owner none = try_lock
    after_owner (some _) = read_owner_idx
lock_mutex idx read_owner_idx res g = record {
  next = some (after_owner_idx res.owner_idx);
  res = res;
  graph = g;
}
  where
    after_owner_idx : Option Thread → Phase
    after_owner_idx none = try_lock
    after_owner_idx (some to) = adding to
lock_mutex idx (adding to) res g = record {
  next = some try_lock;
  res = res;
  graph = add_edge g idx to;
}

-- The two calls of `lock_mutex` of a thread.
pub data Stage : Type 0 where
  first second : Stage

pub data Resource : Type 0 where
  mutex_a mutex_b : Resource

unfoldable pub thread1_work : Stage → Resource
thread1_work first = mutex_a
thread1_work second = mutex_b

unfoldable pub thread2_work : Stage → Resource
thread2_work first = mutex_b
thread2_work second = mutex_a

abbrev pub work : Thread → Stage → Resource
work one s = thread1_work s
work two s = thread2_work s

pub data Pc : Type 0 where
  locking : Stage → Phase → Pc
  finished : Pc

abbrev pub continue : Stage → Option Phase → Pc
continue s (some ph) = locking s ph
continue first none = locking second try_lock
continue second none = finished

-- `monitor_cycle`: before the critical section, and after it, with the locals it has set.
pub data Monitor : Type 0 where
  checking : Monitor
  deciding : (started now : ℕ) → Monitor

-- `main` waits for the threads in order, then cancels the monitor.
pub data Main : Type 0 where
  joining : Thread → Main
  returned : Main

-- `clock` is what `time` returns, `exited` the status once `exit` is called.
pub record System : Type 0 where
  pub mutex : Resource → Mutex
  pub graph : Graph
  pub deadlock_started : ℕ
  pub pc : Thread → Pc
  pub monitor : Monitor
  pub main : Main
  pub clock : ℕ
  pub reported : Bool

abbrev pub with_mutex : (Resource → Mutex) → Resource → Mutex → Resource → Mutex
with_mutex f mutex_a m mutex_a = m
with_mutex f mutex_a m mutex_b = f mutex_b
with_mutex f mutex_b m mutex_a = f mutex_a
with_mutex f mutex_b m mutex_b = m

-- A step of a thread at the given point of it.
unfoldable pub advance : Thread → Pc → System → System
advance t finished s = s
advance t (locking stage ph) s =
    let r = work t stage in
    let l = lock_mutex t ph (s.mutex r) s.graph in
    record s {
      mutex = with_mutex s.mutex r l.res;
      graph = l.graph;
      pc = update s.pc t (continue stage l.next);
    }

unfoldable pub thread_step : Thread → System → System
thread_step t s = advance t (s.pc t) s

-- `deadlock_started` after a check at the time `now`.
abbrev pub restart : (has_cycle : Bool) (now started : ℕ) → ℕ
restart true now zero = now
restart true now (suc n) = suc n
restart false now started = 0

abbrev pub check : Run Bool → System → System
check (ok has_cycle) s =
    let started = restart has_cycle s.clock s.deadlock_started in
    record s { deadlock_started = started; monitor = deciding started s.clock }
check _ s = s

-- A step of the monitor at the given point of it. The depth of the recursion of `dfs_cycle` is at
-- most the number of threads.
unfoldable pub watch : Monitor → System → System
watch checking s = check (detect_cycle 2 s.graph) s
watch (deciding zero now) s = record s { monitor = checking }
watch (deciding (suc n) now) s =
    if leb (suc n + 5) now then record s { reported = true } else record s { monitor = checking }

unfoldable pub monitor_cycle : System → System
monitor_cycle s = watch s.monitor s

-- The two `pthread_join`, and `pthread_cancel` with the return.
unfoldable pub main_step : System → System
main_step s = join s.main
  where
    after : Thread → Main
    after one = joining two
    after two = returned

    wait : Thread → Pc → System
    wait t finished = record s { main = after t }
    wait t (locking stage ph) = s

    join : Main → System
    join (joining t) = wait t (s.pc t)
    join returned = s

-- Whose step is next. The clock may tick at any time.
pub data Actor : Type 0 where
  worker : Thread → Actor
  watcher joiner ticker : Actor

abbrev pub move : Actor → System → System
move (worker t) s = thread_step t s
move watcher s = monitor_cycle s
move joiner s = main_step s
move ticker s = record s { clock = s.clock + 1 }

-- After `exit`, and after the return of `main`, nothing moves.
abbrev pub is_returned : Main → Bool
is_returned (joining _) = false
is_returned returned = true

unfoldable pub step : Actor → System → System
step a s = if s.reported || is_returned s.main then s else move a s

unfoldable pub run_schedule : List Actor → System → System
run_schedule [] s = s
run_schedule (a ∷ rest) s = run_schedule rest (step a s)

abbrev pub free_mutex : Mutex
free_mutex = record { locked = false; owner = none; owner_idx = none }

abbrev pub no_edges : Graph
no_edges = record { edge11 = false; edge12 = false; edge21 = false; edge22 = false }

-- The initial values of the globals, with the threads just created.
abbrev pub start : (clock : ℕ) → System
start clock = record {
  mutex = λ r. free_mutex;
  graph = no_edges;
  deadlock_started = 0;
  pc = λ t. locking first try_lock;
  monitor = checking;
  main = joining one;
  clock = clock;
  reported = false;
}
