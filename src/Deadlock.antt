-- ===== src/Deadlock.antt =====
-- aisys/deadlock_hunters.c: two threads that take two mutexes in opposite orders, a graph of who
-- waits for whom, and a thread that watches it. What a thread does under `wait_for_graph.lock` is
-- one step, as is every other access to shared memory; `trylock` of a mutex succeeds where nobody
-- holds it. What is printed is left out, but for the end of the program.
pub mod System
pub mod Cycle
pub mod Invariant
pub mod Sound
pub mod Live
mod Tests
use today_i_learned.Common.{ℕ, zero, suc, if◌then◌else◌, Bool, true, false, List, [], ◌∷◌}
use today_i_learned.Common.Run.{Run, ok, out_of_fuel, ◌>>=◌}
use today_i_learned.Stack.Laws.{stack}

-- The indices 0 and 1 of the threads, in the order of the loops over `THREAD_COUNT`.
pub data Thread : Type 0 where
  one two : Thread

abbrev pub threads : List Thread
threads = one ∷ two ∷ []

-- `edge`, a row for each thread that waits.
pub record Graph : Type 0 where
  pub edge11 : Bool
  pub edge12 : Bool
  pub edge21 : Bool
  pub edge22 : Bool

abbrev pub edge : Graph → Thread → Thread → Bool
edge g one one = g.edge11
edge g one two = g.edge12
edge g two one = g.edge21
edge g two two = g.edge22

unfoldable pub clear_edges_from : Graph → Thread → Graph
clear_edges_from g one = record g { edge11 = false; edge12 = false }
clear_edges_from g two = record g { edge21 = false; edge22 = false }

unfoldable pub add_edge : Graph → (from to : Thread) → Graph
add_edge g one one = record g { edge11 = true }
add_edge g one two = record g { edge12 = true }
add_edge g two one = record g { edge21 = true }
add_edge g two two = record g { edge22 = true }

-- `f` with `v` for the thread `t`.
abbrev pub update {ℓ} : {A : Type ℓ} → (Thread → A) → Thread → A → Thread → A
update f one v one = v
update f one v two = f two
update f two v one = f one
update f two v two = v

-- The arrays `visited` and `stack`.
pub record Marks : Type 0 where
  pub visited : Thread → Bool
  pub stack : Thread → Bool

-- The `for` of `dfs_cycle`, over the threads that are left; `call` is the recursive call.
unfoldable pub dfs_loop :
    (call : Thread → Marks → Run (Bool × Marks))
    → Graph
    → (node : Thread) → List Thread
    → Marks
    → Run (Bool × Marks)
dfs_loop call g node [] m = ok (false, record m { stack = update m.stack node false })
dfs_loop call g node (next ∷ rest) m =
    let further = λ (m' : Marks). dfs_loop call g node rest m' in
    let on_stack = λ (m' : Marks). if m'.stack next then ok (true, m') else further m' in
    let visit : Run (Bool × Marks) = (do
      (found, m') ← call next m
      if found then ok (true, m') else on_stack m') in
    if edge g node next then (if m.visited next then on_stack m else visit) else further m

-- On fuel for the depth of the recursion.
unfoldable pub dfs_cycle : ℕ → Graph → Thread → Marks → Run (Bool × Marks)
dfs_cycle zero g node m = out_of_fuel
dfs_cycle (suc k) g node m =
    let call = dfs_cycle k g in
    dfs_loop call g node threads
      (record { visited = update m.visited node true; stack = update m.stack node true })

-- The `for` of `detect_cycle`.
unfoldable pub detect_loop : ℕ → Graph → List Thread → Marks → Run Bool
detect_loop k g [] m = ok false
detect_loop k g (i ∷ rest) m =
    let further = λ (m' : Marks). detect_loop k g rest m' in
    let visit : Run Bool = (do
      (found, m') ← dfs_cycle k g i m
      if found then ok true else further m') in
    if m.visited i then further m else visit

unfoldable pub detect_cycle : ℕ → Graph → Run Bool
detect_cycle k g = detect_loop k g threads (record { visited = λ t. false; stack = λ t. false })
