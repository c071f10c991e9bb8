-- ===== src/Deadlock/Live/Wait.antt =====
-- aisys/deadlock_hunters.c: two threads that wait for each other both add their edges.
use mathlib.Core.Path.{subst}
use today_i_learned.Common.{
  ℕ, zero, suc, ◌≤◌, List, [], ◌∷◌, if◌then◌else◌, Bool, true, false, ◌≡◌, refl, arith, ◌⊎◌, sym,
  inl, inr,
}
use today_i_learned.Deadlock.{Thread, one, two, Graph, edge, add_edge}
use today_i_learned.Deadlock.System.{
  System, Actor, worker, watcher, ticker, step, run_schedule, Mutex, Phase, set_owner,
  set_owner_idx, clear_edges, try_lock, read_owner, read_owner_idx, lock_mutex, first, second, Pc,
  locking, continue, adding, work, finished, advance, thread_step, joiner, move,
}
use today_i_learned.Deadlock.Invariant.{other, indexed, level, mutex_at, IsExclusive, AddsBlocked}
use today_i_learned.Deadlock.Sound.Stuck.{is_stuck}
use today_i_learned.Deadlock.Invariant.Keep.{monitor_cycle-IsUnseen, main_step-IsUnseen}
use today_i_learned.Deadlock.Live.Stays.{Nears-map, Lasts, Nears, step-Nears}

abbrev pub count : (Actor → Bool) → List Actor → ℕ
count f [] = 0
count f (a ∷ rest) = if f a then suc (count f rest) else count f rest

abbrev pub is_worker : Thread → Actor → Bool
is_worker one (worker one) = true
is_worker two (worker two) = true
is_worker t a = false

abbrev pub is_watcher : Actor → Bool
is_watcher watcher = true
is_watcher a = false

abbrev pub is_ticker : Actor → Bool
is_ticker ticker = true
is_ticker a = false

-- A measure that a step of one kind brings down, and no other step brings up.
module _ (P : ℕ → System → Type 0) (hit : Actor → Bool)
    (stays : (n : ℕ) (a : Actor) (s : System) → P n s → P n (step a s))
    (falls : (n : ℕ) (a : Actor) (s : System) → hit a ≡ true → P (suc n) s → P n (step a s)) where
  by_hit :
      (a : Actor) (c : ℕ) (b : Bool)
      → hit a ≡ b
      → (n : ℕ) (s : System) → n ≤ (if b then suc c else c)
      → P n s
      → (m : ℕ) × (m ≤ c) × P m (step a s)
  by_hit a c true e zero s le p = (zero, omega arith, stays zero a s p)
  by_hit a c true e (suc n) s le p = (n, omega arith, falls n a s e p)
  by_hit a c false e n s le p = (n, le, stays n a s p)

  pub comes_down :
      (l : List Actor) (n : ℕ) (s : System) → n ≤ count hit l → P n s → P 0 (run_schedule l s)
  unfolding run_schedule
  comes_down [] zero s le p = p
  comes_down [] (suc n) s le p = ground arith
  comes_down (a ∷ rest) n s le p =
      let (m, le', p') = by_hit a (count hit rest) (hit a) refl n s le p in
      comes_down rest m (step a s) le' p'

-- The steps of a stuck thread until it adds its edge.
abbrev remaining : Pc → ℕ
remaining (locking st try_lock) = 4
remaining (locking st read_owner) = 3
remaining (locking st read_owner_idx) = 2
remaining p = 1

abbrev Reaches : Thread → ℕ → System → Type 0
Reaches t n s = (edge s.graph t (other t) ≡ true) ⊎ (remaining (s.pc t) ≤ n)

lock_mutex-edge :
    (t u v : Thread) (ph : Phase) (m : Mutex) (g : Graph)
    → is_stuck (locking second ph) ≡ true
    → edge g u v ≡ true
    → edge (lock_mutex t ph m g).graph u v ≡ true
unfolding lock_mutex add_edge
lock_mutex-edge t u v ph m g h e = ground arith

lock_mutex-remaining :
    (t : Thread) (ph : Phase) (g : Graph) (n : ℕ) (q : Pc)
    → is_stuck (locking second ph) ≡ true
    → AddsBlocked t (locking second ph) q
    → remaining (locking second ph) ≤ suc n
    → (edge (lock_mutex t ph (mutex_at (other t) indexed) g).graph t (other t) ≡ true)
      ⊎ (remaining (continue second (lock_mutex t ph (mutex_at (other t) indexed) g).next) ≤ n)
unfolding lock_mutex add_edge
lock_mutex-remaining t try_lock g n q h b le = ground arith
lock_mutex-remaining t read_owner g n q h b le = ground arith
lock_mutex-remaining t read_owner_idx g n q h b le = ground arith
lock_mutex-remaining t (adding to) g n q h b le = ground arith
lock_mutex-remaining t set_owner g n q h b le = ground arith
lock_mutex-remaining t set_owner_idx g n q h b le = ground arith
lock_mutex-remaining t clear_edges g n q h b le = ground arith

stuck-mutex :
    (t : Thread) (m : Mutex) (p q : Pc)
    → is_stuck p ≡ true
    → is_stuck q ≡ true
    → IsExclusive t m (level second p) (level first q)
    → m ≡ mutex_at (other t) indexed
stuck-mutex t m p q h k x = ground arith

module _ (s : System) (k : Lasts s) where
  advance-edge :
      (t : Thread) (p : Pc)
      → s.pc t ≡ p
      → (u v : Thread) → edge s.graph u v ≡ true
      → edge (advance t p s).graph u v ≡ true
  unfolding advance
  advance-edge t finished at u v e = e
  advance-edge t (locking first ph) at u v e = ground (arith, k.stuck t, at)
  advance-edge t (locking second ph) at u v e =
      lock_mutex-edge t u v ph (s.mutex (work t second)) s.graph (ground (arith, k.stuck t, at)) e

  pub move-edge :
      (a : Actor) (u v : Thread) → edge s.graph u v ≡ true → edge (move a s).graph u v ≡ true
  unfolding thread_step
  move-edge (worker t) u v e = advance-edge t (s.pc t) refl u v e
  move-edge watcher u v e = rw (monitor_cycle-IsUnseen s).1 e
  move-edge joiner u v e = rw (main_step-IsUnseen s).1 e
  move-edge ticker u v e = e

  advance-remaining :
      (t : Thread) (p : Pc) (n : ℕ) → s.pc t ≡ p → remaining p ≤ suc n → Reaches t n (advance t p s)
  unfolding advance
  advance-remaining t finished n at le = ground (arith, k.stuck t, at)
  advance-remaining t (locking first ph) n at le = ground (arith, k.stuck t, at)
  advance-remaining t (locking second ph) n at le = ground (
    arith,
    subst
        (λ m.
          (edge (lock_mutex t ph m s.graph).graph t (other t) ≡ true)
          ⊎ (remaining (continue second (lock_mutex t ph m s.graph).next) ≤ n))
        (sym mutex) falls,
  )
    where
      mutex : s.mutex (work t second) ≡ mutex_at (other t) indexed
      mutex =
          stuck-mutex t (s.mutex (work t second)) (s.pc t) (s.pc (other t)) (k.stuck t)
            (k.stuck (other t)) (k.inv.exclusive t second)

      falls :
          (edge (lock_mutex t ph (mutex_at (other t) indexed) s.graph).graph t (other t) ≡ true)
          ⊎ (remaining (continue second (lock_mutex t ph (mutex_at (other t) indexed) s.graph).next)
              ≤ n)
      falls =
          lock_mutex-remaining t ph s.graph n (s.pc (other t)) (ground (arith, k.stuck t, at))
            (ground (arith, k.inv.adds t, at)) le

  advance-pc_other : (t : Thread) (p : Pc) → (advance t p s).pc (other t) ≡ s.pc (other t)
  unfolding advance
  advance-pc_other t finished = refl
  advance-pc_other t (locking st ph) = ground arith

  advance-Reaches :
      (t : Thread) (p : Pc) (n : ℕ) → s.pc t ≡ p → Reaches t (suc n) s → Reaches t n (advance t p s)
  advance-Reaches t p n at (inl e) = inl (advance-edge t p at t (other t) e)
  advance-Reaches t p n at (inr le) = advance-remaining t p n at (ground (arith, le, at))

  move-falls :
      (a : Actor) (t : Thread) (n : ℕ)
      → is_worker t a ≡ true
      → Reaches t (suc n) s
      → Reaches t n (move a s)
  unfolding thread_step
  move-falls (worker one) one n h r = advance-Reaches one (s.pc one) n refl r
  move-falls (worker two) two n h r = advance-Reaches two (s.pc two) n refl r
  move-falls a t n h r = ground (arith, h)

  weaken : (t : Thread) (n : ℕ) (s' : System) → Reaches t n s' → Reaches t (suc n) s'
  weaken t n s' r = ground (arith, r)

  advance-stays : (t : Thread) (n : ℕ) → Reaches t n s → Reaches t n (advance t (s.pc t) s)
  advance-stays t zero r = advance-Reaches t (s.pc t) zero refl (weaken t zero s r)
  advance-stays t (suc n) r =
      weaken t n (advance t (s.pc t) s) (advance-Reaches t (s.pc t) n refl r)

  move-Reaches : (a : Actor) (t : Thread) (n : ℕ) → Reaches t n s → Reaches t n (move a s)
  unfolding thread_step
  move-Reaches a t n (inl e) = inl (move-edge a t (other t) e)
  move-Reaches (worker one) one n (inr le) = advance-stays one n (inr le)
  move-Reaches (worker two) two n (inr le) = advance-stays two n (inr le)
  move-Reaches (worker one) two n (inr le) = inr (rw (advance-pc_other one (s.pc one)) le)
  move-Reaches (worker two) one n (inr le) = inr (rw (advance-pc_other two (s.pc two)) le)
  move-Reaches watcher t n (inr le) = inr (rw (monitor_cycle-IsUnseen s).2 le)
  move-Reaches joiner t n (inr le) = inr (rw (main_step-IsUnseen s).2 le)
  move-Reaches ticker t n (inr le) = inr le

Reaches-edge : (t : Thread) (s : System) → Reaches t 0 s → edge s.graph t (other t) ≡ true
Reaches-edge t s r = ground (arith, r)

abbrev pub HasEdges : System → Type 0
HasEdges s = (t : Thread) → edge s.graph t (other t) ≡ true

Nears-edge :
    (t : Thread) (l : List Actor) (s : System)
    → 4 ≤ count (is_worker t) l
    → Lasts s
    → Nears (λ s'. edge s'.graph t (other t) ≡ true) (run_schedule l s)
Nears-edge t l s le k =
    Nears-map (λ s _ r. Reaches-edge t s r)
      (comes_down (λ n. Nears (Reaches t n)) (is_worker t) stays falls l 4 s le
        (k, inr (ground arith)))
  where
    stays :
        (n : ℕ) (a : Actor) (s : System) → Nears (Reaches t n) s → Nears (Reaches t n) (step a s)
    stays n a s =
        step-Nears (Reaches t n) (Reaches t n) a s (λ k _ r. inr (move-Reaches s k a t n r))

    falls :
        (n : ℕ) (a : Actor) (s : System)
        → is_worker t a ≡ true
        → Nears (Reaches t (suc n)) s
        → Nears (Reaches t n) (step a s)
    falls n a s h =
        step-Nears (Reaches t (suc n)) (Reaches t n) a s (λ k _ r. inr (move-falls s k a t n h r))

-- Four steps of each thread set both edges.
pub Nears-HasEdges :
    (l : List Actor) (s : System)
    → ((t : Thread) → 4 ≤ count (is_worker t) l)
    → Lasts s
    → Nears HasEdges (run_schedule l s)
Nears-HasEdges l s le k = both (Nears-edge one l s (le one) k) (Nears-edge two l s (le two) k)
  where
    both :
        {s' : System}
        → Nears (λ s''. edge s''.graph one two ≡ true) s'
        → Nears (λ s''. edge s''.graph two one ≡ true) s'
        → Nears HasEdges s'
    both (k, inl r) _ = (k, inl r)
    both (k, inr e) (_, inl r) = (k, inl r)
    both (k, inr e) (_, inr e') = (k, inr (λ t. ground (arith, e, e')))
