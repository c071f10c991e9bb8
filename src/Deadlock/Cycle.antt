-- ===== src/Deadlock/Cycle.antt =====
-- aisys/deadlock_hunters.c: what `detect_cycle` finds.
use today_i_learned.Common.{
  ℕ, suc, Bool, true, ◌&&◌, ◌||◌, ◌≡◌, refl, ◌↔◌, false, ◌⊎◌, inl, inr, arith,
}
use today_i_learned.Common.Run.{ok, Ends}
use today_i_learned.Deadlock.{
  Thread, Graph, edge, dfs_loop, dfs_cycle, detect_loop, detect_cycle, one, two,
}

-- A path of at least one edge.
pub data Path1 (g : Graph) : Thread → Thread → Type 0 where
  last : {t u : Thread} → edge g t u ≡ true → Path1 g t u
  via : {t u v : Thread} → edge g t u ≡ true → Path1 g u v → Path1 g t v

-- A thread that waits, through others or not, for itself.
abbrev pub HasCycle : Graph → Type 0
HasCycle g = (t : Thread) × Path1 g t t

abbrev pub has_cycle : Graph → Bool
has_cycle g = g.edge11 || (g.edge22 || (g.edge12 && g.edge21))

abbrev graph_of : Bool → Bool → Bool → Bool → Graph
graph_of a b c d = record { edge11 = a; edge12 = b; edge21 = c; edge22 = d }

table :
    (k : ℕ) (a b c d : Bool)
    → detect_cycle (suc (suc k)) (graph_of a b c d) ≡ ok (has_cycle (graph_of a b c d))
unfolding dfs_loop dfs_cycle detect_loop detect_cycle
table k false false false false = refl
table k false false false true = refl
table k false false true false = refl
table k false false true true = refl
table k false true false false = refl
table k false true false true = refl
table k false true true false = refl
table k false true true true = refl
table k true false false false = refl
table k true false false true = refl
table k true false true false = refl
table k true false true true = refl
table k true true false false = refl
table k true true false true = refl
table k true true true false = refl
table k true true true true = refl

pub detect_cycle-has_cycle : (k : ℕ) (g : Graph) → detect_cycle (suc (suc k)) g ≡ ok (has_cycle g)
detect_cycle-has_cycle k g = table k g.edge11 g.edge12 g.edge21 g.edge22

found : (a b c d : Bool) → has_cycle (graph_of a b c d) ≡ true → HasCycle (graph_of a b c d)
found true b c d h = (one, last refl)
found false b c true h = (two, last refl)
found false true true false h = (one, via {u = two} refl (last refl))
found false true false false h = cc
found false false c false h = cc

edges-has_cycle :
    (g : Graph) (t u v : Thread)
    → edge g t u ≡ true
    → (has_cycle g ≡ true) ⊎ (edge g u v ≡ true)
    → (has_cycle g ≡ true) ⊎ (edge g t v ≡ true)
edges-has_cycle g t u v e h = ground arith

loop-has_cycle : (g : Graph) (t : Thread) → edge g t t ≡ true → has_cycle g ≡ true
loop-has_cycle g t e = ground arith

-- Where there is no cycle, every path is one edge.
Path1-has_cycle :
    {g : Graph} {t u : Thread} → Path1 g t u → (has_cycle g ≡ true) ⊎ (edge g t u ≡ true)
Path1-has_cycle (last e) = inr e
Path1-has_cycle {g} {t} (via {u} {v} e p) = edges-has_cycle g t u v e (Path1-has_cycle p)

HasCycle-has_cycle : (g : Graph) → HasCycle g → has_cycle g ≡ true
HasCycle-has_cycle g (t, p) = elim (Path1-has_cycle p) [ inl h ↦ h | inr e ↦ loop-has_cycle g t e ]

has_cycle-HasCycle : (g : Graph) → (has_cycle g ≡ true) ↔ HasCycle g
has_cycle-HasCycle g = (found g.edge11 g.edge12 g.edge21 g.edge22, HasCycle-has_cycle g)

-- With fuel for both threads, `detect_cycle` ends, and it finds a cycle exactly when some thread
-- waits for itself along the edges.
pub detect_cycle-HasCycle :
    (k : ℕ) (g : Graph) → Ends (λ found. (found ≡ true) ↔ HasCycle g) (detect_cycle (suc (suc k)) g)
detect_cycle-HasCycle k g = (has_cycle g, detect_cycle-has_cycle k g, has_cycle-HasCycle g)
