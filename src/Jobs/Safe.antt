-- ===== src/Jobs/Safe.antt =====
-- aisys/thread/mini_shell_game_queue.c: what holds in every state of the game.
pub mod Steps
pub mod Prompt
pub mod Play
use today_i_learned.Common.{◌≤◌, ◌<◌, ◌≡◌, Bool, true, false, ◌||◌, List, [], ◌∷◌, ◌++◌}
use today_i_learned.Jobs.{max_queue_size}
use today_i_learned.Jobs.Chain.{Jobs, Holds, damages, count}
use today_i_learned.Jobs.System.{
  Worker, worker0, worker1, worker2, Task, calling, striking, is_asleep, has_left, Shell, adding,
  waiting, waking, joining, ended, Game,
}

module _ {D : Type 0} where
  abbrev pub pending : Shell D → List D
  pending (adding ds) = ds
  pending (waiting d ds) = d ∷ ds
  pending s = []

  abbrev pub runs : Shell D → Bool
  runs waking = false
  runs joining = false
  runs ended = false
  runs s = true

  abbrev pub has_woken : Shell D → Bool
  has_woken joining = true
  has_woken ended = true
  has_woken s = false

  abbrev pub is_waiting : Shell D → Bool
  is_waiting (waiting d ds) = true
  is_waiting s = false

  abbrev pub is_awake : Task D → Bool
  is_awake calling = true
  is_awake (striking d) = true
  is_awake t = false

  abbrev pub some_awake : (Worker → Task D) → Bool
  some_awake task = is_awake (task worker0) || (is_awake (task worker1) || is_awake (task worker2))

  -- The jobs `xs` are in the queue, and `taken` are the damages of those that the workers took.
  pub record Inv (attacks taken : List D) (g : Game D) (xs : Jobs D) : Type 0 where
    pub holds : Holds g.queue xs
    pub few : count xs ≤ max_queue_size
    pub order : taken ++ (damages xs ++ pending g.shell) ≡ attacks
    pub running_is : g.is_running ≡ runs g.shell
    pub leaves : (w : Worker) → has_left (g.task w) ≡ true → (g.is_running ≡ false) × (count xs ≡ 0)
    pub awake : 0 < count xs → some_awake g.task ≡ true
    pub full : is_waiting g.shell ≡ true → count xs ≡ max_queue_size
    pub woken : has_woken g.shell ≡ true → (w : Worker) → is_asleep (g.task w) ≡ false

  abbrev pub IsGame : (attacks taken : List D) → Game D → Type 0
  IsGame attacks taken g = (xs : Jobs D) × Inv attacks taken g xs
