-- ===== src/Linked.antt =====
-- C++/Datastruct/Graph/DLinkedList.c: a linked list with a head node that holds no data, a cursor
-- and a rule for sorted insertion.
pub mod Chain
pub mod Insert
pub mod Cursor
mod Tests
use today_i_learned.Common.{ℕ, zero, suc, ◌==◌, if◌then◌else◌, Option, none, some}
use today_i_learned.Common.Int.{ℤ, pos, ◌+ℤ◌, ◌-ℤ◌, eqb_ℤ}
use today_i_learned.Common.Run.{Run, ok, out_of_fuel, ◌>>=◌, checked}
use today_i_learned.Common.Store.{Ptr, null, StoreOf, update, load, free}

pub record Node : Type 0 where
  pub datum : ℤ
  pub next : Ptr

abbrev pub Store : Type 0
Store = StoreOf Node

-- `comp` is the null pointer where no rule is set.
pub record LinkedList : Type 0 where
  pub head : Ptr
  pub before : Ptr
  pub cur : Ptr
  pub num_of_count : ℤ
  pub comp : Option (ℤ → ℤ → ℤ)

-- `p->next = q`.
unfoldable pub set_next : Store → Ptr → Ptr → Run Store
set_next h p q = do n ← load h p; ok (update h p (some (record n { next = q })))

-- `fresh` and `garbage` are what `malloc` gives; the cursor is left as it was.
unfoldable pub list_init : (fresh : Ptr) (garbage : Node) → LinkedList → Store → LinkedList × Store
list_init fresh garbage l h = (
  record l { head = fresh; num_of_count = pos 0; comp = none },
  update h fresh (some (record garbage { next = null })),
)

-- The last lines of both insertions: the new node goes behind `pred`.
unfoldable pub link : LinkedList → Store → (new_node pred : Ptr) → Run (LinkedList × Store)
link l h new_node pred = do
  n ← load h pred
  h₁ ← set_next h new_node n.next
  h₂ ← set_next h₁ pred new_node
  count ← checked (l.num_of_count +ℤ pos 1)
  ok (record l { num_of_count = count }, h₂)

unfoldable pub f_insert :
    (fresh : Ptr) (garbage : Ptr) → LinkedList → Store → ℤ → Run (LinkedList × Store)
f_insert fresh garbage l h x =
    link l (update h fresh (some (record { datum = x; next = garbage }))) fresh l.head

-- The `while` of `SInsert`, on fuel.
unfoldable pub find_pred : ℕ → (ℤ → ℤ → ℤ) → Store → (pred : Ptr) → ℤ → Run Ptr
find_pred zero comp h pred x = out_of_fuel
find_pred (suc k) comp h pred x = do
  n ← load h pred
  let further = find_pred k comp h n.next x
  let look : Run Ptr = (do
    m ← load h n.next
    if eqb_ℤ (comp x m.datum) (pos 0) then ok pred else further)
  if n.next == null then ok pred else look

unfoldable pub s_insert :
    ℕ
    → (ℤ → ℤ → ℤ)
    → (fresh : Ptr) (garbage : Ptr) → LinkedList
    → Store
    → ℤ
    → Run (LinkedList × Store)
s_insert k comp fresh garbage l h x = do
  let h₀ = update h fresh (some (record { datum = x; next = garbage }))
  pred ← find_pred k comp h₀ l.head x
  link l h₀ fresh pred

unfoldable pub l_insert :
    ℕ → (fresh : Ptr) (garbage : Ptr) → LinkedList → Store → ℤ → Run (LinkedList × Store)
l_insert k fresh garbage l h x = elim l.comp [
  | none ↦ f_insert fresh garbage l h x
  | some comp ↦ s_insert k comp fresh garbage l h x
]

-- `none` for FALSE, on which `*pdata` is left alone.
unfoldable pub l_first : LinkedList → Store → Run (Option ℤ × LinkedList)
l_first l h = do
  n ← load h l.head
  let step : Run (Option ℤ × LinkedList) = (do
    m ← load h n.next
    ok (some m.datum, record l { before = l.head; cur = n.next }))
  if n.next == null then ok (none, l) else step

unfoldable pub l_next : LinkedList → Store → Run (Option ℤ × LinkedList)
l_next l h = do
  n ← load h l.cur
  let step : Run (Option ℤ × LinkedList) = (do
    m ← load h n.next
    ok (some m.datum, record l { before = l.cur; cur = n.next }))
  if n.next == null then ok (none, l) else step

unfoldable pub l_remove : LinkedList → Store → Run (ℤ × LinkedList × Store)
l_remove l h = do
  n ← load h l.cur
  h₁ ← set_next h l.before n.next
  h₂ ← free h₁ l.cur
  count ← checked (l.num_of_count -ℤ pos 1)
  ok (n.datum, record l { cur = l.before; num_of_count = count }, h₂)

unfoldable pub l_count : LinkedList → ℤ
l_count l = l.num_of_count

unfoldable pub set_sort_rule : LinkedList → Option (ℤ → ℤ → ℤ) → LinkedList
set_sort_rule l comp = record l { comp = comp }
