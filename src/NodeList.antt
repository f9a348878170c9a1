-- ===== src/NodeList.antt =====
-- src/list.c: the doubly linked lists of the kernel, a pointer operation at a time.
pub mod Chain
pub mod Insert
pub mod Unlink
pub mod Order
pub mod Refinement
pub mod Sequences
pub mod Find
use Prim.Native.String.{String}
use text.Mathlib.Text.{◌==◌ as str_eq}
use martos.Common.{
  ℕ, zero, suc, ◌≡◌, refl, Bool, true, false, Option, none, some, ◌==◌, if◌then◌else◌,
}
use martos.Common.Int.{ltb_ℤ}
use martos.Memory.{
  Memory, Cmd, Ptr, null, err, ok, ◌>>=◌, ◌>>◌, pure, fail, get, null_pointer, out_of_fuel,
  get_next, get_prev, set_next, set_prev,
}

-- `List`, by the addresses of its two `MinNode`s.
pub record NodeList : Type 0 where
  pub head : Ptr
  pub tail : Ptr

unfoldable pub list_unlink : Ptr → Cmd Memory (Unit {0})
unfolding get_next get_prev set_next set_prev
list_unlink node = do
  before ← get_prev node
  after ← get_next node
  set_next before after
  after' ← get_next node
  before' ← get_prev node
  set_prev after' before'

unfoldable pub list_init : NodeList → Cmd Memory (Unit {0})
unfolding set_next set_prev
list_init list = do
  set_next list.head list.tail
  set_prev list.head null
  set_next list.tail null
  set_prev list.tail list.head

unfoldable pub list_is_empty : NodeList → Cmd Memory Bool
unfolding get_prev
list_is_empty list = do last ← get_prev list.tail; pure (list.head == last)

-- The four writes that put `node` in front of `at`, which `list_add_tail` and `list_enqueue` end in.
unfoldable pub link_before : Ptr → Ptr → Cmd Memory (Unit {0})
unfolding get_prev set_next set_prev
link_before at node = do
  set_next node at
  before ← get_prev at
  set_prev node before
  before' ← get_prev at
  set_next before' node
  set_prev at node

unfoldable pub list_add_tail : NodeList → Ptr → Cmd Memory (Unit {0})
unfolding link_before
list_add_tail list node = link_before list.tail node

unfoldable pub list_get_head : NodeList → Cmd Memory Ptr
unfolding list_is_empty get_next
list_get_head list = do empty ← list_is_empty list; if empty then pure null else get_next list.head

unfoldable pub list_rem_head : NodeList → Cmd Memory Ptr
unfolding list_get_head list_unlink
list_rem_head list = do
  node ← list_get_head list
  if node == null then pure node else (list_unlink node >> pure node)

unfoldable pub link_after : Ptr → Ptr → Cmd Memory (Unit {0})
unfolding get_next set_next set_prev
link_after before node = do
  after ← get_next before
  set_next node after
  set_prev node before
  after' ← get_next before
  set_prev after' node
  set_next before node

-- With no `prev` the code does nothing.
unfoldable pub list_insert : NodeList → Ptr → Ptr → Cmd Memory (Unit {0})
unfolding link_after list_add_tail get_next
list_insert list node before = if before == null then pure tt else do
  after ← get_next before
  if after == null then list_add_tail list node else link_after before node

-- The loop of `list_enqueue`: the first node from `at` with a lower priority, or the tail.
unfoldable pub find_lower : ℕ → Ptr → Ptr → Cmd Memory Ptr
unfolding get_next
find_lower zero node at = fail out_of_fuel
find_lower (suc fuel) node at = do
  after ← get_next at
  let rest = find_lower fuel node after
  lower ← get (λ m. ltb_ℤ (m.prio at) (m.prio node))
  if after == null then pure at else if lower then pure at else rest

unfoldable pub list_enqueue : NodeList → Ptr → Cmd Memory (Unit {0})
unfolding get_next find_lower link_before
list_enqueue list node = do
  first ← get_next list.head
  fuel ← get (λ m. m.bound)
  at ← find_lower fuel node first
  link_before at node

-- `0 == strcmp(a, b)`, which reads through both pointers.
unfoldable pub same_name : Option String → Option String → Cmd Memory Bool
same_name (some s) (some t) = pure (str_eq s t)
same_name _ _ = fail null_pointer

unfoldable pub find_loop : ℕ → Option String → Ptr → Cmd Memory Ptr
unfolding get_next same_name
find_loop zero name at = fail out_of_fuel
find_loop (suc fuel) name at = do
  after ← get_next at
  let rest = find_loop fuel name after
  name' ← get (λ m. m.name at)
  if after == null
      then pure null
      else do same ← same_name name' name; if same then pure at else rest

unfoldable pub list_find : NodeList → Option String → Cmd Memory Ptr
unfolding get_next find_loop
list_find list name = do
  first ← get_next list.head
  fuel ← get (λ m. m.bound)
  find_loop fuel name first
