-- ===== src/Task.antt =====
-- The task calls of src/task.c, with the stack frames of platforms/stm32f4-discovery/platform.c.
pub mod Verify
pub mod Finding
use Prim.Native.String.{String}
use martos.Common.{
  ℕ, ◌+◌, ◌-◌, ◌%◌, ◌^◌, ◌≡◌, Bool, true, false, not, ◌&&◌, ◌||◌, ◌==◌, if◌then◌else◌, Option, none,
  some, bit_and, leb, update,
}
use martos.Common.Int.{ℤ, pos, negsuc, ltb_ℤ}
use martos.Memory.{
  Memory, Cmd, Ptr, null, ok, err, null_pointer, ◌>>=◌, ◌>>◌, pure, assert, get, modify, fail,
}
use martos.NodeList.{list_enqueue, list_find, same_name}
use martos.Kernel.{
  Kernel, Task, TaskContext, TaskState, task_invalid, task_initialized, task_running, task_ready,
  task_waiting, sigf_single, ready, waiting, on_memory, get_task, set_task, disable, enable,
  reschedule,
}

-- `sizeof (StackFrame)`: sixteen words.
abbrev pub frame_size : ℕ
frame_size = 64

-- An address is a `uintptr_t` of 32 bits.
unfoldable pub taskcontext_verify : TaskContext → Cmd Kernel (Unit {0})
taskcontext_verify c = do
  assert (leb c.bos c.frame)
  assert (leb ((c.frame + frame_size) % 2 ^ 32) c.tos)

abbrev pub known_state : TaskState → Bool
known_state task_invalid = false
known_state _ = true

unfoldable pub task_verify : Ptr → Cmd Kernel (Unit {0})
unfolding get_task disable taskcontext_verify
task_verify task = do
  disable
  t ← get_task task
  taskcontext_verify t.context
  assert (not (bit_and sigf_single t.sig_alloc == 0))
  assert (not (ltb_ℤ t.id_nestcnt (negsuc 0)))
  assert (known_state t.state)
  enable

unfoldable pub task_schedule : Ptr → Cmd Kernel (Unit {0})
unfolding disable set_task reschedule
task_schedule task = do
  task_verify task
  disable
  set_task task (λ t. record t { state = task_ready })
  on_memory (list_enqueue ready task)
  enable
  reschedule

-- `task->node.name`, which faults at `NULL`.
unfoldable pub node_name : Ptr → Cmd Memory (Option String)
node_name p m = if p == null then err null_pointer else ok (m.name p) m

-- With no task found, the code reads the name through the `task` that is `NULL`.
unfoldable pub find_self : Option String → Ptr → Cmd Kernel Ptr
unfolding node_name
find_self name task = do
  name' ← on_memory (node_name task)
  same ← on_memory (same_name name name')
  if same then get (λ k. k.running) else pure task

-- The search in the waiting list, and what follows it.
unfoldable pub find_waiting : Option String → Cmd Kernel Ptr
find_waiting name = do
  task ← on_memory (list_find waiting name)
  if task == null then find_self name task else pure task

unfoldable pub task_find : Option String → Cmd Kernel Ptr
unfolding disable
task_find none = get (λ k. k.running)
task_find (some s) = do
  disable
  in_ready ← on_memory (list_find ready (some s))
  task ← (if in_ready == null then find_waiting (some s) else pure in_ready)
  enable
  pure task

abbrev pub is_ready : TaskState → Bool
is_ready task_ready = true
is_ready _ = false

abbrev pub write_prio : Ptr → ℤ → Memory → Memory
write_prio p v m = record m { prio = update m.prio p v }

unfoldable pub task_set_prio : Ptr → ℤ → Cmd Kernel (Unit {0})
unfolding disable get_task reschedule
task_set_prio task prio = do
  disable
  t ← get_task task
  modify (λ k. record k { mem = write_prio task prio k.mem })
  self ← get (λ k. k.running)
  below ← get (λ k. ltb_ℤ (k.mem.prio k.running) (k.mem.prio task))
  if (task == self) || (is_ready t.state && below) then reschedule else pure tt
  enable

-- `taskcontext_init`, without the words that it writes to the stack. Addresses have 32 bits.
unfoldable pub taskcontext_init : Ptr → Ptr → ℕ → Cmd Kernel (Unit {0})
unfolding set_task get_task taskcontext_verify
taskcontext_init task stack stack_size = do
  assert (stack % 4 == 0)
  assert (stack_size % 4 == 0)
  let tos = (stack + stack_size) % 2 ^ 32
  let frame = (tos + 2 ^ 32 - frame_size) % 2 ^ 32
  set_task task (λ t. record t { context = record { frame = frame; bos = stack; tos = tos } })
  t ← get_task task
  taskcontext_verify t.context

abbrev pub write_node : Ptr → Option String → ℤ → Memory → Memory
write_node p name v m = record m { name = update m.name p name; prio = update m.prio p v }

-- What follows once no task with the name was found.
unfoldable pub fill_task : Ptr → Option String → ℤ → Ptr → ℕ → Cmd Kernel (Unit {0})
unfolding set_task
fill_task task name prio stack stack_size = do
  modify (λ k. record k { mem = write_node task name prio k.mem })
  set_task task (λ t. record t { sig_alloc = sigf_single })
  set_task task (λ t. record t { sig_wait = 0 })
  set_task task (λ t. record t { sig_recvd = 0 })
  set_task task (λ t. record t { id_nestcnt = negsuc 0 })
  taskcontext_init task stack stack_size
  set_task task (λ t. record t { state = task_initialized })

unfoldable pub task_init : Ptr → Option String → ℤ → Ptr → ℕ → Cmd Kernel (Unit {0})
unfolding set_task
task_init task name prio stack stack_size = do
  set_task task (λ t. record t { state = task_invalid })
  found ← task_find name
  assert (found == null)
  fill_task task name prio stack stack_size
