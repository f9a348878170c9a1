-- ===== src/Switch.antt =====
-- The exception handlers of platforms/stm32f4-discovery/platform.c that switch tasks.
pub mod Slices
use martos.Common.{ℕ, ◌+◌, ◌-◌, ◌%◌, ◌^◌, true, false, ◌==◌, if◌then◌else◌}
use martos.Common.Int.{pos, ltb_ℤ}
use martos.Memory.{Cmd, Ptr, endless, ◌>>=◌, ◌>>◌, pure, get, modify, fail}
use martos.NodeList.{list_enqueue, list_rem_head}
use martos.Kernel.{
  Kernel, TaskState, task_invalid, task_initialized, task_running, task_ready, task_waiting, ready,
  on_memory, get_task, set_task,
}
use martos.Task.{task_verify}

abbrev pub quantum : ℕ
quantum = 4

-- From `case TASK_READY` on: the next task is taken from the ready list.
unfoldable pub switch_in : Cmd Kernel (Unit {0})
unfolding get_task set_task
switch_in = do
  old ← get (λ k. k.running)
  nestcnt ← get (λ k. k.id_nestcnt)
  set_task old (λ t. record t { id_nestcnt = nestcnt })
  next ← on_memory (list_rem_head ready)
  modify (λ k. record k { running = next })
  set_task next (λ t. record t { state = task_running })
  t ← get_task next
  modify (λ k. record k { id_nestcnt = t.id_nestcnt; elapsed = quantum })

-- `case TASK_RUNNING`, without what follows.
unfoldable pub switch_out : Cmd Kernel (Unit {0})
unfolding set_task
switch_out = do
  self ← get (λ k. k.running)
  set_task self (λ t. record t { state = task_ready })
  on_memory (list_enqueue ready self)

unfoldable pub switch_by : TaskState → Cmd Kernel (Unit {0})
switch_by task_running = switch_out >> switch_in
switch_by task_ready = switch_in
switch_by task_waiting = switch_in
switch_by task_invalid = fail endless
switch_by task_initialized = fail endless

-- From the test of `id_nestcnt` on.
unfoldable pub switch_exit : Cmd Kernel Ptr
unfolding get_task
switch_exit = do
  modify (λ k. record k { irq = if ltb_ℤ k.id_nestcnt (pos 0) then true else k.irq })
  next ← get (λ k. k.running)
  task_verify next
  t ← get_task next
  pure t.context.frame

-- The processor clears the pending bit when it enters the handler.
unfoldable pub pendsv_handler : Ptr → Cmd Kernel Ptr
unfolding get_task set_task
pendsv_handler old_frame = do
  modify (λ k. record k { pendsv = false })
  task_verify (← get (λ k. k.running))
  modify (λ k. record k { irq = false })
  self ← get (λ k. k.running)
  set_task self (λ t. record t { context = record t.context { frame = old_frame } })
  t ← get_task self
  switch_by t.state
  switch_exit

-- `elapsed` is a `uint_fast8_t` of 32 bits.
unfoldable pub systick_handler : Cmd Kernel (Unit {0})
systick_handler = do
  modify (λ k. record k { elapsed = (k.elapsed + 2 ^ 32 - 1) % 2 ^ 32 })
  left ← get (λ k. k.elapsed)
  if left == 0 then modify (λ k. record k { pendsv = true }) else pure tt
