-- ===== src/Init.antt =====
-- src/init.c: the start of the kernel and the init task.
pub mod Start
use martos.Common.{ℕ, ◌≡◌, some}
use martos.Common.Int.{ℤ, pos, negsuc}
use martos.Memory.{Cmd, Ptr, endless, ◌>>=◌, ◌>>◌, pure, fail, get, modify}
use martos.NodeList.{list_init}
use martos.Kernel.{Kernel, task_running, ready, waiting, on_memory, set_task, disable}
use martos.Task.{task_init, task_verify, task_set_prio}
use martos.Timer.{timer_init}
use martos.Switch.{quantum}

-- `TASK_PRIO_EXCLUSIVE`, `TASK_PRIO_MIN` and `INIT_TASK_STACK_SIZE`.
abbrev pub task_prio_exclusive : ℤ
task_prio_exclusive = pos 32767

abbrev pub task_prio_min : ℤ
task_prio_min = negsuc 32767

abbrev pub init_task_stack_size : ℕ
init_task_stack_size = 2048

-- The global data is at the addresses `init_task` and `init_task_stack`. The result is the
-- address of the task whose context the C function returns.
module _ (init_task init_task_stack : Ptr) where
  unfoldable pub martos_pre : Cmd Kernel Ptr
  unfolding set_task
  martos_pre = do
    on_memory (list_init ready)
    on_memory (list_init waiting)
    modify (λ k. record k { id_nestcnt = negsuc 0 })
    modify (λ k. record k { elapsed = quantum })
    task_init init_task (some "init") task_prio_exclusive init_task_stack init_task_stack_size
    task_verify init_task
    set_task init_task (λ t. record t { state = task_running })
    modify (λ k. record k { running = init_task })
    pure init_task

  -- `user_init` is the application's.
  unfoldable pub init_task_f : Cmd Kernel (Unit {0}) → Cmd Kernel (Unit {0})
  init_task_f user_init = do
    timer_init
    task_set_prio init_task task_prio_min
    user_init
    fail endless

unfoldable pub user_halt : Cmd Kernel (Unit {0})
unfolding disable
user_halt = do disable; fail endless
