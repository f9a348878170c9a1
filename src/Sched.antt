-- ===== src/Sched.antt =====
-- The invariant of the scheduler: what holds of the task lists, the tasks and the running task
-- between two kernel calls (src/task.c, src/private.h, PendSV_Handler_user of
-- platforms/stm32f4-discovery/platform.c).
pub mod States
pub mod Keep
pub mod Checked
pub mod Wake
pub mod Send
pub mod Switching
pub mod Leaving
pub mod Handler
pub mod Rounds
pub mod Outcome
pub mod Waiting
pub mod Schedule
pub mod Allocating
pub mod Freeing
pub mod Priority
pub mod Beside
use martos.Common.{ℕ, ◌+◌, ◌<◌, ◌≡◌, ◌⊎◌, Bool, true, false, List, All, length, if◌then◌else◌}
use martos.Common.Int.{ℤ, pos, negsuc, ltb_ℤ, ◌≤ℤ◌}
use martos.Memory.{Memory, Ptr}
use martos.Kernel.{
  Kernel, Task, TaskState, task_invalid, task_initialized, task_running, last_static,
}
use martos.Kernel.Queues.{Queues}
use martos.Kernel.Interrupts.{Masked}

-- The priority rule: a switch is pending, or the running task has a priority at least as high as
-- that of every ready task.
abbrev pub IsDue : Memory → (Ptr → Task) → Ptr → Bool → List Ptr → Type 0
IsDue m tasks running pendsv rs =
    (pendsv ≡ true)
    ⊎ (((tasks running).state ≡ task_running) × All (λ t. m.prio t ≤ℤ m.prio running) rs)

-- The states that the running task can have: it runs, or it has begun to wait, and may have been
-- woken again, before the switch to another task.
abbrev pub IsLive : TaskState → Type 0
IsLive task_invalid = ⊥
IsLive task_initialized = ⊥
IsLive _ = Unit {0}

pub record Sched (m : Memory) (tasks : Ptr → Task) (running : Ptr) (pendsv : Bool)
    (rs ws : List Ptr) : Type 0 where
  pub queues : Queues m rs ws
  pub states : States.States tasks rs ws
  pub running_above : last_static < running
  pub live : IsLive (tasks running).state
  pub only_running : (t : Ptr) → (tasks t).state ≡ task_running → t ≡ running
  pub spare : (tasks running).state ≡ task_running → length rs + length ws < m.bound
  pub due : IsDue m tasks running pendsv rs

pub record Inv (k : Kernel) (rs ws : List Ptr) : Type 0 where
  pub sched : Sched k.mem k.tasks k.running k.pendsv rs ws
  pub masked : Masked k.irq k.id_nestcnt
