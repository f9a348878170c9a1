-- ===== src/System/Holding.antt =====
-- The invariant of the system, and that each event keeps it.
use martos.Common.{◌≡◌, ◌⊎◌, true, List, none, some}
use martos.Common.Int.{ℤ, pos, negsuc, ◌+ℤ◌, ◌≤ℤ◌}
use martos.Memory.{Ptr}
use martos.Kernel.{Kernel, Task, TaskState, Signals, task_running, task_ready}
use martos.Sched.{Inv}
use martos.Sched.Checked.{AllChecked}
use martos.System.{System}

-- The running task runs, or it is to be switched out as soon as an exception can come.
abbrev pub IsSettled : Kernel → Type 0
IsSettled k = ((k.tasks k.running).state ≡ task_running) ⊎ ((k.irq ≡ true) × (k.pendsv ≡ true))

abbrev pub IsIdle : TaskState → Type 0
IsIdle st = (st ≡ task_running) ⊎ (st ≡ task_ready)

-- What a task remembers of its call of `signal_wait` is what the kernel knows of it.
abbrev pub IsSaved : Signals → ℤ → Task → Type 0
IsSaved signals n t = (t.sig_wait ≡ signals) × ((m : ℤ) × (n ≡ m +ℤ pos 1) × (negsuc 0 ≤ℤ m))

pub record Holds (idle : Ptr) (s : System) : Type 0 where
  pub rs : List Ptr
  pub ws : List Ptr
  pub inv : Inv s.kernel rs ws
  pub checked : AllChecked s.kernel.tasks
  pub settled : IsSettled s.kernel
  pub idle_state : IsIdle (s.kernel.tasks idle).state
  pub idle_calls : s.calls idle ≡ none
  pub saved :
      (t : Ptr) (signals : Signals) (n : ℤ)
      → s.calls t ≡ some (signals, n)
      → IsSaved signals n (s.kernel.tasks t)
