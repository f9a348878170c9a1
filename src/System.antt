-- ===== src/System.antt =====
-- The kernel as a system: its running task calls it, interrupts call it (SysTick_Handler of
-- platforms/stm32f4-discovery/platform.c, and the calls of src/task.c from other handlers), and
-- PendSV_Handler_user switches tasks. One event comes after another.
pub mod Holding
pub mod Calling
pub mod Owning
pub mod Suspending
pub mod Switching
pub mod Reaching
pub mod Preempting
use martos.Common.{
  ℕ, ◌+◌, ◌%◌, ◌^◌, ◌≤◌, ◌<◌, ◌≡◌, ◌≢◌, ◌⊎◌, true, List, length, Option, none, some, bit_and,
  update,
}
use martos.Common.Int.{ℤ, pos, negsuc, ◌≤ℤ◌}
use martos.Memory.{Cmd, Run, Ptr, null, ok, err, ◌>>=◌, ◌>>◌, pure, get, modify}
use martos.Kernel.{
  Kernel, TaskContext, Signals, task_running, task_initialized, task_ready, sigf_single,
  last_static, disable, enable,
}
use martos.Signal.{
  Wait, received, blocked, signal_allocate, signal_free, signal_send, signal_wait,
  signal_wait_resume,
}
use martos.Signal.Allocate.{IsWords}
use martos.Task.{frame_size, task_schedule, task_set_prio}
use martos.Task.Verify.{IsVerified}
use martos.Switch.{pendsv_handler, systick_handler}
use martos.Sched.{Inv}

-- The kernel, and for each task that is in a call of `signal_wait` the argument of that call and
-- its local variable `nestcnt`.
pub record System : Type 0 where
  pub kernel : Kernel
  pub calls : Ptr → Option (Signals × ℤ)

abbrev pub lift_system : {A : Type 0} → Run Kernel A → System → Run System A
lift_system (ok a k) s = ok a (record s { kernel = k })
lift_system (err f) s = err f

abbrev pub in_kernel : {A : Type 0} → Cmd Kernel A → Cmd System A
in_kernel c s = lift_system (c s.kernel) s

pub data Event : Type 0 where
  -- `signal_send` by the running task or by an interrupt handler
  send : Ptr → Signals → Event
  -- `signal_wait` by the running task up to its end or its block, and from there on
  start_wait : Signals → Event
  resume_wait : Event
  -- a task that `task_init` has made
  schedule : Ptr → Event
  -- `signal_allocate`, `signal_free` and `task_set_prio` by the running task
  allocate : ℤ → Event
  free : Signals → Event
  set_prio : Ptr → ℤ → Event
  -- `disable` and `enable` by the running task
  mask unmask : Event
  -- the exceptions; the address is that of the frame of the interrupted task
  tick : Event
  switch : Ptr → Event

abbrev pub in_call : Signals → Wait → Option (Signals × ℤ)
in_call signals (received _) = none
in_call signals (blocked n) = some (signals, n)

-- What a call of `signal_wait` leaves for the task to remember.
unfoldable pub remember : Signals → Wait → Cmd System (Unit {0})
remember signals w =
    modify (λ s. record s { calls = update s.calls s.kernel.running (in_call signals w) })

unfoldable pub resume : Option (Signals × ℤ) → Cmd System (Unit {0})
unfolding remember
resume none = pure tt
resume (some (signals, n)) = do w ← in_kernel (signal_wait_resume signals n); remember signals w

unfoldable pub run : Event → Cmd System (Unit {0})
unfolding remember resume
run (send t signals) = in_kernel (signal_send t signals)
run (start_wait signals) = do w ← in_kernel (signal_wait signals); remember signals w
run resume_wait = do call ← get (λ s. s.calls s.kernel.running); resume call
run (schedule t) = in_kernel (task_schedule t)
run (allocate signal) = do _ ← in_kernel (signal_allocate signal); pure tt
run (free signals) = in_kernel (signal_free signals)
run (set_prio t prio) = in_kernel (task_set_prio t prio)
run mask = in_kernel disable
run unmask = in_kernel enable
run tick = in_kernel systick_handler
run (switch frame) = do _ ← in_kernel (pendsv_handler frame); pure tt

-- The running task can make a new call.
abbrev pub IsFree : System → Type 0
IsFree s =
    ((s.kernel.tasks s.kernel.running).state ≡ task_running) × (s.calls s.kernel.running ≡ none)

-- A frame lies in the stack of a task.
abbrev pub IsInStack : Ptr → TaskContext → Type 0
IsInStack frame c = (c.bos ≤ frame) × ((frame + frame_size) % 2 ^ 32 ≤ c.tos)

-- When an event can come. `idle` is the init task, which never waits.
abbrev pub Allowed : Ptr → Event → System → Type 0
Allowed idle (send t signals) s = (t ≢ null) × (IsFree s ⊎ (s.kernel.irq ≡ true))
Allowed idle (start_wait signals) s = IsFree s × (s.kernel.running ≢ idle)
Allowed idle resume_wait s =
    ((s.kernel.tasks s.kernel.running).state ≡ task_running)
    × ((signals : Signals) × (n : ℤ) × (s.calls s.kernel.running ≡ some (signals, n)))
Allowed idle (schedule t) s =
    IsFree s
    × (last_static < t)
    × ((s.kernel.tasks t).state ≡ task_initialized)
    × IsVerified (s.kernel.tasks t)
    × ((rs ws : List Ptr) → Inv s.kernel rs ws → length rs + length ws + 1 < s.kernel.mem.bound)
Allowed idle (allocate signal) s =
    IsFree s
    × IsWords (s.kernel.tasks s.kernel.running)
    × ((signal ≡ negsuc 0) ⊎ ((n : ℕ) × (n < 16) × (signal ≡ pos n)))
Allowed idle (free signals) s =
    IsFree s
    × IsWords (s.kernel.tasks s.kernel.running)
    × (bit_and signals sigf_single ≡ 0)
    × (bit_and signals (s.kernel.tasks s.kernel.running).sig_alloc ≡ signals)
Allowed idle (set_prio t prio) s = IsFree s × (t ≢ null) × ((s.kernel.tasks t).state ≢ task_ready)
Allowed idle mask s = IsFree s
Allowed idle unmask s = IsFree s × (pos 0 ≤ℤ s.kernel.id_nestcnt)
Allowed idle tick s = s.kernel.irq ≡ true
Allowed idle (switch frame) s =
    (s.kernel.irq ≡ true)
    × (s.kernel.pendsv ≡ true)
    × IsInStack frame (s.kernel.tasks s.kernel.running).context

-- Events one after another, each when it can come.
pub data Reaches (idle : Ptr) (s : System) : System → Type 0 where
  done : Reaches idle s s
  next :
      {s1 s2 : System} (e : Event)
      → Reaches idle s s1
      → Allowed idle e s1
      → run e s1 ≡ ok tt s2
      → Reaches idle s s2
