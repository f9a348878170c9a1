-- ===== src/Kernel.antt =====
-- The kernel's data (include/martos/martos.h, src/private.h, src/data.c) and the few operations
-- that the processor carries out for it (disable, enable and reschedule of
-- platforms/stm32f4-discovery/platform.c).
pub mod Queues
pub mod Moves
pub mod Interrupts
use martos.Common.{
  ℕ, ◌+◌, ◌%◌, ◌^◌, ◌≡◌, Bool, true, false, not, ◌==◌, if◌then◌else◌, leb, update, bit_and, bit_or,
}
use martos.Common.Int.{ℤ, pos, negsuc, ◌+ℤ◌, ◌-ℤ◌, ltb_ℤ}
use martos.Common.Bits.{complement}
use martos.Memory.{
  Memory, Cmd, Run, Ptr, null, ok, err, null_pointer, assertion, ◌>>=◌, ◌>>◌, pure, assert, get,
  modify,
}
use martos.NodeList.{NodeList}

-- `uint16_t` sets of signals.
abbrev pub Signals : Type 0
Signals = ℕ

abbrev pub signals_width : ℕ
signals_width = 16

abbrev pub sigf_single : Signals
sigf_single = 0x0001

-- `s &= ~t`
abbrev pub without : Signals → Signals → Signals
without s t = bit_and s (complement 16 t)

pub data TaskState : Type 0 where
  task_invalid task_initialized task_running task_ready task_waiting : TaskState

-- `TaskContext`: the saved stack frame, and the bounds of the stack.
pub record TaskContext : Type 0 where
  pub frame : Ptr
  pub bos : Ptr
  pub tos : Ptr

-- `Task`; its `node` is in the memory, at the task's address.
pub record Task : Type 0 where
  pub context : TaskContext
  pub sig_alloc : Signals
  pub sig_wait : Signals
  pub sig_recvd : Signals
  pub id_nestcnt : ℤ
  pub state : TaskState

pub record Semaphore : Type 0 where
  pub req_queue : NodeList
  pub count : ℤ

pub record SemaphoreRequest : Type 0 where
  pub waiter : Ptr
  pub signal : Signals

pub data MsgPortAction : Type 0 where
  msgport_invalid msgport_signal msgport_ignore : MsgPortAction

pub record MsgPort : Type 0 where
  pub message_list : NodeList
  pub task : Ptr
  pub signal : Signals
  pub action : MsgPortAction

pub data TimerOperation : Type 0 where
  timer_none timer_delay timer_alarm : TimerOperation

pub data TimerStatus : Type 0 where
  timer_invalid timer_initialized timer_added timer_done timer_aborted : TimerStatus

pub record Timer : Type 0 where
  pub task : Ptr
  pub signal : Signals
  pub delay : ℕ
  pub tick : ℕ
  pub op : TimerOperation
  pub status : TimerStatus

-- The static lists. Their nodes have addresses of their own below all other nodes.
abbrev pub ready : NodeList
ready = record { head = 1; tail = 2 }

abbrev pub waiting : NodeList
waiting = record { head = 3; tail = 4 }

abbrev pub timers : NodeList
timers = record { head = 5; tail = 6 }

abbrev pub last_static : Ptr
last_static = 6

-- The global variables, the objects by their addresses, and of the processor whether interrupts
-- are enabled (`irq`) and whether a PendSV exception is pending.
pub record Kernel : Type 0 where
  pub mem : Memory
  pub tasks : Ptr → Task
  pub running : Ptr
  pub id_nestcnt : ℤ
  pub elapsed : ℕ
  pub irq : Bool
  pub pendsv : Bool
  pub timer_now : ℕ
  pub semaphores : Ptr → Semaphore
  pub requests : Ptr → SemaphoreRequest
  pub ports : Ptr → MsgPort
  pub reply_ports : Ptr → Ptr
  pub timer_objects : Ptr → Timer

-- A command on the memory, as one on the kernel.
abbrev pub lift : {A : Type 0} → Run Memory A → Kernel → Run Kernel A
lift (ok a m) k = ok a (record k { mem = m })
lift (err f) k = err f

abbrev pub on_memory : {A : Type 0} → Cmd Memory A → Cmd Kernel A
on_memory c k = lift (c k.mem) k

abbrev pub write_task : Ptr → Task → Kernel → Kernel
write_task p t k = record k { tasks = update k.tasks p t }

-- `*task`, and a write to it; both fault at `NULL`.
unfoldable pub get_task : Ptr → Cmd Kernel Task
get_task p k = if p == null then err null_pointer else ok (k.tasks p) k

unfoldable pub set_task : Ptr → (Task → Task) → Cmd Kernel (Unit {0})
set_task p f k = if p == null then err null_pointer else ok tt (write_task p (f (k.tasks p)) k)

abbrev pub disabled : Kernel → Kernel
disabled k = record k { irq = false; id_nestcnt = k.id_nestcnt +ℤ pos 1 }

unfoldable pub disable : Cmd Kernel (Unit {0})
disable k = ok tt (disabled k)

unfoldable pub enable : Cmd Kernel (Unit {0})
enable = do
  assert (← get (λ k. not (ltb_ℤ k.id_nestcnt (negsuc 0))))
  modify (λ k. record k { id_nestcnt = k.id_nestcnt -ℤ pos 1 })
  modify (λ k. record k { irq = if ltb_ℤ k.id_nestcnt (pos 0) then true else k.irq })

unfoldable pub reschedule : Cmd Kernel (Unit {0})
reschedule = modify (λ k. record k { pendsv = true })
