-- ===== src/SysArch/Blocking.antt =====
-- The calls of lwip_martos/sys_arch.c that wait, with a timeout or without, and those that make a
-- thread and read the clock. A call is cut where its task is switched out.
use Prim.Native.String.{String}
use martos.Common.{ℕ, Bool, not, ◌==◌, if◌then◌else◌, update, Option, none, bit_or}
use martos.Common.Int.{ℤ}
use martos.Memory.{Cmd, Ptr, null, endless, ◌>>=◌, ◌>>◌, pure, fail, assert, get, modify}
use martos.Kernel.{Kernel, SemaphoreRequest, Signals, msgport_signal}
use martos.Signal.{Wait, received, blocked, meets, signal_free, signal_wait, signal_wait_resume}
use martos.Task.{task_find, task_init, task_schedule}
use martos.Semaphore.{sem_add_request}
use martos.MsgPort.{get_port, set_port, msgport_get}
use martos.Timer.{timer_get_clock}
use martos.SysArch.{
  Lwip, Layer, on_kernel, Timed, returned, suspended, task_size, allocate_mask, since,
  start_timeout, stop_timeout, malloc, open_message,
}

-- A write to `req->...`.
abbrev pub write_request : Ptr → (SemaphoreRequest → SemaphoreRequest) → Cmd Kernel (Unit {0})
write_request req f =
    modify (λ k. record k { requests = update k.requests req (f (k.requests req)) })

-- The first fetch gives the mailbox a signal of its task.
unfoldable pub give_signal : Ptr → Cmd Kernel (Unit {0})
unfolding set_port
give_signal mbox = do
  mask ← allocate_mask
  set_port mbox (λ p. record p { signal = mask })
  assert (not (mask == 0))

-- What is done to the mailbox in front of the wait.
unfoldable pub prepare_mbox : Ptr → Cmd Kernel (Unit {0})
unfolding get_port set_port
prepare_mbox mbox = do
  self ← task_find none
  set_port mbox (λ p. record p { task = self })
  p ← get_port mbox
  if p.signal == 0 then give_signal mbox else pure tt
  set_port mbox (λ p. record p { action = msgport_signal })

module _ {H : Type 0} (lwip : Lwip H) where
  -- The tests of the signals that `signal_wait` has returned.
  unfoldable pub sem_result : Signals → Signals → Signals → ℕ → Cmd Kernel ℕ
  sem_result got own timer_signal start =
      if meets got own
      then since start
      else if meets got timer_signal
      then pure lwip.arch_timeout
      else fail endless

  -- `sys_arch_sem_wait` behind the call of `signal_wait`, or at the point where it is cut.
  unfoldable pub after_sem_wait : Ptr → Ptr → ℕ → Signals → Wait → Cmd Kernel (Timed ℕ)
  after_sem_wait req timer start timer_signal (received got) = do
    r ← get (λ k. k.requests req)
    end_time ← sem_result got r.signal timer_signal start
    stop_timeout timer timer_signal
    signal_free r.signal
    pure (returned end_time)
  after_sem_wait req timer start timer_signal (blocked n) = pure (suspended start timer_signal n)

  -- The branch for a semaphore that was taken at once.
  unfoldable pub got_early : Ptr → ℕ → Cmd Kernel (Timed ℕ)
  got_early req start = do
    end_time ← since start
    r ← get (λ k. k.requests req)
    signal_free r.signal
    pure (returned end_time)

  -- The branch with the request in the queue.
  unfoldable pub wait_request : Ptr → Ptr → ℕ → ℕ → Cmd Kernel (Timed ℕ)
  wait_request req timer start timeout = do
    timer_signal ← start_timeout timer timeout
    r ← get (λ k. k.requests req)
    w ← signal_wait (bit_or timer_signal r.signal)
    after_sem_wait req timer start timer_signal w

  -- `req` and `timer` are the addresses of the local variables.
  unfoldable pub sys_arch_sem_wait : Ptr → ℕ → Ptr → Ptr → Cmd Kernel (Timed ℕ)
  unfolding timer_get_clock
  sys_arch_sem_wait sem timeout req timer = do
    start ← timer_get_clock
    mask ← allocate_mask
    write_request req (λ r. record r { signal = mask })
    assert (not (mask == 0))
    self ← task_find none
    write_request req (λ r. record r { waiter = self })
    added ← sem_add_request sem req
    if added then wait_request req timer start timeout else got_early req start

  -- From where the task is switched in again, in the call `signal_wait(signals)`.
  unfoldable pub sys_arch_sem_wait_resume :
      Ptr → Ptr → ℕ → Signals → Signals → ℤ → Cmd Kernel (Timed ℕ)
  sys_arch_sem_wait_resume req timer start timer_signal signals nestcnt = do
    w ← signal_wait_resume signals nestcnt
    after_sem_wait req timer start timer_signal w

  -- The first message of the mailbox, which has to be there, and the time.
  unfoldable pub take_message : Ptr → Bool → ℕ → Cmd (Layer H) (ℕ × Option Ptr)
  take_message mbox wanted start = do
    m ← on_kernel (msgport_get mbox)
    assert (not (m == null))
    payload ← open_message lwip m wanted
    end_time ← on_kernel (since start)
    pure (end_time, payload)

  -- The tests of the signals that `signal_wait` has returned.
  unfoldable pub mbox_result : Ptr → Bool → Signals → Signals → ℕ → Cmd (Layer H) (ℕ × Option Ptr)
  unfolding get_port
  mbox_result mbox wanted got timer_signal start = do
    p ← on_kernel (get_port mbox)
    if meets got p.signal
        then take_message mbox wanted start
        else if meets got timer_signal
        then pure (lwip.arch_timeout, none)
        else fail endless

  -- `sys_arch_mbox_fetch` behind the call of `signal_wait`, or at the point where it is cut.
  unfoldable pub after_fetch :
      Ptr → Bool → Ptr → ℕ → Signals → Wait → Cmd (Layer H) (Timed (ℕ × Option Ptr))
  after_fetch mbox wanted timer start timer_signal (received got) = do
    result ← mbox_result mbox wanted got timer_signal start
    on_kernel (stop_timeout timer timer_signal)
    pure (returned result)
  after_fetch mbox wanted timer start timer_signal (blocked n) =
      pure (suspended start timer_signal n)

  unfoldable pub sys_arch_mbox_fetch : Ptr → Bool → ℕ → Ptr → Cmd (Layer H) (Timed (ℕ × Option Ptr))
  unfolding get_port timer_get_clock
  sys_arch_mbox_fetch mbox wanted timeout timer = do
    start ← on_kernel timer_get_clock
    on_kernel (prepare_mbox mbox)
    timer_signal ← on_kernel (start_timeout timer timeout)
    p ← on_kernel (get_port mbox)
    w ← on_kernel (signal_wait (bit_or timer_signal p.signal))
    after_fetch mbox wanted timer start timer_signal w

  -- From where the task is switched in again, in the call `signal_wait(signals)`.
  unfoldable pub sys_arch_mbox_fetch_resume :
      Ptr → Bool → Ptr → ℕ → Signals → Signals → ℤ → Cmd (Layer H) (Timed (ℕ × Option Ptr))
  sys_arch_mbox_fetch_resume mbox wanted timer start timer_signal signals nestcnt = do
    w ← on_kernel (signal_wait_resume signals nestcnt)
    after_fetch mbox wanted timer start timer_signal w

  -- The endless loop behind an allocation that has failed.
  abbrev pub allocated : Ptr → Cmd (Layer H) (Unit {0})
  allocated p = if p == null then fail endless else pure tt

  -- The thread's function and its argument are in its first stack frame, which has only its
  -- address here.
  unfoldable pub sys_thread_new : Option String → ℕ → ℤ → Cmd (Layer H) Ptr
  sys_thread_new name stacksize prio = do
    stack ← malloc lwip stacksize
    allocated stack
    task ← malloc lwip task_size
    allocated task
    on_kernel (task_init task name prio stack stacksize)
    on_kernel (task_schedule task)
    pure task

unfoldable pub sys_now : Cmd Kernel ℕ
unfolding timer_get_clock
sys_now = timer_get_clock
