-- ===== src/SysArch.antt =====
-- lwip_martos/sys_arch.c: the system layer of the lwIP library, with semaphores, mailboxes and
-- threads made of the kernel's. The library's own functions are parameters.
pub mod Blocking
pub mod Heap
pub mod Mailbox
pub mod Fetching
pub mod Posting
pub mod Preparing
pub mod Stopping
pub mod TimingOut
pub mod Fifo
pub mod FirstFetch
use Prim.Native.String.{String}
use martos.Common.{
  ℕ, ◌+◌, ◌-◌, ◌%◌, ◌^◌, Bool, true, false, not, ◌==◌, if◌then◌else◌, update, Option, none, some,
  bit_or,
}
use martos.Common.Int.{ℤ, pos, negsuc}
use martos.Memory.{
  Cmd, Run, Ptr, null, ok, err, null_pointer, endless, ◌>>=◌, ◌>>◌, pure, fail, assert, get, modify,
}
use martos.NodeList.{list_init}
use martos.Kernel.{
  Kernel, Signals, MsgPort, MsgPortAction, msgport_invalid, msgport_signal, msgport_ignore,
  timer_delay, on_memory,
}
use martos.Signal.{
  Wait, received, blocked, meets, signal_of, signal_allocate, signal_free, signal_wait,
  signal_wait_resume,
}
use martos.Task.{task_find, task_init, task_schedule}
use martos.Semaphore.{sem_init, sem_signal, sem_add_request}
use martos.MsgPort.{get_port, set_port, known_action, msgport_get, msgport_send}
use martos.Timer.{
  get_timer, set_timer, timer_get_clock, timer_allocate, timer_add, timer_abort, timer_free,
}
use martos.Init.{user_halt}

-- What the layer uses of the lwIP library: the heap and the counters of objects, on the library's
-- own state `H`, and the values of some of its macros.
pub record Lwip (H : Type 0) : Type 0 where
  pub mem_malloc : ℕ → H → Ptr × H
  pub mem_free : Ptr → H → H
  pub inc_used : H → H
  pub dec_used : H → H
  pub err_ok : ℕ
  pub arch_timeout : ℕ
  pub mbox_empty : ℕ

-- The kernel, the library's state, and the field `ptr` of each `sys_msg_t`.
pub record Layer (H : Type 0) : Type 0 where
  pub kernel : Kernel
  pub library : H
  pub payloads : Ptr → Ptr

abbrev pub lift_kernel : {H A : Type 0} → Run Kernel A → Layer H → Run (Layer H) A
lift_kernel (ok a k) s = ok a (record s { kernel = k })
lift_kernel (err f) s = err f

abbrev pub on_kernel : {H A : Type 0} → Cmd Kernel A → Cmd (Layer H) A
on_kernel c s = lift_kernel (c s.kernel) s

-- `sizeof (sys_msg_t)` and `sizeof (Task)`, with pointers of four bytes.
abbrev pub message_size : ℕ
message_size = 16

abbrev pub task_size : ℕ
task_size = 44

unfoldable pub sys_arch_abort : Cmd Kernel (Unit {0})
sys_arch_abort = user_halt

unfoldable pub sys_init : Cmd Kernel (Unit {0})
sys_init = pure tt

unfoldable pub sys_sem_valid : Ptr → Cmd Kernel ℕ
sys_sem_valid sem = pure 1

unfoldable pub sys_sem_set_invalid : Ptr → Cmd Kernel (Unit {0})
sys_sem_set_invalid sem = pure tt

unfoldable pub sys_sem_signal : Ptr → Cmd Kernel (Unit {0})
sys_sem_signal sem = sem_signal sem

unfoldable pub sys_mbox_valid : Ptr → Cmd Kernel ℕ
unfolding get_port
sys_mbox_valid mbox = do p ← get_port mbox; pure (if known_action p.action then 1 else 0)

unfoldable pub sys_mbox_set_invalid : Ptr → Cmd Kernel (Unit {0})
unfolding set_port
sys_mbox_set_invalid mbox = set_port mbox (λ p. record p { action = msgport_invalid })

-- `1 << signal_allocate(-1)`. With no signal left the shift is by -1, which is not defined in C;
-- on the processor the word is then 0.
unfoldable pub allocate_mask : Cmd Kernel Signals
allocate_mask = do signum ← signal_allocate (negsuc 0); pure (signal_of signum)

-- `timer_get_clock() - start_time`, a word of 32 bits.
unfoldable pub since : ℕ → Cmd Kernel ℕ
unfolding timer_get_clock
since start = do now ← timer_get_clock; pure ((now + 2 ^ 32 - start) % 2 ^ 32)

-- The timer of a call with a timeout; the value is `timer_signal`.
unfoldable pub arm_timer : Ptr → ℕ → Cmd Kernel Signals
unfolding get_timer set_timer
arm_timer timer timeout = do
  timer_allocate timer
  set_timer timer (λ t. record t { op = timer_delay })
  set_timer timer (λ t. record t { delay = timeout })
  t ← get_timer timer
  timer_add timer
  pure t.signal

unfoldable pub start_timeout : Ptr → ℕ → Cmd Kernel Signals
start_timeout timer timeout = if timeout == 0 then pure 0 else arm_timer timer timeout

unfoldable pub stop_timeout : Ptr → Signals → Cmd Kernel (Unit {0})
stop_timeout timer timer_signal =
    if timer_signal == 0 then pure tt else (timer_abort timer >> timer_free timer)

-- What a call with a timeout comes to: it returns a value, or it is blocked in `signal_wait`, with
-- its local variables `start_time` and `timer_signal` and the `nestcnt` of that call.
pub data Timed (A : Type 0) : Type 0 where
  returned : A → Timed A
  suspended : ℕ → Signals → ℤ → Timed A

module _ {H : Type 0} (lwip : Lwip H) where
  unfoldable pub sys_sem_new : Ptr → ℕ → Cmd (Layer H) ℕ
  sys_sem_new sem count = do
    on_kernel (sem_init sem (pos count))
    modify (λ s. record s { library = lwip.inc_used s.library })
    pure lwip.err_ok

  unfoldable pub sys_sem_free : Ptr → Cmd (Layer H) (Unit {0})
  sys_sem_free sem = modify (λ s. record s { library = lwip.dec_used s.library })

  unfoldable pub sys_mbox_new : Ptr → Cmd (Layer H) ℕ
  unfolding get_port set_port
  sys_mbox_new mbox = do
    p ← on_kernel (get_port mbox)
    on_kernel (on_memory (list_init p.message_list))
    on_kernel (set_port mbox (λ p. record p { signal = 0 }))
    on_kernel (set_port mbox (λ p. record p { action = msgport_ignore }))
    on_kernel (set_port mbox (λ p. record p { task = null }))
    modify (λ s. record s { library = lwip.inc_used s.library })
    pure lwip.err_ok

  unfoldable pub sys_mbox_free : Ptr → Cmd (Layer H) (Unit {0})
  unfolding get_port
  sys_mbox_free mbox = do
    p ← on_kernel (get_port mbox)
    on_kernel (signal_free p.signal)
    modify (λ s. record s { library = lwip.dec_used s.library })

  unfoldable pub malloc : ℕ → Cmd (Layer H) Ptr
  malloc size s =
      let (p, library') = lwip.mem_malloc size s.library in ok p (record s { library = library' })

  unfoldable pub free : Ptr → Cmd (Layer H) (Unit {0})
  free p = modify (λ s. record s { library = lwip.mem_free p s.library })

  -- `m->ptr = msg`
  unfoldable pub set_payload : Ptr → Ptr → Cmd (Layer H) (Unit {0})
  set_payload m msg s =
      if m == null
      then err null_pointer
      else ok tt (record s { payloads = update s.payloads m msg })

  unfoldable pub sys_mbox_post : Ptr → Ptr → Cmd (Layer H) (Unit {0})
  unfolding malloc set_payload
  sys_mbox_post mbox msg = do
    m ← malloc message_size
    set_payload m msg
    on_kernel (msgport_send mbox m)

  unfoldable pub sys_mbox_trypost : Ptr → Ptr → Cmd (Layer H) ℕ
  sys_mbox_trypost mbox msg = do sys_mbox_post mbox msg; pure lwip.err_ok

  -- What is done with a message `m` of a mailbox; `wanted` is whether there is a place for its
  -- payload, which is the value.
  unfoldable pub open_message : Ptr → Bool → Cmd (Layer H) (Option Ptr)
  unfolding free
  open_message m wanted = do
    payload ← get (λ s. s.payloads m)
    free m
    pure (if wanted then some payload else none)

  unfoldable pub sys_arch_mbox_tryfetch : Ptr → Bool → Cmd (Layer H) (ℕ × Option Ptr)
  sys_arch_mbox_tryfetch mbox wanted = do
    assert wanted
    m ← on_kernel (msgport_get mbox)
    if m == null
        then pure (lwip.mbox_empty, none)
        else (open_message m wanted >>= λ payload. pure (0, payload))
