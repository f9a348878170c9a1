-- ===== src/Signal.antt =====
-- The signal calls of src/task.c: signal_allocate, signal_free, signal_send and signal_wait.
pub mod Sets
pub mod Allocate
use martos.Common.{
  ℕ, zero, suc, ◌+◌, ◌%◌, ◌^◌, ◌≡◌, refl, Bool, true, false, not, ◌&&◌, ◌||◌, ◌==◌, if◌then◌else◌,
  bit_and, bit_or, ltb,
}
use martos.Common.Int.{ℤ, pos, negsuc, ltb_ℤ, ◌≤ℤ◌}
use martos.Memory.{Cmd, Ptr, null, ok, err, ◌>>=◌, ◌>>◌, pure, assert, get, modify}
use martos.NodeList.{list_unlink, list_enqueue, list_add_tail}
use martos.Kernel.{
  Kernel, Task, Signals, TaskState, task_ready, task_waiting, signals_width, sigf_single, without,
  ready, waiting, on_memory, get_task, set_task, disable, enable, reschedule,
}

-- `1 << n`, in a `Signals`
abbrev pub shifted : ℕ → Signals
shifted n = 2 ^ n % 2 ^ 16

-- `a & b` as a condition
abbrev pub meets : Signals → Signals → Bool
meets a b = not (bit_and a b == 0)

-- The loop of `signal_allocate` from `signal` downwards, with the `target` that it ends with.
unfoldable pub search_free : Signals → ℕ → Signals × ℤ
search_free alloc zero =
    if meets (shifted 0) alloc then (shifted 0, negsuc 0) else (shifted 0, pos 0)
search_free alloc (suc n) =
    let rest = search_free alloc n in
    if meets (shifted (suc n)) alloc then rest else (shifted (suc n), pos (suc n))

-- The choice of `target` and of the result.
unfoldable pub choose_signal : Signals → ℤ → Signals × ℤ
unfolding search_free
choose_signal alloc (pos n) = (shifted n, if meets (shifted n) alloc then negsuc 0 else pos n)
choose_signal alloc (negsuc _) = search_free alloc 15

-- What is done with a target that is not zero.
unfoldable pub mark_target : Signals → Cmd Kernel (Unit {0})
unfolding set_task disable
mark_target target = do
  self ← get (λ k. k.running)
  set_task self (λ t. record t { sig_alloc = bit_or t.sig_alloc target })
  set_task self (λ t. record t { sig_wait = without t.sig_wait target })
  disable
  set_task self (λ t. record t { sig_recvd = without t.sig_recvd target })
  enable

unfoldable pub mark_allocated : Signals → Cmd Kernel (Unit {0})
unfolding mark_target
mark_allocated target = if ltb 0 target then mark_target target else pure tt

-- `-1 <= signal && signal < SIGNALS_WIDTH`
abbrev pub in_width : ℤ → Bool
in_width s = not (ltb_ℤ s (negsuc 0)) && ltb_ℤ s (pos signals_width)

unfoldable pub signal_allocate : ℤ → Cmd Kernel ℤ
unfolding get_task
signal_allocate signal = do
  assert (in_width signal)
  t ← get_task (← get (λ k. k.running))
  let (target, result) = choose_signal t.sig_alloc signal
  mark_allocated target
  pure result

-- `-1 != signum`, and `1 << signum` of one that passes the test.
abbrev pub is_allocated : ℤ → Bool
is_allocated (pos _) = true
is_allocated (negsuc n) = not (n == 0)

abbrev pub signal_of : ℤ → Signals
signal_of (pos n) = shifted n
signal_of (negsuc _) = 0

unfoldable pub signal_free : Signals → Cmd Kernel (Unit {0})
unfolding get_task set_task
signal_free signals = do
  assert (bit_and signals sigf_single == 0)
  self ← get (λ k. k.running)
  t ← get_task self
  assert (bit_and signals t.sig_alloc == signals)
  set_task self (λ t. record t { sig_alloc = without t.sig_alloc signals })

abbrev pub is_waiting : TaskState → Bool
is_waiting task_waiting = true
is_waiting _ = false

-- The body of `signal_send` for a task that waits for one of the signals.
unfoldable pub wake : Ptr → Cmd Kernel (Unit {0})
unfolding set_task reschedule
wake task = do
  on_memory (list_unlink task)
  set_task task (λ t. record t { state = task_ready })
  on_memory (list_enqueue ready task)
  higher ← get (λ k. ltb_ℤ (k.mem.prio k.running) (k.mem.prio task))
  if higher then reschedule else pure tt

unfoldable pub signal_send : Ptr → Signals → Cmd Kernel (Unit {0})
unfolding get_task set_task disable
signal_send task signals = do
  disable
  set_task task (λ t. record t { sig_recvd = bit_or t.sig_recvd signals })
  t ← get_task task
  if is_waiting t.state && meets signals t.sig_wait then wake task else pure tt
  enable

-- A call of `signal_wait` runs up to its end, or up to the point where the task is switched out,
-- with the value of its local variable `nestcnt`.
pub data Wait : Type 0 where
  received : Signals → Wait
  blocked : ℤ → Wait

-- Behind the loop: the signals received are taken.
unfoldable pub take_signals : Signals → Cmd Kernel Wait
unfolding get_task set_task
take_signals signals = do
  self ← get (λ k. k.running)
  t ← get_task self
  let rcvd = bit_and signals t.sig_recvd
  set_task self (λ t. record t { sig_recvd = without t.sig_recvd rcvd })
  enable
  pure (received rcvd)

-- The body of the loop, up to `reschedule()`.
unfoldable pub block : Cmd Kernel Wait
unfolding set_task reschedule
block = do
  self ← get (λ k. k.running)
  set_task self (λ t. record t { state = task_waiting })
  on_memory (list_add_tail waiting self)
  nestcnt ← get (λ k. k.id_nestcnt)
  modify (λ k. record k { id_nestcnt = pos 0 })
  enable
  reschedule
  pure (blocked nestcnt)

-- The test of the loop, and what follows it.
unfoldable pub wait_loop : Signals → Cmd Kernel Wait
unfolding get_task
wait_loop signals = do
  t ← get_task (← get (λ k. k.running))
  if meets signals t.sig_recvd then take_signals signals else block

-- `signal_wait` from its start.
unfoldable pub signal_wait : Signals → Cmd Kernel Wait
unfolding set_task disable
signal_wait signals = do
  disable
  self ← get (λ k. k.running)
  set_task self (λ t. record t { sig_wait = signals })
  wait_loop signals

-- `signal_wait` from where the task is switched in again.
unfoldable pub signal_wait_resume : Signals → ℤ → Cmd Kernel Wait
unfolding disable
signal_wait_resume signals nestcnt = do
  disable
  modify (λ k. record k { id_nestcnt = nestcnt })
  wait_loop signals
