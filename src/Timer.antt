-- ===== src/Timer.antt =====
-- src/timer.c: the queue of timers, with the clock of platforms/stm32f4-discovery/platform.c.
pub mod Order
pub mod Queue
pub mod Adding
pub mod Aborting
pub mod Delaying
pub mod Sleeping
pub mod Elapsed
pub mod Polling
pub mod Waking
use martos.Common.{
  ℕ, zero, suc, ◌+◌, ◌%◌, ◌^◌, ◌≡◌, Bool, true, false, not, ◌&&◌, ◌||◌, ◌==◌, if◌then◌else◌, update,
  Option, none, some, ltb, leb,
}
use martos.Common.Int.{ℤ, pos, negsuc}
use martos.Memory.{
  Cmd, Run, Ptr, null, ok, err, null_pointer, out_of_fuel, ◌>>=◌, ◌>>◌, pure, fail, assert, get,
  modify, get_next, get_prev,
}
use martos.NodeList.{list_init, list_unlink, list_add_tail, list_insert}
use martos.Kernel.{
  Kernel, Timer, TimerOperation, TimerStatus, timer_none, timer_delay, timer_alarm, timer_invalid,
  timer_initialized, timer_added, timer_done, timer_aborted, Signals, on_memory, lift, timers,
  disable, enable,
}
use martos.Signal.{
  Wait, received, blocked, is_allocated, signal_of, signal_allocate, signal_free, signal_send,
  signal_wait, signal_wait_resume,
}

abbrev pub write_timer : Ptr → Timer → Kernel → Kernel
write_timer p t k = record k { timer_objects = update k.timer_objects p t }

-- `*timer`, and a write to it; both fault at `NULL`.
unfoldable pub get_timer : Ptr → Cmd Kernel Timer
get_timer p k = if p == null then err null_pointer else ok (k.timer_objects p) k

unfoldable pub set_timer : Ptr → (Timer → Timer) → Cmd Kernel (Unit {0})
set_timer p f k =
    if p == null then err null_pointer else ok tt (write_timer p (f (k.timer_objects p)) k)

unfoldable pub timer_get_clock : Cmd Kernel ℕ
timer_get_clock = get (λ k. k.timer_now)

unfoldable pub timer_allocate : Ptr → Cmd Kernel (Unit {0})
unfolding set_timer
timer_allocate timer = do
  self ← get (λ k. k.running)
  set_timer timer (λ t. record t { task = self })
  signum ← signal_allocate (negsuc 0)
  assert (is_allocated signum)
  set_timer timer (λ t. record t { signal = signal_of signum })
  set_timer timer (λ t. record t { op = timer_none })
  set_timer timer (λ t. record t { status = timer_initialized })

unfoldable pub timer_free : Ptr → Cmd Kernel (Unit {0})
unfolding get_timer set_timer
timer_free timer = do
  set_timer timer (λ t. record t { task = null })
  t ← get_timer timer
  signal_free t.signal
  set_timer timer (λ t. record t { op = timer_none })
  set_timer timer (λ t. record t { status = timer_invalid })

abbrev pub known_op : TimerOperation → Bool
known_op timer_none = false
known_op _ = true

abbrev pub can_add : TimerStatus → Bool
can_add timer_initialized = true
can_add timer_done = true
can_add timer_aborted = true
can_add _ = false

abbrev pub is_delay : TimerOperation → Bool
is_delay timer_delay = true
is_delay _ = false

abbrev pub is_added : TimerStatus → Bool
is_added timer_added = true
is_added _ = false

-- The loop of `timer_add` from node `at`: the first timer with a later tick, or `NULL`.
unfoldable pub find_later : ℕ → ℕ → Ptr → Cmd Kernel Ptr
unfolding get_next
find_later zero tick at = fail out_of_fuel
find_later (suc fuel) tick at = do
  after ← on_memory (get_next at)
  let rest = find_later fuel tick after
  t ← get (λ k. k.timer_objects at)
  if after == null then pure null else if ltb tick t.tick then pure at else rest

-- A timer goes in front of `later`, or to the end of the queue if that is `NULL`.
unfoldable pub insert_before : Ptr → Ptr → Cmd Kernel (Unit {0})
unfolding get_prev
insert_before timer later =
    if later == null
    then on_memory (list_add_tail timers timer)
    else on_memory (get_prev later >>= λ before. list_insert timers timer before)

-- The part of `timer_add` with interrupts masked.
unfoldable pub add_timer : Ptr → Cmd Kernel (Unit {0})
unfolding get_timer set_timer disable get_next
add_timer timer = do
  disable
  set_timer timer (λ t. record t { status = timer_added })
  first ← on_memory (get_next timers.head)
  t ← get_timer timer
  fuel ← get (λ k. k.mem.bound)
  later ← find_later fuel t.tick first
  insert_before timer later
  enable

-- The tick of a delay is a sum of 32 bits.
unfoldable pub set_due : Ptr → Cmd Kernel (Unit {0})
unfolding get_timer set_timer timer_get_clock
set_due timer = do
  t ← get_timer timer
  clock ← timer_get_clock
  if is_delay t.op
      then set_timer timer (λ t. record t { tick = (clock + t.delay) % 2 ^ 32 })
      else pure tt

-- The test of the tick, and what follows it.
unfoldable pub start_timer : Ptr → Cmd Kernel (Unit {0})
unfolding get_timer set_timer timer_get_clock
start_timer timer = do
  t ← get_timer timer
  now ← timer_get_clock
  if leb t.tick now
      then set_timer timer (λ t. record t { status = timer_aborted })
      else add_timer timer

unfoldable pub timer_add : Ptr → Cmd Kernel (Unit {0})
unfolding get_timer
timer_add timer = do
  t ← get_timer timer
  assert (known_op t.op)
  assert (can_add t.status)
  set_due timer
  start_timer timer

unfoldable pub timer_abort : Ptr → Cmd Kernel (Unit {0})
unfolding get_timer disable
timer_abort timer = do
  disable
  t ← get_timer timer
  if is_added t.status then on_memory (list_unlink timer) else pure tt
  enable

-- What the loop of `timer_poll` does with an elapsed timer.
unfoldable pub finish_timer : Ptr → Cmd Kernel (Unit {0})
unfolding get_timer set_timer
finish_timer tnode = do
  on_memory (list_unlink tnode)
  set_timer tnode (λ t. record t { status = timer_done })
  t ← get_timer tnode
  signal_send t.task t.signal

-- The loop of `timer_poll` from node `tnode`; the next node is read from the timer that has just
-- been taken out.
unfoldable pub poll_loop : ℕ → ℕ → Ptr → Cmd Kernel (Unit {0})
unfolding get_next
poll_loop zero now tnode = fail out_of_fuel
poll_loop (suc fuel) now tnode = do
  after ← on_memory (get_next tnode)
  t ← get (λ k. k.timer_objects tnode)
  let rest = (on_memory (get_next tnode) >>= λ next. poll_loop fuel now next)
  if after == null
      then pure tt
      else if ltb now t.tick
      then pure tt
      else (finish_timer tnode >> rest)

unfoldable pub timer_poll : Cmd Kernel (Unit {0})
unfolding timer_get_clock disable get_next
timer_poll = do
  now ← timer_get_clock
  disable
  first ← on_memory (get_next timers.head)
  fuel ← get (λ k. k.mem.bound)
  poll_loop fuel now first
  enable

-- `timer_init`, with the clock of `timer_init_platform`.
unfoldable pub timer_init : Cmd Kernel (Unit {0})
timer_init = do on_memory (list_init timers); modify (λ k. record k { timer_now = 0 })

-- `TIM2_IRQHandler` once the hardware has its update flag set. The clock has 32 bits.
unfoldable pub tim2_irq_handler : Cmd Kernel (Unit {0})
tim2_irq_handler = do modify (λ k. record k { timer_now = (k.timer_now + 1) % 2 ^ 32 }); timer_poll

-- What a call of `timer_delay` comes to: it returns, or it is blocked in `signal_wait`.
pub data DelayWait : Type 0 where
  elapsed_delay : DelayWait
  delay_blocked : ℤ → DelayWait

-- `timer_delay` behind the call of `signal_wait`.
unfoldable pub after_delay : Ptr → Wait → Cmd Kernel DelayWait
after_delay timer (received _) = timer_free timer >> pure elapsed_delay
after_delay timer (blocked n) = pure (delay_blocked n)

-- `timer_delay` from where its task is switched in again, in the call `signal_wait(signals)`.
unfoldable pub timer_delay_resume : Ptr → Signals → ℤ → Cmd Kernel DelayWait
timer_delay_resume timer signals nestcnt =
    signal_wait_resume signals nestcnt >>= λ w. after_delay timer w

-- The function `timer_delay`, whose name the operation has. `timer` is the address of the local
-- variable.
unfoldable pub timer_delay_call : Ptr → ℕ → Cmd Kernel DelayWait
unfolding get_timer set_timer
timer_delay_call timer ticks = do
  timer_allocate timer
  set_timer timer (λ t. record t { op = timer_delay })
  set_timer timer (λ t. record t { delay = ticks })
  timer_add timer
  t ← get_timer timer
  if is_added t.status
      then (signal_wait t.signal >>= λ w. after_delay timer w)
      else (timer_free timer >> pure elapsed_delay)
