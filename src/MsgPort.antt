-- ===== src/MsgPort.antt =====
-- src/msgport.c: message ports.
pub mod Mailbox
pub mod Posting
pub mod Receiving
use martos.Common.{
  ℕ, zero, suc, ◌≡◌, Bool, true, false, not, ◌||◌, ◌&&◌, ◌==◌, if◌then◌else◌, update,
}
use martos.Common.Int.{ℤ, pos, negsuc}
use martos.Memory.{
  Cmd, Run, Ptr, null, ok, err, null_pointer, out_of_fuel, ◌>>=◌, ◌>>◌, pure, fail, assert, get,
  modify, get_next,
}
use martos.NodeList.{list_init, list_is_empty, list_add_tail, list_rem_head}
use martos.Kernel.{
  Kernel, MsgPort, MsgPortAction, msgport_signal, msgport_ignore, msgport_invalid, Signals,
  on_memory, lift, disable, enable,
}
use martos.Signal.{
  Wait, received, blocked, shifted, signal_allocate, signal_send, signal_wait, signal_wait_resume,
  is_allocated, signal_of,
}

-- `*port`, and a write to it; both fault at `NULL`.
unfoldable pub get_port : Ptr → Cmd Kernel MsgPort
get_port p k = if p == null then err null_pointer else ok (k.ports p) k

unfoldable pub set_port : Ptr → (MsgPort → MsgPort) → Cmd Kernel (Unit {0})
set_port p f k =
    if p == null
    then err null_pointer
    else ok tt (record k { ports = update k.ports p (f (k.ports p)) })

unfoldable pub msgport_init : Ptr → Cmd Kernel (Unit {0})
unfolding get_port set_port
msgport_init port = do
  signum ← signal_allocate (negsuc 0)
  assert (is_allocated signum)
  set_port port (λ p. record p { signal = signal_of signum })
  set_port port (λ p. record p { action = msgport_signal })
  self ← get (λ k. k.running)
  set_port port (λ p. record p { task = self })
  p ← get_port port
  on_memory (list_init p.message_list)

-- What a call of `msgport_wait` comes to: it returns a message, or it is blocked in `signal_wait`.
pub data PortWait : Type 0 where
  got : Ptr → PortWait
  port_blocked : ℤ → PortWait

-- Behind the loop: the first message is returned, and stays in the list.
unfoldable pub peek_message : Ptr → Cmd Kernel PortWait
unfolding get_port get_next
peek_message port = do
  p ← get_port port
  msg ← on_memory (get_next p.message_list.head)
  enable
  pure (got msg)

-- What follows a call of `signal_wait` that has run up to its end or to its block.
abbrev pub after_wait : Cmd Kernel PortWait → Wait → Cmd Kernel PortWait
after_wait rest (received _) = rest
after_wait rest (blocked n) = pure (port_blocked n)

-- The loop of `msgport_wait`.
unfoldable pub wait_message : ℕ → Ptr → Cmd Kernel PortWait
unfolding get_port
wait_message zero port = fail out_of_fuel
wait_message (suc fuel) port = do
  p ← get_port port
  let rest = wait_message fuel port
  empty ← on_memory (list_is_empty p.message_list)
  if empty then (signal_wait p.signal >>= λ w. after_wait rest w) else peek_message port

-- A second round finds no signal, so that two are enough.
abbrev pub wait_rounds : ℕ
wait_rounds = 2

unfoldable pub msgport_wait : Ptr → Cmd Kernel PortWait
unfolding disable
msgport_wait port = do disable; wait_message wait_rounds port

-- `msgport_wait` from where its task is switched in again, in the call `signal_wait(signals)`.
unfoldable pub msgport_wait_resume : Ptr → Signals → ℤ → Cmd Kernel PortWait
msgport_wait_resume port signals nestcnt =
    signal_wait_resume signals nestcnt >>= λ w. after_wait (wait_message wait_rounds port) w

unfoldable pub msgport_get : Ptr → Cmd Kernel Ptr
unfolding get_port disable
msgport_get port = do
  disable
  p ← get_port port
  msg ← on_memory (list_rem_head p.message_list)
  enable
  pure msg

abbrev pub known_action : MsgPortAction → Bool
known_action msgport_invalid = false
known_action _ = true

abbrev pub is_signal : MsgPortAction → Bool
is_signal msgport_signal = true
is_signal _ = false

-- The test for a task that waits on the port.
abbrev pub has_task : MsgPort → Bool
has_task p = not (p.task == null) && is_signal p.action

unfoldable pub msgport_send : Ptr → Ptr → Cmd Kernel (Unit {0})
unfolding get_port disable
msgport_send port message = do
  disable
  p ← get_port port
  assert (known_action p.action)
  on_memory (list_add_tail p.message_list message)
  p' ← get_port port
  if has_task p' then signal_send p'.task p'.signal else pure tt
  enable

unfoldable pub msgport_reply : Ptr → Cmd Kernel (Unit {0})
msgport_reply message = do
  port ← (λ k. if message == null then err null_pointer else ok (k.reply_ports message) k)
  assert (not (port == null))
  msgport_send port message
