-- ===== src/Semaphore.antt =====
-- src/semaphore.c: counting semaphores.
pub mod Requests
pub mod Answering
pub mod Release
pub mod Waiting
use martos.Common.{ℕ, ◌≡◌, Bool, true, false, not, ◌==◌, if◌then◌else◌, update}
use martos.Common.Int.{ℤ, pos, negsuc, ◌+ℤ◌, ◌-ℤ◌, ltb_ℤ}
use martos.Memory.{
  Cmd, Run, Ptr, null, ok, err, null_pointer, assertion, ◌>>=◌, ◌>>◌, pure, assert, get, modify,
}
use martos.NodeList.{list_init, list_add_tail, list_rem_head}
use martos.Kernel.{
  Kernel, Semaphore, SemaphoreRequest, Signals, sigf_single, on_memory, lift, disable, enable,
}
use martos.Signal.{Wait, signal_wait, signal_send}

abbrev pub write_count : Ptr → ℤ → Kernel → Kernel
write_count p n k = record k {
  semaphores = update k.semaphores p (record (k.semaphores p) { count = n });
}

-- `*sem`, and a write to `sem->count`; both fault at `NULL`.
unfoldable pub get_semaphore : Ptr → Cmd Kernel Semaphore
get_semaphore p k = if p == null then err null_pointer else ok (k.semaphores p) k

unfoldable pub set_count : Ptr → (ℤ → ℤ) → Cmd Kernel (Unit {0})
set_count p f k =
    if p == null then err null_pointer else ok tt (write_count p (f (k.semaphores p).count) k)

unfoldable pub sem_init : Ptr → ℤ → Cmd Kernel (Unit {0})
unfolding get_semaphore set_count
sem_init sem count = do
  set_count sem (λ _. count)
  s ← get_semaphore sem
  on_memory (list_init s.req_queue)

unfoldable pub sem_add_request : Ptr → Ptr → Cmd Kernel Bool
unfolding get_semaphore set_count disable
sem_add_request sem req = do
  disable
  set_count sem (λ n. n -ℤ pos 1)
  s ← get_semaphore sem
  if ltb_ℤ s.count (pos 0)
      then (on_memory (list_add_tail s.req_queue req) >> enable >> pure true)
      else (enable >> pure false)

-- What a call of `sem_wait` comes to: it has the semaphore, or it is in `signal_wait`, behind which
-- nothing follows.
pub data SemWait : Type 0 where
  acquired : SemWait
  waits : Wait → SemWait

-- `req` is the address of the local variable.
unfoldable pub sem_wait : Ptr → Ptr → Cmd Kernel SemWait
sem_wait sem req = do
  self ← get (λ k. k.running)
  modify (λ k. record k {
    requests = update k.requests req (record { waiter = self; signal = sigf_single });
  })
  added ← sem_add_request sem req
  if added then (signal_wait sigf_single >>= λ w. pure (waits w)) else pure acquired

-- The branch with requests in the queue.
unfoldable pub answer_request : Ptr → Cmd Kernel (Unit {0})
unfolding get_semaphore
answer_request sem = do
  s ← get_semaphore sem
  req ← on_memory (list_rem_head s.req_queue)
  assert (not (req == null))
  r ← get (λ k. k.requests req)
  self ← get (λ k. k.running)
  assert (not (self == r.waiter))
  assert (not (r.signal == 0))
  signal_send r.waiter r.signal

unfoldable pub sem_signal : Ptr → Cmd Kernel (Unit {0})
unfolding get_semaphore set_count disable
sem_signal sem = do
  disable
  set_count sem (λ n. n +ℤ pos 1)
  s ← get_semaphore sem
  if ltb_ℤ s.count (pos 0) then answer_request sem else pure tt
  enable
