-- ===== src/Tests/Timers.antt =====
-- The results on timers, applied to the kernel of the example.
use martos.Common.{◌≡◌, inl, ◌≢◌, refl, inr, [], ◌∷◌, arith}
use martos.Memory.{null, Returns}
use martos.Timer.{timer_add, timer_abort, timer_poll, timer_delay_call}
use martos.Timer.Sleeping.{Delayed, timer_delay_call-Delayed}
use martos.Timer.Aborting.{Aborted, timer_abort-Aborted}
use martos.Timer.Adding.{TimerAdded, timer_add-TimerAdded}
use martos.Kernel.{task_ready, timer_done}
use martos.Timer.Waking.{timer_poll-wakes}
use martos.Timer.Polling.{Polled, timer_poll-Polled}
use martos.Tests.Example.{kernel, kernel_Inv, timer_TimerQueue}

timer_add-TimerAdded_example :
    Returns
      (λ _ k'. TimerAdded 52 kernel (10 ∷ []) (11 ∷ []) (50 ∷ 51 ∷ []) 8 k')
      (timer_add 52 kernel)
timer_add-TimerAdded_example =
    timer_add-TimerAdded 52 kernel (10 ∷ []) (11 ∷ []) (50 ∷ 51 ∷ []) (λ e. omega arith) kernel_Inv
      timer_TimerQueue (omega arith) (ground arith) (ground arith) refl refl

timer_poll-Polled_example : Returns (λ _ k'. Polled 7 (50 ∷ 51 ∷ []) kernel k') (timer_poll kernel)
timer_poll-Polled_example =
    timer_poll-Polled kernel (10 ∷ []) (11 ∷ []) (50 ∷ 51 ∷ []) kernel_Inv timer_TimerQueue
      (omega arith) (λ e. omega arith, (λ e. omega arith, tt))

timer_abort-Aborted_example :
    Returns (λ _ k'. Aborted kernel (10 ∷ []) (11 ∷ []) (51 ∷ []) k') (timer_abort 50 kernel)
timer_abort-Aborted_example =
    timer_abort-Aborted 50 kernel (10 ∷ []) (11 ∷ []) (50 ∷ 51 ∷ []) (51 ∷ []) (λ e. omega arith)
      kernel_Inv timer_TimerQueue (inr (refl, ([], 51 ∷ [], refl, refl)))

valid_timer : 52 ≢ null
valid_timer e = omega arith

timer_delay_call-Delayed_example :
    Delayed 52 valid_timer 3 kernel
      (10 ∷ [])
      (11 ∷ [])
      (50 ∷ 51 ∷ [])
      (timer_delay_call 52 3 kernel)
timer_delay_call-Delayed_example =
    timer_delay_call-Delayed 52 valid_timer 3 kernel (10 ∷ []) (11 ∷ []) (50 ∷ 51 ∷ []) kernel_Inv
      refl (record { alloc = omega arith; wait = omega arith; recvd = omega arith })
      timer_TimerQueue (omega arith) (omega arith) (ground arith) (ground arith) (ground arith)

timer_poll-wakes_example :
    Returns
      (λ _ k'. ((k'.tasks 11).state ≡ task_ready) × ((k'.timer_objects 50).status ≡ timer_done))
      (timer_poll kernel)
timer_poll-wakes_example =
    timer_poll-wakes kernel (10 ∷ []) (11 ∷ []) (50 ∷ 51 ∷ []) kernel_Inv timer_TimerQueue
      (omega arith) (λ e. omega arith, (λ e. omega arith, tt)) 50 (inl refl) (omega arith) refl refl
