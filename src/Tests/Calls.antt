-- ===== src/Tests/Calls.antt =====
-- The results on the kernel calls and the task switch, applied to the kernel of the example.
use Prim.Native.String.{String}
use martos.Common.{none, some, ◌==◌, if◌then◌else◌, ◌⊎◌, ◌≢◌}
use martos.Memory.{err, assertion, null_pointer, null, Ptr}
use martos.NodeList.Find.{first_named}
use martos.Signal.{signal_free}
use martos.Sched.Freeing.{Freed, signal_free-Freed}
use martos.Task.{task_find, task_init}
use martos.Task.Finding.{found, task_find-found, task_init-Fails}
use martos.Task.{task_set_prio}
use martos.Sched.Priority.{Reprioritised, task_set_prio-Reprioritised}
use martos.Init.{martos_pre}
use martos.Init.Start.{martos_pre-Fails}
use martos.Tests.Example.{mem, ready-IsList, waiting-IsList}
use martos.Common.{◌≡◌, refl, inl, inr, true, Has, [], ◌∷◌, arith}
use martos.Common.Int.{pos, negsuc, ◌+ℤ◌}
use martos.Memory.{Ptr, Returns}
use martos.Signal.{signal_send, signal_wait, signal_wait_resume, signal_allocate}
use martos.Signal.Allocate.{IsWords}
use martos.Task.{task_schedule, known_state}
use martos.Task.Verify.{IsVerified}
use martos.Switch.{pendsv_handler}
use martos.Sched.Send.{Sent, signal_send-Sent}
use martos.Sched.Outcome.{Waited}
use martos.Sched.Waiting.{waiting_for, signal_wait-Waited, signal_wait_resume-Waited}
use martos.Sched.Schedule.{Scheduled, task_schedule-Scheduled}
use martos.Sched.Allocating.{Any, One, signal_allocate-Any, signal_allocate-One}
use martos.Sched.Leaving.{Switched}
use martos.Sched.Handler.{candidates, pendsv_handler-Switched}
use martos.Tests.Example.{kernel, kernel_Inv, state_of}

known : (x : Ptr) → Has x (12 ∷ 10 ∷ []) → known_state (state_of x) ≡ true
known x (inl e) = rw e refl
known x (inr (inl e)) = rw e refl
known x (inr (inr h)) = absurd h

verified : (x : Ptr) → Has x (12 ∷ 10 ∷ []) → IsVerified (kernel.tasks x)
verified x h = record {
  above_bottom = omega arith;
  below_top = omega arith;
  single = refl;
  nested = omega arith;
  known = known x h;
}

new_IsVerified : IsVerified (kernel.tasks 13)
new_IsVerified = record {
  above_bottom = omega arith;
  below_top = omega arith;
  single = refl;
  nested = omega arith;
  known = refl;
}

words : IsWords (kernel.tasks 12)
words = record { alloc = omega arith; wait = omega arith; recvd = omega arith }

pendsv_handler-Switched_example :
    Returns
      (λ frame k'. Switched kernel (11 ∷ []) (candidates kernel (10 ∷ [])) frame k')
      (pendsv_handler 1000 kernel)
pendsv_handler-Switched_example =
    pendsv_handler-Switched kernel (10 ∷ []) (11 ∷ []) 1000 kernel_Inv verified
      (verified 12 (inl refl)) (λ ne. absurd (ne refl))

-- Task 11 waits for signal 0.
signal_send-Sent_example :
    Returns (λ _ k'. Sent 11 1 kernel (10 ∷ []) (11 ∷ []) k') (signal_send 11 1 kernel)
signal_send-Sent_example =
    signal_send-Sent 11 1 kernel (10 ∷ []) (11 ∷ []) kernel_Inv (λ e. omega arith)

signal_wait-Waited_example :
    Returns (Waited 4 (negsuc 0) (waiting_for 4 kernel) (10 ∷ []) (11 ∷ [])) (signal_wait 4 kernel)
signal_wait-Waited_example = signal_wait-Waited 4 kernel (10 ∷ []) (11 ∷ []) kernel_Inv refl

signal_wait_resume-Waited_example :
    Returns (Waited 1 (negsuc 0) kernel (10 ∷ []) (11 ∷ [])) (signal_wait_resume 1 (pos 0) kernel)
unfolding ◌+ℤ◌
signal_wait_resume-Waited_example =
    signal_wait_resume-Waited 1 kernel (10 ∷ []) (11 ∷ []) kernel_Inv refl (negsuc 0) (pos 0) refl
      (omega arith) refl

task_schedule-Scheduled_example :
    Returns (λ _ k'. Scheduled 13 kernel (10 ∷ []) (11 ∷ []) k') (task_schedule 13 kernel)
task_schedule-Scheduled_example =
    task_schedule-Scheduled 13 kernel (10 ∷ []) (11 ∷ []) kernel_Inv (omega arith) refl
      new_IsVerified (omega arith)

signal_allocate-Any_example :
    Returns
      (Any kernel (10 ∷ []) (11 ∷ []) kernel_Inv refl words)
      (signal_allocate (negsuc 0) kernel)
signal_allocate-Any_example = signal_allocate-Any kernel (10 ∷ []) (11 ∷ []) kernel_Inv refl words

signal_allocate-One_example :
    Returns
      (One kernel (10 ∷ []) (11 ∷ []) kernel_Inv refl words 3)
      (signal_allocate (pos 3) kernel)
signal_allocate-One_example =
    signal_allocate-One kernel (10 ∷ []) (11 ∷ []) kernel_Inv refl words 3 (omega arith)

signal_free-Freed_example :
    Returns (λ _ k'. Freed 8 kernel (10 ∷ []) (11 ∷ []) k') (signal_free 8 kernel)
signal_free-Freed_example =
    signal_free-Freed 8 kernel (10 ∷ []) (11 ∷ []) kernel_Inv refl words refl refl

-- The name of each task in the two lists.
abbrev name_of : Ptr → String
name_of a = if a == 10 then "low" else "high"

task_find-found_example :
    task_find (some "high") kernel ≡ found "high" name_of (10 ∷ []) (11 ∷ []) kernel
task_find-found_example =
    task_find-found "high" name_of kernel (10 ∷ []) (11 ∷ []) kernel_Inv.masked ready-IsList
      waiting-IsList (omega arith) (omega arith) (refl, tt) (refl, tt)

-- No task of the lists has the name "new".
task_init-Fails_example :
    (task_init 13 none (pos 1) 2000 400 kernel ≡ err assertion)
    × (((first_named mem "new" name_of (10 ∷ []) ≡ null)
          × (first_named mem "new" name_of (11 ∷ []) ≡ null)
          × (task_init 13 (some "new") (pos 1) 2000 400 kernel ≡ err null_pointer))
        ⊎ (((first_named mem "new" name_of (10 ∷ []) ≢ null)
              ⊎ (first_named mem "new" name_of (11 ∷ []) ≢ null))
            × (task_init 13 (some "new") (pos 1) 2000 400 kernel ≡ err assertion)))
task_init-Fails_example =
    task_init-Fails "new" name_of kernel (10 ∷ []) (11 ∷ []) kernel_Inv.masked ready-IsList
      waiting-IsList (omega arith) (omega arith) (refl, tt) (refl, tt) 13 (pos 1) 2000 400
      (λ e. omega arith) (λ e. omega arith)

martos_pre-Fails_example : martos_pre 13 2000 kernel ≡ err null_pointer
martos_pre-Fails_example = martos_pre-Fails 13 2000 kernel (λ e. omega arith) refl (omega arith)

-- The running task lowers its priority.
task_set_prio-Reprioritised_example :
    Returns
      (λ _ k'.
        Reprioritised 12 (pos 0) kernel (10 ∷ []) (11 ∷ []) k'
        × ((12 ≢ kernel.running) ⊎ (k'.pendsv ≡ true)))
      (task_set_prio 12 (pos 0) kernel)
task_set_prio-Reprioritised_example =
    task_set_prio-Reprioritised 12 (pos 0) kernel (10 ∷ []) (11 ∷ []) (λ e. omega arith) kernel_Inv
      (λ e. cc)
