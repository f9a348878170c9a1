-- ===== src/Tests/Systems.antt =====
-- The results on the system as a whole, applied to the kernel of the example. Its ready task is the
-- idle one.
use martos.Common.{
  update, Bool, subst, ◌≡◌, refl, inl, inr, true, false, ◌==◌, if◌then◌else◌, none, some, [], ◌∷◌,
  arith,
}
use martos.Common.Int.{◌-ℤ◌, ℤ, pos, negsuc, ◌+ℤ◌}
use martos.Memory.{Ptr, Run, ok, err, Returns, ◌>>◌, get_next, get_prev, set_next, set_prev}
use martos.NodeList.{
  list_unlink, list_enqueue, link_before, find_lower, list_rem_head, list_get_head,
}
use martos.Kernel.{
  Signals, TaskState, task_invalid, task_initialized, task_running, task_waiting, get_task,
  set_task, disable, enable, reschedule,
}
use martos.Signal.{meets, signal_send, wake}
use martos.Task.{task_verify, taskcontext_verify}
use martos.Task.Verify.{IsVerified}
use martos.Switch.{systick_handler, pendsv_handler, switch_in, switch_out, switch_by, switch_exit}
use martos.Sched.{IsLive}
use martos.System.{System, send, tick, switch, run, Reaches, done, next}
use martos.System.Holding.{Holds, IsSaved}
use martos.System.Suspending.{some_eq, none_not_some}
use martos.System.Reaching.{Reaches-progress, Reaches-served}
use martos.System.Preempting.{IsAbove, Runs, send_preempts}
use martos.Tests.Example.{kernel, kernel_Inv, task_in, state_of, is_ready}

abbrev system : System
system = record { kernel = kernel; calls = λ a. if a == 11 then some (1, pos 0) else none }

pub live-IsVerified : (st : TaskState) → IsLive st → IsVerified (task_in st)
live-IsVerified task_invalid l = absurd l
live-IsVerified task_initialized l = absurd l
live-IsVerified _ l = record {
  above_bottom = omega arith;
  below_top = omega arith;
  single = refl;
  nested = omega arith;
  known = refl;
}

one_IsSaved :
    (b : Bool) (st : TaskState) (c : Signals × ℤ)
    → (if b then some (1, pos 0) else none) ≡ some c
    → IsSaved c.0 c.1 (task_in st)
unfolding ◌+ℤ◌
one_IsSaved true st c e =
    subst (λ p. IsSaved p.0 p.1 (task_in st)) (some_eq (1, pos 0) c e)
      (refl, (negsuc 0, refl, omega arith))
one_IsSaved false st c e = absurd (none_not_some c none refl e)

system-Holds : Holds 10 system
system-Holds = record {
  rs = 10 ∷ [];
  ws = 11 ∷ [];
  inv = kernel_Inv;
  checked = λ x l. live-IsVerified (state_of x) l;
  settled = inl refl;
  idle_state = inr refl;
  idle_calls = refl;
  saved = λ t signals n e. one_IsSaved (t == 11) (state_of t) (signals, n) e;
}

abbrev ticked : System
ticked = record system { kernel = record kernel { elapsed = 3 } }

tick_Reaches : Reaches 10 system ticked
unfolding run systick_handler
tick_Reaches = next tick done refl refl

above : IsAbove kernel 11
above x (inl e) = rw e refl
above x (inr r) = rw (is_ready x r) refl

Reaches-progress_example : Returns (λ _ s2. Reaches 10 system s2) (run (send 11 1) ticked)
Reaches-progress_example =
    Reaches-progress 10 system ticked (send 11 1) system-Holds tick_Reaches
      (λ e. omega arith, inl (refl, refl))

-- The state that an event leaves.
abbrev left_by : Run System (Unit {0}) → System
left_by (ok _ s) = s
left_by (err f) = system

abbrev sent : System
sent = left_by (run (send 11 1) system)

abbrev switched : System
switched = left_by (run (switch 1000) sent)

-- The running task wakes a task with a higher priority, and is switched out.
switched-Reaches : Reaches 10 system switched
unfolding run signal_send wake set_task get_task disable enable reschedule list_unlink list_enqueue
    get_next get_prev set_next set_prev link_before find_lower update ◌+ℤ◌ ◌-ℤ◌ pendsv_handler
    switch_in switch_out switch_by switch_exit task_verify taskcontext_verify list_rem_head
    list_get_head
switched-Reaches =
    next (switch 1000) (next (send 11 1) done (λ e. omega arith, inl (refl, refl)) refl)
      (refl, refl, (omega arith, omega arith)) refl

send_preempts_example :
    Returns (λ _ s'. Runs 10 11 s') ((run (send 11 1) >> run (switch 1000)) system)
send_preempts_example =
    send_preempts 10 system system-Holds 11 1 1000 refl above (omega arith, omega arith)

Reaches-served_example :
    ((t : Ptr) → (switched.kernel.tasks t).state ≡ task_running → t ≡ switched.kernel.running)
    × ((t : Ptr)
        → (switched.kernel.tasks t).state ≡ task_waiting
        → meets (switched.kernel.tasks t).sig_wait (switched.kernel.tasks t).sig_recvd ≡ false)
Reaches-served_example = Reaches-served 10 system switched system-Holds switched-Reaches
