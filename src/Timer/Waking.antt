-- ===== src/Timer/Waking.antt =====
-- `timer_poll` of src/timer.c wakes the tasks that wait for elapsed timers.
use mathlib.Core.Bool.{false≢true}
use martos.Common.{
  ◌<◌, ◌≤◌, ◌≡◌, sym, ◌∙◌, ap, ◌≢◌, inl, inr, true, List, All, All-Has, Has, length,
}
use martos.Memory.{Ptr, null, Returns, Returns-mono}
use martos.Kernel.{Kernel, timer_done, task_ready, task_waiting}
use martos.Signal.{meets}
use martos.Signal.Sets.{meets-Contains}
use martos.Sched.{Inv}
use martos.Sched.States.{IsUnserved}
use martos.Timer.{timer_poll}
use martos.Timer.Order.{earlier-Has, earlier}
use martos.Timer.Queue.{TimerQueue, tick_of}
use martos.Timer.Elapsed.{IsServed}
use martos.Timer.Polling.{Polled, timer_poll-Polled}

-- No sleeper is forgotten. If each timer in the queue has a task, and the task of one that has
-- elapsed waits for the timer's signal, then after `timer_poll` the task is ready and the timer is
-- done.
pub timer_poll-wakes :
    (k : Kernel) (rs ws ts : List Ptr)
    → Inv k rs ws
    → TimerQueue k rs ws ts
    → length ts < k.mem.bound
    → All (λ t. (k.timer_objects t).task ≢ null) ts
    → (t : Ptr) → Has t ts
    → (k.timer_objects t).tick ≤ k.timer_now
    → (k.tasks (k.timer_objects t).task).state ≡ task_waiting
    → meets (k.tasks (k.timer_objects t).task).sig_wait (k.timer_objects t).signal ≡ true
    → Returns
        (λ _ k'.
          ((k'.tasks (k.timer_objects t).task).state ≡ task_ready)
          × ((k'.timer_objects t).status ≡ timer_done))
        (timer_poll k)
timer_poll-wakes k rs ws ts inv tq fuel tasks t listed due waits awaited =
    Returns-mono (λ _ k'. Polled k.timer_now ts k k') _ (timer_poll k)
      (timer_poll-Polled k rs ws ts inv tq fuel tasks)
      λ _ k' p.
        let there = earlier-Has (tick_of k.timer_objects) k.timer_now t ts tq.sorted due listed in
        (woken k' p there, All-Has (λ x. (k'.timer_objects x).status ≡ timer_done) t _ there p.done)
  where
    w : Ptr
    w = (k.timer_objects t).task

    woken :
        (k' : Kernel)
        → Polled k.timer_now ts k k'
        → Has t (earlier (tick_of k.timer_objects) k.timer_now ts)
        → (k'.tasks w).state ≡ task_ready
    woken k' p there = elim (p.runs.states w) [
      | inr r ↦ r
      | inl same ↦
          let unserved =
            All-Has (λ x. IsUnserved (k'.tasks x)) w p.waiting_now
              (p.inv.sched.states.waiting_listed w (same ∙ waits)) p.inv.sched.states.unserved in
          let served = All-Has (λ x. IsServed k' (k.timer_objects x)) t _ there p.served in
          absurd (
            false≢true (
              sym (
                meets-Contains (k'.tasks w).sig_wait (k'.tasks w).sig_recvd
                  (k.timer_objects t).signal served unserved)
              ∙ ap (λ n. meets n (k.timer_objects t).signal) (p.runs.same_wait w)
              ∙ awaited))
    ]
