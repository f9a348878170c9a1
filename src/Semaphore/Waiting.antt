-- ===== src/Semaphore/Waiting.antt =====
-- `sem_wait`: the task has the semaphore, or it waits for the signal of its request.
use martos.Common.{◌≡◌, ◌∙◌, ap, ◌≢◌, Bool, true, false, List, ◌∷◌, NotIn, update, if◌then◌else◌}
use martos.Memory.{Ptr, null, ok, Returns, Returns-bind, Cmd, ◌>>=◌, pure}
use martos.Kernel.{Kernel, Task, task_running, sigf_single}
use martos.Kernel.Queues.{queue_nodes}
use martos.Signal.{signal_wait}
use martos.Sched.{Inv}
use martos.Sched.Outcome.{Waited}
use martos.Sched.Waiting.{waiting_for, signal_wait-Waited}
use martos.Semaphore.{SemWait, acquired, waits, sem_wait, sem_add_request}
use martos.Semaphore.Requests.{Requests, Added, sem_add_request-Added}

-- The kernel with the local variable of `sem_wait` at `req`.
abbrev pub requested : Ptr → Kernel → Kernel
requested req k = record k {
  requests = update k.requests req (record { waiter = k.running; signal = sigf_single });
}

module _ (sem : Ptr) (k : Kernel) (valid : sem ≢ null) (req : Ptr) (rs ws rq : List Ptr) where
  -- `k'` is the kernel after the call, and `k1` the one between the two calls in it.
  abbrev pub Waits : SemWait → Kernel → Type 0
  Waits acquired k' = Added sem (requested req k) valid req rs ws rq false k'
  Waits (waits w) k' =
      (k1 : Kernel) × Added sem (requested req k) valid req rs ws rq true k1
      × Waited sigf_single k1.id_nestcnt (waiting_for sigf_single k1) rs ws w k'

  -- What `sem_wait` does once it knows whether its request was added.
  abbrev continued : Bool → Cmd Kernel SemWait
  continued added =
      if added then (signal_wait sigf_single >>= λ w. pure (waits w)) else pure acquired

  -- `sem_wait` of the running task ends well. The task has the semaphore if the count was above
  -- zero. If not, its request is at the end of the queue, with the task and SIGF_SINGLE in it, and
  -- the call goes on as `signal_wait` of that signal does, which keeps the scheduler's invariant.
  pub sem_wait-Waits :
      Inv k rs ws
      → (k.tasks k.running).state ≡ task_running
      → Requests k rs ws sem rq
      → req ≢ null
      → NotIn req ((k.semaphores sem).req_queue.head ∷ (k.semaphores sem).req_queue.tail ∷ rq)
      → NotIn req (queue_nodes rs ws)
      → Returns Waits (sem_wait sem req k)
  unfolding sem_wait
  sem_wait-Waits inv runs r fresh new out =
      Returns-bind (Added sem (requested req k) valid req rs ws rq) Waits
        (sem_add_request sem req (requested req k)) continued
        (sem_add_request-Added sem (requested req k) valid req rs ws rq
          (record { sched = inv.sched; masked = inv.masked })
          (record { beside = r.beside; enough = r.enough }) fresh new out)
        next
    where
      next :
          (added : Bool) (k1 : Kernel)
          → Added sem (requested req k) valid req rs ws rq added k1
          → Returns Waits (continued added k1)
      next false k1 a = a
      next true k1 (inv1, count, tasks, same, reqs, how) =
          Returns-bind (Waited sigf_single k1.id_nestcnt (waiting_for sigf_single k1) rs ws) Waits
            (signal_wait sigf_single k1) (λ w k'. ok (waits w) k')
            (signal_wait-Waited sigf_single k1 rs ws inv1 (
              ap (λ (f : Ptr → Task). (f k1.running).state) tasks
              ∙ (ap (λ p. (k.tasks p).state) same ∙ runs)))
            λ w k' h. (k1, (inv1, count, tasks, same, reqs, how), h)
