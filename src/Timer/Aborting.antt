-- ===== src/Timer/Aborting.antt =====
-- `timer_abort` of src/timer.c.
use martos.Common.{◌≡◌, refl, subst, ◌≢◌, ◌⊎◌, inl, inr, true, false, List, ◌∷◌, ◌++◌, ==-eq_false}
use martos.Memory.{Ptr, null, Returns}
use martos.NodeList.Unlink.{unlinked, list_unlink_run}
use martos.Kernel.{Kernel, timers, disabled}
use martos.Kernel.Interrupts.{enable_protected}
use martos.Sched.{Inv}
use martos.Sched.Beside.{Beside, Beside-unlink, Sched-memory}
use martos.Timer.{timer_abort, is_added}
use martos.Timer.Order.{IsSorted, IsSorted-drop}
use martos.Timer.Queue.{TimerQueue, tick_of}

-- The queue holds the timers `ts` afterwards, and only links between timers have changed.
pub record Aborted (k : Kernel) (rs ws ts : List Ptr) (k' : Kernel) : Type 0 where
  pub inv : Inv k' rs ws
  pub queue : TimerQueue k' rs ws ts
  pub same_timers : k'.timer_objects ≡ k.timer_objects
  pub same_tasks : k'.tasks ≡ k.tasks
  pub same_running : k'.running ≡ k.running
  pub same_irq : k'.irq ≡ k.irq
  pub same_pendsv : k'.pendsv ≡ k.pendsv

-- The status of a timer says whether it is in the queue `ts`, and `left` is the queue without it.
abbrev pub Leaves : Ptr → Kernel → List Ptr → List Ptr → Type 0
Leaves timer k ts left =
    ((is_added (k.timer_objects timer).status ≡ false) × (left ≡ ts))
    ⊎ ((is_added (k.timer_objects timer).status ≡ true)
        × ((us : List Ptr) × (vs : List Ptr) × (ts ≡ us ++ timer ∷ vs) × (left ≡ us ++ vs)))

-- `timer_abort` ends well. A timer that is in the queue, with the status of one that was added,
-- leaves it, and the others stay in their order; for one with another status nothing happens. In
-- both cases no timer changes, so that the status of an aborted one still says that it was added, no
-- task changes, and the scheduler's invariant stays.
pub timer_abort-Aborted :
    (timer : Ptr) (k : Kernel) (rs ws ts left : List Ptr)
    → timer ≢ null
    → Inv k rs ws
    → TimerQueue k rs ws ts
    → Leaves timer k ts left
    → Returns (λ _ k'. Aborted k rs ws left k') (timer_abort timer k)
unfolding timer_abort
timer_abort-Aborted timer k rs ws ts left valid inv tq (inl (e, same)) =
    rw (==-eq_false timer null valid, e, enable_protected k (disabled k) inv.masked refl refl, same)
      (record {
        inv = record { sched = inv.sched; masked = inv.masked };
        queue = record { beside = tq.beside; sorted = tq.sorted };
        same_timers = refl;
        same_tasks = refl;
        same_running = refl;
        same_irq = refl;
        same_pendsv = refl;
      })
timer_abort-Aborted timer k rs ws ts left valid inv tq (inr (e, (us, vs, was, rest))) =
    let sorted = subst (λ zs. IsSorted (tick_of k.timer_objects) zs) was tq.sorted in
    let there = subst (λ zs. Beside k.mem rs ws timers zs) was tq.beside in
    let (kept, q, b) = Beside-unlink k.mem rs ws inv.sched.queues timers us timer vs there in
    let k1 : Kernel = record (disabled k) { mem = unlinked timer k.mem } in
    rw
      (
        ==-eq_false timer null valid,
        e,
        list_unlink_run k.mem timers us timer vs there.holds,
        enable_protected k k1 inv.masked refl refl,
        rest,
      )
      (record {
        inv = record {
          sched = Sched-memory k.mem k1.mem k.tasks k.running k.pendsv rs ws inv.sched q kept;
          masked = inv.masked;
        };
        queue = record {
          beside = b;
          sorted = IsSorted-drop (tick_of k.timer_objects) us timer vs sorted;
        };
        same_timers = refl;
        same_tasks = refl;
        same_running = refl;
        same_irq = refl;
        same_pendsv = refl;
      })
