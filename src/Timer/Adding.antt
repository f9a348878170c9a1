-- ===== src/Timer/Adding.antt =====
-- `timer_add` of src/timer.c: a timer that has not elapsed gets its place in the queue.
use martos.Common.{
  ℕ, ◌+◌, ◌%◌, ◌^◌, ◌<◌, ◌≤◌, ◌≡◌, refl, ◌∙◌, ap, subst, ◌≢◌, ◌⊎◌, inl, inr, true, List, ◌∷◌, ◌++◌,
  arith, NotIn, length, Bool-cases, if◌then◌else◌, leb, update, update_self, update_other,
  ==-eq_false,
}
use martos.Memory.{Ptr, null, ok, Returns, Returns-mono}
use martos.NodeList.Chain.{IsList, next_of, next-Chain}
use martos.NodeList.Insert.{inserted}
use martos.Kernel.{Kernel, Timer, timer_added, timer_aborted, timers, disabled}
use martos.Kernel.Queues.{queue_nodes}
use martos.Kernel.Interrupts.{enable_protected, unprotected}
use martos.Sched.{Inv}
use martos.Sched.Beside.{Beside, Beside-insert, Sched-memory}
use martos.Timer.{
  timer_add, add_timer, start_timer, set_due, known_op, can_add, is_delay, write_timer,
}
use martos.Timer.Queue.{tick_of, TimerQueue, insert_before_run}
use martos.Timer.Order.{
  IsSorted-agree, with_timer, with_timer-IsSorted, earlier, later, earlier-append-later,
  find_later_run,
}

module _ (timer : Ptr) (k : Kernel) (rs ws ts : List Ptr) where
  -- The tick at which the timer elapses.
  abbrev pub due_tick : ℕ
  due_tick =
      if is_delay (k.timer_objects timer).op
      then (k.timer_now + (k.timer_objects timer).delay) % 2 ^ 32
      else (k.timer_objects timer).tick

  -- With its tick at `due`, the timer had elapsed already, or it is in the queue at its place.
  abbrev pub TimerAdded : ℕ → Kernel → Type 0
  TimerAdded due k' =
      Inv k' rs ws
      × ((k'.timer_objects timer).tick ≡ due)
      × (k'.tasks ≡ k.tasks)
      × (k'.running ≡ k.running)
      × ((k'.timer_objects timer).signal ≡ (k.timer_objects timer).signal)
      × ((k'.timer_objects timer).task ≡ (k.timer_objects timer).task)
      × (((due ≤ k.timer_now)
            × ((k'.timer_objects timer).status ≡ timer_aborted)
            × TimerQueue k' rs ws ts)
          ⊎ ((k.timer_now < due)
              × ((k'.timer_objects timer).status ≡ timer_added)
              × TimerQueue k' rs ws (with_timer (tick_of k'.timer_objects) timer ts)))

  module _ (valid : timer ≢ null) (inv : Inv k rs ws) (tq : TimerQueue k rs ws ts)
      (fuel : length ts < k.mem.bound) (new : NotIn timer (timers.head ∷ timers.tail ∷ ts))
      (out : NotIn timer (queue_nodes rs ws)) where
    -- The part of the call with interrupts masked.
    add_timer-TimerAdded :
        k.timer_now < (k.timer_objects timer).tick
        → (k' : Kernel) × (add_timer timer k ≡ ok tt k')
          × Inv k' rs ws
          × (k'.tasks ≡ k.tasks)
          × (k'.running ≡ k.running)
          × (k'.timer_objects timer ≡ record (k.timer_objects timer) { status = timer_added })
          × TimerQueue k' rs ws (with_timer (tick_of k'.timer_objects) timer ts)
    unfolding add_timer with_timer
    add_timer-TimerAdded before =
        let v : Timer = record (k.timer_objects timer) { status = timer_added } in
        let f = update k.timer_objects timer v in
        let k1 = write_timer timer v (disabled k) in
        let self = update_self k.timer_objects v timer in
        let n = tick_of f timer in
        let at =
          find_later_run k1 n timers.tail tq.beside.holds.tail_next tq.beside.holds.valid.1.0
            k.mem.bound timers.head ts fuel tq.beside.holds.valid.1.1 tq.beside.holds.chain in
        let xs = earlier (tick_of f) n ts in
        let ys = later (tick_of f) n ts in
        let whole = earlier-append-later (tick_of f) n ts in
        let l : IsList k.mem timers (xs ++ ys) = rw whole tq.beside.holds in
        let b : Beside k.mem rs ws timers (xs ++ ys) = rw whole tq.beside in
        let new' : NotIn timer (timers.head ∷ timers.tail ∷ xs ++ ys) = rw whole new in
        let (kept, q, c) =
          Beside-insert k.mem rs ws inv.sched.queues timers xs ys b timer valid new' out in
        let k2 = record k1 { mem = inserted (next_of ys timers.tail) timer k.mem } in
        (
          unprotected k k2,
          rw
              (
                ==-eq_false timer null valid,
                next-Chain k.mem timers.head ts timers.tail tq.beside.holds.chain,
                ==-eq_false timer null valid,
                at,
                insert_before_run k1 xs ys timer l valid new',
                enable_protected k k2 inv.masked refl refl,
              )
              refl,
          record {
            sched = Sched-memory k.mem k2.mem k.tasks k.running k.pendsv rs ws inv.sched q kept;
            masked = inv.masked;
          },
          refl,
          refl,
          self,
          record {
            beside = c;
            sorted = with_timer-IsSorted (tick_of f) timer ts (
                IsSorted-agree (tick_of k.timer_objects) (tick_of f) timer ts
                  (λ x ne. ap (λ (t : Timer). t.tick) (update_other k.timer_objects v timer x ne))
                  new.1.1 tq.sorted);
          },
        )

    start_timer-TimerAdded :
        Returns (λ _ k'. TimerAdded (k.timer_objects timer).tick k') (start_timer timer k)
    unfolding start_timer
    start_timer-TimerAdded = elim (Bool-cases (leb (k.timer_objects timer).tick k.timer_now)) [
      | inl e ↦
          let v : Timer = record (k.timer_objects timer) { status = timer_aborted } in
          let self = update_self k.timer_objects v timer in
          rw (==-eq_false timer null valid, e, ==-eq_false timer null valid)
            (
              record { sched = inv.sched; masked = inv.masked },
              ap (λ (t : Timer). t.tick) self,
              refl,
              refl,
              ap (λ (t : Timer). t.signal) self,
              ap (λ (t : Timer). t.task) self,
              inl (
                ground arith,
                ap (λ (t : Timer). t.status) self,
                record {
                  beside = tq.beside;
                  sorted =
                      IsSorted-agree (tick_of k.timer_objects)
                        (tick_of (update k.timer_objects timer v)) timer ts
                        (λ x ne.
                          ap (λ (t : Timer). t.tick) (update_other k.timer_objects v timer x ne))
                        new.1.1 tq.sorted;
                },
              ),
            )
      | inr e ↦
          let before : k.timer_now < (k.timer_objects timer).tick = ground arith in
          let (k', run, inv', tasks, running, self, tq') = add_timer-TimerAdded before in
          rw (==-eq_false timer null valid, e, run)
            (
              inv',
              ap (λ (t : Timer). t.tick) self,
              tasks,
              running,
              ap (λ (t : Timer). t.signal) self,
              ap (λ (t : Timer). t.task) self,
              inr (before, ap (λ (t : Timer). t.status) self, tq'),
            )
    ]

-- `timer_add` of a timer that is in no list, with a known operation and a status that allows it,
-- ends well within the fuel, which is more than the number of timers. A delay sets the tick to the
-- clock and the delay, as words of 32 bits. If the tick is not behind the clock, the timer is
-- marked as aborted and the queue stays. If it is, the timer is in the queue in front of the first
-- one with a later tick, and the queue is in the order of ticks. The scheduler's invariant stays.
pub timer_add-TimerAdded :
    (timer : Ptr) (k : Kernel) (rs ws ts : List Ptr)
    → timer ≢ null
    → Inv k rs ws
    → TimerQueue k rs ws ts
    → length ts < k.mem.bound
    → NotIn timer (timers.head ∷ timers.tail ∷ ts)
    → NotIn timer (queue_nodes rs ws)
    → known_op (k.timer_objects timer).op ≡ true
    → can_add (k.timer_objects timer).status ≡ true
    → Returns
        (λ _ k'. TimerAdded timer k rs ws ts (due_tick timer k rs ws ts) k')
        (timer_add timer k)
unfolding timer_add set_due
timer_add-TimerAdded timer k rs ws ts valid inv tq fuel new out op status =
    elim (Bool-cases (is_delay (k.timer_objects timer).op)) [
      | inr e ↦
          rw (==-eq_false timer null valid, op, status, ==-eq_false timer null valid, e)
            (start_timer-TimerAdded timer k rs ws ts valid inv tq fuel new out)
      | inl e ↦
          let n = (k.timer_now + (k.timer_objects timer).delay) % 2 ^ 32 in
          let v : Timer = record (k.timer_objects timer) { tick = n } in
          let k1 = write_timer timer v k in
          let self = update_self k.timer_objects v timer in
          rw
            (
              ==-eq_false timer null valid,
              op,
              status,
              ==-eq_false timer null valid,
              e,
              ==-eq_false timer null valid,
            )
            (subst (λ d. Returns (λ _ k'. TimerAdded timer k rs ws ts d k') (start_timer timer k1))
              (ap (λ (t : Timer). t.tick) self)
              (Returns-mono
                (λ _ k'. TimerAdded timer k1 rs ws ts (tick_of k1.timer_objects timer) k')
                (λ _ k'. TimerAdded timer k rs ws ts (tick_of k1.timer_objects timer) k')
                (start_timer timer k1)
                (start_timer-TimerAdded timer k1 rs ws ts valid
                  (record { sched = inv.sched; masked = inv.masked })
                  (record {
                    beside = tq.beside;
                    sorted =
                        IsSorted-agree (tick_of k.timer_objects) (tick_of k1.timer_objects) timer ts
                          (λ x ne.
                            ap (λ (t : Timer). t.tick) (update_other k.timer_objects v timer x ne))
                          new.1.1 tq.sorted;
                  })
                  fuel new out)
                λ _ k' (i, tick, tasks, run, signal, task, rest). (
                  i,
                  tick,
                  tasks,
                  run,
                  signal ∙ ap (λ (t : Timer). t.signal) self,
                  task ∙ ap (λ (t : Timer). t.task) self,
                  rest,
                )))
    ]
