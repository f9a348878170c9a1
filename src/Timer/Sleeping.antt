-- ===== src/Timer/Sleeping.antt =====
-- `timer_delay` of src/timer.c: a task sleeps.
use mathlib.Core.Bool.{false≢true}
use martos.Common.{
  ℕ, ◌+◌, ◌%◌, ◌^◌, ◌<◌, ◌≤◌, ◌≡◌, refl, sym, ◌∙◌, ap, subst, ◌≢◌, ◌⊎◌, inl, inr, true, false, List,
  [], ◌∷◌, ◌++◌, All, length, NotIn, ==-eq_false, update, update_self, update_other, if◌then◌else◌,
  arith,
}
use martos.Common.Int.{ℤ}
use martos.Common.Bits.{bit}
use martos.Memory.{
  Ptr, null, err, Run, assertion, Returns, Returns-bind, Returns-mono, ◌>>=◌, ◌>>◌, pure,
}
use martos.Kernel.{
  Kernel, Task, Timer, timer_delay, timer_added, task_running, task_waiting, timers, waiting,
}
use martos.NodeList.Chain.{SameOutside}
use martos.Kernel.Queues.{queue_nodes}
use martos.Signal.{meets, shifted, Wait, received, blocked, signal_wait}
use martos.Signal.Allocate.{IsWords, meets-shifted}
use martos.Sched.{Inv}
use martos.Sched.Beside.{Beside, Beside-waits}
use martos.Sched.Outcome.{Waited}
use martos.Sched.Waiting.{waiting_for, waits_for, signal_wait-Waited}
use martos.Timer.{
  timer_add, timer_delay_call, set_timer, get_timer, is_added, DelayWait, elapsed_delay,
  delay_blocked, after_delay, timer_free, known_op, can_add,
}
use martos.Timer.Order.{IsSorted-agree, with_timer, with_timer-All}
use martos.Timer.Queue.{TimerQueue, tick_of}
use martos.Timer.Adding.{due_tick, TimerAdded, timer_add-TimerAdded}
use martos.Timer.Delaying.{allocated, Owned, timer_allocate-Allocated}

module _ (timer : Ptr) (valid : timer ≢ null) (delay : ℕ) (k : Kernel) (rs ws ts : List Ptr) where
  abbrev self : Ptr
  self = k.running

  abbrev due : ℕ
  due = (k.timer_now + delay) % 2 ^ 32

  -- The task waits for signal `n`, which the timer is to send when its time has come.
  pub record Sleeps (n : ℕ) (w : DelayWait) (k' : Kernel) : Type 0 where
    pub nestcnt : ℤ
    pub call : w ≡ delay_blocked nestcnt
    pub inv : Inv k' rs (ws ++ self ∷ [])
    pub state : (k'.tasks self).state ≡ task_waiting
    pub waits : (k'.tasks self).sig_wait ≡ shifted n
    pub task : (k'.timer_objects timer).task ≡ self
    pub signal : (k'.timer_objects timer).signal ≡ shifted n
    pub tick : (k'.timer_objects timer).tick ≡ due
    pub status : (k'.timer_objects timer).status ≡ timer_added
    pub queue : TimerQueue k' rs (ws ++ self ∷ []) (with_timer (tick_of k'.timer_objects) timer ts)
    pub switches : (k'.irq ≡ true) × (k'.pendsv ≡ true)

  module _ (n : ℕ) (small : n < 16) (tq : TimerQueue k rs ws ts) (later : k.timer_now < due)
      (new : NotIn timer (timers.head ∷ timers.tail ∷ ts)) (out : NotIn timer (queue_nodes rs ws))
      (other : All (λ a. a ≢ self) (timers.head ∷ timers.tail ∷ timer ∷ ts)) where
    -- What `timer_add` leaves.
    record Armed (k3 : Kernel) : Type 0 where
      inv : Inv k3 rs ws
      same_running : k3.running ≡ self
      runs : (k3.tasks self).state ≡ task_running
      missing : bit (k3.tasks self).sig_recvd n ≡ false
      task : (k3.timer_objects timer).task ≡ self
      signal : (k3.timer_objects timer).signal ≡ shifted n
      tick : (k3.timer_objects timer).tick ≡ due
      status : (k3.timer_objects timer).status ≡ timer_added
      queue : TimerQueue k3 rs ws (with_timer (tick_of k3.timer_objects) timer ts)

    Waited-Sleeps :
        (k3 : Kernel)
        → Armed k3
        → (w : Wait) (k4 : Kernel)
        → Waited (shifted n) k3.id_nestcnt (waiting_for (shifted n) k3) rs ws w k4
        → Returns (Sleeps n) (after_delay timer w k4)
    unfolding after_delay
    Waited-Sleeps k3 a (received got) k4 took =
        let v = waits_for (shifted n) (k3.tasks k3.running) in
        absurd (
          false≢true (
            sym a.missing
            ∙ ap (λ t. bit (k3.tasks t).sig_recvd n) (sym a.same_running)
            ∙ sym (meets-shifted n (k3.tasks k3.running).sig_recvd small)
            ∙ ap (λ (t : Task). meets (shifted n) t.sig_recvd)
                (sym (update_self k3.tasks v k3.running))
            ∙ took.0))
    Waited-Sleeps k3 a (blocked m) k4
          (miss, c, inv, irq, pend, run, agree, state, waits, same, ports, objects, _) =
        let here = a.same_running in
        let of_timer = λ (f : Ptr → Timer). f timer in
        record {
          nestcnt = m;
          call = refl;
          inv = subst (λ t. Inv k4 rs (ws ++ t ∷ [])) here inv;
          state = subst (λ t. (k4.tasks t).state ≡ task_waiting) here state;
          waits = subst (λ t. (k4.tasks t).sig_wait ≡ shifted n) here waits;
          task = ap (λ (f : Ptr → Timer). (f timer).task) objects ∙ a.task;
          signal = ap (λ (f : Ptr → Timer). (f timer).signal) objects ∙ a.signal;
          tick = ap (λ (f : Ptr → Timer). (f timer).tick) objects ∙ a.tick;
          status = ap (λ (f : Ptr → Timer). (f timer).status) objects ∙ a.status;
          queue = rw objects (record {
            beside =
                Beside-waits k3.mem k4.mem rs ws timers
                  (with_timer (tick_of k3.timer_objects) timer ts) a.queue.beside self
                  (
                    other.0,
                    (
                      other.1.0,
                      with_timer-All (tick_of k3.timer_objects) (λ x. x ≢ self) timer ts other.1.1.0
                          other.1.1.1,
                    ),
                  )
                  (subst (λ t. SameOutside (waiting.head ∷ waiting.tail ∷ t ∷ ws) k3.mem k4.mem)
                    here same);
            sorted = a.queue.sorted;
          });
          switches = (irq, pend);
        }

    -- The kernel with the operation and the delay of the timer set.
    module _ (k1 : Kernel) (o : Owned timer valid k rs ws n k1) where
      abbrev f1 : Ptr → Timer
      f1 = update k1.timer_objects timer (record (k1.timer_objects timer) { op = timer_delay })

      abbrev f2 : Ptr → Timer
      f2 = update f1 timer (record (f1 timer) { delay = delay })

      abbrev filled : Kernel
      filled = record k1 { timer_objects = f2 }

      abbrev own : Timer
      own = record (allocated self n (k.timer_objects timer)) { op = timer_delay; delay = delay }

      f2_own : f2 timer ≡ own
      f2_own =
          update_self f1 (record (f1 timer) { delay = delay }) timer
          ∙ ap (λ (t : Timer). record t { delay = delay })
              (update_self k1.timer_objects (record (k1.timer_objects timer) { op = timer_delay })
                  timer
                ∙ ap (λ (t : Timer). record t { op = timer_delay }) o.own)

      f2_others : (x : Ptr) → x ≢ timer → f2 x ≡ k.timer_objects x
      f2_others x ne =
          update_other f1 (record (f1 timer) { delay = delay }) timer x ne
          ∙ (update_other k1.timer_objects (record (k1.timer_objects timer) { op = timer_delay })
                timer x ne
              ∙ o.others x ne)

      filled-TimerQueue : TimerQueue filled rs ws ts
      filled-TimerQueue = record {
        beside = subst (λ m. Beside m rs ws timers ts) (sym o.same_mem) tq.beside;
        sorted =
            IsSorted-agree (tick_of k.timer_objects) (tick_of f2) timer ts
              (λ x ne. ap (λ (t : Timer). t.tick) (f2_others x ne)) new.1.1 tq.sorted;
      }

      same_due : due_tick timer filled rs ws ts ≡ due
      same_due = rw (f2_own, o.same_clock) refl

      Armed-of :
          (k3 : Kernel)
          → TimerAdded timer filled rs ws ts (due_tick timer filled rs ws ts) k3
          → Armed k3
      Armed-of k3 (i, tick, tasks, run, signal, task, inl (early, _, _)) =
          let passed : due ≤ k.timer_now =
            subst (λ d. d ≤ k.timer_now) same_due
              (subst (λ t. due_tick timer filled rs ws ts ≤ t) o.same_clock early) in
          absurd (omega arith)
      Armed-of k3 (i, tick, tasks, run, signal, task, inr (_, status, queue)) = record {
        inv = i;
        same_running = run ∙ o.same_running;
        runs =
            ap (λ (f : Ptr → Task). (f self).state) tasks
            ∙ (ap (λ t. (k1.tasks t).state) (sym o.same_running) ∙ o.runs);
        missing =
            ap (λ (f : Ptr → Task). bit (f self).sig_recvd n) tasks
            ∙ (ap (λ t. bit (k1.tasks t).sig_recvd n) (sym o.same_running) ∙ o.missing);
        task = task ∙ ap (λ (t : Timer). t.task) f2_own;
        signal = signal ∙ ap (λ (t : Timer). t.signal) f2_own;
        tick = tick ∙ same_due;
        status = status;
        queue = queue;
      }

      armed : length ts < k.mem.bound → Returns (λ _ k3. Armed k3) (timer_add timer filled)
      armed fuel =
          Returns-mono
            (λ _ k3. TimerAdded timer filled rs ws ts (due_tick timer filled rs ws ts) k3)
            (λ _ k3. Armed k3) (timer_add timer filled)
            (timer_add-TimerAdded timer filled rs ws ts valid
              (record { sched = o.inv.sched; masked = o.inv.masked }) filled-TimerQueue
              (subst (λ m. length ts < m.bound) (sym o.same_mem) fuel) new out
              (ap (λ (t : Timer). known_op t.op) f2_own)
              (ap (λ (t : Timer). can_add t.status) f2_own))
            λ _ k3 d. Armed-of k3 d

      -- From the setting of the operation on.
      filled-Sleeps :
          length ts < k.mem.bound
          → Returns (Sleeps n) (
              (timer_add timer
                  >> (get_timer timer >>= λ t.
                      if is_added t.status
                      then (signal_wait t.signal >>= λ w. after_delay timer w)
                      else (timer_free timer >> pure elapsed_delay)))
                filled)
      unfolding get_timer
      filled-Sleeps fuel =
          Returns-bind (λ _ k3. Armed k3) (Sleeps n) (timer_add timer filled) _ (armed fuel)
            λ _ k3 a.
              rw (==-eq_false timer null valid, ap is_added a.status, a.signal)
                (Returns-bind (Waited (shifted n) k3.id_nestcnt (waiting_for (shifted n) k3) rs ws)
                  (Sleeps n) (signal_wait (shifted n) k3) (λ w. after_delay timer w)
                  (signal_wait-Waited (shifted n) k3 rs ws a.inv
                    (ap (λ t. (k3.tasks t).state) a.same_running ∙ a.runs))
                  (Waited-Sleeps k3 a))

  -- No signal is left, which an assertion finds, or the task sleeps.
  abbrev pub Delayed : Run Kernel DelayWait → Type 0
  Delayed r =
      (((j : ℕ) → j < 16 → bit (k.tasks self).sig_alloc j ≡ true) × (r ≡ err assertion))
      ⊎ ((n : ℕ) × (n < 16) × (bit (k.tasks self).sig_alloc n ≡ false) × Returns (Sleeps n) r)

  -- `timer_delay` of a running task, with a delay after which the clock of 32 bits shows a later time
  -- than now. If the task has no signal left, an assertion fails. If it has, the task waits for one
  -- that was free, and the timer is in the queue of timers at its place, with that signal and the
  -- task, and the sum of clock and delay as its tick. A switch is pending, and the scheduler's
  -- invariant and the order of the queue stay.
  pub timer_delay_call-Delayed :
      Inv k rs ws
      → (k.tasks self).state ≡ task_running
      → IsWords (k.tasks self)
      → TimerQueue k rs ws ts
      → length ts < k.mem.bound
      → k.timer_now < due
      → NotIn timer (timers.head ∷ timers.tail ∷ ts)
      → NotIn timer (queue_nodes rs ws)
      → All (λ a. a ≢ self) (timers.head ∷ timers.tail ∷ timer ∷ ts)
      → Delayed (timer_delay_call timer delay k)
  unfolding timer_delay_call set_timer
  timer_delay_call-Delayed inv runs words tq fuel later new out other =
      elim (timer_allocate-Allocated timer valid k rs ws inv runs words) [
        | inl (taken, run) ↦ rw run (inl (taken, refl))
        | inr (n, small, free, (k1, run, o)) ↦
            rw (run, ==-eq_false timer null valid, ==-eq_false timer null valid)
              (inr (n, small, free, filled-Sleeps n small tq later new out other k1 o fuel))
      ]
