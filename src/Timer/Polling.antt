-- ===== src/Timer/Polling.antt =====
-- `timer_poll` of src/timer.c: the elapsed timers leave the queue, and their tasks get their
-- signals.
use martos.Common.{
  ℕ, zero, suc, ◌<◌, ◌≡◌, refl, sym, ◌∙◌, ap, subst, ◌≢◌, inl, inr, false, List, [], ◌∷◌, arith,
  All, All_zip, length, Bool-cases, ltb, ==-eq_false,
}
use martos.Memory.{Ptr, null, Returns, Returns-bind, Returns-mono, get_next, get_next-eq, ◌>>=◌}
use martos.NodeList.Chain.{next_of, next_of-All, next-Chain}
use martos.Kernel.{Kernel, Timer, timer_done, timers, disabled, enable, on_memory}
use martos.Kernel.Interrupts.{enable_protected}
use martos.Signal.Sets.{Contains-refl, Contains-trans}
use martos.Sched.{Inv}
use martos.Sched.Beside.{disabled-Masked}
use martos.Timer.{timer_poll, poll_loop, finish_timer}
use martos.Timer.Order.{earlier, later, earlier-All_kept}
use martos.Timer.Queue.{TimerQueue, tick_of}
use martos.Timer.Elapsed.{IsServed, Runs, Step, finish_timer-Step}

-- The timers that have elapsed at `now` are done and served, and the others are in the queue.
pub record Polled (now : ℕ) (ts : List Ptr) (k k' : Kernel) : Type 0 where
  pub ready_now : List Ptr
  pub waiting_now : List Ptr
  pub inv : Inv k' ready_now waiting_now
  pub queue : TimerQueue k' ready_now waiting_now (later (tick_of k.timer_objects) now ts)
  pub done :
      All (λ t. (k'.timer_objects t).status ≡ timer_done) (earlier (tick_of k.timer_objects) now ts)
  pub served : All (λ t. IsServed k' (k.timer_objects t)) (earlier (tick_of k.timer_objects) now ts)
  pub runs : Runs ts k k'

module _ (now : ℕ) where
  -- The rest of the loop behind a step.
  Polled-after :
      (k : Kernel) (rs ws : List Ptr) (x : Ptr) (ts : List Ptr) (inv : Inv k rs ws)
      (tq : TimerQueue k rs ws (x ∷ ts)) (task : (k.timer_objects x).task ≢ null)
      → ltb now (k.timer_objects x).tick ≡ false
      → (k3 k' : Kernel) → Step k rs ws x ts inv tq task k3
      → Polled now ts k3 k'
      → Polled now (x ∷ ts) k k'
  unfolding earlier later
  Polled-after k rs ws x ts inv tq task e k3 k' s p =
      let x_out = tq.beside.holds.distinct.1.1.0 in
      let same = λ (y : Ptr) (ne : x ≢ y). s.runs.same_timers y ((λ q. ne (sym q)), tt) in
      let out = earlier-All_kept (tick_of k.timer_objects) (λ y. x ≢ y) now ts x_out in
      record {
        ready_now = p.ready_now;
        waiting_now = p.waiting_now;
        inv = p.inv;
        queue =
            rw e (
              subst (λ f. TimerQueue k' p.ready_now p.waiting_now (later f now ts)) s.ticks
                p.queue);
        done = rw e (
          ap (λ (z : Timer). z.status) (p.runs.same_timers x x_out) ∙ s.done,
          subst (λ f. All (λ y. (k'.timer_objects y).status ≡ timer_done) (earlier f now ts))
              s.ticks p.done,
        );
        served = rw e (
          Contains-trans (k'.tasks (k.timer_objects x).task).sig_recvd
              (k3.tasks (k.timer_objects x).task).sig_recvd (k.timer_objects x).signal
              (p.runs.keeps_signals (k.timer_objects x).task) s.served,
          All_zip (λ y. x ≢ y) (λ y. IsServed k' (k3.timer_objects y))
              (λ y. IsServed k' (k.timer_objects y)) (earlier (tick_of k.timer_objects) now ts)
              (λ y ne h. subst (IsServed k') (same y ne) h) out
              (subst (λ f. All (λ y. IsServed k' (k3.timer_objects y)) (earlier f now ts)) s.ticks
                p.served),
        );
        runs = record {
          same_timers = λ y o. p.runs.same_timers y o.1 ∙ s.runs.same_timers y (o.0, tt);
          keeps_signals = λ y.
              Contains-trans (k'.tasks y).sig_recvd (k3.tasks y).sig_recvd (k.tasks y).sig_recvd
                (p.runs.keeps_signals y) (s.runs.keeps_signals y);
          same_wait = λ y. p.runs.same_wait y ∙ s.runs.same_wait y;
          states = λ y. elim (p.runs.states y) [
            | inr r ↦ inr r
            | inl e ↦ elim (s.runs.states y) [ inl e2 ↦ inl (e ∙ e2) | inr r ↦ inr (e ∙ r) ]
          ];
          same_running = p.runs.same_running ∙ s.runs.same_running;
          same_irq = p.runs.same_irq ∙ s.runs.same_irq;
          same_nestcnt = p.runs.same_nestcnt ∙ s.runs.same_nestcnt;
        };
      }

  -- With no elapsed timer at the head nothing changes.
  Polled-none :
      (k : Kernel) (rs ws ts : List Ptr)
      → Inv k rs ws
      → TimerQueue k rs ws ts
      → later (tick_of k.timer_objects) now ts ≡ ts
      → earlier (tick_of k.timer_objects) now ts ≡ []
      → Polled now ts k k
  Polled-none k rs ws ts inv tq l e = record {
    ready_now = rs;
    waiting_now = ws;
    inv = inv;
    queue = subst (λ zs. TimerQueue k rs ws zs) (sym l) tq;
    done = subst (λ zs. All (λ t. (k.timer_objects t).status ≡ timer_done) zs) (sym e) tt;
    served = subst (λ zs. All (λ t. IsServed k (k.timer_objects t)) zs) (sym e) tt;
    runs = record {
      same_timers = λ y o. refl;
      keeps_signals = λ y. Contains-refl (k.tasks y).sig_recvd;
      same_wait = λ y. refl;
      states = λ y. inl refl;
      same_running = refl;
      same_irq = refl;
      same_nestcnt = refl;
    };
  }

  poll_loop-Polled :
      (fuel : ℕ) (k : Kernel) (rs ws ts : List Ptr)
      → length ts < fuel
      → Inv k rs ws
      → TimerQueue k rs ws ts
      → All (λ t. (k.timer_objects t).task ≢ null) ts
      → Returns (λ _ k'. Polled now ts k k') (poll_loop fuel now (next_of ts timers.tail) k)
  unfolding poll_loop earlier later
  poll_loop-Polled zero k rs ws ts f inv tq tasks = absurd (omega arith)
  poll_loop-Polled (suc fuel) k rs ws [] f inv tq tasks =
      rw (tq.beside.holds.tail_next) (Polled-none k rs ws [] inv tq refl refl)
  poll_loop-Polled (suc fuel) k rs ws (x ∷ ts) f inv tq tasks =
      let l = tq.beside.holds in
      let valid = l.valid.1.1.0 in
      let after = next-Chain k.mem x ts timers.tail l.chain.1 in
      let more : next_of ts timers.tail ≢ null =
        next_of-All (λ a. a ≢ null) ts timers.tail l.valid.1.1.1 l.valid.1.0 in
      elim (Bool-cases (ltb now (k.timer_objects x).tick)) [
        | inl e ↦
            rw (get_next-eq x k.mem valid, after, ==-eq_false (next_of ts timers.tail) null more, e)
              (Polled-none k rs ws (x ∷ ts) inv tq (rw e refl) (rw e refl))
        | inr e ↦
            rw (get_next-eq x k.mem valid, after, ==-eq_false (next_of ts timers.tail) null more, e)
              (Returns-bind (λ _ k3. Step k rs ws x ts inv tq tasks.0 k3)
                (λ _ k'. Polled now (x ∷ ts) k k') (finish_timer x k)
                (λ _. on_memory (get_next x) >>= λ next. poll_loop fuel now next)
                (finish_timer-Step k rs ws x ts inv tq tasks.0)
                λ _ k3 s.
                  let x_out = tq.beside.holds.distinct.1.1.0 in
                  let follow = s.next in
                  let still =
                    All_zip (λ y. x ≢ y) (λ y. (k.timer_objects y).task ≢ null)
                      (λ y. (k3.timer_objects y).task ≢ null) ts
                      (λ y ne h.
                        subst (λ (z : Timer). z.task ≢ null)
                          (sym (s.runs.same_timers y ((λ q. ne (sym q)), tt))) h)
                      x_out tasks.1 in
                  rw (get_next-eq x k3.mem valid, follow)
                    (Returns-mono (λ _ k'. Polled now ts k3 k') (λ _ k'. Polled now (x ∷ ts) k k')
                      (poll_loop fuel now (next_of ts timers.tail) k3)
                      (poll_loop-Polled fuel k3 s.ready_now s.waiting_now ts (omega arith)
                        s.after_inv s.queue still)
                      λ _ k' p. Polled-after k rs ws x ts inv tq tasks.0 e k3 k' s p))
      ]

-- `timer_poll` ends well within the fuel, which is more than the number of timers, if each timer
-- in the queue has a task. The timers whose ticks are not behind the clock leave the queue, are
-- marked as done, and their tasks have received their signals. The others stay in the queue, in
-- the order of their ticks. The scheduler's invariant stays, no other timer changes, no task
-- loses a signal or waits for others, and each keeps its state or becomes ready.
pub timer_poll-Polled :
    (k : Kernel) (rs ws ts : List Ptr)
    → Inv k rs ws
    → TimerQueue k rs ws ts
    → length ts < k.mem.bound
    → All (λ t. (k.timer_objects t).task ≢ null) ts
    → Returns (λ _ k'. Polled k.timer_now ts k k') (timer_poll k)
unfolding timer_poll
timer_poll-Polled k rs ws ts inv tq fuel tasks =
    let l = tq.beside.holds in
    rw (next-Chain k.mem timers.head ts timers.tail l.chain) (
      Returns-bind (λ _ k'. Polled k.timer_now ts (disabled k) k')
        (λ _ k'. Polled k.timer_now ts k k')
        (poll_loop k.mem.bound k.timer_now (next_of ts timers.tail) (disabled k)) (λ _. enable)
        (poll_loop-Polled k.timer_now k.mem.bound (disabled k) rs ws ts fuel
          (record { sched = inv.sched; masked = disabled-Masked k inv.masked })
          (record { beside = tq.beside; sorted = tq.sorted }) tasks)
        λ _ k2 p.
          rw (enable_protected k k2 inv.masked (p.runs.same_irq) (p.runs.same_nestcnt)) (record {
            ready_now = p.ready_now;
            waiting_now = p.waiting_now;
            inv = record { sched = p.inv.sched; masked = inv.masked };
            queue = record { beside = p.queue.beside; sorted = p.queue.sorted };
            done = p.done;
            served = p.served;
            runs = record {
              same_timers = p.runs.same_timers;
              keeps_signals = p.runs.keeps_signals;
              same_wait = p.runs.same_wait;
              states = p.runs.states;
              same_running = p.runs.same_running;
              same_irq = refl;
              same_nestcnt = refl;
            };
          }))
