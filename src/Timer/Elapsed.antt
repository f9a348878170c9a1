-- ===== src/Timer/Elapsed.antt =====
-- One elapsed timer in the loop of `timer_poll` of src/timer.c: it leaves the queue, and its task
-- gets its signal.
use martos.Common.{
  ◌≡◌, sym, ◌∙◌, ap, subst, ◌≢◌, ◌⊎◌, inl, inr, List, [], ◌∷◌, ◌++◌, NotIn, update, update_self,
  update_other, ==-eq_false,
}
use native.Mathlib.Decide.{ℕ_discrete}
use martos.Memory.{Ptr, null, Returns, Returns-mono}
use martos.NodeList.Chain.{next_of, next-Chain}
use martos.NodeList.Unlink.{unlinked, list_unlink_run}
use martos.NodeList.Order.{enqueued}
use martos.Kernel.{Kernel, Task, Timer, timer_done, timers, task_ready}
use martos.Signal.{signal_send}
use martos.Signal.Sets.{Contains, Contains-refl, Contains-right, Contains-left}
use martos.Sched.{Inv}
use martos.Sched.Beside.{Beside, Beside-pop, Beside-kept, Beside-woken, Sched-memory}
use martos.Sched.Send.{Sent, Delivered, signal_send-Sent}
use martos.Timer.{finish_timer, write_timer}
use martos.Timer.Order.{IsSorted}
use martos.Timer.Queue.{TimerQueue, tick_of}

-- The timer's task has the timer's signal.
abbrev pub IsServed : Kernel → Timer → Type 0
IsServed k t = Contains (k.tasks t.task).sig_recvd t.signal

-- From `k` to `k'` only the timers `ts` may change, no task loses a signal, and a task keeps its state
-- or becomes ready.
pub record Runs (ts : List Ptr) (k k' : Kernel) : Type 0 where
  pub same_timers : (x : Ptr) → NotIn x ts → k'.timer_objects x ≡ k.timer_objects x
  pub keeps_signals : (x : Ptr) → Contains (k'.tasks x).sig_recvd (k.tasks x).sig_recvd
  pub same_wait : (x : Ptr) → (k'.tasks x).sig_wait ≡ (k.tasks x).sig_wait
  pub states :
      (x : Ptr) → ((k'.tasks x).state ≡ (k.tasks x).state) ⊎ ((k'.tasks x).state ≡ task_ready)
  pub same_running : k'.running ≡ k.running
  pub same_irq : k'.irq ≡ k.irq
  pub same_nestcnt : k'.id_nestcnt ≡ k.id_nestcnt

abbrev finished : Timer → Timer
finished t = record t { status = timer_done }

-- One elapsed timer: from the head of the queue to the end of its `signal_send`.
module _ (k : Kernel) (rs ws : List Ptr) (x : Ptr) (ts : List Ptr) (inv : Inv k rs ws)
    (tq : TimerQueue k rs ws (x ∷ ts)) (task : (k.timer_objects x).task ≢ null) where
  abbrev t : Timer
  t = k.timer_objects x

  abbrev taken_out : Kernel
  taken_out = write_timer x (finished t) (record k { mem = unlinked x k.mem })

  x_valid : x ≢ null
  x_valid = tq.beside.holds.valid.1.1.0

  x_out : NotIn x ts
  x_out = tq.beside.holds.distinct.1.1.0

  same_ticks :
      (f : Ptr → Timer)
      → f ≡ update k.timer_objects x (finished t)
      → tick_of f ≡ tick_of k.timer_objects
  same_ticks f e = ap (λ (g : Ptr → Timer). tick_of g) e ∙ pointwise
    where
      at : (y : Ptr) → (update k.timer_objects x (finished t) y).tick ≡ (k.timer_objects y).tick
      at y = elim (ℕ_discrete y x) [
        | yes p ↦
            subst (λ a. (update k.timer_objects x (finished t) a).tick ≡ (k.timer_objects a).tick)
              (sym p) (ap (λ (z : Timer). z.tick) (update_self k.timer_objects (finished t) x))
        | no ne ↦ ap (λ (z : Timer). z.tick) (update_other k.timer_objects (finished t) x y ne)
      ]

      pointwise : tick_of (update k.timer_objects x (finished t)) ≡ tick_of k.timer_objects
      pointwise = λ i y. at y i

  -- What holds once the signal is sent.
  pub record Step (k3 : Kernel) : Type 0 where
    pub ready_now : List Ptr
    pub waiting_now : List Ptr
    pub after_inv : Inv k3 ready_now waiting_now
    pub queue : TimerQueue k3 ready_now waiting_now ts
    pub ticks : tick_of k3.timer_objects ≡ tick_of k.timer_objects
    pub next : k3.mem.next x ≡ next_of ts timers.tail
    pub bound : k3.mem.bound ≡ k.mem.bound
    pub done : (k3.timer_objects x).status ≡ timer_done
    pub served : IsServed k3 t
    pub runs : Runs (x ∷ []) k k3

  out_Inv : Inv taken_out rs ws
  out_Inv =
      let (_, kept, q, _) = Beside-pop k.mem rs ws inv.sched.queues timers x ts tq.beside in
      record {
        sched = Sched-memory k.mem taken_out.mem k.tasks k.running k.pendsv rs ws inv.sched q kept;
        masked = inv.masked;
      }

  out_Beside : Beside taken_out.mem rs ws timers ts
  out_Beside = let (_, _, _, b) = Beside-pop k.mem rs ws inv.sched.queues timers x ts tq.beside in b

  own-Runs :
      (k3 : Kernel)
      → Delivered t.task t.signal taken_out rs ws k3
      → ((k3.tasks t.task).state ≡ (k.tasks t.task).state) ⊎ ((k3.tasks t.task).state ≡ task_ready)
      → Runs (x ∷ []) k k3
  own-Runs k3 d own = record {
    same_timers = λ y out.
        ap (λ (f : Ptr → Timer). f y) d.same_timers
        ∙ update_other k.timer_objects (finished t) x y out.0;
    keeps_signals = λ y. elim (ℕ_discrete y t.task) [
      | yes e ↦
          subst (λ a. Contains (k3.tasks a).sig_recvd (k.tasks a).sig_recvd) (sym e)
            (subst (λ z. Contains z (k.tasks t.task).sig_recvd) (sym d.received)
              (Contains-left (k.tasks t.task).sig_recvd t.signal))
      | no ne ↦
          subst (λ (a : Task). Contains a.sig_recvd (k.tasks y).sig_recvd) (sym (d.others y ne))
            (Contains-refl (k.tasks y).sig_recvd)
    ];
    same_wait = d.preserves.same_wait;
    states = λ y. elim (ℕ_discrete y t.task) [
      | yes e ↦
          subst (λ a. ((k3.tasks a).state ≡ (k.tasks a).state) ⊎ ((k3.tasks a).state ≡ task_ready))
            (sym e) own
      | no ne ↦ inl (ap (λ (a : Task). a.state) (d.others y ne))
    ];
    same_running = d.same_running;
    same_irq = d.same_irq;
    same_nestcnt = d.same_nestcnt;
  }

  next_after :
      (k3 : Kernel)
      → Delivered t.task t.signal taken_out rs ws k3
      → k3.mem.next x ≡ next_of ts timers.tail
  next_after k3 d =
      let l = tq.beside.holds in
      (d.same_links x tq.beside.apart.1.1.0).0
      ∙ update_other k.mem.next (k.mem.next x) (k.mem.prev x) x
          (λ e. l.distinct.0.1.0 (sym (e ∙ l.chain.0.1)))
      ∙ next-Chain k.mem x ts timers.tail l.chain.1

  Step-with :
      (k3 : Kernel) (rs' ws' : List Ptr)
      → Inv k3 rs' ws'
      → Beside k3.mem rs' ws' timers ts
      → Delivered t.task t.signal taken_out rs ws k3
      → ((k3.tasks t.task).state ≡ (k.tasks t.task).state) ⊎ ((k3.tasks t.task).state ≡ task_ready)
      → Step k3
  Step-with k3 rs' ws' i b d own =
      let ticks = same_ticks k3.timer_objects d.same_timers in
      record {
        ready_now = rs';
        waiting_now = ws';
        after_inv = i;
        queue = record { beside = b; sorted = subst (λ f. IsSorted f ts) (sym ticks) tq.sorted.1 };
        ticks = ticks;
        next = next_after k3 d;
        bound = d.same_data.2;
        done =
            ap (λ (f : Ptr → Timer). (f x).status) d.same_timers
            ∙ ap (λ (z : Timer). z.status) (update_self k.timer_objects (finished t) x);
        served =
            subst (λ z. Contains z t.signal) (sym d.received)
              (Contains-right (k.tasks t.task).sig_recvd t.signal);
        runs = own-Runs k3 d own;
      }

  Step-of : (k3 : Kernel) → Sent t.task t.signal taken_out rs ws k3 → Step k3
  Step-of k3 (d, inl (h, u)) =
      Step-with k3 (enqueued k.mem.prio t.task rs) (u.before ++ u.behind) u.inv
        (Beside-woken taken_out.mem k3.mem rs ws timers ts out_Beside u.before t.task u.behind u.was
          d.same_links)
        d (inr u.state)
  Step-of k3 (d, inr (h, i, kept)) =
      Step-with k3 rs ws i
        (Beside-kept taken_out.mem k3.mem rs ws timers ts out_Beside d.same_links) d (inl kept)

  pub finish_timer-Step : Returns (λ _ k3. Step k3) (finish_timer x k)
  unfolding finish_timer
  finish_timer-Step =
      rw
        (
          list_unlink_run k.mem timers [] x ts tq.beside.holds,
          ==-eq_false x null x_valid,
          ==-eq_false x null x_valid,
          update_self k.timer_objects (finished t) x,
        )
        (Returns-mono (λ _ k3. Sent t.task t.signal taken_out rs ws k3) (λ _ k3. Step k3)
          (signal_send t.task t.signal taken_out)
          (signal_send-Sent t.task t.signal taken_out rs ws out_Inv task) λ _ k3 s. Step-of k3 s)
