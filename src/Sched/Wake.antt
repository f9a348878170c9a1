-- ===== src/Sched/Wake.antt =====
-- The wake-up of a waiting task in `signal_send` of src/task.c: it keeps the invariant of the scheduler.
use native.Mathlib.Decide.{ℕ_discrete}
use martos.Common.{
  ◌<◌, ◌≡◌, refl, sym, ◌∙◌, ap, subst, ◌≢◌, ◌⊎◌, inl, inr, Bool, true, false, List, ◌∷◌, ◌++◌,
  arith, length-append, if◌then◌else◌, update, update_self, update_other, ==-eq_false, Bool-cases,
  All_middle,
}
use martos.Common.Int.{ltb_ℤ, ◌≤ℤ◌}
use martos.Memory.{Memory, Ptr, null, ok, SameData}
use martos.NodeList.Order.{enqueued, enqueued-All, length-enqueued}
use martos.Kernel.{Kernel, Task, task_ready, task_waiting, task_running, last_static}
use martos.Kernel.Queues.{queue_nodes}
use martos.Kernel.Moves.{Queues-wake}
use martos.NodeList.Chain.{SameOutside}
use martos.Signal.{wake}
use martos.Sched.{Sched, IsDue, IsLive}
use martos.Sched.States.{AgreeBut, States-wake}

abbrev pub made_ready : Task → Task
made_ready t = record t { state = task_ready }

-- The tasks after `t` is made ready, and whether a switch is pending after that.
abbrev pub readied : Ptr → (Ptr → Task) → Ptr → Task
readied t tasks = update tasks t (made_ready (tasks t))

abbrev pub pended : Ptr → Kernel → Bool
pended t k = if ltb_ℤ (k.mem.prio k.running) (k.mem.prio t) then true else k.pendsv

pub ready_not_running : task_ready ≢ task_running
ready_not_running e = cc

pub waiting_not_running : task_waiting ≢ task_running
waiting_not_running e = cc

-- What `wake` leaves, but for the memory.
abbrev pub woken : Ptr → Memory → Kernel → Kernel
woken t m k = record k { mem = m; tasks = readied t k.tasks; pendsv = pended t k }

-- The wake-up of a waiting task. `f` are the tasks before its signals arrived.
module _ (k : Kernel) (f : Ptr → Task) (rs us : List Ptr) (t : Ptr) (vs : List Ptr)
    (s : Sched k.mem f k.running k.pendsv rs (us ++ t ∷ vs)) (same : AgreeBut t f k.tasks) where
  woken_state : (f t).state ≡ task_waiting
  woken_state = All_middle (λ x. (f x).state ≡ task_waiting) t us vs s.states.waiting_state

  woken_valid : t ≢ null
  woken_valid e =
      let h = All_middle (λ x. last_static < x) t us vs s.queues.waiting_above in omega arith

  woken_agree : AgreeBut t f (readied t k.tasks)
  woken_agree x ne = update_other k.tasks (made_ready (k.tasks t)) t x ne ∙ same x ne

  -- A task that runs after the wake-up ran before it.
  still_running :
      (x : Ptr) → (readied t k.tasks x).state ≡ task_running → (f x).state ≡ task_running
  still_running x h = elim (ℕ_discrete x t) [
    | yes e ↦
        let h' = subst (λ a. (readied t k.tasks a).state ≡ task_running) e h in
        let r = update_self k.tasks (made_ready (k.tasks t)) t in
        absurd (ready_not_running (sym (ap (λ (a : Task). a.state) r) ∙ h'))
    | no ne ↦ subst (λ (a : Task). a.state ≡ task_running) (woken_agree x ne) h
  ]

  still-IsLive : IsLive (readied t k.tasks k.running).state
  still-IsLive = elim (ℕ_discrete k.running t) [
    | yes e ↦
        subst (λ a. IsLive (readied t k.tasks a).state) (sym e)
          (subst (λ (a : Task). IsLive a.state)
            (sym (update_self k.tasks (made_ready (k.tasks t)) t)) tt)
    | no ne ↦ subst (λ (a : Task). IsLive a.state) (sym (woken_agree k.running ne)) s.live
  ]

  wake-IsDue :
      (m' : Memory)
      → m'.prio ≡ k.mem.prio
      → IsDue m' (readied t k.tasks) k.running (pended t k) (enqueued k.mem.prio t rs)
  wake-IsDue m' e = by_cases s.due (Bool-cases (ltb_ℤ (k.mem.prio k.running) (k.mem.prio t)))
    where
      by_cases :
          IsDue k.mem f k.running k.pendsv rs
          → ((ltb_ℤ (k.mem.prio k.running) (k.mem.prio t) ≡ true)
              ⊎ (ltb_ℤ (k.mem.prio k.running) (k.mem.prio t) ≡ false))
          → IsDue m' (readied t k.tasks) k.running (pended t k) (enqueued k.mem.prio t rs)
      by_cases d (inl h) = inl (rw h)
      by_cases (inl d) (inr h) = inl (rw h d)
      by_cases (inr d) (inr h) = inr (
        ap (λ (a : Task). a.state) (woken_agree k.running other) ∙ d.0,
        rw e (
            enqueued-All k.mem.prio (λ x. k.mem.prio x ≤ℤ k.mem.prio k.running) t rs (ground arith)
              d.1),
      )
        where
          other : k.running ≢ t
          other c =
              waiting_not_running (sym woken_state ∙ subst (λ a. (f a).state ≡ task_running) c d.0)

  pub wake_run :
      (m' : Memory) × (wake t k ≡ ok tt (woken t m' k))
      × Sched m' (readied t k.tasks) k.running (pended t k) (enqueued k.mem.prio t rs) (us ++ vs)
      × SameData k.mem m'
      × SameOutside (queue_nodes rs (us ++ t ∷ vs)) k.mem m'
  unfolding wake
  wake_run =
      let (m1, m2, run1, run2, kept, q, same_links) = Queues-wake k.mem rs us t vs s.queues in
      (
        m2,
        rw (run1, ==-eq_false t null woken_valid, run2, kept.1)
            (elim (Bool-cases (ltb_ℤ (k.mem.prio k.running) (k.mem.prio t))) [
              | inl h ↦ rw h refl
              | inr h ↦ rw h refl
            ]),
        record {
          queues = q;
          states =
              States-wake f (readied t k.tasks) t woken_agree rs us vs k.mem.prio s.states
                s.queues.waiting_list.distinct.1.1
                (ap (λ (a : Task). a.state) (update_self k.tasks (made_ready (k.tasks t)) t));
          live = still-IsLive;
          running_above = s.running_above;
          only_running = λ x h. s.only_running x (still_running x h);
          spare = λ h.
              let room = s.spare (still_running k.running h) in
              omega (
                arith,
                room,
                kept.2,
                length-enqueued k.mem.prio t rs,
                length-append us (t ∷ vs),
                length-append us vs,
              );
          due = wake-IsDue m2 kept.1;
        },
        kept,
        same_links,
      )
