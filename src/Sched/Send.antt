-- ===== src/Sched/Send.antt =====
-- `signal_send` of src/task.c as a whole: what it changes on each branch, and that it keeps the
-- scheduler's invariant.
use martos.Common.{
  ◌≡◌, refl, sym, ◌∙◌, ap, subst, ◌≢◌, ◌⊎◌, inl, inr, Bool, true, false, ◌&&◌, List, ◌∷◌, ◌++◌,
  Has-split, update, update_self, update_other, bit_or, ==-eq_false, Bool-cases,
}
use martos.Memory.{Ptr, null, Returns, SameData}
use martos.NodeList.Chain.{SameOutside}
use martos.Kernel.Queues.{queue_nodes}
use martos.NodeList.Order.{enqueued}
use martos.Kernel.{Kernel, Task, TaskState, Signals, task_ready, task_waiting, write_task, disabled}
use martos.Kernel.Interrupts.{enable_protected}
use martos.Signal.{meets, is_waiting, signal_send}
use martos.Signal.Sets.{meets-bit_or}
use martos.Common.{if◌then◌else◌}
use martos.Common.Int.{ltb_ℤ}
use martos.Sched.{Sched, Inv, IsLive}
use martos.Sched.Checked.{
  Preserves, Preserves-step, Preserves-trans, IsVerified-same, ready-IsVerified,
}
use martos.Sched.Wake.{made_ready, readied, woken, wake_run}
use martos.Sched.Keep.{Sched-keep}
use martos.Sched.States.{AgreeBut, IsUnserved}

abbrev pub sent : Signals → Task → Task
sent s t = record t { sig_recvd = bit_or t.sig_recvd s }

-- Only the task `t` and the links of the two task lists change, and interrupts are masked as
-- before.
pub record Delivered (t : Ptr) (s : Signals) (k : Kernel) (rs ws : List Ptr) (k' : Kernel)
    : Type 0 where
  pub received : (k'.tasks t).sig_recvd ≡ bit_or (k.tasks t).sig_recvd s
  pub others : AgreeBut t k.tasks k'.tasks
  pub same_running : k'.running ≡ k.running
  pub same_irq : k'.irq ≡ k.irq
  pub same_nestcnt : k'.id_nestcnt ≡ k.id_nestcnt
  pub same_links : SameOutside (queue_nodes rs ws) k.mem k'.mem
  pub same_data : SameData k.mem k'.mem
  pub same_semaphores : k'.semaphores ≡ k.semaphores
  pub same_ports : k'.ports ≡ k.ports
  pub same_timers : k'.timer_objects ≡ k.timer_objects
  pub preserves : Preserves k.tasks k'.tasks
  pub pending : k.pendsv ≡ true → k'.pendsv ≡ true

-- The task went from the waiting list to its place in the ready list.
pub record WakesUp (t : Ptr) (k : Kernel) (rs ws : List Ptr) (k' : Kernel) : Type 0 where
  pub before : List Ptr
  pub behind : List Ptr
  pub was : ws ≡ before ++ t ∷ behind
  pub inv : Inv k' (enqueued k.mem.prio t rs) (before ++ behind)
  pub state : (k'.tasks t).state ≡ task_ready

-- Whether `signal_send` has to wake the task.
abbrev pub is_awaited : Task → Signals → Bool
is_awaited t s = is_waiting t.state && meets s t.sig_wait

abbrev pub Sent : Ptr → Signals → Kernel → List Ptr → List Ptr → Kernel → Type 0
Sent t s k rs ws k' =
    Delivered t s k rs ws k'
    × (((is_awaited (k.tasks t) s ≡ true) × WakesUp t k rs ws k')
        ⊎ ((is_awaited (k.tasks t) s ≡ false)
            × Inv k' rs ws
            × ((k'.tasks t).state ≡ (k.tasks t).state)))

-- A switch that is pending stays so.
pended_true : (b p : Bool) → p ≡ true → (if b then true else p) ≡ true
pended_true true p e = refl
pended_true false p e = e

is_waiting-eq : (st : TaskState) → is_waiting st ≡ true → st ≡ task_waiting
is_waiting-eq task_waiting h = refl
is_waiting-eq _ h = cc

pub awaited_waiting : (t : Task) (s : Signals) → is_awaited t s ≡ true → t.state ≡ task_waiting
awaited_waiting t s h = is_waiting-eq t.state (first (is_waiting t.state) _ h)
  where
    first : (a b : Bool) → (a && b) ≡ true → a ≡ true
    first true b e = refl
    first false b e = e

module _ (t : Ptr) (s : Signals) (k : Kernel) (rs ws : List Ptr) (inv : Inv k rs ws)
    (valid : t ≢ null) where
  -- The kernel once the signals are set.
  abbrev signalled : Kernel
  signalled = write_task t (sent s (k.tasks t)) (disabled k)

  signalled_agree : AgreeBut t k.tasks (update k.tasks t (sent s (k.tasks t)))
  signalled_agree = update_other k.tasks (sent s (k.tasks t)) t

  signalled_self : update k.tasks t (sent s (k.tasks t)) t ≡ sent s (k.tasks t)
  signalled_self = update_self k.tasks (sent s (k.tasks t)) t

  signalled_state : (update k.tasks t (sent s (k.tasks t)) t).state ≡ (k.tasks t).state
  signalled_state = ap (λ (a : Task). a.state) signalled_self

  signalled_Preserves : Preserves k.tasks signalled.tasks
  signalled_Preserves =
      Preserves-step k.tasks t (sent s (k.tasks t)) (λ l. l)
        (IsVerified-same (k.tasks t) (sent s (k.tasks t)) refl refl refl) refl

  -- With no wake-up the invariant stays.
  signalled_Sched :
      is_awaited (k.tasks t) s ≡ false
      → Sched k.mem (update k.tasks t (sent s (k.tasks t))) k.running k.pendsv rs ws
  signalled_Sched h =
      Sched-keep k.tasks (update k.tasks t (sent s (k.tasks t))) t signalled_agree signalled_state
        k.mem k.running k.pendsv rs ws inv.sched
        (λ w u. subst IsUnserved (sym signalled_self) (
          meets-bit_or (k.tasks t).sig_wait (k.tasks t).sig_recvd s u
            (subst (λ st. (is_waiting st && meets s (k.tasks t).sig_wait) ≡ false) w h)))

  keep_Sent :
      is_awaited (k.tasks t) s ≡ false → Returns (λ _ k'. Sent t s k rs ws k') (signal_send t s k)
  unfolding signal_send
  keep_Sent h =
      rw
        (
          ==-eq_false t null valid,
          ==-eq_false t null valid,
          signalled_self,
          h,
          enable_protected k signalled inv.masked refl refl,
        )
        (
          record {
            received = ap (λ (a : Task). a.sig_recvd) signalled_self;
            others = signalled_agree;
            same_running = refl;
            same_irq = refl;
            same_nestcnt = refl;
            same_links = λ a _. (refl, refl);
            same_data = (refl, refl, refl);
            same_semaphores = refl;
            same_ports = refl;
            same_timers = refl;
            preserves = signalled_Preserves;
            pending = λ p. p;
          },
          inr (refl, record { sched = signalled_Sched h; masked = inv.masked }, signalled_state),
        )

  wake_Sent :
      (us vs : List Ptr)
      → ws ≡ us ++ t ∷ vs
      → is_awaited (k.tasks t) s ≡ true
      → Returns (λ _ k'. Sent t s k rs ws k') (signal_send t s k)
  unfolding signal_send
  wake_Sent us vs e h =
      let (m', run, sched, kept, links) =
        wake_run signalled k.tasks rs us t vs
          (subst (λ zs. Sched k.mem k.tasks k.running k.pendsv rs zs) e inv.sched)
          signalled_agree in
      let self = update_self signalled.tasks (made_ready (signalled.tasks t)) t in
      rw
        (
          ==-eq_false t null valid,
          ==-eq_false t null valid,
          signalled_self,
          h,
          run,
          enable_protected k (woken t m' signalled) inv.masked refl refl,
        )
        (
          record {
            received = ap (λ (a : Task). a.sig_recvd) (self ∙ ap made_ready signalled_self);
            others = λ x ne.
                update_other signalled.tasks (made_ready (signalled.tasks t)) t x ne
                ∙ signalled_agree x ne;
            same_running = refl;
            same_irq = refl;
            same_nestcnt = refl;
            same_links = subst (λ zs. SameOutside (queue_nodes rs zs) k.mem m') (sym e) links;
            same_data = kept;
            same_semaphores = refl;
            same_ports = refl;
            same_timers = refl;
            preserves =
                Preserves-trans k.tasks signalled.tasks (readied t signalled.tasks)
                  signalled_Preserves
                  (Preserves-step signalled.tasks t (made_ready (signalled.tasks t))
                    (λ _. subst IsLive (sym (signalled_state ∙ awaited_waiting (k.tasks t) s h)) tt)
                    (λ v _. ready-IsVerified (signalled.tasks t) v) refl);
            pending = pended_true (ltb_ℤ (k.mem.prio k.running) (k.mem.prio t)) k.pendsv;
          },
          inl (
            refl,
            record {
              before = us;
              behind = vs;
              was = e;
              inv = record { sched = sched; masked = inv.masked };
              state = ap (λ (a : Task). a.state) self;
            },
          ),
        )

  -- `signal_send` to a task ends well. The signals are added to those that the task has received,
  -- no other task and no interrupt mask changes, and the scheduler's invariant stays. If the task waits for one of
  -- the signals, it leaves the waiting list, becomes ready and gets its place in the ready list by
  -- its priority; if not, both lists and its state are as they were.
  pub signal_send-Sent : Returns (λ _ k'. Sent t s k rs ws k') (signal_send t s k)
  signal_send-Sent = elim (Bool-cases (is_awaited (k.tasks t) s)) [
    | inl h ↦
        let (us, vs, e) =
          Has-split t ws (inv.sched.states.waiting_listed t (awaited_waiting (k.tasks t) s h)) in
        wake_Sent us vs e h
    | inr h ↦ keep_Sent h
  ]
