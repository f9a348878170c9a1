-- ===== src/Sched/Schedule.antt =====
-- `task_schedule` of src/task.c: a new task becomes ready.
use native.Mathlib.Decide.{ℕ_discrete}
use martos.Common.{
  ◌+◌, ◌<◌, ◌≡◌, refl, sym, ◌∙◌, ap, subst, ◌≢◌, inl, true, List, arith, length, update,
  update_self, update_other, ==-eq_false,
}
use martos.Memory.{Ptr, null, Returns}
use martos.NodeList.Order.{enqueued, length-enqueued}
use martos.Kernel.{
  Kernel, Task, task_initialized, task_ready, task_waiting, task_running, write_task, disabled,
  last_static,
}
use martos.Kernel.Interrupts.{enable_protected}
use martos.Kernel.Queues.{Queues-enqueue, above-ne_null}
use martos.Task.{task_schedule}
use martos.Task.Verify.{IsVerified, task_verify_run}
use martos.Sched.{IsLive, Inv}
use martos.Sched.Wake.{made_ready, ready_not_running}
use martos.Sched.Checked.{Preserves, Preserves-update, ready-IsVerified}
use martos.Sched.States.{AgreeBut, States-ready, not-ready_NotIn, not-waiting_NotIn}

-- `t` is ready, and a switch is pending.
pub record Scheduled (t : Ptr) (k : Kernel) (rs ws : List Ptr) (k' : Kernel) : Type 0 where
  pub inv : Inv k' (enqueued k.mem.prio t rs) ws
  pub state : (k'.tasks t).state ≡ task_ready
  pub pending : k'.pendsv ≡ true
  pub others : AgreeBut t k.tasks k'.tasks
  pub same_running : k'.running ≡ k.running
  pub same_irq : k'.irq ≡ k.irq
  pub same_nestcnt : k'.id_nestcnt ≡ k.id_nestcnt
  pub preserves : Preserves k.tasks k'.tasks

-- `task_schedule` of an initialised task that passes `task_verify` ends well: the task is ready and
-- has its place in the ready list by its priority, a switch is pending, and the scheduler's
-- invariant stays. No other task changes.
pub task_schedule-Scheduled :
    (t : Ptr) (k : Kernel) (rs ws : List Ptr)
    → Inv k rs ws
    → last_static < t
    → (k.tasks t).state ≡ task_initialized
    → IsVerified (k.tasks t)
    → length rs + length ws + 1 < k.mem.bound
    → Returns (λ _ k'. Scheduled t k rs ws k') (task_schedule t k)
unfolding task_schedule
task_schedule-Scheduled t k rs ws inv above new verified room =
    let valid = above-ne_null t above in
    let v = made_ready (k.tasks t) in
    let self = update_self k.tasks v t in
    let agree = update_other k.tasks v t in
    let state = ap (λ (a : Task). a.state) self in
    let (m', run, kept, q, _) =
      Queues-enqueue k.mem rs ws inv.sched.queues t above
        (not-ready_NotIn k.tasks rs ws inv.sched.states t not_ready)
        (not-waiting_NotIn k.tasks rs ws inv.sched.states t not_waiting) (omega arith) in
    let k1 : Kernel = record (write_task t v (disabled k)) { mem = m' } in
    rw
      (
        task_verify_run t k valid inv.masked verified,
        ==-eq_false t null valid,
        run,
        enable_protected k k1 inv.masked refl refl,
      )
      (record {
        inv = record {
          sched = record {
            queues = q;
            states =
                States-ready k.tasks (update k.tasks t v) t agree rs ws k.mem.prio inv.sched.states
                  not_ready not_waiting state;
            running_above = inv.sched.running_above;
            live =
                subst (λ (a : Task). IsLive a.state) (sym (agree k.running not_self))
                  inv.sched.live;
            only_running = λ x h. elim (ℕ_discrete x t) [
              | yes e ↦ absurd (
                  ready_not_running
                    (sym state ∙ subst (λ a. (update k.tasks t v a).state ≡ task_running) e h))
              | no ne ↦
                  inv.sched.only_running x
                    (subst (λ (a : Task). a.state ≡ task_running) (agree x ne) h)
            ];
            spare = λ _. omega (arith, length-enqueued k.mem.prio t rs, kept.2);
            due = inl refl;
          };
          masked = inv.masked;
        };
        state = state;
        pending = refl;
        others = agree;
        same_running = refl;
        same_irq = refl;
        same_nestcnt = refl;
        preserves = Preserves-update k.tasks t v (ready-IsVerified (k.tasks t) verified) refl;
      })
  where
    not_ready : (k.tasks t).state ≢ task_ready
    not_ready h = cc new

    not_waiting : (k.tasks t).state ≢ task_waiting
    not_waiting h = cc new

    not_self : k.running ≢ t
    not_self e = subst (λ a. IsLive a) new (subst (λ a. IsLive (k.tasks a).state) e inv.sched.live)
