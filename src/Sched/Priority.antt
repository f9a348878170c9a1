-- ===== src/Sched/Priority.antt =====
-- `task_set_prio` of src/task.c for a task that is not in the ready list.
use martos.Common.{
  ◌≡◌, refl, sym, ◌∙◌, ◌≢◌, ◌⊎◌, inl, inr, Bool, true, false, ◌==◌, List, [], ◌∷◌, All, All_zip,
  NotIn, Apart-nil, ==-eq_false, ==_iff, Bool-cases, update_self, update_other,
}
use mathlib.Core.Bool.{false≢true}
use martos.Common.Int.{ℤ, ◌≤ℤ◌}
use martos.Memory.{Memory, Ptr, null, Returns}
use martos.NodeList.Chain.{IsList-outside}
use martos.NodeList.Order.{IsOrdered}
use martos.Kernel.{Kernel, Task, TaskState, task_ready, ready, waiting, disabled}
use martos.Kernel.Queues.{Queues}
use martos.Kernel.Interrupts.{enable_protected}
use martos.Task.{task_set_prio, write_prio, is_ready}
use martos.Sched.{Sched, IsDue, Inv}
use martos.Sched.States.{not-ready_NotIn}

-- The call changes one priority and keeps the invariant.
pub record Reprioritised (t : Ptr) (p : ℤ) (k : Kernel) (rs ws : List Ptr) (k' : Kernel)
    : Type 0 where
  pub inv : Inv k' rs ws
  pub now : k'.mem.prio t ≡ p
  pub others : (x : Ptr) → x ≢ t → k'.mem.prio x ≡ k.mem.prio x
  pub same_tasks : k'.tasks ≡ k.tasks
  pub same_running : k'.running ≡ k.running
  pub same_irq : k'.irq ≡ k.irq

is_ready-false : (st : TaskState) → st ≢ task_ready → is_ready st ≡ false
is_ready-false task_ready h = absurd (h refl)
is_ready-false _ h = refl

module _ (t : Ptr) (p : ℤ) (m : Memory) where
  abbrev changed : Memory
  changed = write_prio t p m

  kept : (x : Ptr) → t ≢ x → changed.prio x ≡ m.prio x
  kept x ne = update_other m.prio p t x (λ e. ne (sym e))

  below_kept :
      (x : Ptr) (xs : List Ptr)
      → t ≢ x
      → NotIn t xs
      → All (λ y. m.prio y ≤ℤ m.prio x) xs
      → All (λ y. changed.prio y ≤ℤ changed.prio x) xs
  below_kept x xs ne out h =
      All_zip (λ y. t ≢ y) (λ y. m.prio y ≤ℤ m.prio x) (λ y. changed.prio y ≤ℤ changed.prio x) xs
        (λ y n l. rw (kept y n, kept x ne) l) out h

  IsOrdered-kept : (xs : List Ptr) → NotIn t xs → IsOrdered m.prio xs → IsOrdered changed.prio xs
  IsOrdered-kept [] out o = tt
  IsOrdered-kept (x ∷ xs) out o = (below_kept x xs out.0 out.1 o.0, IsOrdered-kept xs out.1 o.1)

  Queues-kept : (rs ws : List Ptr) → NotIn t rs → Queues m rs ws → Queues changed rs ws
  Queues-kept rs ws out q = record {
    ready_list =
        IsList-outside m changed [] ready rs (λ a _. (refl, refl))
          (Apart-nil (ready.head ∷ ready.tail ∷ rs)) q.ready_list;
    waiting_list =
        IsList-outside m changed [] waiting ws (λ a _. (refl, refl))
          (Apart-nil (waiting.head ∷ waiting.tail ∷ ws)) q.waiting_list;
    ready_above = q.ready_above;
    waiting_above = q.waiting_above;
    apart = q.apart;
    ordered = IsOrdered-kept rs out q.ordered;
    room = q.room;
  }

  Sched-kept :
      (tasks : Ptr → Task) (running : Ptr) (pendsv pendsv' : Bool) (rs ws : List Ptr)
      → NotIn t rs
      → Sched m tasks running pendsv rs ws
      → IsDue changed tasks running pendsv' rs
      → Sched changed tasks running pendsv' rs ws
  Sched-kept tasks running pendsv pendsv' rs ws out s due = record {
    queues = Queues-kept rs ws out s.queues;
    states = s.states;
    running_above = s.running_above;
    live = s.live;
    only_running = s.only_running;
    spare = s.spare;
    due = due;
  }

  IsDue-kept :
      (tasks : Ptr → Task) (running : Ptr) (pendsv : Bool) (rs : List Ptr)
      → NotIn t rs
      → t ≢ running
      → IsDue m tasks running pendsv rs
      → IsDue changed tasks running pendsv rs
  IsDue-kept tasks running pendsv rs out ne (inl e) = inl e
  IsDue-kept tasks running pendsv rs out ne (inr (r, h)) = inr (r, below_kept running rs ne out h)

-- `task_set_prio` of a task that is not ready ends well: the task has the priority, no other
-- priority changes, and the scheduler's invariant stays. If it is the running task, a switch is
-- pending then.
pub task_set_prio-Reprioritised :
    (t : Ptr) (p : ℤ) (k : Kernel) (rs ws : List Ptr)
    → t ≢ null
    → Inv k rs ws
    → (k.tasks t).state ≢ task_ready
    → Returns
        (λ _ k'. Reprioritised t p k rs ws k' × ((t ≢ k.running) ⊎ (k'.pendsv ≡ true)))
        (task_set_prio t p k)
unfolding task_set_prio
task_set_prio-Reprioritised t p k rs ws valid inv idle =
    let out = not-ready_NotIn k.tasks rs ws inv.sched.states t idle in
    let m = write_prio t p k.mem in
    let k1 : Kernel = record (disabled k) { mem = m } in
    elim (Bool-cases (t == k.running)) [
      | inl e ↦
          rw
            (
              ==-eq_false t null valid,
              e,
              enable_protected k (record k1 { pendsv = true }) inv.masked refl refl,
            )
            (
              record {
                inv = record {
                  sched =
                      Sched-kept t p k.mem k.tasks k.running k.pendsv true rs ws out inv.sched
                        (inl refl);
                  masked = inv.masked;
                };
                now = update_self k.mem.prio p t;
                others = update_other k.mem.prio p t;
                same_tasks = refl;
                same_running = refl;
                same_irq = refl;
              },
              inr refl,
            )
      | inr e ↦
          let ne : t ≢ k.running = λ q. false≢true (sym e ∙ (==_iff t k.running).1 q) in
          rw
            (
              ==-eq_false t null valid,
              e,
              is_ready-false (k.tasks t).state idle,
              enable_protected k k1 inv.masked refl refl,
            )
            (
              record {
                inv = record {
                  sched =
                      Sched-kept t p k.mem k.tasks k.running k.pendsv k.pendsv rs ws out inv.sched
                        (IsDue-kept t p k.mem k.tasks k.running k.pendsv rs out ne inv.sched.due);
                  masked = inv.masked;
                };
                now = update_self k.mem.prio p t;
                others = update_other k.mem.prio p t;
                same_tasks = refl;
                same_running = refl;
                same_irq = refl;
              },
              inl ne,
            )
    ]
