-- ===== src/Sched/Switching.antt =====
-- The two halves of a task switch (PendSV_Handler_user of platforms/stm32f4-discovery/platform.c):
-- the running task is parked, and the first ready task is run.
use native.Mathlib.Decide.{ℕ_discrete}
use martos.Common.{
  ◌≡◌, sym, ◌∙◌, ap, subst, ◌≢◌, inr, Bool, false, List, ◌∷◌, arith, update, update_self,
  update_other, ==-eq_false,
}
use martos.Common.Int.{ℤ}
use martos.Memory.{Memory, Ptr, null, ok, SameData}
use martos.NodeList.Order.{enqueued}
use martos.Kernel.{Kernel, Task, task_ready, task_waiting, task_running}
use martos.Kernel.Queues.{Queues, Queues-enqueue, Queues-pop, above-ne_null}
use martos.Switch.{switch_in, switch_out, quantum}
use martos.Sched.{Sched, IsLive}
use martos.Sched.Keep.{state_same}
use martos.Sched.Wake.{made_ready, readied, ready_not_running}
use martos.Sched.States.{
  States, AgreeBut, IsUnserved, States-keep, States-ready, States-run, not-ready_NotIn,
  not-waiting_NotIn,
}

-- No task runs.
pub record Parked (m : Memory) (tasks : Ptr → Task) (rs ws : List Ptr) : Type 0 where
  pub queues : Queues m rs ws
  pub states : States tasks rs ws
  pub none_running : (t : Ptr) → (tasks t).state ≢ task_running

-- A task that waits, or has been woken again, is parked already.
pub Sched-Parked :
    (m : Memory) (f : Ptr → Task) (running : Ptr) (pendsv : Bool) (rs ws : List Ptr)
    → Sched m f running pendsv rs ws
    → (f running).state ≢ task_running
    → Parked m f rs ws
Sched-Parked m f running pendsv rs ws s h = record {
  queues = s.queues;
  states = s.states;
  none_running = λ t e. h (subst (λ a. (f a).state ≡ task_running) (s.only_running t e) e);
}

running_not_ready : task_running ≢ task_ready
running_not_ready e = cc

running_not_waiting : task_running ≢ task_waiting
running_not_waiting e = cc

module _ (k : Kernel) (rs ws : List Ptr) where
  -- A running task is parked in the ready list.
  pub switch_out_run :
      (pendsv : Bool)
      → Sched k.mem k.tasks k.running pendsv rs ws
      → (k.tasks k.running).state ≡ task_running
      → (m' : Memory) × (switch_out k
          ≡ ok tt (record k { mem = m'; tasks = readied k.running k.tasks }))
        × SameData k.mem m'
        × Parked m' (readied k.running k.tasks) (enqueued k.mem.prio k.running rs) ws
  unfolding switch_out
  switch_out_run pendsv s e =
      let t = k.running in
      let g = readied t k.tasks in
      let self = update_self k.tasks (made_ready (k.tasks t)) t in
      let agree = update_other k.tasks (made_ready (k.tasks t)) t in
      let not_ready : (k.tasks t).state ≢ task_ready = λ h. running_not_ready (sym e ∙ h) in
      let not_waiting : (k.tasks t).state ≢ task_waiting = λ h. running_not_waiting (sym e ∙ h) in
      let (m', run, kept, q, _) =
        Queues-enqueue k.mem rs ws s.queues t s.running_above
          (not-ready_NotIn k.tasks rs ws s.states t not_ready)
          (not-waiting_NotIn k.tasks rs ws s.states t not_waiting) (s.spare e) in
      (
        m',
        rw (==-eq_false t null (above-ne_null t s.running_above), run),
        kept,
        record {
          queues = q;
          states =
              States-ready k.tasks g t agree rs ws k.mem.prio s.states not_ready not_waiting
                (ap (λ (a : Task). a.state) self);
          none_running = λ x h. elim (ℕ_discrete x t) [
            | yes p ↦
                let h' = subst (λ a. (g a).state ≡ task_running) p h in
                ready_not_running (sym (ap (λ (a : Task). a.state) self) ∙ h')
            | no ne ↦
                ne (s.only_running x (subst (λ (a : Task). a.state ≡ task_running) (agree x ne) h))
          ];
        },
      )

abbrev pub nested_at : ℤ → Task → Task
nested_at n t = record t { id_nestcnt = n }

abbrev pub made_running : Task → Task
made_running t = record t { state = task_running }

-- The tasks after the switch from `old` to `next`.
abbrev pub switched : Ptr → Ptr → ℤ → (Ptr → Task) → Ptr → Task
switched old next n f =
    let parked = update f old (nested_at n (f old)) in
    update parked next (made_running (parked next))

module _ (k : Kernel) (next : Ptr) (rest ws : List Ptr)
    (p : Parked k.mem k.tasks (next ∷ rest) ws) where
  -- The map with the counter saved, and the one with `next` running.
  abbrev saved : Ptr → Task
  saved = update k.tasks k.running (nested_at k.id_nestcnt (k.tasks k.running))

  abbrev final : Ptr → Task
  final = switched k.running next k.id_nestcnt k.tasks

  saved_agree : AgreeBut k.running k.tasks saved
  saved_agree = update_other k.tasks (nested_at k.id_nestcnt (k.tasks k.running)) k.running

  saved_self : saved k.running ≡ nested_at k.id_nestcnt (k.tasks k.running)
  saved_self = update_self k.tasks (nested_at k.id_nestcnt (k.tasks k.running)) k.running

  saved_state : (x : Ptr) → (saved x).state ≡ (k.tasks x).state
  saved_state =
      state_same k.tasks saved k.running saved_agree (ap (λ (a : Task). a.state) saved_self)

  final_agree : AgreeBut next saved final
  final_agree = update_other saved (made_running (saved next)) next

  final_state : (final next).state ≡ task_running
  final_state = ap (λ (a : Task). a.state) (update_self saved (made_running (saved next)) next)

  final-States : States final rest ws
  final-States =
      States-run saved final next final_agree rest ws
        (States-keep k.tasks saved k.running saved_agree (next ∷ rest) ws p.states
          (saved_state k.running) (λ _ u. subst IsUnserved (sym saved_self) u))
        p.queues.ready_list.distinct.1.1.0 final_state

  only_next : (x : Ptr) → (final x).state ≡ task_running → x ≡ next
  only_next x h = elim (ℕ_discrete x next) [
    | yes e ↦ e
    | no ne ↦ absurd (
        p.none_running x
          (sym (saved_state x) ∙ subst (λ (a : Task). a.state ≡ task_running) (final_agree x ne) h))
  ]

  pub switch_in_run :
      k.running ≢ null
      → (m' : Memory) × (switch_in k
          ≡ ok tt (record k {
            mem = m';
            tasks = switched k.running next k.id_nestcnt k.tasks;
            running = next;
            id_nestcnt = (switched k.running next k.id_nestcnt k.tasks next).id_nestcnt;
            elapsed = quantum;
          }))
        × SameData k.mem m'
        × Sched m' (switched k.running next k.id_nestcnt k.tasks) next false rest ws
  unfolding switch_in
  switch_in_run valid =
      let (m', run, kept, q, _) = Queues-pop k.mem next rest ws p.queues in
      let fresh = above-ne_null next p.queues.ready_above.0 in
      (
        m',
        rw (
          ==-eq_false k.running null valid,
          run,
          ==-eq_false next null fresh,
          ==-eq_false next null fresh,
        ),
        kept,
        record {
          queues = q;
          states = final-States;
          running_above = p.queues.ready_above.0;
          live = subst IsLive (sym final_state) tt;
          only_running = only_next;
          spare = λ _. let room = p.queues.room in omega (arith, kept.2, room);
          due = inr (final_state, rw (kept.1) (p.queues.ordered.0));
        },
      )
