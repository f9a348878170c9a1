-- ===== src/Sched/Handler.antt =====
-- The PendSV handler (PendSV_Handler_user of platforms/stm32f4-discovery/platform.c) as a whole:
-- which task it runs next, and that it restores the scheduler's invariant.
use mathlib.Core.Bool.{false≢true}
use martos.Common.{
  ◌≡◌, refl, sym, ◌∙◌, ap, subst, ◌≢◌, inl, inr, Bool, true, false, List, [], ◌∷◌, All-members,
  cons_of_ne_nil, ne_nil_of_Has, Bool-cases, All, Has, if◌then◌else◌, update, update_self,
  update_other, ==-eq_false,
}
use martos.Memory.{Ptr, null, ok, Returns, ◌>>◌}
use martos.NodeList.Order.{enqueued, enqueued-All}
use martos.Kernel.{
  Kernel, Task, TaskState, task_invalid, task_initialized, task_running, task_ready, task_waiting,
}
use martos.Kernel.Queues.{above-ne_null}
use martos.Task.Verify.{IsVerified, IsVerified-update, task_verify_run}
use martos.Switch.{switch_in, switch_out, switch_by, pendsv_handler}
use martos.Sched.{Sched, IsLive, Inv}
use martos.Sched.Keep.{Sched-keep}
use martos.Sched.States.{IsUnserved, Has-enqueued_self}
use martos.Sched.Checked.{ready-IsVerified, Preserves-update, Preserves-trans}
use martos.Sched.Wake.{made_ready, readied}
use martos.Sched.Switching.{Parked, Sched-Parked, switch_out_run}
use martos.Sched.Leaving.{Switched, SwitchDone, switch_in-Done, switch_exit-Switched}

abbrev pub is_running : TaskState → Bool
is_running task_running = true
is_running _ = false

-- The tasks that the handler chooses from, in their order.
abbrev pub candidates : Kernel → List Ptr → List Ptr
candidates k rs =
    if is_running (k.tasks k.running).state then enqueued k.mem.prio k.running rs else rs

abbrev pub framed : Ptr → Task → Task
framed p t = record t { context = record t.context { frame = p } }

-- The state is one of those at which the switch goes on, and not that of a running task.
parked_by : (st : TaskState) → IsLive st → is_running st ≡ false → switch_by st ≡ switch_in
unfolding switch_by
parked_by task_ready l e = refl
parked_by task_waiting l e = refl
parked_by task_running l e = cc
parked_by task_invalid l e = absurd l
parked_by task_initialized l e = absurd l

running_by : (st : TaskState) → is_running st ≡ true → switch_by st ≡ (switch_out >> switch_in)
unfolding switch_by
running_by task_running e = refl
running_by _ e = cc

pub is_running-eq : (st : TaskState) → is_running st ≡ true → st ≡ task_running
is_running-eq task_running e = refl
is_running-eq _ e = cc

module _ (k : Kernel) (rs ws : List Ptr) (old_frame : Ptr) (inv : Inv k rs ws)
    (all : (x : Ptr) → Has x (k.running ∷ rs) → IsVerified (k.tasks x))
    (framed_in : IsVerified (framed old_frame (k.tasks k.running))) where
  -- The kernel at the switch.
  abbrev entered : Kernel
  entered = record k {
    pendsv = false;
    irq = false;
    tasks = update k.tasks k.running (framed old_frame (k.tasks k.running));
  }

  running_valid : k.running ≢ null
  running_valid = above-ne_null k.running inv.sched.running_above

  entered_self : entered.tasks k.running ≡ framed old_frame (k.tasks k.running)
  entered_self = update_self k.tasks (framed old_frame (k.tasks k.running)) k.running

  entered_Sched : Sched k.mem entered.tasks k.running k.pendsv rs ws
  entered_Sched =
      Sched-keep k.tasks entered.tasks k.running
        (update_other k.tasks (framed old_frame (k.tasks k.running)) k.running)
        (ap (λ (a : Task). a.state) entered_self) k.mem k.running k.pendsv rs ws inv.sched
        (λ _ u. subst IsUnserved (sym entered_self) u)

  entered-IsVerified : (x : Ptr) → Has x (k.running ∷ rs) → IsVerified (entered.tasks x)
  entered-IsVerified x h =
      IsVerified-update k.tasks k.running (framed old_frame (k.tasks k.running)) framed_in x
        (all x h)

  -- Both branches of the switch lead to the first candidate.
  abbrev Handled : Type 0
  Handled =
      (k' : Kernel) × (next : Ptr) × (rest : List Ptr) × (candidates k rs ≡ next ∷ rest)
      × (switch_by (k.tasks k.running).state entered ≡ ok tt k')
      × SwitchDone entered next rest ws k'

  members : All (λ x. Has x (k.running ∷ rs)) rs
  members = (All-members (k.running ∷ rs)).1

  handled_running : is_running (k.tasks k.running).state ≡ true → Handled
  handled_running e =
      let t = k.running in
      let st = is_running-eq (k.tasks t).state e in
      let (m', run, kept, parked) =
        switch_out_run entered rs ws k.pendsv entered_Sched
          (ap (λ (a : Task). a.state) entered_self ∙ st) in
      let k2 : Kernel = record entered { mem = m'; tasks = readied t entered.tasks } in
      let (next, rest, chosen) =
        cons_of_ne_nil (enqueued k.mem.prio t rs)
          (ne_nil_of_Has t (enqueued k.mem.prio t rs) (Has-enqueued_self k.mem.prio t rs)) in
      let among =
        subst (λ zs. All (λ x. Has x (t ∷ rs)) zs) chosen
          (enqueued-All k.mem.prio (λ x. Has x (t ∷ rs)) t rs (inl refl) members) in
      let verified =
        IsVerified-update entered.tasks t (made_ready (entered.tasks t))
          (ready-IsVerified (entered.tasks t) (entered-IsVerified t (inl refl))) in
      let (k', run2, d) =
        switch_in-Done k2 next rest ws running_valid inv.masked.nested
          (verified t (entered-IsVerified t (inl refl)))
          (verified next (entered-IsVerified next among.0))
          (subst (λ zs. Parked m' k2.tasks zs ws) chosen parked) in
      (
        k',
        next,
        rest,
        rw e chosen,
        rw (running_by (k.tasks t).state e, run) run2,
        record {
          sched = d.sched;
          same_prio = d.same_prio ∙ kept.1;
          now = d.now;
          verified = d.verified;
          counter = d.counter;
          masked = d.masked;
          pending = d.pending;
          slice = d.slice;
          preserves =
              Preserves-trans entered.tasks k2.tasks k'.tasks
                (Preserves-update entered.tasks t (made_ready (entered.tasks t))
                  (ready-IsVerified (entered.tasks t) (entered-IsVerified t (inl refl))) refl)
                d.preserves;
        },
      )

  handled_parked : is_running (k.tasks k.running).state ≡ false → rs ≢ [] → Handled
  handled_parked e some =
      let (next, rest, chosen) = cons_of_ne_nil rs some in
      let among = subst (λ zs. All (λ x. Has x (k.running ∷ rs)) zs) chosen members in
      let parked =
        Sched-Parked k.mem entered.tasks k.running k.pendsv rs ws entered_Sched
          (λ h. not_running (sym (ap (λ (a : Task). a.state) entered_self) ∙ h)) in
      let (k', run, d) =
        switch_in-Done entered next rest ws running_valid inv.masked.nested
          (entered-IsVerified k.running (inl refl)) (entered-IsVerified next among.0)
          (subst (λ zs. Parked k.mem entered.tasks zs ws) chosen parked) in
      (
        k',
        next,
        rest,
        rw e chosen,
        rw (parked_by (k.tasks k.running).state inv.sched.live e) run,
        d,
      )
    where
      not_running : (k.tasks k.running).state ≢ task_running
      not_running h = cc (ap is_running h)

  -- `pendsv_handler` ends well if the tasks that it looks at pass `task_verify` and some task can run. It runs the first of the ready tasks, the
  -- interrupted task among them at its place if it was running, for a full quantum and with its own frame. Then the scheduler's
  -- invariant holds with no switch pending, and no ready task has a higher priority than the running one.
  pub pendsv_handler-Switched :
      ((k.tasks k.running).state ≢ task_running → rs ≢ [])
      → Returns (λ frame k'. Switched k ws (candidates k rs) frame k') (pendsv_handler old_frame k)
  unfolding pendsv_handler
  pendsv_handler-Switched some = elim (Bool-cases (is_running (k.tasks k.running).state)) [
    | inl e ↦ whole (handled_running e)
    | inr e ↦ whole (handled_parked e (some λ h. false≢true (sym e ∙ ap is_running h)))
  ]
    where
      whole :
          Handled
          → Returns
              (λ frame k2. Switched k ws (candidates k rs) frame k2)
              (pendsv_handler old_frame k)
      whole (k', next, rest, chosen, run, d) =
          rw
            (
              task_verify_run k.running (record k { pendsv = false }) running_valid inv.masked
                  (all k.running (inl refl)),
              ==-eq_false k.running null running_valid,
              ==-eq_false k.running null running_valid,
              ap (λ (a : Task). a.state) entered_self,
              run,
              chosen,
            )
            (switch_exit-Switched k entered k' next rest ws d refl refl
              (Preserves-update k.tasks k.running (framed old_frame (k.tasks k.running)) framed_in
                refl)
              refl)
