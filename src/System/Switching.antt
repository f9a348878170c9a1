-- ===== src/System/Switching.antt =====
-- The event of PendSV_Handler_user of platforms/stm32f4-discovery/platform.c in the system: there is
-- always a task to switch to.
use mathlib.Core.Bool.{false≢true}
use martos.Common.{
  ◌≡◌, refl, sym, ◌∙◌, ap, subst, ◌≢◌, inl, inr, Bool, false, [], ◌∷◌, Has, All-Has, ne_nil_of_Has,
  if◌then◌else◌, Bool-cases,
}
use martos.Memory.{Ptr, Returns, Returns-bind, pure}
use martos.NodeList.Order.{enqueued}
use martos.Kernel.{Kernel, task_running, task_ready}
use martos.Task.Verify.{IsVerified}
use martos.Switch.{pendsv_handler}
use martos.Sched.Checked.{checked-IsVerified}
use martos.Sched.Leaving.{Switched}
use martos.Sched.Handler.{candidates, framed, is_running, is_running-eq, pendsv_handler-Switched}
use martos.Sched.States.{Has-enqueued, Has-enqueued_self}
use martos.System.{System, IsInStack, in_kernel, run, switch}
use martos.System.Holding.{Holds, IsIdle}
use martos.System.Calling.{Returns-in_kernel, kept-Holds}

module _ (idle : Ptr) (s : System) (holds : Holds idle s) where
  abbrev k : Kernel
  k = s.kernel

  -- The idle task is one of those that the handler chooses from.
  idle_candidate : Has idle (candidates k holds.rs)
  idle_candidate = elim (Bool-cases (is_running (k.tasks k.running).state)) [
    | inl e ↦ rw e (among_running (is_running-eq (k.tasks k.running).state e))
    | inr e ↦ rw e (among_ready e)
  ]
    where
      listed : (k.tasks idle).state ≡ task_ready → Has idle holds.rs
      listed r = holds.inv.sched.states.ready_listed idle r

      among_running :
          (k.tasks k.running).state ≡ task_running
          → Has idle (enqueued k.mem.prio k.running holds.rs)
      among_running runs = elim holds.idle_state [
        | inl r ↦
            subst (λ a. Has a (enqueued k.mem.prio k.running holds.rs))
              (sym (holds.inv.sched.only_running idle r))
              (Has-enqueued_self k.mem.prio k.running holds.rs)
        | inr r ↦ Has-enqueued k.mem.prio idle k.running holds.rs (listed r)
      ]

      among_ready : is_running (k.tasks k.running).state ≡ false → Has idle holds.rs
      among_ready e = elim holds.idle_state [
        | inl r ↦
            let here = holds.inv.sched.only_running idle r in
            absurd (
              false≢true
                (sym e ∙ ap is_running (subst (λ a. (k.tasks a).state ≡ task_running) here r)))
        | inr r ↦ listed r
      ]

  pub some_ready : (k.tasks k.running).state ≢ task_running → holds.rs ≢ []
  some_ready h = elim (Bool-cases (is_running (k.tasks k.running).state)) [
    | inl e ↦ absurd (h (is_running-eq (k.tasks k.running).state e))
    | inr e ↦ ne_nil_of_Has idle holds.rs (
        subst
          (λ (b : Bool). Has idle (if b then enqueued k.mem.prio k.running holds.rs else holds.rs))
          e idle_candidate)
  ]

  pub candidate-IsVerified : (x : Ptr) → Has x (k.running ∷ holds.rs) → IsVerified (k.tasks x)
  candidate-IsVerified = checked-IsVerified k holds.rs holds.ws holds.inv holds.checked

  pub framed-IsVerified :
      (frame : Ptr)
      → IsInStack frame (k.tasks k.running).context
      → IsVerified (framed frame (k.tasks k.running))
  framed-IsVerified frame inside =
      let v = candidate-IsVerified k.running (inl refl) in
      record {
        above_bottom = inside.0;
        below_top = inside.1;
        single = v.single;
        nested = v.nested;
        known = v.known;
      }

  pub Switched-Holds :
      (frame : Ptr) (k' : Kernel)
      → Switched k holds.ws (candidates k holds.rs) frame k'
      → Holds idle (record s { kernel = k' })
  Switched-Holds frame k' d =
      kept-Holds idle s holds k' d.rest holds.ws d.inv (d.preserves.checked holds.checked)
        (inl d.runs) (chosen (subst (Has idle) d.first idle_candidate)) d.preserves.same_wait
    where
      chosen : Has idle (k'.running ∷ d.rest) → IsIdle (k'.tasks idle).state
      chosen (inl e) = inl (ap (λ a. (k'.tasks a).state) e ∙ d.runs)
      chosen (inr h) = inr (
          All-Has (λ t. (k'.tasks t).state ≡ task_ready) idle d.rest h
            d.inv.sched.states.ready_state)

  pub switch-Holds :
      (frame : Ptr)
      → IsInStack frame (k.tasks k.running).context
      → Returns (λ _ s'. Holds idle s') (run (switch frame) s)
  unfolding run
  switch-Holds frame inside =
      Returns-bind (λ _ s'. Holds idle s') (λ _ s'. Holds idle s')
        (in_kernel (pendsv_handler frame) s) (λ _. pure tt)
        (Returns-in_kernel (λ f k'. Switched k holds.ws (candidates k holds.rs) f k')
          (λ _ s'. Holds idle s') s Switched-Holds (pendsv_handler frame)
          (pendsv_handler-Switched k holds.rs holds.ws frame holds.inv candidate-IsVerified
            (framed-IsVerified frame inside) some_ready))
        λ _ s' h. h
