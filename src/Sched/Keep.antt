-- ===== src/Sched/Keep.antt =====
-- Changes of a task's fields that leave the scheduler's invariant as it is.
use native.Mathlib.Decide.{ℕ_discrete}
use martos.Common.{◌≡◌, refl, sym, ◌∙◌, ap, subst, inl, inr, Bool, true, List}
use martos.Memory.{Memory, Ptr}
use martos.Kernel.{Task, task_waiting}
use martos.Sched.{Sched, IsDue, IsLive}
use martos.Sched.States.{AgreeBut, IsUnserved, States-keep}

module _ (f g : Ptr → Task) (t : Ptr) (same : AgreeBut t f g) (e : (g t).state ≡ (f t).state) where
  pub state_same : (x : Ptr) → (g x).state ≡ (f x).state
  state_same x = elim (ℕ_discrete x t) [
    | yes p ↦ subst (λ a. (g a).state ≡ (f a).state) (sym p) e
    | no ne ↦ ap (λ (a : Task). a.state) (same x ne)
  ]

  IsDue-keep :
      (m : Memory) (running : Ptr) (pendsv : Bool) (rs : List Ptr)
      → IsDue m f running pendsv rs
      → IsDue m g running pendsv rs
  IsDue-keep m running pendsv rs (inl p) = inl p
  IsDue-keep m running pendsv rs (inr (r, h)) = inr (state_same running ∙ r, h)

  pub Sched-keep :
      (m : Memory) (running : Ptr) (pendsv : Bool) (rs ws : List Ptr)
      → Sched m f running pendsv rs ws
      → ((f t).state ≡ task_waiting → IsUnserved (f t) → IsUnserved (g t))
      → Sched m g running pendsv rs ws
  Sched-keep m running pendsv rs ws s u = record {
    queues = s.queues;
    states = States-keep f g t same rs ws s.states e u;
    live = subst IsLive (sym (state_same running)) s.live;
    running_above = s.running_above;
    only_running = λ x h. s.only_running x (sym (state_same x) ∙ h);
    spare = λ h. s.spare (sym (state_same running) ∙ h);
    due = IsDue-keep m running pendsv rs s.due;
  }

-- A switch that becomes pending leaves the rest of the invariant.
pub Sched-pending :
    (m : Memory) (f : Ptr → Task) (running : Ptr) (pendsv : Bool) (rs ws : List Ptr)
    → Sched m f running pendsv rs ws
    → Sched m f running true rs ws
Sched-pending m f running pendsv rs ws s = record {
  queues = s.queues;
  states = s.states;
  running_above = s.running_above;
  live = s.live;
  only_running = s.only_running;
  spare = s.spare;
  due = inl refl;
}
