-- ===== src/Sched/Checked.antt =====
-- The tasks that can run pass `task_verify` of src/task.c, whatever the kernel calls change in them.
use native.Mathlib.Decide.{ℕ_discrete}
use martos.Common.{
  List, ◌∷◌, Has, All-Has, inl, inr, ◌+◌, ◌%◌, ◌^◌, ◌≤◌, true, ◌≡◌, refl, sym, ◌∙◌, ap, subst,
  update, update_self, update_other,
}
use martos.Memory.{Ptr}
use martos.Common.Int.{negsuc, ◌≤ℤ◌}
use martos.Kernel.{Kernel, task_ready, Task, TaskContext, TaskState, task_invalid, sigf_single}
use martos.Signal.{meets}
use martos.Task.{frame_size, known_state}
use martos.Task.Verify.{IsVerified}
use martos.Sched.{IsLive, Inv}
use martos.Sched.Wake.{made_ready}
use martos.Sched.States.{AgreeBut}

abbrev pub AllChecked : (Ptr → Task) → Type 0
AllChecked f = (x : Ptr) → IsLive (f x).state → IsVerified (f x)

-- A change of the tasks after which those that can run still pass, and all wait for what they
-- waited for.
pub record Preserves (f g : Ptr → Task) : Type 0 where
  pub checked : AllChecked f → AllChecked g
  pub same_wait : (x : Ptr) → (g x).sig_wait ≡ (f x).sig_wait

pub AllChecked-but :
    (f g : Ptr → Task) (t : Ptr)
    → AgreeBut t f g
    → (IsLive (g t).state → IsVerified (g t))
    → AllChecked f
    → AllChecked g
AllChecked-but f g t agree own all x live = elim (ℕ_discrete x t) [
  | yes e ↦ subst (λ a. IsVerified (g a)) (sym e) (own (subst (λ a. IsLive (g a).state) e live))
  | no ne ↦
      subst IsVerified (sym (agree x ne))
        (all x (subst (λ (a : Task). IsLive a.state) (agree x ne) live))
]

pub wait-but :
    (f g : Ptr → Task) (t : Ptr)
    → AgreeBut t f g
    → (g t).sig_wait ≡ (f t).sig_wait
    → (x : Ptr) → (g x).sig_wait ≡ (f x).sig_wait
wait-but f g t agree own x = elim (ℕ_discrete x t) [
  | yes e ↦ subst (λ a. (g a).sig_wait ≡ (f a).sig_wait) (sym e) own
  | no ne ↦ ap (λ (a : Task). a.sig_wait) (agree x ne)
]

pub Preserves-update :
    (f : Ptr → Task) (t : Ptr) (v : Task)
    → IsVerified v
    → v.sig_wait ≡ (f t).sig_wait
    → Preserves f (update f t v)
Preserves-update f t v verified wait =
    let agree = update_other f v t in
    record {
      checked =
          AllChecked-but f (update f t v) t agree
            (λ _. subst IsVerified (sym (update_self f v t)) verified);
      same_wait =
          wait-but f (update f t v) t agree
            (ap (λ (a : Task). a.sig_wait) (update_self f v t) ∙ wait);
    }

-- A task that can run afterwards could before, and still passes.
pub Preserves-step :
    (f : Ptr → Task) (t : Ptr) (v : Task)
    → (IsLive v.state → IsLive (f t).state)
    → (IsVerified (f t) → IsLive v.state → IsVerified v)
    → v.sig_wait ≡ (f t).sig_wait
    → Preserves f (update f t v)
Preserves-step f t v lives verified wait =
    let agree = update_other f v t in
    let self = update_self f v t in
    record {
      checked = λ all.
          AllChecked-but f (update f t v) t agree
            (λ live.
              let live' = subst (λ (a : Task). IsLive a.state) self live in
              subst IsVerified (sym self) (verified (all t (lives live')) live'))
            all;
      same_wait = wait-but f (update f t v) t agree (ap (λ (a : Task). a.sig_wait) self ∙ wait);
    }

pub ready-IsVerified : (t : Task) → IsVerified t → IsVerified (made_ready t)
ready-IsVerified t v = record {
  above_bottom = v.above_bottom;
  below_top = v.below_top;
  single = v.single;
  nested = v.nested;
  known = refl;
}

-- A task with another field, or with other allocated signals, still passes.
pub IsVerified-live :
    (a b : Task)
    → b.context ≡ a.context
    → b.id_nestcnt ≡ a.id_nestcnt
    → meets sigf_single b.sig_alloc ≡ true
    → IsVerified a
    → IsLive b.state
    → IsVerified b
IsVerified-live a b context nestcnt single v live = record {
  above_bottom = subst (λ (c : TaskContext). c.bos ≤ c.frame) (sym context) v.above_bottom;
  below_top =
      subst (λ (c : TaskContext). (c.frame + frame_size) % 2 ^ 32 ≤ c.tos) (sym context)
        v.below_top;
  single = single;
  nested = subst (λ n. negsuc 0 ≤ℤ n) (sym nestcnt) v.nested;
  known = live_known b.state live;
}
  where
    live_known : (st : TaskState) → IsLive st → known_state st ≡ true
    live_known task_invalid l = absurd l
    live_known _ l = refl

pub IsVerified-same :
    (a b : Task)
    → b.context ≡ a.context
    → b.sig_alloc ≡ a.sig_alloc
    → b.id_nestcnt ≡ a.id_nestcnt
    → IsVerified a
    → IsLive b.state
    → IsVerified b
IsVerified-same a b context alloc nestcnt v live =
    IsVerified-live a b context nestcnt
      (subst (λ n. meets sigf_single n ≡ true) (sym alloc) v.single) v live

pub Preserves-trans : (f g h : Ptr → Task) → Preserves f g → Preserves g h → Preserves f h
Preserves-trans f g h p q = record {
  checked = λ all. q.checked (p.checked all);
  same_wait = λ x. q.same_wait x ∙ p.same_wait x;
}

-- The running task and the ready ones are checked.
pub checked-IsVerified :
    (k : Kernel) (rs ws : List Ptr)
    → Inv k rs ws
    → AllChecked k.tasks
    → (x : Ptr) → Has x (k.running ∷ rs)
    → IsVerified (k.tasks x)
checked-IsVerified k rs ws inv checked x (inl e) =
    checked x (subst (λ a. IsLive (k.tasks a).state) (sym e) inv.sched.live)
checked-IsVerified k rs ws inv checked x (inr h) =
    let ready = All-Has (λ t. (k.tasks t).state ≡ task_ready) x rs h inv.sched.states.ready_state in
    checked x (subst IsLive (sym ready) tt)
