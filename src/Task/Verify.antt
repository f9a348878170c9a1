-- ===== src/Task/Verify.antt =====
-- `task_verify` of src/task.c passes on the tasks that it is meant to pass, and changes nothing.
use martos.Common.{
  ◌+◌, ◌%◌, ◌^◌, ◌≤◌, ◌≡◌, refl, sym, subst, ◌≢◌, true, false, ==-eq_false, arith, leb, update,
  update_self, update_other,
}
use native.Mathlib.Decide.{ℕ_discrete}
use martos.Common.Int.{negsuc, ltb_ℤ, ◌≤ℤ◌}
use martos.Memory.{Ptr, null, ok}
use martos.Kernel.{Kernel, Task, disabled, sigf_single}
use martos.Kernel.Interrupts.{Masked, enable_protected}
use martos.Signal.{meets}
use martos.Task.{task_verify, known_state, frame_size}

-- A saved frame lies in the stack, `SIGF_SINGLE` is allocated, and the task is initialised.
pub record IsVerified (t : Task) : Type 0 where
  pub above_bottom : t.context.bos ≤ t.context.frame
  pub below_top : (t.context.frame + frame_size) % 2 ^ 32 ≤ t.context.tos
  pub single : meets sigf_single t.sig_alloc ≡ true
  pub nested : negsuc 0 ≤ℤ t.id_nestcnt
  pub known : known_state t.state ≡ true

pub IsVerified-update :
    (f : Ptr → Task) (t : Ptr) (v : Task)
    → IsVerified v
    → (x : Ptr) → IsVerified (f x)
    → IsVerified (update f t v x)
IsVerified-update f t v hv x h = elim (ℕ_discrete x t) [
  | yes e ↦
      subst (λ a. IsVerified (update f t v a)) (sym e)
        (subst IsVerified (sym (update_self f v t)) hv)
  | no ne ↦ subst IsVerified (sym (update_other f v t x ne)) h
]

pub task_verify_run :
    (t : Ptr) (k : Kernel)
    → t ≢ null
    → Masked k.irq k.id_nestcnt
    → IsVerified (k.tasks t)
    → task_verify t k ≡ ok tt k
unfolding task_verify
task_verify_run t k valid m v =
    rw
      (
        ==-eq_false t null valid,
        bottom,
        top,
        v.single,
        nested,
        v.known,
        enable_protected k (disabled k) m refl refl,
      )
      refl
  where
    bottom : leb (k.tasks t).context.bos (k.tasks t).context.frame ≡ true
    bottom = let h = v.above_bottom in ground arith

    top : leb (((k.tasks t).context.frame + frame_size) % 2 ^ 32) (k.tasks t).context.tos ≡ true
    top = let h = v.below_top in ground arith

    nested : ltb_ℤ (k.tasks t).id_nestcnt (negsuc 0) ≡ false
    nested = let h = v.nested in ground arith
