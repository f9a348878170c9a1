-- ===== src/Sched/Waiting.antt =====
-- `signal_wait` of src/task.c, up to its end or to the point where the task is switched out.
use martos.Common.{
  ◌≡◌, refl, sym, ◌∙◌, ap, subst, ◌≢◌, inl, inr, true, false, List, arith, Bool-cases, update,
  update_self, update_other, bit_and, ==-eq_false,
}
use native.Mathlib.Decide.{ℕ_discrete}
use martos.Common.Int.{ℤ, pos, negsuc, ◌≤ℤ◌, ◌+ℤ◌}
use martos.Memory.{Ptr, null, Returns}
use martos.Kernel.{
  Kernel, Task, Signals, task_ready, task_waiting, task_running, write_task, disabled, without,
}
use martos.Kernel.Interrupts.{enable_at}
use martos.Kernel.Queues.{Queues-add_waiting, above-ne_null}
use martos.Signal.{meets, wait_loop, take_signals, block, signal_wait, signal_wait_resume}
use martos.Sched.{Sched, IsLive, Inv}
use martos.Task.Verify.{IsVerified}
use martos.Sched.Checked.{AllChecked, Preserves-step, IsVerified-same}
use martos.Sched.Outcome.{Waited}
use martos.Sched.Keep.{Sched-keep}
use martos.Sched.Wake.{waiting_not_running}
use martos.Sched.States.{IsUnserved, States-wait, not-ready_NotIn, not-waiting_NotIn}

abbrev taken : Signals → Task → Task
taken s t = record t { sig_recvd = without t.sig_recvd (bit_and s t.sig_recvd) }

abbrev made_waiting : Task → Task
made_waiting t = record t { state = task_waiting }

zero_up : pos 0 ≡ negsuc 0 +ℤ pos 1
unfolding ◌+ℤ◌
zero_up = refl

module _ (s : Signals) (n : ℤ) (k : Kernel) (rs ws : List Ptr)
    (sched : Sched k.mem k.tasks k.running k.pendsv rs ws) (off : k.irq ≡ false)
    (counted : k.id_nestcnt ≡ n +ℤ pos 1) (low : negsuc 0 ≤ℤ n)
    (runs : (k.tasks k.running).state ≡ task_running) where
  valid : k.running ≢ null
  valid = above-ne_null k.running sched.running_above

  not_waiting : (k.tasks k.running).state ≢ task_waiting
  not_waiting h = cc runs

  not_ready : (k.tasks k.running).state ≢ task_ready
  not_ready h = cc runs

  checked_after :
      (v : Task)
      → (IsLive v.state → IsLive (k.tasks k.running).state)
      → (IsVerified (k.tasks k.running) → IsLive v.state → IsVerified v)
      → v.sig_wait ≡ (k.tasks k.running).sig_wait
      → AllChecked k.tasks
      → AllChecked (update k.tasks k.running v)
  checked_after v lives verified wait =
      (Preserves-step k.tasks k.running v lives verified wait).checked

  take_signals-Waited :
      meets s (k.tasks k.running).sig_recvd ≡ true → Returns (Waited s n k rs ws) (take_signals s k)
  unfolding take_signals
  take_signals-Waited hit =
      let t = k.running in
      let v = taken s (k.tasks t) in
      let self = update_self k.tasks v t in
      let agree = update_other k.tasks v t in
      rw
        (
          ==-eq_false t null valid,
          ==-eq_false t null valid,
          enable_at n (write_task t v k) low off counted,
        )
        (
          hit,
          refl,
          record {
            sched =
                Sched-keep k.tasks (update k.tasks t v) t agree (ap (λ (a : Task). a.state) self)
                  k.mem t k.pendsv rs ws sched (λ w _. absurd (not_waiting w));
            masked = record { irq_below = refl; nested = low };
          },
          refl,
          refl,
          agree,
          ap (λ (a : Task). a.sig_recvd) self,
          ap (λ (a : Task). a.state) self ∙ runs,
          refl,
          refl,
          (
            refl,
            refl,
            refl,
            ap (λ (a : Task). a.sig_alloc) self,
            ap (λ (a : Task). a.sig_wait) self,
          ),
          checked_after v (λ _. sched.live) (IsVerified-same (k.tasks t) v refl refl refl) refl,
        )

  block-Waited :
      meets s (k.tasks k.running).sig_recvd ≡ false
      → (k.tasks k.running).sig_wait ≡ s
      → Returns (Waited s n k rs ws) (block k)
  unfolding block
  block-Waited miss waits =
      let t = k.running in
      let v = made_waiting (k.tasks t) in
      let self = update_self k.tasks v t in
      let agree = update_other k.tasks v t in
      let (m', run, kept, q, same) =
        Queues-add_waiting k.mem rs ws sched.queues t sched.running_above
          (not-ready_NotIn k.tasks rs ws sched.states t not_ready)
          (not-waiting_NotIn k.tasks rs ws sched.states t not_waiting) (sched.spare runs) in
      rw
        (
          ==-eq_false t null valid,
          run,
          enable_at (negsuc 0) (record (write_task t v k) { mem = m'; id_nestcnt = pos 0 })
              (omega arith) off zero_up,
        )
        (
          miss,
          counted,
          record {
            sched = record {
              queues = q;
              states =
                  States-wait k.tasks (update k.tasks t v) t agree rs ws sched.states not_ready
                    not_waiting (ap (λ (a : Task). a.state) self)
                    (subst IsUnserved (sym self)
                      (subst (λ z. meets z (k.tasks t).sig_recvd ≡ false) (sym waits) miss));
              running_above = sched.running_above;
              live = subst (λ (a : Task). IsLive a.state) (sym self) tt;
              only_running = λ x h. elim (ℕ_discrete x t) [
                | yes e ↦ e
                | no ne ↦
                    sched.only_running x
                      (subst (λ (a : Task). a.state ≡ task_running) (agree x ne) h)
              ];
              spare = λ h. absurd (waiting_not_running (sym (ap (λ (a : Task). a.state) self) ∙ h));
              due = inl refl;
            };
            masked = record { irq_below = refl; nested = omega arith };
          },
          refl,
          refl,
          refl,
          agree,
          ap (λ (a : Task). a.state) self,
          ap (λ (a : Task). a.sig_wait) self ∙ waits,
          same,
          refl,
          refl,
          checked_after v (λ _. sched.live) (IsVerified-same (k.tasks t) v refl refl refl) refl,
        )

  wait_loop-Waited : (k.tasks k.running).sig_wait ≡ s → Returns (Waited s n k rs ws) (wait_loop s k)
  unfolding wait_loop
  wait_loop-Waited waits = elim (Bool-cases (meets s (k.tasks k.running).sig_recvd)) [
    | inl hit ↦ rw (==-eq_false k.running null valid, hit) (take_signals-Waited hit)
    | inr miss ↦ rw (==-eq_false k.running null valid, miss) (block-Waited miss waits)
  ]

abbrev pub waits_for : Signals → Task → Task
waits_for s t = record t { sig_wait = s }

-- The kernel with the running task's `sig_wait` set.
abbrev pub waiting_for : Signals → Kernel → Kernel
waiting_for s k = write_task k.running (waits_for s (k.tasks k.running)) k

module _ (s : Signals) (k : Kernel) (rs ws : List Ptr) (inv : Inv k rs ws)
    (runs : (k.tasks k.running).state ≡ task_running) where
  -- `signal_wait` of the running task ends well. If one of the signals has come, it returns those
  -- that have come, takes them from `sig_recvd` and leaves the interrupt mask as it was. If none
  -- has come, the task goes to the end of the waiting list, interrupts are enabled and a switch is
  -- pending. The scheduler's invariant holds in both cases.
  pub signal_wait-Waited : Returns (Waited s k.id_nestcnt (waiting_for s k) rs ws) (signal_wait s k)
  unfolding signal_wait
  signal_wait-Waited =
      let t = k.running in
      let v = waits_for s (k.tasks t) in
      let self = update_self k.tasks v t in
      let state = ap (λ (a : Task). a.state) self in
      let sched =
        Sched-keep k.tasks (update k.tasks t v) t (update_other k.tasks v t) state k.mem t k.pendsv
          rs ws inv.sched (λ w _. absurd (waiting_not_running (sym w ∙ runs))) in
      rw (==-eq_false t null (above-ne_null t inv.sched.running_above)) (
        wait_loop-Waited s k.id_nestcnt (write_task t v (disabled k)) rs ws sched refl refl
          inv.masked.nested (state ∙ runs) (ap (λ (a : Task). a.sig_wait) self))

  -- `signal_wait` of a task that runs again, with the `nestcnt` that it had saved and with the
  -- signals that it waits for in `sig_wait`, ends well. If one of these has come, it returns
  -- those that have come, takes them from `sig_recvd`, and the counter of `disable` is what it
  -- was before the call. If none has come, the task goes to the end of the waiting list again,
  -- interrupts are enabled and a switch is pending. The scheduler's invariant holds in both
  -- cases.
  pub signal_wait_resume-Waited :
      (n nestcnt : ℤ)
      → nestcnt ≡ n +ℤ pos 1
      → negsuc 0 ≤ℤ n
      → (k.tasks k.running).sig_wait ≡ s
      → Returns (Waited s n k rs ws) (signal_wait_resume s nestcnt k)
  unfolding signal_wait_resume
  signal_wait_resume-Waited n nestcnt saved low waits =
      wait_loop-Waited s n (record (disabled k) { id_nestcnt = nestcnt }) rs ws inv.sched refl saved
        low runs waits
