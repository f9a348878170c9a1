-- ===== src/System/Calling.antt =====
-- The events that leave what the tasks remember: signal_send, task_schedule, disable, enable and
-- SysTick_Handler.
use native.Mathlib.Decide.{ℕ_discrete}
use martos.Common.{
  ◌+◌, ◌-◌, ◌%◌, ◌^◌, ◌<◌, ◌≡◌, refl, sym, ◌∙◌, ap, subst, ◌≢◌, ◌⊎◌, inl, inr, true, false, List,
  arith, length, Bool-cases, ◌==◌,
}
use martos.Common.Int.{ℤ, ltb_ℤ, ◌-ℤ◌, -ℤ_parts, -ℤ_restore, pos, negsuc, ◌+ℤ◌, ◌≤ℤ◌}
use martos.Memory.{Cmd, Run, Ptr, null, ok, err, Returns}
use martos.Kernel.{
  Kernel, Task, Signals, task_running, task_ready, task_initialized, last_static, disable, enable,
  disabled,
}
use martos.Kernel.Interrupts.{enable_at}
use martos.Signal.{signal_send}
use martos.Task.{task_schedule}
use martos.Task.Verify.{IsVerified}
use martos.Switch.{systick_handler}
use martos.Sched.{Inv}
use martos.Sched.Keep.{Sched-pending}
use martos.Sched.Beside.{disabled-Masked}
use martos.Sched.Checked.{AllChecked}
use martos.Sched.Send.{Sent, awaited_waiting, signal_send-Sent}
use martos.Sched.Wake.{waiting_not_running}
use martos.Sched.Schedule.{Scheduled, task_schedule-Scheduled}
use martos.Sched.States.{AgreeBut}
use martos.System.{System, in_kernel, lift_system}
use martos.System.Holding.{Holds, IsSettled, IsIdle}

module _ {A : Type 0} (P : A → Kernel → Type 0) (Q : A → System → Type 0) (s : System)
    (after : (a : A) (k : Kernel) → P a k → Q a (record s { kernel = k })) where
  Returns-lift_system : (r : Run Kernel A) → Returns P r → Returns Q (lift_system r s)
  Returns-lift_system (ok a k) h = after a k h
  Returns-lift_system (err f) h = h

  pub Returns-in_kernel : (c : Cmd Kernel A) → Returns P (c s.kernel) → Returns Q (in_kernel c s)
  Returns-in_kernel c h = Returns-lift_system (c s.kernel) h

module _ (idle : Ptr) (s : System) (holds : Holds idle s) where
  abbrev k : Kernel
  k = s.kernel

  -- A kernel in which every task waits for what it waited for.
  pub kept-Holds :
      (k' : Kernel) (rs ws : List Ptr)
      → Inv k' rs ws
      → AllChecked k'.tasks
      → IsSettled k'
      → IsIdle (k'.tasks idle).state
      → ((t : Ptr) → (k'.tasks t).sig_wait ≡ (k.tasks t).sig_wait)
      → Holds idle (record s { kernel = k' })
  kept-Holds k' rs ws inv checked settled idle_state wait = record {
    rs = rs;
    ws = ws;
    inv = inv;
    checked = checked;
    settled = settled;
    idle_state = idle_state;
    idle_calls = holds.idle_calls;
    saved = λ t signals n e.
        let (same, counted) = holds.saved t signals n e in (wait t ∙ same, counted);
  }

  -- A task that becomes ready, or keeps its state, while the others do.
  pub IsIdle-but :
      (t : Ptr) (g : Ptr → Task)
      → AgreeBut t k.tasks g
      → ((g t).state ≡ task_ready) ⊎ ((g t).state ≡ (k.tasks t).state)
      → IsIdle (g idle).state
  IsIdle-but t g agree own = elim (ℕ_discrete idle t) [
    | yes e ↦ subst (λ a. IsIdle (g a).state) (sym e) (at_t e own)
    | no ne ↦ subst (λ (a : Task). IsIdle a.state) (sym (agree idle ne)) holds.idle_state
  ]
    where
      at_t :
          idle ≡ t
          → ((g t).state ≡ task_ready) ⊎ ((g t).state ≡ (k.tasks t).state)
          → IsIdle (g t).state
      at_t e (inl r) = inr r
      at_t e (inr same) =
          subst IsIdle (sym same) (subst (λ a. IsIdle (k.tasks a).state) e holds.idle_state)

  -- What holds of the running task, or of the mask and the pending bit, holds afterwards.
  IsSettled-but :
      (t : Ptr) (k' : Kernel)
      → AgreeBut t k.tasks k'.tasks
      → k'.running ≡ k.running
      → k'.irq ≡ k.irq
      → (k.pendsv ≡ true → k'.pendsv ≡ true)
      → ((k.tasks t).state ≡ task_running → (k'.tasks t).state ≡ task_running)
      → IsSettled k'
  IsSettled-but t k' agree run irq pending own = elim holds.settled [
    | inr (i, p) ↦ inr (irq ∙ i, pending p)
    | inl runs ↦ inl (ap (λ a. (k'.tasks a).state) run ∙ kept runs)
  ]
    where
      kept : (k.tasks k.running).state ≡ task_running → (k'.tasks k.running).state ≡ task_running
      kept runs = elim (ℕ_discrete k.running t) [
        | yes e ↦
            subst (λ a. (k'.tasks a).state ≡ task_running) (sym e)
              (own (subst (λ a. (k.tasks a).state ≡ task_running) e runs))
        | no ne ↦ ap (λ (a : Task). a.state) (agree k.running ne) ∙ runs
      ]

  pub Sent-Holds :
      (t : Ptr) (signals : Signals) (k' : Kernel)
      → Sent t signals k holds.rs holds.ws k'
      → Holds idle (record s { kernel = k' })
  Sent-Holds t signals k' (d, inl (awaited, u)) =
      kept-Holds k' _ _ u.inv (d.preserves.checked holds.checked)
        (IsSettled-but t k' d.others d.same_running d.same_irq d.pending λ runs.
          absurd (waiting_not_running (sym (awaited_waiting (k.tasks t) signals awaited) ∙ runs)))
        (IsIdle-but t k'.tasks d.others (inl u.state)) d.preserves.same_wait
  Sent-Holds t signals k' (d, inr (unawaited, inv, same)) =
      kept-Holds k' holds.rs holds.ws inv (d.preserves.checked holds.checked)
        (IsSettled-but t k' d.others d.same_running d.same_irq d.pending λ runs. same ∙ runs)
        (IsIdle-but t k'.tasks d.others (inr same)) d.preserves.same_wait

  pub send-Holds :
      (t : Ptr) (signals : Signals)
      → t ≢ null
      → Returns (λ _ s'. Holds idle s') (in_kernel (signal_send t signals) s)
  send-Holds t signals valid =
      Returns-in_kernel (λ _ k'. Sent t signals k holds.rs holds.ws k') (λ _ s'. Holds idle s') s
        (λ _ k' sent. Sent-Holds t signals k' sent) (signal_send t signals)
        (signal_send-Sent t signals k holds.rs holds.ws holds.inv valid)

  pub schedule-Holds :
      (t : Ptr)
      → last_static < t
      → (k.tasks t).state ≡ task_initialized
      → IsVerified (k.tasks t)
      → length holds.rs + length holds.ws + 1 < k.mem.bound
      → Returns (λ _ s'. Holds idle s') (in_kernel (task_schedule t) s)
  schedule-Holds t above new verified room =
      Returns-in_kernel (λ _ k'. Scheduled t k holds.rs holds.ws k') (λ _ s'. Holds idle s') s
        (λ _ k' d.
          kept-Holds k' _ _ d.inv (d.preserves.checked holds.checked)
            (IsSettled-but t k' d.others d.same_running d.same_irq (λ _. d.pending)
              λ runs. absurd (new_not_running (sym new ∙ runs)))
            (IsIdle-but t k'.tasks d.others (inl d.state)) d.preserves.same_wait)
        (task_schedule t)
        (task_schedule-Scheduled t k holds.rs holds.ws holds.inv above new verified room)
    where
      new_not_running : task_initialized ≢ task_running
      new_not_running e = cc

  pub mask-Holds :
      (k.tasks k.running).state ≡ task_running
      → Returns (λ _ s'. Holds idle s') (in_kernel disable s)
  unfolding disable
  mask-Holds runs =
      kept-Holds (disabled k) holds.rs holds.ws
        (record { sched = holds.inv.sched; masked = disabled-Masked k holds.inv.masked })
        holds.checked (inl runs) holds.idle_state λ t. refl

  pub unmask-Holds :
      (k.tasks k.running).state ≡ task_running
      → pos 0 ≤ℤ k.id_nestcnt
      → Returns (λ _ s'. Holds idle s') (in_kernel enable s)
  unmask-Holds runs nested =
      let (n, counted, low) = below k.id_nestcnt nested in
      rw (enable_at n k low (holds.inv.masked.irq_below ∙ above k.id_nestcnt nested) counted) (
        kept-Holds (record k { id_nestcnt = n; irq = ltb_ℤ n (pos 0) }) holds.rs holds.ws
          (record { sched = holds.inv.sched; masked = record { irq_below = refl; nested = low } })
          holds.checked (inl runs) holds.idle_state λ t. refl)
    where
      below : (c : ℤ) → pos 0 ≤ℤ c → (n : ℤ) × (c ≡ n +ℤ pos 1) × (negsuc 0 ≤ℤ n)
      below c l =
          let down = -ℤ_parts c (pos 1) in (c -ℤ pos 1, sym (-ℤ_restore c (pos 1)), omega arith)

      above : (c : ℤ) → pos 0 ≤ℤ c → ltb_ℤ c (pos 0) ≡ false
      above c l = ground arith

  pub tick-Holds : Returns (λ _ s'. Holds idle s') (in_kernel systick_handler s)
  unfolding systick_handler
  tick-Holds = elim (Bool-cases ((k.elapsed + 2 ^ 32 - 1) % 2 ^ 32 == 0)) [
    | inl e ↦ rw e (
        kept-Holds (record k { elapsed = (k.elapsed + 2 ^ 32 - 1) % 2 ^ 32; pendsv = true })
          holds.rs holds.ws
          (record {
            sched =
                Sched-pending k.mem k.tasks k.running k.pendsv holds.rs holds.ws holds.inv.sched;
            masked = holds.inv.masked;
          })
          holds.checked pending holds.idle_state λ t. refl)
    | inr e ↦ rw e (
        kept-Holds (record k { elapsed = (k.elapsed + 2 ^ 32 - 1) % 2 ^ 32 }) holds.rs holds.ws
          (record { sched = holds.inv.sched; masked = holds.inv.masked }) holds.checked
          holds.settled holds.idle_state λ t. refl)
  ]
    where
      pending : ((k.tasks k.running).state ≡ task_running) ⊎ ((k.irq ≡ true) × (true ≡ true))
      pending = elim holds.settled [ inl r ↦ inl r | inr (i, _) ↦ inr (i, refl) ]
