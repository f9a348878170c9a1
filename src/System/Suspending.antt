-- ===== src/System/Suspending.antt =====
-- The events of signal_wait of src/task.c: a task begins to wait, and goes on when it runs again.
use native.Mathlib.Decide.{ℕ_discrete}
use martos.Common.{
  ◌≡◌, refl, sym, ◌∙◌, ap, subst, ◌≢◌, inl, inr, Option, none, some, update, update_self,
  update_other,
}
use martos.Common.Int.{ℤ, negsuc, ◌≤ℤ◌}
use martos.Memory.{Ptr, Returns, Returns-bind}
use martos.Kernel.{Kernel, Task, Signals, task_running}
use martos.Signal.{Wait, received, blocked, signal_wait, signal_wait_resume}
use martos.Task.Verify.{IsVerified}
use martos.Sched.Checked.{AllChecked, AllChecked-but, IsVerified-same}
use martos.Sched.States.{AgreeBut}
use martos.Sched.Outcome.{Waited}
use martos.Sched.Waiting.{waiting_for, waits_for, signal_wait-Waited, signal_wait_resume-Waited}
use martos.System.{System, in_kernel, in_call, remember, run, resume, start_wait, resume_wait}
use martos.System.Holding.{Holds, IsSaved, IsIdle}
use martos.System.Calling.{Returns-in_kernel}

pub none_not_some : {A : Type 0} (a : A) (o : Option A) → o ≡ none → o ≢ some a
none_not_some a o n e = cc n

pub some_eq : {A : Type 0} (a b : A) → some a ≡ some b → a ≡ b
some_eq a b e = cc

module _ (idle : Ptr) (s : System) (holds : Holds idle s) (not_idle : s.kernel.running ≢ idle)
    (signals : Signals) (n : ℤ) (low : negsuc 0 ≤ℤ n) (k0 : Kernel)
    (same_running : k0.running ≡ s.kernel.running)
    (agree0 : AgreeBut s.kernel.running s.kernel.tasks k0.tasks)
    (checked0 : AllChecked k0.tasks) where
  abbrev k : Kernel
  k = s.kernel

  -- The calls once the running task's is written down.
  abbrev written : Wait → Ptr → Option (Signals × ℤ)
  written w = update s.calls k.running (in_call signals w)

  others :
      (k' : Kernel) → AgreeBut k0.running k0.tasks k'.tasks → AgreeBut k.running k.tasks k'.tasks
  others k' agree x ne = agree x (λ e. ne (e ∙ same_running)) ∙ agree0 x ne

  -- What is saved of the running task, and what stays saved of the others.
  written-IsSaved :
      (w : Wait) (g : Ptr → Task)
      → AgreeBut k.running k.tasks g
      → ((c : Signals × ℤ) → in_call signals w ≡ some c → IsSaved c.0 c.1 (g k.running))
      → (t : Ptr) (c : Signals × ℤ) → written w t ≡ some c
      → IsSaved c.0 c.1 (g t)
  written-IsSaved w g agree own t c e = elim (ℕ_discrete t k.running) [
    | yes p ↦
        subst (λ a. IsSaved c.0 c.1 (g a)) (sym p)
          (own c (
            sym (update_self s.calls (in_call signals w) k.running) ∙ (ap (written w) (sym p) ∙ e)))
    | no ne ↦
        subst (λ (a : Task). IsSaved c.0 c.1 a) (sym (agree t ne))
          (holds.saved t c.0 c.1
            (sym (update_other s.calls (in_call signals w) k.running t ne) ∙ e))
  ]

  written_idle : (w : Wait) → written w idle ≡ none
  written_idle w =
      update_other s.calls (in_call signals w) k.running idle (λ e. not_idle (sym e))
      ∙ holds.idle_calls

  IsIdle-after : (g : Ptr → Task) → AgreeBut k.running k.tasks g → IsIdle (g idle).state
  IsIdle-after g agree =
      subst (λ (a : Task). IsIdle a.state) (sym (agree idle (λ e. not_idle (sym e))))
        holds.idle_state

  Waited-Holds :
      (w : Wait) (k' : Kernel)
      → Waited signals n k0 holds.rs holds.ws w k'
      → Holds idle (record s { kernel = k'; calls = written w })
  Waited-Holds (received got) k'
        (hit, e, inv, nest, run, agree, left, state, mem, ports, _, checks) =
      record {
        rs = holds.rs;
        ws = holds.ws;
        inv = inv;
        checked = checks checked0;
        settled = inl (ap (λ t. (k'.tasks t).state) run ∙ state);
        idle_state = IsIdle-after k'.tasks (others k' agree);
        idle_calls = written_idle (received got);
        saved = λ t sg m.
            written-IsSaved (received got) k'.tasks (others k' agree)
              (λ c e. absurd (none_not_some c none refl e)) t (sg, m);
      }
  Waited-Holds (blocked m) k'
        (miss, c, inv, irq, pend, run, agree, state, waits, same, ports, _, checks) =
      record {
        rs = holds.rs;
        ws = _;
        inv = inv;
        checked = checks checked0;
        settled = inr (irq, pend);
        idle_state = IsIdle-after k'.tasks (others k' agree);
        idle_calls = written_idle (blocked m);
        saved = λ t sg j.
            written-IsSaved (blocked m) k'.tasks (others k' agree)
              (λ d e.
                subst (λ (p : Signals × ℤ). IsSaved p.0 p.1 (k'.tasks k.running))
                  (some_eq (signals, m) d e)
                  (ap (λ t. (k'.tasks t).sig_wait) (sym same_running) ∙ waits, (n, c, low)))
              t (sg, j);
      }

module _ (idle : Ptr) (s : System) (holds : Holds idle s)
    (runs : (s.kernel.tasks s.kernel.running).state ≡ task_running) where
  -- What the two events do behind the call in the kernel.
  remember-Holds :
      (signals : Signals) (n : ℤ) (k0 : Kernel)
      → s.kernel.running ≢ idle
      → negsuc 0 ≤ℤ n
      → k0.running ≡ s.kernel.running
      → AgreeBut s.kernel.running s.kernel.tasks k0.tasks
      → AllChecked k0.tasks
      → (w : Wait) (k' : Kernel) → Waited signals n k0 holds.rs holds.ws w k'
      → Returns (λ _ s'. Holds idle s') (remember signals w (record s { kernel = k' }))
  unfolding remember
  remember-Holds signals n k0 not_idle low same agree checked w k' h =
      subst
        (λ a. Holds idle (record s { kernel = k'; calls = update s.calls a (in_call signals w) }))
        (sym (now w k' h))
        (Waited-Holds idle s holds not_idle signals n low k0 same agree checked w k' h)
    where
      now :
          (w : Wait) (k' : Kernel)
          → Waited signals n k0 holds.rs holds.ws w k'
          → k'.running ≡ s.kernel.running
      now (received got) k' t = t.4 ∙ same
      now (blocked m) k' t = t.5 ∙ same

  pub start-Holds :
      (signals : Signals)
      → s.kernel.running ≢ idle
      → Returns (λ _ s'. Holds idle s') (run (start_wait signals) s)
  unfolding run
  start-Holds signals not_idle =
      let k = s.kernel in
      let v = waits_for signals (k.tasks k.running) in
      let agree = update_other k.tasks v k.running in
      let self = update_self k.tasks v k.running in
      Returns-bind
        (λ w s1.
          (k' : Kernel) × (s1 ≡ record s { kernel = k' })
          × Waited signals k.id_nestcnt (waiting_for signals k) holds.rs holds.ws w k')
        (λ _ s'. Holds idle s') (in_kernel (signal_wait signals) s) (remember signals)
        (Returns-in_kernel (Waited signals k.id_nestcnt (waiting_for signals k) holds.rs holds.ws) _
          s (λ w k' h. (k', refl, h)) (signal_wait signals)
          (signal_wait-Waited signals k holds.rs holds.ws holds.inv runs))
        λ w s1 (k', e, h). rw e (
          remember-Holds signals k.id_nestcnt (waiting_for signals k) not_idle
            holds.inv.masked.nested refl agree
            (AllChecked-but k.tasks (waiting_for signals k).tasks k.running agree
              (λ _. subst IsVerified (sym self) (
                IsVerified-same (k.tasks k.running) v refl refl refl
                  (holds.checked k.running holds.inv.sched.live) holds.inv.sched.live))
              holds.checked)
            w k' h)

  pub resume-Holds :
      (signals : Signals) (m : ℤ)
      → s.calls s.kernel.running ≡ some (signals, m)
      → Returns (λ _ s'. Holds idle s') (run resume_wait s)
  unfolding run resume
  resume-Holds signals m call =
      let k = s.kernel in
      let (wait, (n, counted, low)) = holds.saved k.running signals m call in
      let not_idle = λ (e : k.running ≡ idle).
        none_not_some (signals, m) (s.calls idle) holds.idle_calls (ap s.calls (sym e) ∙ call) in
      rw call (
        Returns-bind
          (λ w s1.
            (k' : Kernel) × (s1 ≡ record s { kernel = k' })
            × Waited signals n k holds.rs holds.ws w k')
          (λ _ s'. Holds idle s') (in_kernel (signal_wait_resume signals m) s) (remember signals)
          (Returns-in_kernel (Waited signals n k holds.rs holds.ws) _ s (λ w k' h. (k', refl, h))
            (signal_wait_resume signals m)
            (signal_wait_resume-Waited signals k holds.rs holds.ws holds.inv runs n m counted low
              wait))
          λ w s1 (k', e, h).
            rw e (remember-Holds signals n k not_idle low refl (λ x ne. refl) holds.checked w k' h))
