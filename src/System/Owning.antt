-- ===== src/System/Owning.antt =====
-- The events in which the running task allocates and frees signals or sets a priority:
-- signal_allocate, signal_free and task_set_prio of src/task.c.
use martos.Common.{
  ℕ, ◌<◌, ◌≡◌, refl, sym, ◌∙◌, ap, subst, ◌≢◌, ◌⊎◌, inl, inr, not, ◌==◌, true, false, bit_and,
  arith,
}
use martos.Common.Int.{ℤ, pos, negsuc}
use martos.Common.Bits.{bit, bit-pow}
use martos.Memory.{Ptr, null, Returns, Returns-bind, ◌>>=◌, pure}
use martos.Kernel.{Kernel, Task, Signals, task_ready, sigf_single}
use martos.Signal.{meets, signal_allocate, signal_free}
use martos.Signal.Sets.{meets-false_iff}
use martos.Signal.Allocate.{IsWords, meets-shifted}
use martos.Task.{task_set_prio}
use martos.Task.Verify.{IsVerified}
use martos.Sched.{Inv, IsLive}
use martos.Sched.Allocating.{Marked, Any, One, signal_allocate-Any, signal_allocate-One}
use martos.Sched.Freeing.{Freed, signal_free-Freed}
use martos.Sched.Priority.{Reprioritised, task_set_prio-Reprioritised}
use martos.Sched.Checked.{AllChecked, AllChecked-but, IsVerified-live}
use martos.Sched.States.{AgreeBut}
use martos.System.{System, IsFree, in_kernel}
use martos.System.Holding.{Holds, IsSaved, IsIdle}
use martos.System.Calling.{Returns-in_kernel, kept-Holds, IsIdle-but}
use martos.System.Suspending.{none_not_some}

-- `SIGF_SINGLE` is the signal 0.
single_bit : (alloc : Signals) → meets sigf_single alloc ≡ bit alloc 0
single_bit alloc = meets-shifted 0 alloc (omega arith)

module _ (idle : Ptr) (s : System) (holds : Holds idle s) (free : IsFree s) where
  abbrev k : Kernel
  k = s.kernel

  -- A kernel in which the running task has other sets of signals, `SIGF_SINGLE` among the allocated
  -- ones still.
  own-Holds :
      (k' : Kernel)
      → Inv k' holds.rs holds.ws
      → k'.running ≡ k.running
      → AgreeBut k.running k.tasks k'.tasks
      → (k'.tasks k.running).state ≡ (k.tasks k.running).state
      → (k'.tasks k.running).context ≡ (k.tasks k.running).context
      → (k'.tasks k.running).id_nestcnt ≡ (k.tasks k.running).id_nestcnt
      → (bit (k.tasks k.running).sig_alloc 0 ≡ true → bit (k'.tasks k.running).sig_alloc 0 ≡ true)
      → Holds idle (record s { kernel = k' })
  own-Holds k' inv run agree state context nestcnt single = record {
    rs = holds.rs;
    ws = holds.ws;
    inv = inv;
    checked =
        AllChecked-but k.tasks k'.tasks k.running agree
          (λ live.
            IsVerified-live (k.tasks k.running) (k'.tasks k.running) context nestcnt
              (single_bit _ ∙ single (sym (single_bit _) ∙ before.single)) before live)
          holds.checked;
    settled = inl (ap (λ a. (k'.tasks a).state) run ∙ state ∙ free.0);
    idle_state = IsIdle-but idle s holds k.running k'.tasks agree (inr state);
    idle_calls = holds.idle_calls;
    saved = λ t signals n e.
        subst (λ a. IsSaved signals n a)
          (sym
            (agree t λ same. none_not_some (signals, n) (s.calls t) (ap s.calls same ∙ free.1) e))
          (holds.saved t signals n e);
  }
    where
      before : IsVerified (k.tasks k.running)
      before = holds.checked k.running (subst IsLive (sym free.0) tt)

  Marked-Holds :
      (n : ℕ) (k' : Kernel)
      → Marked n k holds.rs holds.ws k'
      → Holds idle (record s { kernel = k' })
  Marked-Holds n k' d =
      own-Holds k' d.inv d.same_running d.others d.marks.state d.marks.context d.marks.nestcnt
        λ e. d.marks.alloc 0 ∙ rw e refl

  Any-Holds :
      (words : IsWords (k.tasks k.running)) (r : ℤ) (k' : Kernel)
      → Any k holds.rs holds.ws holds.inv free.0 words r k'
      → Holds idle (record s { kernel = k' })
  Any-Holds words r k' (inl (n, _, _, _, _, d)) = Marked-Holds n k' d
  Any-Holds words r k' (inr (_, _, d)) = Marked-Holds 0 k' d

  pub allocate-Holds :
      IsWords (k.tasks k.running)
      → (signal : ℤ) → (signal ≡ negsuc 0) ⊎ ((n : ℕ) × (n < 16) × (signal ≡ pos n))
      → Returns (λ _ s'. Holds idle s') ((in_kernel (signal_allocate signal) >>= λ _. pure tt) s)
  allocate-Holds words signal choice =
      Returns-bind (λ _ s'. Holds idle s') (λ _ s'. Holds idle s')
        (in_kernel (signal_allocate signal) s) (λ _. pure tt)
        (elim choice [
          | inl e ↦ rw e (
              Returns-in_kernel (Any k holds.rs holds.ws holds.inv free.0 words)
                (λ _ s'. Holds idle s') s (λ r k' any. Any-Holds words r k' any)
                (signal_allocate (negsuc 0))
                (signal_allocate-Any k holds.rs holds.ws holds.inv free.0 words))
          | inr (n, h, e) ↦ rw e (
              Returns-in_kernel (One k holds.rs holds.ws holds.inv free.0 words n)
                (λ _ s'. Holds idle s') s (λ _ k' d. Marked-Holds n k' d.1)
                (signal_allocate (pos n))
                (signal_allocate-One k holds.rs holds.ws holds.inv free.0 words n h))
        ])
        λ _ s' h. h

  pub free-Holds :
      IsWords (k.tasks k.running)
      → (signals : Signals) → bit_and signals sigf_single ≡ 0
      → bit_and signals (k.tasks k.running).sig_alloc ≡ signals
      → Returns (λ _ s'. Holds idle s') (in_kernel (signal_free signals) s)
  free-Holds words signals single held =
      Returns-in_kernel (λ _ k'. Freed signals k holds.rs holds.ws k') (λ _ s'. Holds idle s') s
        (λ _ k' d.
          own-Holds k' d.inv d.same_running d.others d.same_state d.same_context d.same_nestcnt
            λ e. d.alloc 0 ∙ rw (e, not_single) refl)
        (signal_free signals)
        (signal_free-Freed signals k holds.rs holds.ws holds.inv free.0 words single held)
    where
      not_single : bit signals 0 ≡ false
      not_single =
          let apart = (meets-false_iff signals sigf_single).0 (ap (λ n. not (n == 0)) single) 0 in
          let one : bit sigf_single 0 ≡ true = bit-pow 0 0 in ground (arith, apart, one)

  pub set_prio-Holds :
      (t : Ptr) (p : ℤ)
      → t ≢ null
      → (k.tasks t).state ≢ task_ready
      → Returns (λ _ s'. Holds idle s') (in_kernel (task_set_prio t p) s)
  set_prio-Holds t p valid not_ready =
      Returns-in_kernel
        (λ _ k'. Reprioritised t p k holds.rs holds.ws k' × ((t ≢ k.running) ⊎ (k'.pendsv ≡ true)))
        (λ _ s'. Holds idle s') s
        (λ _ k' (d, _).
          kept-Holds idle s holds k' holds.rs holds.ws d.inv
            (subst AllChecked (sym d.same_tasks) holds.checked)
            (inl (
              ap (λ f. (f k'.running).state) d.same_tasks
              ∙ ap (λ a. (k.tasks a).state) d.same_running
              ∙ free.0))
            (subst (λ (f : Ptr → Task). IsIdle (f idle).state) (sym d.same_tasks) holds.idle_state)
            (λ x. ap (λ (f : Ptr → Task). (f x).sig_wait) d.same_tasks))
        (task_set_prio t p)
        (task_set_prio-Reprioritised t p k holds.rs holds.ws valid holds.inv not_ready)
