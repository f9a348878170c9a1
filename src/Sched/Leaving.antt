-- ===== src/Sched/Leaving.antt =====
-- The end of PendSV_Handler_user of platforms/stm32f4-discovery/platform.c: the next task is
-- switched in, and the handler returns its frame.
use mathlib.Core.Bool.{false≢true}
use martos.Common.{
  ◌≡◌, refl, sym, ◌∙◌, ap, subst, ◌≢◌, inl, inr, Bool, true, false, List, ◌∷◌, All, if◌then◌else◌,
  update, update_self, ==-eq_false,
}
use martos.Common.Int.{ℤ, pos, negsuc, ltb_ℤ, ◌≤ℤ◌}
use martos.Memory.{Ptr, null, ok, Returns}
use martos.Kernel.{Kernel, Task, task_running}
use martos.Kernel.Interrupts.{Masked}
use martos.Kernel.Queues.{above-ne_null}
use martos.Task.Verify.{IsVerified, IsVerified-update, task_verify_run}
use martos.Switch.{switch_in, switch_exit, quantum}
use martos.Sched.{Sched, IsDue, Inv}
use martos.Sched.Checked.{Preserves, Preserves-update, Preserves-trans}
use martos.Sched.Switching.{Parked, switch_in_run, nested_at, made_running}

-- `k'` runs the first candidate. `k` is the kernel before the switch.
pub record Switched (k : Kernel) (ws cs : List Ptr) (frame : Ptr) (k' : Kernel) : Type 0 where
  pub rest : List Ptr
  pub first : cs ≡ k'.running ∷ rest
  pub inv : Inv k' rest ws
  pub runs : (k'.tasks k'.running).state ≡ task_running
  pub highest : All (λ t. k'.mem.prio t ≤ℤ k'.mem.prio k'.running) rest
  pub none_pending : k'.pendsv ≡ false
  pub fresh_quantum : k'.elapsed ≡ quantum
  pub loaded : frame ≡ (k'.tasks k'.running).context.frame
  pub preserves : Preserves k.tasks k'.tasks
  pub same_prio : k'.mem.prio ≡ k.mem.prio

-- What `switch_in` leaves on both branches.
pub record SwitchDone (k : Kernel) (next : Ptr) (rest ws : List Ptr) (k' : Kernel) : Type 0 where
  pub sched : Sched k'.mem k'.tasks next false rest ws
  pub same_prio : k'.mem.prio ≡ k.mem.prio
  pub now : k'.running ≡ next
  pub verified : IsVerified (k'.tasks next)
  pub counter : k'.id_nestcnt ≡ (k'.tasks next).id_nestcnt
  pub masked : k'.irq ≡ k.irq
  pub pending : k'.pendsv ≡ k.pendsv
  pub slice : k'.elapsed ≡ quantum
  pub preserves : Preserves k.tasks k'.tasks

pub running-IsVerified : (t : Task) → IsVerified t → IsVerified (made_running t)
running-IsVerified t v = record {
  above_bottom = v.above_bottom;
  below_top = v.below_top;
  single = v.single;
  nested = v.nested;
  known = refl;
}

pub nested-IsVerified :
    (n : ℤ) (t : Task) → negsuc 0 ≤ℤ n → IsVerified t → IsVerified (nested_at n t)
nested-IsVerified n t h v = record {
  above_bottom = v.above_bottom;
  below_top = v.below_top;
  single = v.single;
  nested = h;
  known = v.known;
}

pub switch_in-Done :
    (k : Kernel) (next : Ptr) (rest ws : List Ptr)
    → k.running ≢ null
    → negsuc 0 ≤ℤ k.id_nestcnt
    → IsVerified (k.tasks k.running)
    → IsVerified (k.tasks next)
    → Parked k.mem k.tasks (next ∷ rest) ws
    → (k' : Kernel) × (switch_in k ≡ ok tt k') × SwitchDone k next rest ws k'
switch_in-Done k next rest ws valid nested old new p =
    let (m', run, kept, s) = switch_in_run k next rest ws p valid in
    let saved = update k.tasks k.running (nested_at k.id_nestcnt (k.tasks k.running)) in
    let saved_next =
      IsVerified-update k.tasks k.running (nested_at k.id_nestcnt (k.tasks k.running))
        (nested-IsVerified k.id_nestcnt (k.tasks k.running) nested old) next new in
    (
      _,
      run,
      record {
        sched = s;
        same_prio = kept.1;
        now = refl;
        verified =
            subst IsVerified (sym (update_self saved (made_running (saved next)) next))
              (running-IsVerified (saved next) saved_next);
        counter = refl;
        masked = refl;
        pending = refl;
        slice = refl;
        preserves =
            Preserves-trans k.tasks saved (update saved next (made_running (saved next)))
              (Preserves-update k.tasks k.running (nested_at k.id_nestcnt (k.tasks k.running))
                (nested-IsVerified k.id_nestcnt (k.tasks k.running) nested old) refl)
              (Preserves-update saved next (made_running (saved next))
                (running-IsVerified (saved next) saved_next) refl);
      },
    )

-- The exit of the handler, at a task that passes `task_verify`.
module _ (k0 k k' : Kernel) (next : Ptr) (rest ws : List Ptr) (d : SwitchDone k next rest ws k')
    (off : k.irq ≡ false) (none : k.pendsv ≡ false) (before : Preserves k0.tasks k.tasks)
    (prio : k.mem.prio ≡ k0.mem.prio) where
  abbrev unmasked : Kernel
  unmasked = record k' { irq = if ltb_ℤ k'.id_nestcnt (pos 0) then true else k'.irq }

  unmasked-Masked : Masked unmasked.irq unmasked.id_nestcnt
  unmasked-Masked = record {
    irq_below = rw (d.masked, off) (as_is (ltb_ℤ k'.id_nestcnt (pos 0)));
    nested = subst (λ n. negsuc 0 ≤ℤ n) (sym d.counter) (d.verified.nested);
  }
    where
      as_is : (b : Bool) → (if b then true else false) ≡ b
      as_is true = refl
      as_is false = refl

  exit_valid : k'.running ≢ null
  exit_valid e = above-ne_null next d.sched.running_above (sym d.now ∙ e)

  exit_run : switch_exit k' ≡ ok (k'.tasks k'.running).context.frame unmasked
  unfolding switch_exit
  exit_run = rw (
    task_verify_run k'.running unmasked exit_valid unmasked-Masked
        (subst (λ z. IsVerified (k'.tasks z)) (sym d.now) d.verified),
    ==-eq_false k'.running null exit_valid,
  )

  -- The priority rule with no switch pending.
  exit_due :
      ((k'.tasks next).state ≡ task_running) × All (λ t. k'.mem.prio t ≤ℤ k'.mem.prio next) rest
  exit_due = settled d.sched.due
    where
      settled :
          IsDue k'.mem k'.tasks next false rest
          → ((k'.tasks next).state ≡ task_running)
            × All (λ t. k'.mem.prio t ≤ℤ k'.mem.prio next) rest
      settled (inl e) = absurd (false≢true e)
      settled (inr h) = h

  exit-Sched : Sched k'.mem k'.tasks k'.running k'.pendsv rest ws
  exit-Sched = rw (d.now, d.pending, none) d.sched

  pub switch_exit-Switched :
      Returns (λ frame k2. Switched k0 ws (next ∷ rest) frame k2) (switch_exit k')
  switch_exit-Switched = rw exit_run (record {
    rest = rest;
    first = ap (λ z. z ∷ rest) (sym d.now);
    inv = record { sched = exit-Sched; masked = unmasked-Masked };
    runs = ap (λ z. (k'.tasks z).state) d.now ∙ exit_due.0;
    highest = subst (λ z. All (λ t. k'.mem.prio t ≤ℤ k'.mem.prio z) rest) (sym d.now) exit_due.1;
    none_pending = d.pending ∙ none;
    fresh_quantum = d.slice;
    loaded = refl;
    preserves = Preserves-trans k0.tasks k.tasks k'.tasks before d.preserves;
    same_prio = d.same_prio ∙ prio;
  })
