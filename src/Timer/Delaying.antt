-- ===== src/Timer/Delaying.antt =====
-- `timer_allocate` and `timer_delay` of src/timer.c: a task sleeps.
use martos.Common.{
  ℕ, ◌<◌, ◌≡◌, refl, ◌∙◌, ap, ◌≢◌, ◌⊎◌, inl, inr, Bool, true, false, not, ◌&&◌, ◌==◌, List,
  ==-eq_false, update, update_self, update_other, arith,
}
use martos.Common.Int.{negsuc}
use martos.Common.Bits.{bit}
use martos.Memory.{Ptr, null, ok, err, Run, assertion, Returns-run}
use martos.Kernel.{Kernel, Timer, timer_none, timer_initialized, task_running}
use martos.Signal.{shifted, signal_allocate}
use martos.Signal.Allocate.{IsWords}
use martos.Sched.{Inv}
use martos.Sched.Allocating.{Any, signal_allocate-Any}
use martos.Timer.{timer_allocate, set_timer, write_timer}

abbrev pub allocated : Ptr → ℕ → Timer → Timer
allocated task n t = record t {
  task = task;
  signal = shifted n;
  op = timer_none;
  status = timer_initialized;
}

module _ (timer : Ptr) (valid : timer ≢ null) (k : Kernel) (rs ws : List Ptr) where
  -- The timer has signal `n` of the running task, which has not received it.
  pub record Owned (n : ℕ) (k' : Kernel) : Type 0 where
    pub inv : Inv k' rs ws
    pub runs : (k'.tasks k'.running).state ≡ task_running
    pub missing : bit (k'.tasks k'.running).sig_recvd n ≡ false
    pub same_mem : k'.mem ≡ k.mem
    pub same_running : k'.running ≡ k.running
    pub same_clock : k'.timer_now ≡ k.timer_now
    pub own : k'.timer_objects timer ≡ allocated k.running n (k.timer_objects timer)
    pub others : (x : Ptr) → x ≢ timer → k'.timer_objects x ≡ k.timer_objects x

  -- No signal is left, which an assertion finds, or the timer has one.
  abbrev pub Allocated : Run Kernel (Unit {0}) → Type 0
  Allocated r =
      (((j : ℕ) → j < 16 → bit (k.tasks k.running).sig_alloc j ≡ true) × (r ≡ err assertion))
      ⊎ ((n : ℕ) × (n < 16)
          × (bit (k.tasks k.running).sig_alloc n ≡ false)
          × ((k' : Kernel) × (r ≡ ok tt k') × Owned n k'))

  module _ (inv : Inv k rs ws) (runs : (k.tasks k.running).state ≡ task_running)
      (words : IsWords (k.tasks k.running)) where
    abbrev own_task : Timer
    own_task = record (k.timer_objects timer) { task = k.running }

    abbrev entered : Kernel
    entered = write_timer timer own_task k

    inv1 : Inv entered rs ws
    inv1 = record { sched = inv.sched; masked = inv.masked }

    module _ (n : ℕ) (k2 : Kernel) where
      abbrev set_signal : Timer → Timer
      set_signal t = record t { signal = shifted n }

      abbrev set_op : Timer → Timer
      set_op t = record t { op = timer_none }

      abbrev set_status : Timer → Timer
      set_status t = record t { status = timer_initialized }

      abbrev f1 : Ptr → Timer
      f1 = update k2.timer_objects timer (set_signal (k2.timer_objects timer))

      abbrev f2 : Ptr → Timer
      f2 = update f1 timer (set_op (f1 timer))

      abbrev f3 : Ptr → Timer
      f3 = update f2 timer (set_status (f2 timer))

      f3_own :
          k2.timer_objects ≡ entered.timer_objects
          → f3 timer ≡ allocated k.running n (k.timer_objects timer)
      f3_own same =
          update_self f2 (set_status (f2 timer)) timer
          ∙ ap set_status (
              update_self f1 (set_op (f1 timer)) timer
              ∙ ap set_op (
                  update_self k2.timer_objects (set_signal (k2.timer_objects timer)) timer
                  ∙ ap set_signal (
                      ap (λ (f : Ptr → Timer). f timer) same
                      ∙ update_self k.timer_objects own_task timer)))

      f3_others :
          k2.timer_objects ≡ entered.timer_objects
          → (x : Ptr) → x ≢ timer
          → f3 x ≡ k.timer_objects x
      f3_others same x ne =
          update_other f2 (set_status (f2 timer)) timer x ne
          ∙ (update_other f1 (set_op (f1 timer)) timer x ne
              ∙ (update_other k2.timer_objects (set_signal (k2.timer_objects timer)) timer x ne
                  ∙ (ap (λ (f : Ptr → Timer). f x) same
                      ∙ update_other k.timer_objects own_task timer x ne)))

    pub timer_allocate-Allocated : Allocated (timer_allocate timer k)
    unfolding timer_allocate set_timer
    timer_allocate-Allocated =
        let (r, k2, run, any) =
          Returns-run (Any entered rs ws inv1 runs words) (signal_allocate (negsuc 0) entered)
            (signal_allocate-Any entered rs ws inv1 runs words) in
        rw (==-eq_false timer null valid, run)
          (elim any [
            | inl (n, small, e, free, above, marked) ↦
                rw
                  (
                    e,
                    ==-eq_false timer null valid,
                    ==-eq_false timer null valid,
                    ==-eq_false timer null valid,
                  )
                  (inr (
                    n,
                    small,
                    free,
                    (
                      record k2 { timer_objects = f3 n k2 },
                      refl,
                      record {
                        inv = record { sched = marked.inv.sched; masked = marked.inv.masked };
                        runs =
                            ap (λ t. (k2.tasks t).state) marked.same_running
                            ∙ (marked.marks.state ∙ runs);
                        missing =
                            ap (λ t. bit (k2.tasks t).sig_recvd n) marked.same_running
                            ∙ (marked.marks.recvd n
                                ∙ cleared n (bit (k.tasks k.running).sig_recvd n));
                        same_mem = marked.same_mem;
                        same_running = marked.same_running;
                        same_clock = marked.same_clock;
                        own = f3_own n k2 marked.same_timers;
                        others = f3_others n k2 marked.same_timers;
                      },
                    ),
                  ))
            | inr (e, taken, marked) ↦ rw e (inl (taken, refl))
          ])
      where
        cleared : (n : ℕ) (b : Bool) → (b && not (n == n)) ≡ false
        cleared n b = ground arith
