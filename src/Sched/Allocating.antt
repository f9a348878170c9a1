-- ===== src/Sched/Allocating.antt =====
-- `signal_allocate` and `signal_free` of src/task.c as kernel calls of the running task.
use martos.Common.{
  ℕ, ◌<◌, ◌≡◌, refl, sym, ◌∙◌, ap, subst, ◌≢◌, ◌⊎◌, inl, inr, true, false, arith, List, update,
  update_self, update_other, ==-eq_false, if◌then◌else◌, bit_or,
}
use martos.Common.Int.{ℤ, pos, negsuc}
use martos.Common.Bits.{bit}
use martos.Memory.{Ptr, null, Returns, Returns-bind, continue, pure}
use martos.Kernel.{Kernel, Task, Signals, disabled, without, task_running}
use martos.Kernel.Interrupts.{enable_protected}
use martos.Kernel.Queues.{above-ne_null}
use martos.Signal.{shifted, search_free, choose_signal, mark_allocated, in_width, signal_allocate}
use martos.Signal.Allocate.{
  Searched, search_free-Searched, meets-shifted, marked, Marks, IsWords, marked-Marks,
  shifted-positive,
}
use martos.Sched.{Sched, Inv}
use martos.Sched.Keep.{Sched-keep}
use martos.Sched.Wake.{waiting_not_running}
use martos.Sched.States.{AgreeBut}

-- The call keeps the invariant, and changes the signal sets of the running task alone.
pub record Marked (n : ℕ) (k : Kernel) (rs ws : List Ptr) (k' : Kernel) : Type 0 where
  pub inv : Inv k' rs ws
  pub marks : Marks n (k.tasks k.running) (k'.tasks k.running)
  pub others : AgreeBut k.running k.tasks k'.tasks
  pub same_running : k'.running ≡ k.running
  pub same_irq : k'.irq ≡ k.irq
  pub same_nestcnt : k'.id_nestcnt ≡ k.id_nestcnt
  pub same_mem : k'.mem ≡ k.mem
  pub same_ports : k'.ports ≡ k.ports
  pub same_clock : k'.timer_now ≡ k.timer_now
  pub same_timers : k'.timer_objects ≡ k.timer_objects

module _ (k : Kernel) (rs ws : List Ptr) (inv : Inv k rs ws)
    (runs : (k.tasks k.running).state ≡ task_running) (words : IsWords (k.tasks k.running)) where
  valid : k.running ≢ null
  valid = above-ne_null k.running inv.sched.running_above

  -- A change of the running task that keeps its state keeps the invariant.
  own_Sched :
      (g : Ptr → Task)
      → AgreeBut k.running k.tasks g
      → (g k.running).state ≡ (k.tasks k.running).state
      → Sched k.mem g k.running k.pendsv rs ws
  own_Sched g agree state =
      Sched-keep k.tasks g k.running agree state k.mem k.running k.pendsv rs ws inv.sched
        (λ w _. absurd (waiting_not_running (sym w ∙ runs)))

  mark_allocated-Marked :
      (n : ℕ) → n < 16 → Returns (λ _ k'. Marked n k rs ws k') (mark_allocated (shifted n) k)
  unfolding mark_allocated
  mark_allocated-Marked n h =
      let t = k.running in
      let s = shifted n in
      let set_alloc = λ (a : Task). record a { sig_alloc = bit_or a.sig_alloc s } in
      let set_wait = λ (a : Task). record a { sig_wait = without a.sig_wait s } in
      let set_recvd = λ (a : Task). record a { sig_recvd = without a.sig_recvd s } in
      let f1 = update k.tasks t (set_alloc (k.tasks t)) in
      let f2 = update f1 t (set_wait (f1 t)) in
      let f3 = update f2 t (set_recvd (f2 t)) in
      let self : f3 t ≡ marked s (k.tasks t) =
        update_self f2 (set_recvd (f2 t)) t
        ∙ ap set_recvd (
            update_self f1 (set_wait (f1 t)) t
            ∙ ap set_wait (update_self k.tasks (set_alloc (k.tasks t)) t)) in
      let agree = λ (x : Ptr) (ne : x ≢ t).
        update_other f2 (set_recvd (f2 t)) t x ne
        ∙ (update_other f1 (set_wait (f1 t)) t x ne
            ∙ update_other k.tasks (set_alloc (k.tasks t)) t x ne) in
      rw
        (
          shifted-positive n h,
          ==-eq_false t null valid,
          ==-eq_false t null valid,
          ==-eq_false t null valid,
          enable_protected k (record (disabled k) { tasks = f3 }) inv.masked refl refl,
        )
        (record {
          inv = record {
            sched = own_Sched f3 agree (ap (λ (a : Task). a.state) self);
            masked = inv.masked;
          };
          marks =
              subst (λ a. Marks n (k.tasks t) a) (sym self) (marked-Marks n (k.tasks t) h words);
          others = agree;
          same_running = refl;
          same_irq = refl;
          same_nestcnt = refl;
          same_mem = refl;
          same_ports = refl;
          same_clock = refl;
          same_timers = refl;
        })

  abbrev pub Any : ℤ → Kernel → Type 0
  Any r k' =
      ((n : ℕ) × (n < 16)
        × (r ≡ pos n)
        × (bit (k.tasks k.running).sig_alloc n ≡ false)
        × ((j : ℕ) → n < j → j < 16 → bit (k.tasks k.running).sig_alloc j ≡ true)
        × Marked n k rs ws k')
      ⊎ ((r ≡ negsuc 0)
          × ((j : ℕ) → j < 16 → bit (k.tasks k.running).sig_alloc j ≡ true)
          × Marked 0 k rs ws k')

  Any-of_search :
      (r : Signals × ℤ)
      → Searched (k.tasks k.running).sig_alloc 15 r
      → Returns Any (continue (mark_allocated r.0 k) (λ _. pure r.1))
  Any-of_search (target, result) (inl (n, l, free, above, t, e)) = rw t (
      Returns-bind (λ _ k'. Marked n k rs ws k') Any (mark_allocated (shifted n) k)
        (λ _. pure result) (mark_allocated-Marked n (omega arith))
        λ _ k' m. inl (n, omega arith, e, free, λ j below up. above j below (omega arith), m))
  Any-of_search (target, result) (inr (all, t, e)) = rw t (
      Returns-bind (λ _ k'. Marked 0 k rs ws k') Any (mark_allocated (shifted 0) k)
        (λ _. pure result) (mark_allocated-Marked 0 (omega arith))
        λ _ k' m. inr (e, λ j up. all j (omega arith), m))

  -- `signal_allocate(-1)` of a running task ends well. If a signal is free, it allocates and returns the highest free
  -- one. If all are allocated, it returns -1, and signal 0 is no longer waited for nor received.
  -- Other signals and tasks do not change, and the scheduler's invariant stays.
  pub signal_allocate-Any : Returns Any (signal_allocate (negsuc 0) k)
  unfolding signal_allocate choose_signal
  signal_allocate-Any = rw (==-eq_false k.running null valid) (
      Any-of_search (search_free (k.tasks k.running).sig_alloc 15)
        (search_free-Searched (k.tasks k.running).sig_alloc 15 (omega arith)))

  abbrev pub One : ℕ → ℤ → Kernel → Type 0
  One n r k' =
      (r ≡ (if bit (k.tasks k.running).sig_alloc n then negsuc 0 else pos n)) × Marked n k rs ws k'

  -- `signal_allocate(n)` of a running task for a signal number `n` ends well. It returns `n` if that is free and -1
  -- if not. In both cases `n` is allocated afterwards, and is neither waited for nor received.
  -- Other signals and tasks do not change, and the scheduler's invariant stays.
  pub signal_allocate-One : (n : ℕ) → n < 16 → Returns (One n) (signal_allocate (pos n) k)
  unfolding signal_allocate choose_signal
  signal_allocate-One n h =
      rw (width, ==-eq_false k.running null valid, meets-shifted n (k.tasks k.running).sig_alloc h)
        (Returns-bind (λ _ k'. Marked n k rs ws k') (One n) (mark_allocated (shifted n) k)
          (λ _. pure (if bit (k.tasks k.running).sig_alloc n then negsuc 0 else pos n))
          (mark_allocated-Marked n h) λ _ k' m. (refl, m))
    where
      width : in_width (pos n) ≡ true
      width = ground arith
