-- ===== src/SysArch/TimingOut.antt =====
-- sys_arch_sem_wait of lwip_martos/sys_arch.c when its time is over before it has the semaphore.
use mathlib.Core.Bool.{false≢true}
use martos.Common.{
  ℕ, ◌<◌, ◌^◌, Bool, ◌≡◌, refl, sym, ◌∙◌, ap, subst, ◌≢◌, true, false, not, ◌&&◌, List, ◌∷◌, ◌++◌,
  arith, bit_or, bit_and,
}
use martos.Common.Int.{ℤ, pos, negsuc, ◌+ℤ◌, ◌≤ℤ◌}
use martos.Common.Bits.{bit, bit-zero, bit_ext, bit-bit_and}
use martos.Memory.{Ptr, null, ok, Returns, Returns-bind, ◌>>◌, pure}
use martos.Kernel.{
  Kernel, Task, Timer, Semaphore, SemaphoreRequest, Signals, task_running, timer_done, without,
}
use martos.Signal.{meets, Wait, received, blocked, signal_free, signal_wait_resume}
use martos.Signal.Sets.{meets-false_iff, meets_left, meets_right, meets_none, without-le}
use martos.Signal.Allocate.{IsWords}
use martos.Sched.{Inv}
use martos.Sched.Beside.{Beside}
use martos.Sched.Freeing.{Freed, signal_free-Freed}
use martos.Sched.Outcome.{Took, Waited}
use martos.Sched.Waiting.{signal_wait_resume-Waited}
use martos.Semaphore.Requests.{Requests, Requests-of}
use martos.SysArch.{Lwip, Timed, returned, stop_timeout}
use martos.SysArch.Blocking.{sys_arch_sem_wait_resume, after_sem_wait, sem_result}
use martos.SysArch.Stopping.{IsOwned, timer_signal, stop_timeout_at}

module _ {H : Type 0} (lwip : Lwip H) (req timer : Ptr) (start : ℕ) (k : Kernel)
    (rs ws : List Ptr) where
  abbrev pub own : Signals
  own = (k.requests req).signal

  abbrev pub tsig : Signals
  tsig = timer_signal timer k rs ws

  abbrev pub both : Signals
  both = bit_or tsig own

  -- The task runs again in its call of `signal_wait`. Its timer is done and has sent its signal, and
  -- the semaphore has not.
  pub record IsLate : Type 0 where
    pub inv : Inv k rs ws
    pub runs : (k.tasks k.running).state ≡ task_running
    pub words : IsWords (k.tasks k.running)
    pub waits : (k.tasks k.running).sig_wait ≡ both
    pub real : timer ≢ null
    pub done : (k.timer_objects timer).status ≡ timer_done
    pub over : meets tsig (k.tasks k.running).sig_recvd ≡ true
    pub missing : meets own (k.tasks k.running).sig_recvd ≡ false
    pub timer_owned : IsOwned tsig (k.tasks k.running)
    pub own_owned : IsOwned own (k.tasks k.running)
    pub distinct : meets own tsig ≡ false

  -- The signals that are returned, and the test of them.
  result_run :
      IsLate
      → (k1 : Kernel)
      → sem_result lwip (bit_and both (k.tasks k.running).sig_recvd) own tsig start k1
        ≡ ok lwip.arch_timeout k1
  unfolding sem_result
  result_run late k1 =
      rw
        (
          meets_right tsig own (k.tasks k.running).sig_recvd,
          late.missing,
          meets_left tsig own (k.tasks k.running).sig_recvd,
          late.over,
        )
        refl

  -- What is freed first leaves the request's signal allocated.
  own-IsOwned :
      IsLate
      → (a b : Task) → a.sig_alloc ≡ (k.tasks k.running).sig_alloc
      → ((i : ℕ) → bit b.sig_alloc i ≡ (bit a.sig_alloc i && not (bit tsig i)))
      → IsOwned own b
  own-IsOwned late a b same freed = record {
    single = late.own_owned.single;
    held = bit_ext (bit_and own b.sig_alloc) own λ i.
        bit-bit_and own b.sig_alloc i
        ∙ still (bit own i) (bit a.sig_alloc i) (bit tsig i) (bit b.sig_alloc i) (freed i)
            (held_bit i) ((meets-false_iff own tsig).0 late.distinct i);
  }
    where
      held_bit : (i : ℕ) → (bit own i && bit a.sig_alloc i) ≡ bit own i
      held_bit i =
          ap (λ n. bit own i && bit n i) same
          ∙ (sym (bit-bit_and own (k.tasks k.running).sig_alloc i)
              ∙ ap (λ n. bit n i) late.own_owned.held)

      still : (o h t r : Bool) → r ≡ (h && not t) → (o && h) ≡ o → (o && t) ≡ false → (o && r) ≡ o
      still o h t r e f g = ground arith

  -- The task once its signals are taken.
  taken_words :
      IsLate
      → (t : Task) (got : Signals) → t.sig_alloc ≡ (k.tasks k.running).sig_alloc
      → t.sig_wait ≡ (k.tasks k.running).sig_wait
      → t.sig_recvd ≡ without (k.tasks k.running).sig_recvd got
      → IsWords t
  taken_words late t got alloc wait recvd = record {
    alloc = subst (λ n. n < 2 ^ 16) (sym alloc) late.words.alloc;
    wait = subst (λ n. n < 2 ^ 16) (sym wait) late.words.wait;
    recvd =
        subst (λ n. n < 2 ^ 16) (sym recvd)
          (let le = without-le (k.tasks k.running).sig_recvd got in
            let top = late.words.recvd in omega arith);
  }

  module _ (sem : Ptr) (us vs : List Ptr) where
    -- The call says that the time is over, and the request is still in the queue.
    abbrev pub TimedOut : Timed ℕ → Kernel → Type 0
    TimedOut w k' =
        (w ≡ returned lwip.arch_timeout)
        × Inv k' rs ws
        × Requests k' rs ws sem (us ++ req ∷ vs)
        × (k'.semaphores ≡ k.semaphores)
        × (k'.requests ≡ k.requests)

    -- The kernel `k1` once the signals `got` are taken.
    module _ (n : ℤ) (late : IsLate) (r : Requests k rs ws sem (us ++ req ∷ vs)) (got : Signals)
        (k1 : Kernel) (took : Took both n k rs ws got k1) where
      runs1 : (k1.tasks k1.running).state ≡ task_running
      runs1 = ap (λ t. (k1.tasks t).state) took.4 ∙ took.7

      alloc1 : (k1.tasks k1.running).sig_alloc ≡ (k.tasks k.running).sig_alloc
      alloc1 = ap (λ t. (k1.tasks t).sig_alloc) took.4 ∙ took.10.3

      words1 : IsWords (k1.tasks k1.running)
      words1 =
          subst (λ t. IsWords (k1.tasks t)) (sym took.4)
            (taken_words late (k1.tasks k.running) got took.10.3 took.10.4 took.6)

      some_signal : tsig ≢ 0
      some_signal z = false≢true (
          sym (
            (meets-false_iff tsig (k.tasks k.running).sig_recvd).1 λ i.
              ap (λ m. bit m i && bit (k.tasks k.running).sig_recvd i) z
              ∙ ap (λ b. b && bit (k.tasks k.running).sig_recvd i) (bit-zero i))
          ∙ late.over)

      stopped : Returns (λ _ k2. Freed tsig k1 rs ws k2) (stop_timeout timer tsig k1)
      stopped =
          stop_timeout_at timer k1 rs ws tsig (ap (λ (f : Ptr → Timer). (f timer).signal) took.10.2)
            late.real took.2 runs1 words1 some_signal
            (record {
              single = late.timer_owned.single;
              held = ap (bit_and tsig) alloc1 ∙ late.timer_owned.held;
            })
            (ap (λ (f : Ptr → Timer). (f timer).status) took.10.2 ∙ late.done)

      finished-TimedOut :
          (k2 k3 : Kernel)
          → Freed tsig k1 rs ws k2
          → Freed own k2 rs ws k3
          → TimedOut (returned lwip.arch_timeout) k3
      finished-TimedOut k2 k3 f g =
          let sems = g.same_semaphores ∙ (f.same_semaphores ∙ took.10.0) in
          (
            refl,
            g.inv,
            Requests-of k3 rs ws sem (us ++ req ∷ vs) (k.semaphores sem)
                (ap (λ (h : Ptr → Semaphore). h sem) sems)
                (subst (λ m. Beside m rs ws (k.semaphores sem).req_queue (us ++ req ∷ vs))
                  (sym (g.same_mem ∙ (f.same_mem ∙ took.8))) r.beside)
                r.enough,
            sems,
            g.same_requests ∙ (f.same_requests ∙ took.10.1),
          )

      Freed-TimedOut :
          (k2 : Kernel)
          → Freed tsig k1 rs ws k2
          → Returns TimedOut ((signal_free own >> pure (returned lwip.arch_timeout)) k2)
      Freed-TimedOut k2 f =
          let owned =
            subst (λ t. IsOwned own (k2.tasks t)) (sym f.same_running)
              (own-IsOwned late (k1.tasks k1.running) (k2.tasks k1.running) alloc1 f.alloc) in
          Returns-bind (λ _ k3. Freed own k2 rs ws k3) TimedOut (signal_free own k2)
            (λ _. pure (returned lwip.arch_timeout))
            (signal_free-Freed own k2 rs ws f.inv
              (ap (λ t. (k2.tasks t).state) f.same_running ∙ (f.same_state ∙ runs1))
              (subst (λ t. IsWords (k2.tasks t)) (sym f.same_running) f.words) owned.single
              owned.held)
            λ _ k3 g. finished-TimedOut k2 k3 f g

      received-TimedOut :
          Returns TimedOut (after_sem_wait lwip req timer start tsig (received got) k1)
      unfolding after_sem_wait
      received-TimedOut =
          rw
            (
              ap (λ (f : Ptr → SemaphoreRequest). (f req).signal) took.10.1,
              took.1,
              result_run late k1,
            )
            (Returns-bind (λ _ k2. Freed tsig k1 rs ws k2) TimedOut (stop_timeout timer tsig k1)
              (λ _. signal_free own >> pure (returned lwip.arch_timeout)) stopped
              λ _ k2 f. Freed-TimedOut k2 f)

    after-TimedOut :
        (n : ℤ)
        → IsLate
        → Requests k rs ws sem (us ++ req ∷ vs)
        → (w : Wait) (k1 : Kernel) → Waited both n k rs ws w k1
        → Returns TimedOut (after_sem_wait lwip req timer start tsig w k1)
    after-TimedOut n late r (received got) k1 took = received-TimedOut n late r got k1 took
    after-TimedOut n late r (blocked m) k1 held =
        let none = meets_none tsig own (k.tasks k.running).sig_recvd held.0 in
        absurd (false≢true (sym none ∙ late.over))

    -- A task whose wait for a semaphore is over with the timer's signal alone: `sys_arch_sem_wait`
    -- ends well from there, and returns that the time is over. Its request, which is a local variable
    -- of the call, is still in the queue of the semaphore, and the count is still the lower one. The
    -- scheduler's invariant stays.
    pub sys_arch_sem_wait_resume-TimedOut :
        (n nestcnt : ℤ)
        → nestcnt ≡ n +ℤ pos 1
        → negsuc 0 ≤ℤ n
        → IsLate
        → Requests k rs ws sem (us ++ req ∷ vs)
        → Returns TimedOut (sys_arch_sem_wait_resume lwip req timer start tsig both nestcnt k)
    unfolding sys_arch_sem_wait_resume
    sys_arch_sem_wait_resume-TimedOut n nestcnt saved low late r =
        Returns-bind (Waited both n k rs ws) TimedOut (signal_wait_resume both nestcnt k)
          (λ w. after_sem_wait lwip req timer start tsig w)
          (signal_wait_resume-Waited both k rs ws late.inv late.runs n nestcnt saved low late.waits)
          (after-TimedOut n late r)
