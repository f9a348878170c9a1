-- ===== src/SysArch/Stopping.antt =====
-- The end of a call with a timeout in lwip_martos/sys_arch.c: its timer is taken back.
use martos.Common.{◌≡◌, refl, subst, ◌≢◌, List, ==-eq_false, update_self, bit_and}
use martos.Memory.{Ptr, null, Returns, Returns-bind, ◌>>◌}
use martos.Kernel.{
  Kernel, Task, Timer, Signals, task_running, timer_done, timer_none, timer_invalid, sigf_single,
  disabled,
}
use martos.Kernel.Interrupts.{enable_protected}
use martos.Signal.{signal_free}
use martos.Signal.Allocate.{IsWords}
use martos.Sched.{Inv}
use martos.Sched.Freeing.{Freed, signal_free-Freed}
use martos.Timer.{write_timer, set_timer, timer_abort, timer_free}
use martos.SysArch.{stop_timeout}

-- The signals of a set that the task has allocated, and that may be freed.
pub record IsOwned (s : Signals) (t : Task) : Type 0 where
  pub single : bit_and s sigf_single ≡ 0
  pub held : bit_and s t.sig_alloc ≡ s

module _ (timer : Ptr) (k : Kernel) (rs ws : List Ptr) where
  abbrev pub timer_signal : Signals
  timer_signal = (k.timer_objects timer).signal

  -- The timer is done: there is nothing to abort, and its signal is freed.
  stop_timeout-Freed :
      timer ≢ null
      → Inv k rs ws
      → (k.tasks k.running).state ≡ task_running
      → IsWords (k.tasks k.running)
      → timer_signal ≢ 0
      → IsOwned timer_signal (k.tasks k.running)
      → (k.timer_objects timer).status ≡ timer_done
      → Returns (λ _ k'. Freed timer_signal k rs ws k') (stop_timeout timer timer_signal k)
  unfolding stop_timeout timer_abort timer_free
  stop_timeout-Freed valid inv runs words some_signal owned done =
      rw
        (
          ==-eq_false timer_signal 0 some_signal,
          ==-eq_false timer null valid,
          done,
          enable_protected k (disabled k) inv.masked refl refl,
          ==-eq_false timer null valid,
          update_self k.timer_objects v timer,
          ==-eq_false timer null valid,
        )
        (Returns-bind (λ _ k'. Freed timer_signal k2 rs ws k')
          (λ _ k'. Freed timer_signal k rs ws k') (signal_free timer_signal k2)
          (λ _.
            set_timer timer (λ t. record t { op = timer_none })
            >> set_timer timer (λ t. record t { status = timer_invalid }))
          (signal_free-Freed timer_signal k2 rs ws inv2 runs words owned.single owned.held) cleared)
    where
      v : Timer
      v = record (k.timer_objects timer) { task = null }

      k2 : Kernel
      k2 = write_timer timer v k

      inv2 : Inv k2 rs ws
      inv2 = record { sched = inv.sched; masked = inv.masked }

      cleared :
          (x : Unit {0}) (k' : Kernel)
          → Freed timer_signal k2 rs ws k'
          → Returns
              (λ _ k''. Freed timer_signal k rs ws k'')
              ((set_timer timer (λ t. record t { op = timer_none })
                  >> set_timer timer (λ t. record t { status = timer_invalid }))
                k')
      cleared _ k' f =
          rw (==-eq_false timer null valid, ==-eq_false timer null valid)
            (record {
              inv = record { sched = f.inv.sched; masked = f.inv.masked };
              alloc = f.alloc;
              same_wait = f.same_wait;
              same_recvd = f.same_recvd;
              others = f.others;
              same_mem = f.same_mem;
              same_irq = f.same_irq;
              same_running = f.same_running;
              same_state = f.same_state;
              same_context = f.same_context;
              same_nestcnt = f.same_nestcnt;
              same_semaphores = f.same_semaphores;
              same_requests = f.same_requests;
              words = f.words;
            })

  -- The same of a signal that is known by an equation.
  pub stop_timeout_at :
      (sg : Signals)
      → timer_signal ≡ sg
      → timer ≢ null
      → Inv k rs ws
      → (k.tasks k.running).state ≡ task_running
      → IsWords (k.tasks k.running)
      → sg ≢ 0
      → IsOwned sg (k.tasks k.running)
      → (k.timer_objects timer).status ≡ timer_done
      → Returns (λ _ k'. Freed sg k rs ws k') (stop_timeout timer sg k)
  stop_timeout_at sg e valid inv runs words some owned done =
      subst
        (λ s.
          s ≢ 0
          → IsOwned s (k.tasks k.running)
          → Returns (λ _ k'. Freed s k rs ws k') (stop_timeout timer s k))
        e (λ some owned. stop_timeout-Freed valid inv runs words some owned done) some owned
