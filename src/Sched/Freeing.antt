-- ===== src/Sched/Freeing.antt =====
-- `signal_free` of src/task.c as a kernel call of the running task.
use martos.Common.{
  ℕ, ◌^◌, ◌<◌, ◌≡◌, refl, sym, ◌∙◌, ap, subst, not, ◌&&◌, List, update, update_self, update_other,
  ==-eq_false, ==_iff, bit_and, arith,
}
use martos.Common.Bits.{bit, bit_and-le, complement}
use martos.Memory.{Ptr, null, Returns}
use martos.Kernel.{Kernel, Task, Signals, without, task_running, sigf_single}
use martos.Kernel.Queues.{above-ne_null}
use martos.Signal.{signal_free}
use martos.Signal.Sets.{bit-without, bit_and-bound}
use martos.Signal.Allocate.{IsWords}
use martos.Sched.{Inv}
use martos.Sched.Keep.{Sched-keep}
use martos.Sched.Wake.{waiting_not_running}
use martos.Sched.States.{AgreeBut}

-- Exactly the given signals are no longer allocated, and nothing else changes.
pub record Freed (s : Signals) (k : Kernel) (rs ws : List Ptr) (k' : Kernel) : Type 0 where
  pub inv : Inv k' rs ws
  pub alloc :
      (i : ℕ)
      → bit (k'.tasks k.running).sig_alloc i
        ≡ (bit (k.tasks k.running).sig_alloc i && not (bit s i))
  pub same_wait : (k'.tasks k.running).sig_wait ≡ (k.tasks k.running).sig_wait
  pub same_recvd : (k'.tasks k.running).sig_recvd ≡ (k.tasks k.running).sig_recvd
  pub others : AgreeBut k.running k.tasks k'.tasks
  pub same_mem : k'.mem ≡ k.mem
  pub same_irq : k'.irq ≡ k.irq
  pub same_running : k'.running ≡ k.running
  pub same_state : (k'.tasks k.running).state ≡ (k.tasks k.running).state
  pub same_context : (k'.tasks k.running).context ≡ (k.tasks k.running).context
  pub same_nestcnt : (k'.tasks k.running).id_nestcnt ≡ (k.tasks k.running).id_nestcnt
  pub same_semaphores : k'.semaphores ≡ k.semaphores
  pub same_requests : k'.requests ≡ k.requests
  pub words : IsWords (k'.tasks k.running)

-- `signal_free` of signals that the running task has allocated, SIGF_SINGLE not among them, ends
-- well. Afterwards exactly these are no longer allocated, the other sets of signals of the task,
-- the other tasks and the memory do not change, and the scheduler's invariant stays.
pub signal_free-Freed :
    (s : Signals) (k : Kernel) (rs ws : List Ptr)
    → Inv k rs ws
    → (k.tasks k.running).state ≡ task_running
    → IsWords (k.tasks k.running)
    → bit_and s sigf_single ≡ 0
    → bit_and s (k.tasks k.running).sig_alloc ≡ s
    → Returns (λ _ k'. Freed s k rs ws k') (signal_free s k)
unfolding signal_free
signal_free-Freed s k rs ws inv runs words single held =
    let t = k.running in
    let v : Task = record (k.tasks t) { sig_alloc = without (k.tasks t).sig_alloc s } in
    let valid = above-ne_null t inv.sched.running_above in
    let self = update_self k.tasks v t in
    let bound : s < 2 ^ 16 = small in
    rw
      (
        (==_iff (bit_and s sigf_single) 0).1 single,
        ==-eq_false t null valid,
        (==_iff (bit_and s (k.tasks t).sig_alloc) s).1 held,
        ==-eq_false t null valid,
      )
      (record {
        inv = record {
          sched =
              Sched-keep k.tasks (update k.tasks t v) t (update_other k.tasks v t)
                (ap (λ (a : Task). a.state) self) k.mem t k.pendsv rs ws inv.sched
                (λ w _. absurd (waiting_not_running (sym w ∙ runs)));
          masked = inv.masked;
        };
        alloc = λ i.
            ap (λ (a : Task). bit a.sig_alloc i) self
            ∙ bit-without (k.tasks t).sig_alloc s i words.alloc bound;
        same_wait = ap (λ (a : Task). a.sig_wait) self;
        same_recvd = ap (λ (a : Task). a.sig_recvd) self;
        others = update_other k.tasks v t;
        same_mem = refl;
        same_irq = refl;
        same_running = refl;
        same_state = ap (λ (a : Task). a.state) self;
        same_context = ap (λ (a : Task). a.context) self;
        same_nestcnt = ap (λ (a : Task). a.id_nestcnt) self;
        same_semaphores = refl;
        same_requests = refl;
        words = subst IsWords (sym self) (record {
          alloc =
              let le = bit_and-le (k.tasks t).sig_alloc (complement 16 s) in
              let top = words.alloc in omega arith;
          wait = words.wait;
          recvd = words.recvd;
        });
      })
  where
    small : s < 2 ^ 16
    small = subst (λ z. z < 2 ^ 16) held (bit_and-bound s (k.tasks k.running).sig_alloc words.alloc)
