-- ===== src/SysArch/Preparing.antt =====
-- The first sys_arch_mbox_fetch of a mailbox (lwip_martos/sys_arch.c) gives it a signal.
use martos.Common.{
  ℕ, ◌<◌, ◌≡◌, refl, ◌∙◌, ap, ◌≢◌, ◌⊎◌, inl, inr, Bool, true, false, not, ◌&&◌, ◌==◌, List,
  ==-eq_false, update, update_self, arith,
}
use martos.Common.Int.{ℤ, negsuc}
use martos.Common.Bits.{bit}
use martos.Memory.{Cmd, ◌>>◌, assert, Ptr, null, ok, err, Run, assertion, Returns-run}
use martos.Kernel.{Kernel, MsgPort, msgport_signal, task_running}
use martos.Signal.{signal_of, shifted, signal_allocate}
use martos.Signal.Allocate.{IsWords, shifted-positive}
use martos.Task.{task_find}
use martos.Sched.{Inv}
use martos.Sched.Allocating.{Any, signal_allocate-Any}
use martos.MsgPort.{set_port}
use martos.SysArch.{allocate_mask}
use martos.SysArch.Blocking.{prepare_mbox, give_signal}

-- The mailbox gets a signal `n` of its task, and the task is to be told of messages.
abbrev pub given : Ptr → ℕ → MsgPort → MsgPort
given task n p = record p { task = task; signal = shifted n; action = msgport_signal }

module _ (mbox : Ptr) (valid : mbox ≢ null) (k : Kernel) (rs ws : List Ptr) where
  -- What the mailbox and the task are like with the signal, which the task has not received.
  pub record Given (n : ℕ) (k' : Kernel) : Type 0 where
    pub inv : Inv k' rs ws
    pub runs : (k'.tasks k'.running).state ≡ task_running
    pub missing : bit (k'.tasks k'.running).sig_recvd n ≡ false
    pub same_mem : k'.mem ≡ k.mem
    pub same_running : k'.running ≡ k.running
    pub port : k'.ports mbox ≡ given k.running n (k.ports mbox)

  -- No signal is left, which an assertion finds, or the mailbox has one.
  abbrev pub Prepared : Run Kernel (Unit {0}) → Type 0
  Prepared r =
      (((j : ℕ) → j < 16 → bit (k.tasks k.running).sig_alloc j ≡ true) × (r ≡ err assertion))
      ⊎ ((n : ℕ) × (n < 16)
          × (bit (k.tasks k.running).sig_alloc n ≡ false)
          × ((k' : Kernel) × (r ≡ ok tt k') × Given n k'))

  module _ (inv : Inv k rs ws) (runs : (k.tasks k.running).state ≡ task_running)
      (words : IsWords (k.tasks k.running)) where
    -- The mailbox and the kernel with the task in it.
    abbrev own_port : MsgPort
    own_port = record (k.ports mbox) { task = k.running }

    abbrev entered : Kernel
    entered = record k { ports = update k.ports mbox own_port }

    inv1 : Inv entered rs ws
    inv1 = record { sched = inv.sched; masked = inv.masked }

    -- What follows the allocation of a signal.
    abbrev allocated : ℤ → Cmd Kernel (Unit {0})
    allocated r =
        (set_port mbox (λ p. record p { signal = signal_of r }) >> assert (not (signal_of r == 0)))
        >> set_port mbox (λ p. record p { action = msgport_signal })

    allocated-Prepared :
        (r : ℤ) (k2 : Kernel) → Any entered rs ws inv1 runs words r k2 → Prepared (allocated r k2)
    unfolding set_port
    allocated-Prepared r k2 (inl (n, small, e, free, above, marked)) =
        rw (e, ==-eq_false mbox null valid, nonzero, ==-eq_false mbox null valid)
          (inr (
            n,
            small,
            free,
            (
              k3,
              refl,
              record {
                inv = record { sched = marked.inv.sched; masked = marked.inv.masked };
                runs =
                    ap (λ t. (k2.tasks t).state) marked.same_running ∙ (marked.marks.state ∙ runs);
                missing =
                    ap (λ t. bit (k2.tasks t).sig_recvd n) marked.same_running
                    ∙ (marked.marks.recvd n ∙ cleared (bit (k.tasks k.running).sig_recvd n));
                same_mem = marked.same_mem;
                same_running = marked.same_running;
                port = port;
              },
            ),
          ))
      where
        cleared : (b : Bool) → (b && not (n == n)) ≡ false
        cleared b = ground arith

        set_signal : MsgPort → MsgPort
        set_signal p = record p { signal = shifted n }

        set_action : MsgPort → MsgPort
        set_action p = record p { action = msgport_signal }

        f1 : Ptr → MsgPort
        f1 = update k2.ports mbox (set_signal (k2.ports mbox))

        k3 : Kernel
        k3 = record k2 { ports = update f1 mbox (set_action (f1 mbox)) }

        port : k3.ports mbox ≡ given k.running n (k.ports mbox)
        port =
            update_self f1 (set_action (f1 mbox)) mbox
            ∙ ap set_action (
                update_self k2.ports (set_signal (k2.ports mbox)) mbox
                ∙ ap set_signal (
                    ap (λ (f : Ptr → MsgPort). f mbox) marked.same_ports
                    ∙ update_self k.ports own_port mbox))

        nonzero : (shifted n == 0) ≡ false
        nonzero = let up = shifted-positive n small in ground arith
    allocated-Prepared r k2 (inr (e, taken, marked)) =
        rw (e, ==-eq_false mbox null valid) (inl (taken, refl))

    pub prepare_mbox-Prepared : (k.ports mbox).signal ≡ 0 → Prepared (prepare_mbox mbox k)
    unfolding prepare_mbox give_signal allocate_mask task_find
    prepare_mbox-Prepared first =
        let (r, k2, run, any) =
          Returns-run (Any entered rs ws inv1 runs words) (signal_allocate (negsuc 0) entered)
            (signal_allocate-Any entered rs ws inv1 runs words) in
        rw
          (
            ==-eq_false mbox null valid,
            update_self k.ports own_port mbox,
            ==-eq_false mbox null valid,
            none_yet,
            run,
          )
          (allocated-Prepared r k2 any)
      where
        none_yet : ((k.ports mbox).signal == 0) ≡ true
        none_yet = ap (λ n. n == 0) first
