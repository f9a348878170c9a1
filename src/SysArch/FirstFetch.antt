-- ===== src/SysArch/FirstFetch.antt =====
-- The first sys_arch_mbox_fetch of a mailbox (lwip_martos/sys_arch.c): it waits.
use mathlib.Core.Bool.{false≢true}
use martos.Common.{
  ℕ, ◌<◌, ◌≡◌, refl, sym, ◌∙◌, ap, subst, ◌≢◌, ◌⊎◌, inl, inr, Bool, true, false, List, [], ◌∷◌,
  ◌++◌, Option, Apart, ==-eq_false, update_self, bit_or,
}
use martos.Common.Int.{ℤ}
use martos.Common.Bits.{bit}
use martos.Memory.{Ptr, null, err, Run, assertion, Returns, Returns-bind, continue}
use martos.NodeList.Chain.{IsList, IsList-outside, SameOutside}
use martos.Kernel.{Kernel, Task, MsgPort, task_running, task_waiting, waiting}
use martos.Signal.{shifted, meets, Wait, received, blocked, signal_wait}
use martos.Signal.Allocate.{IsWords, meets-shifted}
use martos.Signal.Sets.{bit_or_zero}
use martos.Sched.{Inv}
use martos.Sched.Outcome.{Waited}
use martos.Sched.Waiting.{waiting_for, waits_for, signal_wait-Waited}
use martos.SysArch.{Lwip, Layer, on_kernel, Timed, suspended, start_timeout}
use martos.SysArch.Heap.{Lifted, Returns-on_kernel}
use martos.SysArch.Blocking.{sys_arch_mbox_fetch, after_fetch}
use martos.SysArch.Preparing.{given, Given, prepare_mbox-Prepared}

module _ {H : Type 0} (lwip : Lwip H) (mbox : Ptr) (wanted : Bool) (timer : Ptr) (s : Layer H)
    (rs ws xs : List Ptr) where
  abbrev pub self : Ptr
  self = s.kernel.running

  -- The task waits for signal `n`, while the mailbox holds its messages.
  pub record Stuck (n : ℕ) (w : Timed (ℕ × Option Ptr)) (s' : Layer H) : Type 0 where
    pub nestcnt : ℤ
    pub call : w ≡ suspended s.kernel.timer_now 0 nestcnt
    pub inv : Inv s'.kernel rs (ws ++ self ∷ [])
    pub messages : IsList s'.kernel.mem (s.kernel.ports mbox).message_list xs
    pub port : s'.kernel.ports mbox ≡ given self n (s.kernel.ports mbox)
    pub state : (s'.kernel.tasks self).state ≡ task_waiting
    pub waits : (s'.kernel.tasks self).sig_wait ≡ shifted n
    pub switches : (s'.kernel.irq ≡ true) × (s'.kernel.pendsv ≡ true)

  abbrev pub FirstFetched : Run (Layer H) (Timed (ℕ × Option Ptr)) → Type 0
  FirstFetched r =
      (((j : ℕ) → j < 16 → bit (s.kernel.tasks self).sig_alloc j ≡ true) × (r ≡ err assertion))
      ⊎ ((n : ℕ) × (n < 16) × (bit (s.kernel.tasks self).sig_alloc n ≡ false) × Returns (Stuck n) r)

  Waited-Stuck :
      (valid : mbox ≢ null) (n : ℕ) (k1 : Kernel)
      → n < 16
      → Given mbox valid s.kernel rs ws n k1
      → IsList s.kernel.mem (s.kernel.ports mbox).message_list xs
      → Apart
          ((s.kernel.ports mbox).message_list.head ∷ (s.kernel.ports mbox).message_list.tail ∷ xs)
          (waiting.head ∷ waiting.tail ∷ self ∷ ws)
      → (w : Wait) (s' : Layer H)
      → Lifted
          (Waited (shifted n) k1.id_nestcnt (waiting_for (shifted n) k1) rs ws)
          (record s { kernel = k1 })
          w
          s'
      → Returns (Stuck n) (after_fetch lwip mbox wanted timer s.kernel.timer_now 0 w s')
  unfolding after_fetch
  Waited-Stuck valid n k1 small g l apart (received got) s' (took, _, _) =
      let v = waits_for (shifted n) (k1.tasks k1.running) in
      absurd (
        false≢true (
          sym g.missing
          ∙ sym (meets-shifted n (k1.tasks k1.running).sig_recvd small)
          ∙ ap (λ (t : Task). meets (shifted n) t.sig_recvd)
              (sym (update_self k1.tasks v k1.running))
          ∙ took.0))
  Waited-Stuck valid n k1 small g l apart (blocked m) s'
        ((miss, c, inv, irq, pend, run, agree, state, waits, same, ports, _, _), _, _) =
      let here = g.same_running in
      record {
        nestcnt = m;
        call = refl;
        inv = subst (λ t. Inv s'.kernel rs (ws ++ t ∷ [])) here inv;
        messages =
            IsList-outside s.kernel.mem s'.kernel.mem (waiting.head ∷ waiting.tail ∷ self ∷ ws)
              (s.kernel.ports mbox).message_list xs
              (subst
                (λ t. SameOutside (waiting.head ∷ waiting.tail ∷ t ∷ ws) s.kernel.mem s'.kernel.mem)
                here
                (subst
                  (λ a. SameOutside (waiting.head ∷ waiting.tail ∷ k1.running ∷ ws) a s'.kernel.mem)
                  g.same_mem same))
              apart l;
        port = ap (λ (f : Ptr → MsgPort). f mbox) ports ∙ g.port;
        state = subst (λ t. (s'.kernel.tasks t).state ≡ task_waiting) here state;
        waits = subst (λ t. (s'.kernel.tasks t).sig_wait ≡ shifted n) here waits;
        switches = (irq, pend);
      }

  -- The first `sys_arch_mbox_fetch` of a mailbox, with no timeout, never returns a message. If the
  -- task has no signal left, an assertion fails. If it has, the task waits for a signal that it has
  -- just allocated, and that a message which is still to come sends, while the messages that were
  -- in the mailbox stay in it. The scheduler's invariant holds, and a switch is pending.
  pub sys_arch_mbox_fetch-FirstFetched :
      mbox ≢ null
      → Inv s.kernel rs ws
      → (s.kernel.tasks self).state ≡ task_running
      → IsWords (s.kernel.tasks self)
      → (s.kernel.ports mbox).signal ≡ 0
      → IsList s.kernel.mem (s.kernel.ports mbox).message_list xs
      → Apart
          ((s.kernel.ports mbox).message_list.head ∷ (s.kernel.ports mbox).message_list.tail ∷ xs)
          (waiting.head ∷ waiting.tail ∷ self ∷ ws)
      → FirstFetched (sys_arch_mbox_fetch lwip mbox wanted 0 timer s)
  unfolding sys_arch_mbox_fetch start_timeout
  sys_arch_mbox_fetch-FirstFetched valid inv runs words first l apart =
      elim (prepare_mbox-Prepared mbox valid s.kernel rs ws inv runs words first) [
        | inl (taken, run) ↦ rw run (inl (taken, refl))
        | inr (n, small, free, (k1, run, g)) ↦
            rw (run, ==-eq_false mbox null valid) (inr (n, small, free, blocks n k1 small g))
      ]
    where
      blocks :
          (n : ℕ) (k1 : Kernel)
          → n < 16
          → Given mbox valid s.kernel rs ws n k1
          → Returns (Stuck n) (
              continue
                (on_kernel
                  (signal_wait (bit_or 0 (k1.ports mbox).signal))
                  (record s { kernel = k1 }))
                (λ w. after_fetch lwip mbox wanted timer s.kernel.timer_now 0 w))
      blocks n k1 small g =
          let same : bit_or 0 (k1.ports mbox).signal ≡ shifted n =
            bit_or_zero (k1.ports mbox).signal ∙ ap (λ (p : MsgPort). p.signal) g.port in
          rw same (
            Returns-bind
              (Lifted (Waited (shifted n) k1.id_nestcnt (waiting_for (shifted n) k1) rs ws)
                (record s { kernel = k1 }))
              (Stuck n) (on_kernel (signal_wait (shifted n)) (record s { kernel = k1 }))
              (λ w. after_fetch lwip mbox wanted timer s.kernel.timer_now 0 w)
              (Returns-on_kernel
                (Waited (shifted n) k1.id_nestcnt (waiting_for (shifted n) k1) rs ws)
                (record s { kernel = k1 }) (signal_wait (shifted n))
                (signal_wait-Waited (shifted n) k1 rs ws g.inv g.runs))
              (Waited-Stuck valid n k1 small g l apart))
