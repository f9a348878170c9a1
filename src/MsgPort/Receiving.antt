-- ===== src/MsgPort/Receiving.antt =====
-- `msgport_wait`: it returns the first message of the port, or the task waits for the port's signal.
use mathlib.Core.Bool.{false≢true}
use martos.Common.{
  ℕ, ◌^◌, ◌<◌, suc, ◌≡◌, refl, sym, ◌∙◌, ap, subst, ◌≢◌, ◌⊎◌, inl, inr, true, false, List, [], ◌∷◌,
  ◌++◌, ==-eq_false, update_self, bit_and, arith, is_nil,
}
use martos.Common.Int.{ℤ, pos, negsuc, ◌+ℤ◌, ◌≤ℤ◌, ltb_ℤ, +ℤ_parts}
use martos.Memory.{Ptr, null, Returns, Returns-bind, get_next-eq}
use martos.NodeList.Chain.{IsList}
use martos.NodeList.Refinement.{list_is_empty_run}
use martos.Kernel.{Kernel, Task, MsgPort, disabled, task_running, task_waiting, without}
use martos.Kernel.Interrupts.{enable_at}
use martos.Signal.{meets, Wait, received, blocked, signal_wait}
use martos.Signal.Sets.{meets_taken}
use martos.Sched.{Inv}
use martos.Sched.Beside.{disabled-Masked}
use martos.Sched.Outcome.{Waited}
use martos.Sched.Waiting.{waiting_for, waits_for, signal_wait-Waited}
use martos.MsgPort.{
  msgport_wait, wait_message, peek_message, PortWait, got, port_blocked, after_wait,
}

up_not_below : (n : ℤ) → negsuc 0 ≤ℤ n → ltb_ℤ (n +ℤ pos 1) (pos 0) ≡ false
up_not_below n low = let up = +ℤ_parts n (pos 1) in ground arith

nil_or_cons : (xs : List Ptr) → (xs ≡ []) ⊎ ((y : Ptr) × (ys : List Ptr) × (xs ≡ y ∷ ys))
nil_or_cons [] = inl refl
nil_or_cons (y ∷ ys) = inr (y, ys, refl)

module _ (port : Ptr) (k0 : Kernel) (rs ws xs : List Ptr) (n : ℤ) where
  abbrev pub p : MsgPort
  p = k0.ports port

  -- The first message is returned and stays in the list, or there is none and the task waits for
  -- the port's signal, with the counter of `disable` of its two sections saved.
  abbrev pub Arrives : PortWait → Kernel → Type 0
  Arrives (got msg) k' =
      (ys : List Ptr) × (xs ≡ msg ∷ ys)
      × Inv k' rs ws
      × (k'.mem ≡ k0.mem)
      × (k'.ports ≡ k0.ports)
      × (k'.running ≡ k0.running)
      × (k'.id_nestcnt ≡ n)
  Arrives (port_blocked nestcnt) k' =
      (xs ≡ [])
      × (nestcnt ≡ n +ℤ pos 1 +ℤ pos 1)
      × Inv k' rs (ws ++ k0.running ∷ [])
      × (k'.irq ≡ true)
      × (k'.pendsv ≡ true)
      × (k'.ports ≡ k0.ports)
      × (k'.running ≡ k0.running)
      × ((k'.tasks k0.running).state ≡ task_waiting)
      × ((k'.tasks k0.running).sig_wait ≡ p.signal)

  -- The kernel within the section of `msgport_wait`, at the test of the loop.
  record Entered (k : Kernel) : Type 0 where
    inv : Inv k rs ws
    off : k.irq ≡ false
    counted : k.id_nestcnt ≡ n +ℤ pos 1
    same_mem : k.mem ≡ k0.mem
    same_ports : k.ports ≡ k0.ports
    same_running : k.running ≡ k0.running
    runs : (k.tasks k.running).state ≡ task_running

  module _ (valid : port ≢ null) (low : negsuc 0 ≤ℤ n) (l : IsList k0.mem p.message_list xs) where
    IsList-here : (k : Kernel) → Entered k → IsList k.mem (k.ports port).message_list xs
    IsList-here k e =
        subst (λ m. IsList m (k.ports port).message_list xs) (sym e.same_mem)
          (subst (λ (f : Ptr → MsgPort). IsList k0.mem (f port).message_list xs) (sym e.same_ports)
            l)

    peek-Arrives :
        (y : Ptr) (ys : List Ptr)
        → xs ≡ y ∷ ys
        → (k : Kernel) → Entered k
        → Returns Arrives (peek_message port k)
    unfolding peek_message
    peek-Arrives y ys e k s =
        let here = subst (λ zs. IsList k.mem (k.ports port).message_list zs) e (IsList-here k s) in
        rw
          (
            ==-eq_false port null valid,
            get_next-eq (k.ports port).message_list.head k.mem here.valid.0,
            here.chain.0.0,
            enable_at n k low s.off s.counted,
          )
          (
            ys,
            e,
            record { sched = s.inv.sched; masked = record { irq_below = refl; nested = low } },
            s.same_mem,
            s.same_ports,
            s.same_running,
            refl,
          )

    -- One round of the loop, with what is to be shown of another round.
    round :
        (fuel : ℕ) (k : Kernel)
        → Entered k
        → ((k1 : Kernel)
            → Entered k1
            → meets p.signal (k.tasks k.running).sig_recvd ≡ true
            → (k1.tasks k1.running).sig_recvd
              ≡ without
                  (k.tasks k.running).sig_recvd
                  (bit_and p.signal (k.tasks k.running).sig_recvd)
            → Returns Arrives (wait_message fuel port k1))
        → Returns Arrives (wait_message (suc fuel) port k)
    unfolding wait_message
    round fuel k s next = elim (nil_or_cons xs) [
      | inr (y, ys, e) ↦
          rw
            (
              ==-eq_false port null valid,
              list_is_empty_run k.mem (k.ports port).message_list xs (IsList-here k s),
              ap is_nil e,
            )
            (peek-Arrives y ys e k s)
      | inl e ↦
          rw
            (
              ==-eq_false port null valid,
              list_is_empty_run k.mem (k.ports port).message_list xs (IsList-here k s),
              ap is_nil e,
            )
            (Returns-bind
              (Waited (k.ports port).signal k.id_nestcnt (waiting_for (k.ports port).signal k) rs
                ws)
              Arrives (signal_wait (k.ports port).signal k)
              (λ w. after_wait (wait_message fuel port) w)
              (signal_wait-Waited (k.ports port).signal k rs ws s.inv s.runs) (after e))
    ]
      where
        sg_here : (k.ports port).signal ≡ p.signal
        sg_here = ap (λ (f : Ptr → MsgPort). (f port).signal) s.same_ports

        recvd_here :
            ((waiting_for (k.ports port).signal k).tasks k.running).sig_recvd
            ≡ (k.tasks k.running).sig_recvd
        recvd_here =
            ap (λ (a : Task). a.sig_recvd)
              (update_self k.tasks (waits_for (k.ports port).signal (k.tasks k.running)) k.running)

        after :
            xs ≡ []
            → (w : Wait) (k1 : Kernel)
            → Waited
                (k.ports port).signal
                k.id_nestcnt
                (waiting_for (k.ports port).signal k)
                rs
                ws
                w
                k1
            → Returns Arrives (after_wait (wait_message fuel port) w k1)
        after e (received rcvd) k1 (hit, r, inv, nest, run, agree, left, state, mem, ports, _, _) =
            next k1
              (record {
                inv = inv;
                off =
                    inv.masked.irq_below
                    ∙ ap (λ z. ltb_ℤ z (pos 0)) (nest ∙ s.counted)
                    ∙ up_not_below n low;
                counted = nest ∙ s.counted;
                same_mem = mem ∙ s.same_mem;
                same_ports = ports ∙ s.same_ports;
                same_running = run ∙ s.same_running;
                runs = ap (λ t. (k1.tasks t).state) run ∙ state;
              })
              (ap (λ z. meets z (k.tasks k.running).sig_recvd) (sym sg_here)
                ∙ ap (λ z. meets (k.ports port).signal z) (sym recvd_here)
                ∙ hit)
              (ap (λ t. (k1.tasks t).sig_recvd) run
                ∙ left
                ∙ ap
                    (λ z.
                      without ((waiting_for (k.ports port).signal k).tasks k.running).sig_recvd z)
                    r
                ∙ ap (λ z. without z (bit_and (k.ports port).signal z)) recvd_here
                ∙ ap
                    (λ z.
                      without (k.tasks k.running).sig_recvd
                        (bit_and z (k.tasks k.running).sig_recvd))
                    sg_here)
        after e (blocked nest) k1
              (miss, c, inv, irq, pend, run, agree, state, waits, same, ports, _, _) =
            (
              e,
              c ∙ ap (λ z. z +ℤ pos 1) s.counted,
              subst (λ t. Inv k1 rs (ws ++ t ∷ [])) s.same_running inv,
              irq,
              pend,
              ports ∙ s.same_ports,
              run ∙ s.same_running,
              ap (λ t. (k1.tasks t).state) (sym s.same_running) ∙ state,
              ap (λ t. (k1.tasks t).sig_wait) (sym s.same_running) ∙ waits ∙ sg_here,
            )

-- `msgport_wait` of the running task ends well within its two rounds, whether a signal was left
-- over or not. If the port holds messages, it returns the first, which stays in the list, and
-- leaves the interrupt mask as it was. If it holds none, the task waits for the port's signal at
-- the end of the waiting list, interrupts are enabled and a switch is pending. The scheduler's
-- invariant holds in both cases.
pub msgport_wait-Arrives :
    (port : Ptr) (k : Kernel) (rs ws xs : List Ptr)
    → port ≢ null
    → Inv k rs ws
    → (k.tasks k.running).state ≡ task_running
    → (k.tasks k.running).sig_recvd < 2 ^ 16
    → IsList k.mem (k.ports port).message_list xs
    → Returns (Arrives port k rs ws xs k.id_nestcnt) (msgport_wait port k)
unfolding msgport_wait
msgport_wait-Arrives port k rs ws xs valid inv runs word l =
    round port k rs ws xs k.id_nestcnt valid inv.masked.nested l 1 (disabled k)
      (record {
        inv = record { sched = inv.sched; masked = disabled-Masked k inv.masked };
        off = refl;
        counted = refl;
        same_mem = refl;
        same_ports = refl;
        same_running = refl;
        runs = runs;
      })
      λ k1 e1 hit left.
        round port k rs ws xs k.id_nestcnt valid inv.masked.nested l 0 k1 e1 λ k2 e2 again _.
          absurd (
            false≢true (
              sym (meets_taken (k.ports port).signal (k.tasks k.running).sig_recvd word)
              ∙ ap (λ z. meets (k.ports port).signal z) (sym left)
              ∙ again))
