-- ===== src/MsgPort/Posting.antt =====
-- `msgport_send`: the message is put behind the others, and the port's task gets its signal.
use martos.Common.{
  ◌≡◌, refl, ◌≢◌, ◌⊎◌, inl, inr, true, false, List, [], ◌∷◌, ◌++◌, NotIn, ==-eq_false, Bool-cases,
  bit_or, arith,
}
use martos.Memory.{Ptr, null, ok, Returns, Returns-bind, continue}
use martos.NodeList.Insert.{inserted}
use martos.NodeList.Order.{enqueued}
use martos.Kernel.{Kernel, MsgPort, disabled, enable}
use martos.Kernel.Queues.{queue_nodes}
use martos.Kernel.Interrupts.{enable_protected, unprotected}
use martos.Signal.{signal_send}
use martos.Sched.{Inv}
use martos.Sched.Beside.{
  Beside, Beside-add, Beside-kept, Beside-woken, Sched-memory, disabled-Masked,
}
use martos.Sched.Send.{Sent, WakesUp, is_awaited, signal_send-Sent}
use martos.Sched.States.{AgreeBut}
use martos.MsgPort.{msgport_send, known_action, has_task}

module _ (port : Ptr) (k : Kernel) (rs ws : List Ptr) where
  abbrev pub p : MsgPort
  p = k.ports port

  -- The port's task is woken or not. The port holds `xs`.
  abbrev pub Outcome : List Ptr → Kernel → Type 0
  Outcome xs k' =
      ((is_awaited (k.tasks p.task) p.signal ≡ true)
        × ((u : WakesUp p.task k rs ws k') × Beside k'.mem (enqueued k.mem.prio p.task rs)
              (u.before ++ u.behind) p.message_list xs))
      ⊎ ((is_awaited (k.tasks p.task) p.signal ≡ false)
          × Inv k' rs ws
          × Beside k'.mem rs ws p.message_list xs)

  -- The port's task has the signal and is woken if it waits for it.
  abbrev pub Alerted : List Ptr → Kernel → Type 0
  Alerted xs k' =
      ((k'.tasks p.task).sig_recvd ≡ bit_or (k.tasks p.task).sig_recvd p.signal)
      × AgreeBut p.task k.tasks k'.tasks
      × Outcome xs k'

  abbrev pub Posted : List Ptr → Kernel → Type 0
  Posted xs k' =
      (k'.running ≡ k.running)
      × (k'.ports ≡ k.ports)
      × (((has_task p ≡ true) × Alerted xs k')
          ⊎ ((has_task p ≡ false)
              × Inv k' rs ws
              × Beside k'.mem rs ws p.message_list xs
              × (k'.tasks ≡ k.tasks)))

  has_task-valid : has_task p ≡ true → p.task ≢ null
  has_task-valid h e = ground arith

  module _ (message : Ptr) (xs : List Ptr) (valid : port ≢ null) (inv : Inv k rs ws)
      (b : Beside k.mem rs ws p.message_list xs) (known : known_action p.action ≡ true)
      (real : message ≢ null)
      (fresh : NotIn message (p.message_list.head ∷ p.message_list.tail ∷ xs))
      (out : NotIn message (queue_nodes rs ws)) where
    -- The kernel with the message in the port.
    abbrev posted : Kernel
    posted = record (disabled k) { mem = inserted p.message_list.tail message k.mem }

    posted_Inv : Inv posted rs ws
    posted_Inv =
        let (_, kept, q, _) =
          Beside-add k.mem rs ws inv.sched.queues p.message_list xs b message real fresh out in
        record {
          sched = Sched-memory k.mem posted.mem k.tasks k.running k.pendsv rs ws inv.sched q kept;
          masked = disabled-Masked k inv.masked;
        }

    posted_Beside : Beside posted.mem rs ws p.message_list (xs ++ message ∷ [])
    posted_Beside =
        let (_, _, _, c) =
          Beside-add k.mem rs ws inv.sched.queues p.message_list xs b message real fresh out in
        c

    send_signals :
        has_task p ≡ true
        → msgport_send port message k ≡ continue (signal_send p.task p.signal posted) (λ _. enable)
    unfolding msgport_send
    send_signals h =
        let (run, _, _, _) =
          Beside-add k.mem rs ws inv.sched.queues p.message_list xs b message real fresh out in
        rw (==-eq_false port null valid, known, run, ==-eq_false port null valid, h) refl

    send_leaves : has_task p ≡ false → msgport_send port message k ≡ ok tt (unprotected k posted)
    unfolding msgport_send
    send_leaves h =
        let (run, _, _, _) =
          Beside-add k.mem rs ws inv.sched.queues p.message_list xs b message real fresh out in
        rw
          (
            ==-eq_false port null valid,
            known,
            run,
            ==-eq_false port null valid,
            h,
            enable_protected k posted inv.masked refl refl,
          )
          refl

    finished :
        (k2 : Kernel)
        → has_task p ≡ true
        → Sent p.task p.signal posted rs ws k2
        → Returns (λ _ k'. Posted (xs ++ message ∷ []) k') (enable k2)
    finished k2 h (d, how) =
        rw (enable_protected k k2 inv.masked (d.same_irq) (d.same_nestcnt))
          (d.same_running, d.same_ports, inl (h, (d.received, d.others, alerted how)))
      where
        alerted :
            ((is_awaited (k.tasks p.task) p.signal ≡ true) × WakesUp p.task posted rs ws k2)
              ⊎ ((is_awaited (k.tasks p.task) p.signal ≡ false)
                  × Inv k2 rs ws
                  × ((k2.tasks p.task).state ≡ (k.tasks p.task).state))
            → Outcome (xs ++ message ∷ []) (unprotected k k2)
        alerted (inl (e, u)) = inl (
          e,
          (
            record {
              before = u.before;
              behind = u.behind;
              was = u.was;
              inv = record { sched = u.inv.sched; masked = inv.masked };
              state = u.state;
            },
            Beside-woken posted.mem k2.mem rs ws p.message_list (xs ++ message ∷ []) posted_Beside
                u.before p.task u.behind u.was d.same_links,
          ),
        )
        alerted (inr (e, i, _)) = inr (
          e,
          record { sched = i.sched; masked = inv.masked },
          Beside-kept posted.mem k2.mem rs ws p.message_list (xs ++ message ∷ []) posted_Beside
              d.same_links,
        )

    -- `msgport_send` of a message that is in no list, to a port whose action is known, ends well.
    -- The message is behind the others in the port. If the port has a task and its action is to
    -- signal, the task gets the port's signal, and if it waits for it, it is woken. The scheduler's
    -- invariant stays.
    pub msgport_send-Posted :
        Returns (λ _ k'. Posted (xs ++ message ∷ []) k') (msgport_send port message k)
    msgport_send-Posted = elim (Bool-cases (has_task p)) [
      | inl h ↦ rw (send_signals h) (
          Returns-bind (λ _ k2. Sent p.task p.signal posted rs ws k2)
            (λ _ k'. Posted (xs ++ message ∷ []) k') (signal_send p.task p.signal posted)
            (λ _. enable)
            (signal_send-Sent p.task p.signal posted rs ws posted_Inv (has_task-valid h))
            λ _ k2 sent. finished k2 h sent)
      | inr h ↦ rw (send_leaves h) (
        refl,
        refl,
        inr (h, record { sched = posted_Inv.sched; masked = inv.masked }, posted_Beside, refl),
      )
    ]
