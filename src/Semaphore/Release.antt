-- ===== src/Semaphore/Release.antt =====
-- `sem_signal`: the count goes up, and the task of the first request gets its signal.
use martos.Common.{
  ◌≤◌, ◌≡◌, refl, ◌∙◌, ap, ◌≢◌, ◌⊎◌, inl, inr, true, false, List, [], ◌∷◌, ◌++◌, arith, All, length,
  update, update_self, ==-eq_false, Bool-cases,
}
use martos.Common.Int.{ℤ, pos, negsuc, neg_part, ltb_ℤ, ◌+ℤ◌, ◌≤ℤ◌}
use martos.Memory.{Ptr, null, Returns, Returns-bind}
use martos.NodeList.Unlink.{unlinked}
use martos.NodeList.Order.{enqueued}
use martos.Kernel.{Kernel, Semaphore, Signals, enable}
use martos.Kernel.Interrupts.{enable_protected, unprotected}
use martos.Signal.{signal_send}
use martos.Sched.{Inv}
use martos.Sched.Beside.{
  Beside, Beside-pop, Beside-kept, Beside-woken, Sched-memory, disabled-Masked,
}
use martos.Sched.Send.{Sent, Delivered, WakesUp, is_awaited, signal_send-Sent}
use martos.Semaphore.{sem_signal, answer_request}
use martos.Semaphore.Answering.{IsAnswerable, Released, low, high, negative, enough_up, enough_less}
use martos.Semaphore.Requests.{Requests, Requests-of, counted, recounted}

module _ (sem : Ptr) (k : Kernel) (rs ws : List Ptr) (valid : sem ≢ null) (inv : Inv k rs ws) where
  abbrev raised : ℤ
  raised = (k.semaphores sem).count +ℤ pos 1

  self : update k.semaphores sem (recounted sem k valid raised) sem ≡ recounted sem k valid raised
  self = update_self k.semaphores (recounted sem k valid raised) sem

  module _ (r : Ptr) (rest : List Ptr) (rq : Requests k rs ws sem (r ∷ rest))
      (can : IsAnswerable k r) (below : (k.semaphores sem).count ≤ℤ negsuc 1) where
    abbrev w : Ptr
    w = (k.requests r).waiter

    abbrev s : Signals
    s = (k.requests r).signal

    -- The kernel at the call of `signal_send`.
    abbrev popped : Kernel
    popped = record (counted sem raised k) { mem = unlinked r k.mem }

    popped_Inv : Inv popped rs ws
    popped_Inv =
        let (_, kept, q, _) =
          Beside-pop k.mem rs ws inv.sched.queues (k.semaphores sem).req_queue r rest rq.beside in
        record {
          sched = Sched-memory k.mem popped.mem k.tasks k.running k.pendsv rs ws inv.sched q kept;
          masked = disabled-Masked k inv.masked;
        }

    popped_Beside : Beside popped.mem rs ws (k.semaphores sem).req_queue rest
    popped_Beside =
        let (_, _, _, b) =
          Beside-pop k.mem rs ws inv.sched.queues (k.semaphores sem).req_queue r rest rq.beside in
        b

    rest_enough : neg_part raised ≤ length rest
    rest_enough = enough_less (k.semaphores sem).count (length rest) below rq.enough

    -- After `signal_send` and `enable`.
    finished :
        (k2 : Kernel)
        → Sent w s popped rs ws k2
        → Returns (λ _ k'. Released sem k rs ws (r ∷ rest) k') (enable k2)
    finished k2 (d, how) =
        let here : k2.semaphores sem ≡ recounted sem k valid raised =
          ap (λ (f : Ptr → Semaphore). f sem) d.same_semaphores ∙ self in
        rw (enable_protected k k2 inv.masked (d.same_irq) (d.same_nestcnt)) (
          ap (λ (x : Semaphore). x.count) here,
          d.same_running,
          inr (r, rest, refl, below, (d.received, d.others, answered k2 here d how)),
        )
      where
        answered :
            (k2 : Kernel)
            → k2.semaphores sem ≡ recounted sem k valid raised
            → Delivered w s popped rs ws k2
            → ((is_awaited (k.tasks w) s ≡ true) × WakesUp w popped rs ws k2)
              ⊎ ((is_awaited (k.tasks w) s ≡ false)
                  × Inv k2 rs ws
                  × ((k2.tasks w).state ≡ (k.tasks w).state))
            → ((is_awaited (k.tasks w) s ≡ true)
                × ((u : WakesUp w k rs ws (unprotected k k2)) × Requests
                      (unprotected k k2)
                      (enqueued k.mem.prio w rs)
                      (u.before ++ u.behind)
                      sem
                      rest))
              ⊎ ((is_awaited (k.tasks w) s ≡ false)
                  × Inv (unprotected k k2) rs ws
                  × Requests (unprotected k k2) rs ws sem rest)
        answered k2 here d (inl (h, u)) = inl (
          h,
          (
            record {
              before = u.before;
              behind = u.behind;
              was = u.was;
              inv = record { sched = u.inv.sched; masked = inv.masked };
              state = u.state;
            },
            Requests-of (unprotected k k2) (enqueued k.mem.prio w rs) (u.before ++ u.behind) sem
                rest (recounted sem k valid raised) here
                (Beside-woken popped.mem k2.mem rs ws (k.semaphores sem).req_queue rest
                  popped_Beside u.before w u.behind u.was d.same_links)
                rest_enough,
          ),
        )
        answered k2 here d (inr (h, i, _)) = inr (
          h,
          record { sched = i.sched; masked = inv.masked },
          Requests-of (unprotected k k2) rs ws sem rest (recounted sem k valid raised) here
              (Beside-kept popped.mem k2.mem rs ws (k.semaphores sem).req_queue rest popped_Beside
                d.same_links)
              rest_enough,
        )

    answer_Released : Returns (λ _ k'. Released sem k rs ws (r ∷ rest) k') (sem_signal sem k)
    unfolding sem_signal answer_request
    answer_Released =
        let (run, _, _, _) =
          Beside-pop k.mem rs ws inv.sched.queues (k.semaphores sem).req_queue r rest rq.beside in
        rw
          (
            ==-eq_false sem null valid,
            ==-eq_false sem null valid,
            self,
            negative (k.semaphores sem).count below,
            ==-eq_false sem null valid,
            self,
            run,
            ==-eq_false r null rq.beside.holds.valid.1.1.0,
            ==-eq_false k.running w can.other,
            ==-eq_false s 0 can.some,
          )
          (Returns-bind (λ _ k2. Sent w s popped rs ws k2)
            (λ _ k'. Released sem k rs ws (r ∷ rest) k') (signal_send w s popped) (λ _. enable)
            (signal_send-Sent w s popped rs ws popped_Inv can.waits) λ _ k2 sent. finished k2 sent)

  -- With no request that has to be answered only the count changes.
  count_Released :
      (rq : List Ptr)
      → Requests k rs ws sem rq
      → ltb_ℤ raised (pos 0) ≡ false
      → Returns (λ _ k'. Released sem k rs ws rq k') (sem_signal sem k)
  unfolding sem_signal
  count_Released rq r e =
      rw
        (
          ==-eq_false sem null valid,
          ==-eq_false sem null valid,
          self,
          e,
          enable_protected k (counted sem raised k) inv.masked refl refl,
        )
        (
          ap (λ (x : Semaphore). x.count) self,
          refl,
          inl (
            high (k.semaphores sem).count e,
            record { sched = inv.sched; masked = inv.masked },
            Requests-of (unprotected k (counted sem raised k)) rs ws sem rq
                (recounted sem k valid raised) self r.beside
                (enough_up (k.semaphores sem).count (length rq) r.enough),
            refl,
            refl,
            refl,
          ),
        )

  -- `sem_signal` ends well if each request in the queue can be answered, and keeps the scheduler's
  -- invariant and the queue at least as long as the count is below zero. The count goes up by one.
  -- If it was below -1, the first request leaves the queue and its task gets the signal, and is
  -- woken if it waits for it. If it was -1 or more, nothing else changes, although at -1 a request
  -- is in the queue.
  pub sem_signal-Released :
      (rq : List Ptr)
      → Requests k rs ws sem rq
      → All (IsAnswerable k) rq
      → Returns (λ _ k'. Released sem k rs ws rq k') (sem_signal sem k)
  sem_signal-Released rq r can = elim (Bool-cases (ltb_ℤ raised (pos 0))) [
    | inr e ↦ count_Released rq r e
    | inl e ↦ first rq r can (low (k.semaphores sem).count e)
  ]
    where
      first :
          (rq : List Ptr)
          → Requests k rs ws sem rq
          → All (IsAnswerable k) rq
          → (k.semaphores sem).count ≤ℤ negsuc 1
          → Returns (λ _ k'. Released sem k rs ws rq k') (sem_signal sem k)
      first [] r can below = let l = r.enough in absurd (omega arith)
      first (x ∷ xs) r can below = answer_Released x xs r can.0 below
