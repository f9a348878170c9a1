-- ===== src/Semaphore/Requests.antt =====
-- The requests of a semaphore: what sem_init and sem_add_request do to its queue, and that the
-- queue is as long as the count says.
use martos.Common.{
  ℕ, ◌+◌, ◌≤◌, ◌≡◌, refl, sym, ap, subst, ◌≢◌, ◌⊎◌, inl, inr, Bool, true, false, List, [], ◌∷◌,
  ◌++◌, arith, NotIn, Apart, Apart-symm, length, length-append, update_self, ==-eq_false,
  Bool-cases,
}
use martos.Common.Int.{ℤ, pos, negsuc, neg_part, ltb_ℤ, ◌-ℤ◌, ◌≤ℤ◌, -ℤ_parts}
use martos.Memory.{Ptr, null, Returns}
use martos.NodeList.Insert.{inserted}
use martos.NodeList.Refinement.{Becomes, initialised, initialised-Becomes, list_init-eq}
use martos.Kernel.{Kernel, Semaphore, disabled}
use martos.Kernel.Queues.{queue_nodes}
use martos.Kernel.Moves.{Queues-outside}
use martos.Kernel.Interrupts.{enable_protected}
use martos.Sched.{Inv}
use martos.Sched.Beside.{Beside, Beside-add, Sched-memory}
use martos.Semaphore.{sem_init, sem_add_request, write_count}

-- The semaphore at `sem` has the queue `rq` of requests, at least as many as its count is below
-- zero.
pub record Requests (k : Kernel) (rs ws : List Ptr) (sem : Ptr) (rq : List Ptr) : Type 0 where
  pub beside : Beside k.mem rs ws (k.semaphores sem).req_queue rq
  pub enough : neg_part (k.semaphores sem).count ≤ length rq

-- The same of a semaphore that is known otherwise.
pub Requests-of :
    (k : Kernel) (rs ws : List Ptr) (sem : Ptr) (rq : List Ptr) (x : Semaphore)
    → k.semaphores sem ≡ x
    → Beside k.mem rs ws x.req_queue rq
    → neg_part x.count ≤ length rq
    → Requests k rs ws sem rq
Requests-of k rs ws sem rq x e b l = record {
  beside = subst (λ (z : Semaphore). Beside k.mem rs ws z.req_queue rq) (sym e) b;
  enough = subst (λ (z : Semaphore). neg_part z.count ≤ length rq) (sym e) l;
}

-- One more request when the count goes down below zero, and none when it does not.
enough_added : (n : ℤ) (l : ℕ) → neg_part n ≤ l → neg_part (n -ℤ pos 1) ≤ l + 1
unfolding ◌-ℤ◌
enough_added (pos n) l h = ground arith
enough_added (negsuc n) l h = ground arith

enough_kept : (n : ℤ) (l : ℕ) → ltb_ℤ (n -ℤ pos 1) (pos 0) ≡ false → neg_part (n -ℤ pos 1) ≤ l
unfolding ◌-ℤ◌
enough_kept (pos n) l h = ground arith
enough_kept (negsuc n) l h = ground arith

-- The queue of the semaphore stays where it is.
abbrev pub counted : Ptr → ℤ → Kernel → Kernel
counted sem n k = write_count sem n (disabled k)

module _ (sem : Ptr) (k : Kernel) (valid : sem ≢ null) where
  abbrev pub recounted : ℤ → Semaphore
  recounted n = record (k.semaphores sem) { count = n }

  -- A request is added, or the semaphore is taken.
  abbrev pub Added : Ptr → List Ptr → List Ptr → List Ptr → Bool → Kernel → Type 0
  Added req rs ws rq added k' =
      Inv k' rs ws
      × ((k'.semaphores sem).count ≡ (k.semaphores sem).count -ℤ pos 1)
      × (k'.tasks ≡ k.tasks)
      × (k'.running ≡ k.running)
      × (k'.requests ≡ k.requests)
      × (((added ≡ true)
            × ((k.semaphores sem).count ≤ℤ pos 0)
            × Requests k' rs ws sem (rq ++ req ∷ []))
          ⊎ ((added ≡ false)
              × (pos 1 ≤ℤ (k.semaphores sem).count)
              × Requests k' rs ws sem rq
              × (k'.mem ≡ k.mem)))

  -- `sem_add_request` of a request that is in no list ends well and keeps the scheduler's
  -- invariant and the queue at least as long as the count is below zero. The count goes down by
  -- one. If it was above zero, the call returns false and the lists stay; if not, it returns true
  -- and the request is at the end of the queue.
  pub sem_add_request-Added :
      (req : Ptr) (rs ws rq : List Ptr)
      → Inv k rs ws
      → Requests k rs ws sem rq
      → req ≢ null
      → NotIn req ((k.semaphores sem).req_queue.head ∷ (k.semaphores sem).req_queue.tail ∷ rq)
      → NotIn req (queue_nodes rs ws)
      → Returns (Added req rs ws rq) (sem_add_request sem req k)
  unfolding sem_add_request
  sem_add_request-Added req rs ws rq inv r fresh new out =
      let n = (k.semaphores sem).count -ℤ pos 1 in
      let self = update_self k.semaphores (recounted n) sem in
      let (run, kept, q, b) =
        Beside-add k.mem rs ws inv.sched.queues (k.semaphores sem).req_queue rq r.beside req fresh
          new out in
      let k1 : Kernel = record (counted sem n k) {
        mem = inserted (k.semaphores sem).req_queue.tail req k.mem;
      } in
      let parts = -ℤ_parts (k.semaphores sem).count (pos 1) in
      let enough = r.enough in
      elim (Bool-cases (ltb_ℤ n (pos 0))) [
        | inl e ↦
            rw
              (
                ==-eq_false sem null valid,
                ==-eq_false sem null valid,
                self,
                e,
                run,
                enable_protected k k1 inv.masked refl refl,
              )
              (
                record {
                  sched =
                      Sched-memory k.mem k1.mem k.tasks k.running k.pendsv rs ws inv.sched q kept;
                  masked = inv.masked;
                },
                ap (λ (s : Semaphore). s.count) self,
                refl,
                refl,
                refl,
                inl (
                  refl,
                  ground arith,
                  record {
                    beside = rw self b;
                    enough =
                        rw (self, length-append rq (req ∷ []))
                          (enough_added (k.semaphores sem).count (length rq) r.enough);
                  },
                ),
              )
        | inr e ↦
            rw
              (
                ==-eq_false sem null valid,
                ==-eq_false sem null valid,
                self,
                e,
                enable_protected k (counted sem n k) inv.masked refl refl,
              )
              (
                record { sched = inv.sched; masked = inv.masked },
                ap (λ (s : Semaphore). s.count) self,
                refl,
                refl,
                refl,
                inr (
                  refl,
                  ground arith,
                  record {
                    beside = rw self r.beside;
                    enough = rw self (enough_kept (k.semaphores sem).count (length rq) e);
                  },
                  refl,
                ),
              )
      ]

-- `sem_init` with a count that is not below zero ends well, whatever the list of the semaphore
-- held: the semaphore has the count and no request, and the scheduler's invariant stays.
pub sem_init-Requests :
    (sem : Ptr) (n : ℕ) (k : Kernel) (rs ws : List Ptr)
    → sem ≢ null
    → Inv k rs ws
    → (k.semaphores sem).req_queue.head ≢ null
    → (k.semaphores sem).req_queue.tail ≢ null
    → (k.semaphores sem).req_queue.head ≢ (k.semaphores sem).req_queue.tail
    → Apart
        ((k.semaphores sem).req_queue.head ∷ (k.semaphores sem).req_queue.tail ∷ [])
        (queue_nodes rs ws)
    → Returns
        (λ _ k'. Inv k' rs ws × Requests k' rs ws sem [] × ((k'.semaphores sem).count ≡ pos n))
        (sem_init sem (pos n) k)
unfolding sem_init
sem_init-Requests sem n k rs ws valid inv h t ne apart =
    let q = (k.semaphores sem).req_queue in
    let self = update_self k.semaphores (recounted sem k valid (pos n)) sem in
    let b : Becomes k.mem q [] [] (initialised k.mem q) = initialised-Becomes k.mem q h t ne in
    rw (==-eq_false sem null valid, ==-eq_false sem null valid, self, list_init-eq k.mem q h t ne)
      (
        record {
          sched =
              Sched-memory k.mem (initialised k.mem q) k.tasks k.running k.pendsv rs ws inv.sched
                (Queues-outside k.mem (initialised k.mem q) rs ws (q.head ∷ q.tail ∷ [])
                  inv.sched.queues b.same b.kept
                  (Apart-symm (q.head ∷ q.tail ∷ []) (queue_nodes rs ws) apart))
                b.kept;
          masked = inv.masked;
        },
        Requests-of (record (write_count sem (pos n) k) { mem = initialised k.mem q }) rs ws sem []
            (recounted sem k valid (pos n)) self (record { holds = b.holds; apart = apart })
            (omega arith),
        ap (λ (x : Semaphore). x.count) self,
      )
