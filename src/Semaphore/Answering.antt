-- ===== src/Semaphore/Answering.antt =====
-- What `sem_signal` of src/semaphore.c leaves, and how its count goes up.
use martos.Common.{ℕ, suc, ◌≤◌, ◌≡◌, ◌≢◌, ◌⊎◌, true, false, List, ◌∷◌, ◌++◌, arith, bit_or}
use martos.Common.Int.{ℤ, pos, negsuc, neg_part, ltb_ℤ, ◌+ℤ◌, ◌≤ℤ◌}
use martos.Memory.{Ptr, null}
use martos.NodeList.Order.{enqueued}
use martos.Kernel.{Kernel, Signals}
use martos.Sched.{Inv}
use martos.Sched.Send.{WakesUp, is_awaited}
use martos.Sched.States.{AgreeBut}
use martos.Semaphore.Requests.{Requests}

-- A request that can be answered: another task waits for a signal.
pub record IsAnswerable (k : Kernel) (r : Ptr) : Type 0 where
  pub waits : (k.requests r).waiter ≢ null
  pub other : k.running ≢ (k.requests r).waiter
  pub some : (k.requests r).signal ≢ 0

-- The first request is answered: its task has the signal, and is woken if it waits for it.
abbrev pub Answered :
    Ptr → Signals → Kernel → List Ptr → List Ptr → Ptr → List Ptr → Kernel → Type 0
Answered w s k rs ws sem rest k' =
    ((k'.tasks w).sig_recvd ≡ bit_or (k.tasks w).sig_recvd s)
    × AgreeBut w k.tasks k'.tasks
    × (((is_awaited (k.tasks w) s ≡ true)
          × ((u : WakesUp w k rs ws k') × Requests k' (enqueued k.mem.prio w rs)
                (u.before ++ u.behind) sem rest))
        ⊎ ((is_awaited (k.tasks w) s ≡ false) × Inv k' rs ws × Requests k' rs ws sem rest))

abbrev pub Released : Ptr → Kernel → List Ptr → List Ptr → List Ptr → Kernel → Type 0
Released sem k rs ws rq k' =
    ((k'.semaphores sem).count ≡ (k.semaphores sem).count +ℤ pos 1)
    × (k'.running ≡ k.running)
    × (((negsuc 0 ≤ℤ (k.semaphores sem).count)
          × Inv k' rs ws
          × Requests k' rs ws sem rq
          × (k'.mem ≡ k.mem)
          × (k'.tasks ≡ k.tasks)
          × (k'.pendsv ≡ k.pendsv))
        ⊎ ((r : Ptr) × (rest : List Ptr) × (rq ≡ r ∷ rest)
            × ((k.semaphores sem).count ≤ℤ negsuc 1)
            × Answered (k.requests r).waiter (k.requests r).signal k rs ws sem rest k'))

pub low : (n : ℤ) → ltb_ℤ (n +ℤ pos 1) (pos 0) ≡ true → n ≤ℤ negsuc 1
unfolding ◌+ℤ◌
low (pos n) h = ground arith
low (negsuc n) h = ground arith

pub high : (n : ℤ) → ltb_ℤ (n +ℤ pos 1) (pos 0) ≡ false → negsuc 0 ≤ℤ n
unfolding ◌+ℤ◌
high (pos n) h = ground arith
high (negsuc n) h = ground arith

pub negative : (n : ℤ) → n ≤ℤ negsuc 1 → ltb_ℤ (n +ℤ pos 1) (pos 0) ≡ true
unfolding ◌+ℤ◌
negative (pos n) h = ground arith
negative (negsuc n) h = ground arith

-- The queue has enough requests for the new count, with one less of them or not.
pub enough_up : (n : ℤ) (l : ℕ) → neg_part n ≤ l → neg_part (n +ℤ pos 1) ≤ l
unfolding ◌+ℤ◌
enough_up (pos n) l h = ground arith
enough_up (negsuc n) l h = ground arith

pub enough_less : (n : ℤ) (l : ℕ) → n ≤ℤ negsuc 1 → neg_part n ≤ suc l → neg_part (n +ℤ pos 1) ≤ l
unfolding ◌+ℤ◌
enough_less (pos n) l h k = ground arith
enough_less (negsuc n) l h k = ground arith
