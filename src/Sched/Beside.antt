-- ===== src/Sched/Beside.antt =====
-- Lists of the kernel's objects (src/semaphore.c, src/msgport.c) beside the two task lists: what
-- happens to the one leaves the others as they are.
use martos.Common.{
  ◌+◌, ◌<◌, length, ◌≡◌, sym, subst, ◌≢◌, Bool, false, List, [], ◌∷◌, ◌++◌, arith, All, All_mono,
  All-append, All_left, All_right, All_drop, All_zip, NotIn, Apart, Apart-symm,
}
use martos.Common.Int.{pos, ◌+ℤ◌, +ℤ_parts}
use martos.Memory.{Memory, Ptr, null, ok, SameData}
use martos.NodeList.{NodeList, list_add_tail, list_rem_head}
use martos.NodeList.Chain.{next_of, IsList, SameOutside, IsList-outside}
use martos.NodeList.Unlink.{unlinked}
use martos.NodeList.Insert.{inserted}
use martos.NodeList.Order.{enqueued}
use martos.NodeList.Refinement.{
  unlinked-Becomes, inserted-Becomes, list_add_tail_run, list_rem_head_cons,
}
use martos.Kernel.{Kernel, Task, waiting}
use martos.Kernel.Queues.{Queues, queue_nodes}
use martos.Kernel.Moves.{Queues-outside, queue_nodes-wake}
use martos.Kernel.Interrupts.{Masked}
use martos.Sched.{Sched, IsDue}

-- `list` holds `xs`, and its nodes are no nodes of the two task lists.
pub record Beside (m : Memory) (rs ws : List Ptr) (list : NodeList) (xs : List Ptr) : Type 0 where
  pub holds : IsList m list xs
  pub apart : Apart (list.head ∷ list.tail ∷ xs) (queue_nodes rs ws)

-- The invariant needs of the memory the two lists, the priorities and the fuel.
pub Sched-memory :
    (m m' : Memory) (tasks : Ptr → Task) (running : Ptr) (pendsv : Bool) (rs ws : List Ptr)
    → Sched m tasks running pendsv rs ws
    → Queues m' rs ws
    → SameData m m'
    → Sched m' tasks running pendsv rs ws
Sched-memory m m' tasks running pendsv rs ws s q kept = record {
  queues = q;
  states = s.states;
  running_above = s.running_above;
  live = s.live;
  only_running = s.only_running;
  spare = λ h. subst (λ b. length rs + length ws < b) (sym (kept.2)) (s.spare h);
  due = subst (λ p. IsDue (record m' { prio = p }) tasks running pendsv rs) (sym (kept.1)) s.due;
}

-- Interrupts stay masked in a section within a section.
pub disabled-Masked :
    (k : Kernel) → Masked k.irq k.id_nestcnt → Masked false (k.id_nestcnt +ℤ pos 1)
disabled-Masked k m =
    let up = +ℤ_parts k.id_nestcnt (pos 1) in
    let low = m.nested in record { irq_below = ground arith; nested = omega arith }

module _ (m : Memory) (rs ws : List Ptr) (q : Queues m rs ws) (list : NodeList) (xs : List Ptr)
    (b : Beside m rs ws list xs) where
  open list use {head, tail}

  pub Beside-add :
      (n : Ptr)
      → n ≢ null
      → NotIn n (head ∷ tail ∷ xs)
      → NotIn n (queue_nodes rs ws)
      → (list_add_tail list n m ≡ ok tt (inserted tail n m))
        × SameData m (inserted tail n m)
        × Queues (inserted tail n m) rs ws
        × Beside (inserted tail n m) rs ws list (xs ++ n ∷ [])
  Beside-add n valid new out =
      let (run, c) = list_add_tail_run m list xs n b.holds valid new in
      let apart : Apart (head ∷ tail ∷ n ∷ xs) (queue_nodes rs ws) =
        (b.apart.0, (b.apart.1.0, (out, b.apart.1.1))) in
      (
        run,
        c.kept,
        Queues-outside m _ rs ws (head ∷ tail ∷ n ∷ xs) q c.same c.kept
            (Apart-symm (head ∷ tail ∷ n ∷ xs) (queue_nodes rs ws) apart),
        record {
          holds = c.holds;
          apart = (
            b.apart.0,
            (
              b.apart.1.0,
              All-append (λ x. NotIn x (queue_nodes rs ws)) xs (n ∷ []) b.apart.1.1 (out, tt),
            ),
          );
        },
      )

module _ (m : Memory) (rs ws : List Ptr) (q : Queues m rs ws) (list : NodeList) (x : Ptr)
    (xs : List Ptr) (b : Beside m rs ws list (x ∷ xs)) where
  pub Beside-pop :
      (list_rem_head list m ≡ ok x (unlinked x m))
      × SameData m (unlinked x m)
      × Queues (unlinked x m) rs ws
      × Beside (unlinked x m) rs ws list xs
  Beside-pop =
      let c = unlinked-Becomes m list [] x xs b.holds in
      (
        list_rem_head_cons m list x xs b.holds,
        c.kept,
        Queues-outside m _ rs ws (list.head ∷ list.tail ∷ x ∷ xs) q c.same c.kept
            (Apart-symm (list.head ∷ list.tail ∷ x ∷ xs) (queue_nodes rs ws) b.apart),
        record { holds = c.holds; apart = (b.apart.0, (b.apart.1.0, b.apart.1.1.1)) },
      )

module _ (m : Memory) (rs ws : List Ptr) (q : Queues m rs ws) (list : NodeList) (xs ys : List Ptr)
    (b : Beside m rs ws list (xs ++ ys)) where
  open list use {head, tail}

  pub Beside-insert :
      (n : Ptr)
      → n ≢ null
      → NotIn n (head ∷ tail ∷ xs ++ ys)
      → NotIn n (queue_nodes rs ws)
      → SameData m (inserted (next_of ys tail) n m)
        × Queues (inserted (next_of ys tail) n m) rs ws
        × Beside (inserted (next_of ys tail) n m) rs ws list (xs ++ n ∷ ys)
  Beside-insert n valid new out =
      let c = inserted-Becomes m list xs ys n b.holds valid new in
      let apart : Apart (head ∷ tail ∷ n ∷ xs ++ ys) (queue_nodes rs ws) =
        (b.apart.0, (b.apart.1.0, (out, b.apart.1.1))) in
      let P = λ (x : Ptr). NotIn x (queue_nodes rs ws) in
      (
        c.kept,
        Queues-outside m _ rs ws (head ∷ tail ∷ n ∷ xs ++ ys) q c.same c.kept
            (Apart-symm (head ∷ tail ∷ n ∷ xs ++ ys) (queue_nodes rs ws) apart),
        record {
          holds = c.holds;
          apart = (
            b.apart.0,
            (
              b.apart.1.0,
              All-append P xs (n ∷ ys) (All_left P xs ys b.apart.1.1)
                  (out, All_right P xs ys b.apart.1.1),
            ),
          );
        },
      )

module _ (m : Memory) (rs ws : List Ptr) (q : Queues m rs ws) (list : NodeList) (xs : List Ptr)
    (x : Ptr) (ys : List Ptr) (b : Beside m rs ws list (xs ++ x ∷ ys)) where
  pub Beside-unlink :
      SameData m (unlinked x m)
      × Queues (unlinked x m) rs ws
      × Beside (unlinked x m) rs ws list (xs ++ ys)
  Beside-unlink =
      let c = unlinked-Becomes m list xs x ys b.holds in
      (
        c.kept,
        Queues-outside m _ rs ws (list.head ∷ list.tail ∷ xs ++ x ∷ ys) q c.same c.kept
            (Apart-symm (list.head ∷ list.tail ∷ xs ++ x ∷ ys) (queue_nodes rs ws) b.apart),
        record {
          holds = c.holds;
          apart = (
            b.apart.0,
            (b.apart.1.0, All_drop (λ a. NotIn a (queue_nodes rs ws)) x xs ys b.apart.1.1),
          );
        },
      )

module _ (m m' : Memory) (rs ws : List Ptr) (list : NodeList) (xs : List Ptr)
    (b : Beside m rs ws list xs) where
  -- What happens to the task lists does not touch the list.
  pub Beside-kept : SameOutside (queue_nodes rs ws) m m' → Beside m' rs ws list xs
  Beside-kept same = record {
    holds = IsList-outside m m' (queue_nodes rs ws) list xs same b.apart b.holds;
    apart = b.apart;
  }

  pub Beside-woken :
      (us : List Ptr) (t : Ptr) (vs : List Ptr)
      → ws ≡ us ++ t ∷ vs
      → SameOutside (queue_nodes rs ws) m m'
      → Beside m' (enqueued m.prio t rs) (us ++ vs) list xs
  Beside-woken us t vs e same = record {
    holds = IsList-outside m m' (queue_nodes rs ws) list xs same b.apart b.holds;
    apart =
        All_mono (λ a. NotIn a (queue_nodes rs ws))
          (λ a. NotIn a (queue_nodes (enqueued m.prio t rs) (us ++ vs)))
          (list.head ∷ list.tail ∷ xs)
          (λ a out.
            queue_nodes-wake m.prio rs us t vs a (subst (λ zs. NotIn a (queue_nodes rs zs)) e out))
          b.apart;
  }

  -- A task that is not in the list starts to wait.
  pub Beside-waits :
      (t : Ptr)
      → All (λ a. a ≢ t) (list.head ∷ list.tail ∷ xs)
      → SameOutside (waiting.head ∷ waiting.tail ∷ t ∷ ws) m m'
      → Beside m' rs (ws ++ t ∷ []) list xs
  Beside-waits t other same = record {
    holds =
        IsList-outside m m' (waiting.head ∷ waiting.tail ∷ t ∷ ws) list xs same
          (All_zip (λ a. a ≢ t) (λ a. NotIn a (queue_nodes rs ws))
            (λ a. NotIn a (waiting.head ∷ waiting.tail ∷ t ∷ ws)) (list.head ∷ list.tail ∷ xs)
            (λ a ne out. (out.1.1.0, (out.1.1.1.0, (ne, All_right (λ z. a ≢ z) rs ws out.1.1.1.1))))
            other b.apart)
          b.holds;
    apart =
        All_zip (λ a. a ≢ t) (λ a. NotIn a (queue_nodes rs ws))
          (λ a. NotIn a (queue_nodes rs (ws ++ t ∷ []))) (list.head ∷ list.tail ∷ xs)
          (λ a ne out.
            let differs = λ (z : Ptr). a ≢ z in
            let in_ready = All_left differs rs ws out.1.1.1.1 in
            let in_waiting = All_right differs rs ws out.1.1.1.1 in
            (
              out.0,
              (
                out.1.0,
                (
                  out.1.1.0,
                  (
                    out.1.1.1.0,
                    All-append differs rs (ws ++ t ∷ []) in_ready
                        (All-append differs ws (t ∷ []) in_waiting (ne, tt)),
                  ),
                ),
              ),
            ))
          other b.apart;
  }
