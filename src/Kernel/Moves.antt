-- ===== src/Kernel/Moves.antt =====
-- The ready list and the waiting list (src/private.h) under changes of both: a wake-up, and what
-- happens outside of them.
use martos.Common.{
  ◌<◌, ◌≡◌, ◌≢◌, List, ◌∷◌, ◌++◌, arith, All_left, All_right, All_middle, All_drop, NotIn,
  NotIn-both, NotIn-before, NotIn-after, subst, ◌∙◌, Apart, Apart-symm, length-append,
}
use martos.Common.Int.{ℤ}
use martos.Memory.{Memory, Ptr, ok, SameData}
use martos.NodeList.{list_unlink, list_enqueue}
use martos.NodeList.Chain.{SameOutside, IsList-outside}
use martos.NodeList.Order.{enqueued, enqueued-All}
use martos.Kernel.{ready, waiting, last_static}
use martos.Kernel.Queues.{Queues, queue_nodes, Queues-enqueue, Queues-unlink}

-- A change outside the two lists leaves them as they are.
pub Queues-outside :
    (m m' : Memory) (rs ws ns : List Ptr)
    → Queues m rs ws
    → SameOutside ns m m'
    → SameData m m'
    → Apart (queue_nodes rs ws) ns
    → Queues m' rs ws
Queues-outside m m' rs ws ns q same kept apart =
    let tasks_apart = apart.1.1.1.1 in
    record {
      ready_list =
          IsList-outside m m' ns ready rs same
            (apart.0, (apart.1.0, All_left (λ x. NotIn x ns) rs ws tasks_apart)) q.ready_list;
      waiting_list =
          IsList-outside m m' ns waiting ws same
            (apart.1.1.0, (apart.1.1.1.0, All_right (λ x. NotIn x ns) rs ws tasks_apart))
            q.waiting_list;
      ready_above = q.ready_above;
      waiting_above = q.waiting_above;
      apart = q.apart;
      ordered = rw (kept.1) q.ordered;
      room = omega (arith, kept.2, q.room);
    }

-- A waiting task may go over to the ready list, in two steps.
pub Queues-wake :
    (m : Memory) (rs us : List Ptr) (t : Ptr) (vs : List Ptr)
    → Queues m rs (us ++ t ∷ vs)
    → (m1 : Memory) × (m2 : Memory) × (list_unlink t m ≡ ok tt m1)
      × (list_enqueue ready t m1 ≡ ok tt m2)
      × SameData m m2
      × Queues m2 (enqueued m.prio t rs) (us ++ vs)
      × SameOutside (queue_nodes rs (us ++ t ∷ vs)) m m2
Queues-wake m rs us t vs q =
    let (m1, run1, kept1, q1, same1) = Queues-unlink m rs us t vs q in
    let apart = Apart-symm rs (us ++ t ∷ vs) q.apart in
    let gone = q.waiting_list.distinct.1.1 in
    let (m2, run2, kept2, q2, same2) =
      Queues-enqueue m1 rs (us ++ vs) q1 t
        (All_middle (λ t. last_static < t) t us vs q.waiting_above)
        (All_middle (λ x. NotIn x rs) t us vs apart)
        (NotIn-both us vs t (NotIn-before t vs us gone) (NotIn-after t vs us gone))
        (omega (arith, length-append us (t ∷ vs), length-append us vs, q.room, kept1.2)) in
    (
      m1,
      m2,
      run1,
      run2,
      (kept2.0 ∙ kept1.0, kept2.1 ∙ kept1.1, kept2.2 ∙ kept1.2),
      subst (λ p. Queues m2 (enqueued p t rs) (us ++ vs)) (kept1.1) q2,
      λ a out.
          let in_waiting = All_right (λ x. a ≢ x) rs (us ++ t ∷ vs) out.1.1.1.1 in
          let one = same1 a (out.1.1.0, (out.1.1.1.0, in_waiting)) in
          let two = same2 a (
            out.0,
            (
              out.1.0,
              (
                All_middle (λ x. a ≢ x) t us vs in_waiting,
                All_left (λ x. a ≢ x) rs (us ++ t ∷ vs) out.1.1.1.1,
              ),
            ),
          ) in
          (two.0 ∙ one.0, two.1 ∙ one.1),
    )

-- The nodes of the two lists stay the same set when a task goes over.
pub queue_nodes-wake :
    (prio : Ptr → ℤ) (rs us : List Ptr) (t : Ptr) (vs : List Ptr) (a : Ptr)
    → NotIn a (queue_nodes rs (us ++ t ∷ vs))
    → NotIn a (queue_nodes (enqueued prio t rs) (us ++ vs))
queue_nodes-wake prio rs us t vs a out =
    let in_ready = All_left (λ x. a ≢ x) rs (us ++ t ∷ vs) out.1.1.1.1 in
    let in_waiting = All_right (λ x. a ≢ x) rs (us ++ t ∷ vs) out.1.1.1.1 in
    (
      out.0,
      (
        out.1.0,
        (
          out.1.1.0,
          (
            out.1.1.1.0,
            NotIn-both (enqueued prio t rs) (us ++ vs) a
                (enqueued-All prio (λ x. a ≢ x) t rs (All_middle (λ x. a ≢ x) t us vs in_waiting)
                  in_ready)
                (All_drop (λ x. a ≢ x) t us vs in_waiting),
          ),
        ),
      ),
    )
