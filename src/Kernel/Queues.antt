-- ===== src/Kernel/Queues.antt =====
-- The ready list and the waiting list together (src/private.h), and what each list operation of
-- the kernel does to the two.
use martos.Common.{
  ◌+◌, ◌≤◌, ◌<◌, ◌≡◌, ◌≢◌, List, [], ◌∷◌, ◌++◌, arith, All, All_mono, All-append, All_drop, NotIn,
  Apart, Apart-symm, Apart-cons, length, length-append,
}
use martos.Memory.{Memory, Ptr, null, ok, SameData}
use martos.NodeList.{list_unlink, list_enqueue, list_add_tail, list_rem_head}
use martos.NodeList.Chain.{IsList, SameOutside, IsList-outside}
use martos.NodeList.Unlink.{unlinked, list_unlink_run}
use martos.NodeList.Order.{IsOrdered, enqueued, enqueued-IsOrdered, enqueued-All, length-enqueued}
use martos.NodeList.Refinement.{
  unlinked-Becomes, list_enqueue_run, list_add_tail_run, list_rem_head_cons,
}
use martos.Kernel.{ready, waiting, last_static}

-- `rs` are the ready tasks and `ws` the waiting tasks, each in the order of its list.
pub record Queues (m : Memory) (rs ws : List Ptr) : Type 0 where
  pub ready_list : IsList m ready rs
  pub waiting_list : IsList m waiting ws
  pub ready_above : All (λ t. last_static < t) rs
  pub waiting_above : All (λ t. last_static < t) ws
  pub apart : Apart rs ws
  pub ordered : IsOrdered m.prio rs
  pub room : length rs + length ws ≤ m.bound

-- The nodes of the two lists.
abbrev pub queue_nodes : List Ptr → List Ptr → List Ptr
queue_nodes rs ws = ready.head ∷ ready.tail ∷ waiting.head ∷ waiting.tail ∷ rs ++ ws

-- A static node is no node above.
pub above-NotIn :
    (a : Ptr) (xs : List Ptr) → a ≤ last_static → All (λ t. last_static < t) xs → NotIn a xs
above-NotIn a xs small = All_mono (λ t. last_static < t) (λ t. a ≢ t) xs (λ t h. omega arith)

above-Apart :
    (a : Ptr) (xs : List Ptr)
    → a ≤ last_static
    → All (λ t. last_static < t) xs
    → All (λ t. t ≢ a) xs
above-Apart a xs small = All_mono (λ t. last_static < t) (λ t. t ≢ a) xs (λ t h. omega arith)

-- Nodes `xs` that lie above, in a list with static nodes `h` and `e`, are apart from another such
-- list.
lists-Apart :
    (h e h' e' : Ptr) (xs ys : List Ptr)
    → (h ≤ last_static) × (e ≤ last_static) × (h' ≤ last_static) × (e' ≤ last_static)
    → (h ≢ h') × (h ≢ e') × (e ≢ h') × (e ≢ e')
    → All (λ t. last_static < t) xs
    → All (λ t. last_static < t) ys
    → Apart xs ys
    → Apart (h ∷ e ∷ xs) (h' ∷ e' ∷ ys)
lists-Apart h e h' e' xs ys small ne ax ay apart = (
  (ne.0, (ne.1, above-NotIn h ys small.0 ay)),
  (
    (ne.2, (ne.3, above-NotIn e ys small.1 ay)),
    both xs (above-Apart h' xs small.2 ax) (above-Apart e' xs small.3 ax) apart,
  ),
)
  where
    both :
        (zs : List Ptr)
        → All (λ t. t ≢ h') zs
        → All (λ t. t ≢ e') zs
        → Apart zs ys
        → Apart zs (h' ∷ e' ∷ ys)
    both [] a b c = tt
    both (z ∷ zs) a b c = ((a.0, (b.0, c.0)), both zs a.1 b.1 c.1)

-- The other list is as it was.
module _ (m m' : Memory) (rs ws ns : List Ptr) (q : Queues m rs ws) where
  ready_kept :
      SameOutside (waiting.head ∷ waiting.tail ∷ ns) m m'
      → All (λ t. last_static < t) ns
      → Apart rs ns
      → IsList m' ready rs
  ready_kept same above apart =
      IsList-outside m m' (waiting.head ∷ waiting.tail ∷ ns) ready rs same
        (lists-Apart ready.head ready.tail waiting.head waiting.tail rs ns (omega arith)
          (omega arith) q.ready_above above apart)
        q.ready_list

  waiting_kept :
      SameOutside (ready.head ∷ ready.tail ∷ ns) m m'
      → All (λ t. last_static < t) ns
      → Apart ws ns
      → IsList m' waiting ws
  waiting_kept same above apart =
      IsList-outside m m' (ready.head ∷ ready.tail ∷ ns) waiting ws same
        (lists-Apart waiting.head waiting.tail ready.head ready.tail ws ns (omega arith)
          (omega arith) q.waiting_above above apart)
        q.waiting_list

pub above-ne_null : (t : Ptr) → last_static < t → t ≢ null
above-ne_null t h = omega arith

module _ (m : Memory) (rs ws : List Ptr) (q : Queues m rs ws) (t : Ptr) (above : last_static < t)
    (nr : NotIn t rs) (nw : NotIn t ws) (room : length rs + length ws < m.bound) where
  -- A node above that is in neither list may enter the ready list.
  pub Queues-enqueue :
      (m' : Memory) × (list_enqueue ready t m ≡ ok tt m')
      × SameData m m'
      × Queues m' (enqueued m.prio t rs) ws
      × SameOutside (ready.head ∷ ready.tail ∷ t ∷ rs) m m'
  Queues-enqueue =
      let (m', run, b) =
        list_enqueue_run m ready rs t q.ready_list (omega arith) (above-ne_null t above)
          (omega arith, (omega arith, nr)) in
      (
        m',
        run,
        b.kept,
        record {
          ready_list = b.holds;
          waiting_list =
              waiting_kept m m' rs ws (t ∷ rs) q b.same (above, q.ready_above)
                (Apart-cons t ws rs nw (Apart-symm rs ws q.apart));
          ready_above = enqueued-All m.prio (λ t. last_static < t) t rs above q.ready_above;
          waiting_above = q.waiting_above;
          apart = enqueued-All m.prio (λ x. NotIn x ws) t rs nw q.apart;
          ordered = rw (b.kept.1) (enqueued-IsOrdered m.prio t rs q.ordered);
          room = omega (arith, length-enqueued m.prio t rs, b.kept.2);
        },
        b.same,
      )

  -- So it may enter the waiting list.
  pub Queues-add_waiting :
      (m' : Memory) × (list_add_tail waiting t m ≡ ok tt m')
      × SameData m m'
      × Queues m' rs (ws ++ t ∷ [])
      × SameOutside (waiting.head ∷ waiting.tail ∷ t ∷ ws) m m'
  Queues-add_waiting =
      let (run, b) =
        list_add_tail_run m waiting ws t q.waiting_list (above-ne_null t above)
          (omega arith, (omega arith, nw)) in
      (
        _,
        run,
        b.kept,
        record {
          ready_list =
              ready_kept m _ rs ws (t ∷ ws) q b.same (above, q.waiting_above)
                (Apart-cons t rs ws nr q.apart);
          waiting_list = b.holds;
          ready_above = q.ready_above;
          waiting_above = All-append (λ t. last_static < t) ws (t ∷ []) q.waiting_above (above, tt);
          apart =
              Apart-symm (ws ++ t ∷ []) rs
                (All-append (λ x. NotIn x rs) ws (t ∷ []) (Apart-symm rs ws q.apart) (nr, tt));
          ordered = q.ordered;
          room = omega (arith, length-append ws (t ∷ []));
        },
        b.same,
      )

-- A waiting task may leave the waiting list.
pub Queues-unlink :
    (m : Memory) (rs us : List Ptr) (t : Ptr) (vs : List Ptr)
    → Queues m rs (us ++ t ∷ vs)
    → (m' : Memory) × (list_unlink t m ≡ ok tt m')
      × SameData m m'
      × Queues m' rs (us ++ vs)
      × SameOutside (waiting.head ∷ waiting.tail ∷ us ++ t ∷ vs) m m'
Queues-unlink m rs us t vs q =
    let b = unlinked-Becomes m waiting us t vs q.waiting_list in
    let apart = Apart-symm rs (us ++ t ∷ vs) q.apart in
    (
      unlinked t m,
      list_unlink_run m waiting us t vs q.waiting_list,
      b.kept,
      record {
        ready_list =
            ready_kept m (unlinked t m) rs (us ++ t ∷ vs) (us ++ t ∷ vs) q b.same q.waiting_above
              q.apart;
        waiting_list = b.holds;
        ready_above = q.ready_above;
        waiting_above = All_drop (λ t. last_static < t) t us vs q.waiting_above;
        apart = Apart-symm (us ++ vs) rs (All_drop (λ x. NotIn x rs) t us vs apart);
        ordered = q.ordered;
        room = omega (arith, length-append us (t ∷ vs), length-append us vs, q.room);
      },
      b.same,
    )

-- The first ready task leaves the ready list.
pub Queues-pop :
    (m : Memory) (r : Ptr) (rs ws : List Ptr)
    → Queues m (r ∷ rs) ws
    → (m' : Memory) × (list_rem_head ready m ≡ ok r m')
      × SameData m m'
      × Queues m' rs ws
      × SameOutside (ready.head ∷ ready.tail ∷ r ∷ rs) m m'
Queues-pop m r rs ws q =
    let b = unlinked-Becomes m ready [] r rs q.ready_list in
    (
      unlinked r m,
      list_rem_head_cons m ready r rs q.ready_list,
      b.kept,
      record {
        ready_list = b.holds;
        waiting_list =
            waiting_kept m (unlinked r m) (r ∷ rs) ws (r ∷ rs) q b.same q.ready_above
              (Apart-symm (r ∷ rs) ws q.apart);
        ready_above = q.ready_above.1;
        waiting_above = q.waiting_above;
        apart = q.apart.1;
        ordered = q.ordered.1;
        room = omega (arith, q.room);
      },
      b.same,
    )
