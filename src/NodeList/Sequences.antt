-- ===== src/NodeList/Sequences.antt =====
-- The operations of src/list.c as operations on sequences: a queue, a priority queue and an
-- insertion behind a given node.
use martos.Common.{◌<◌, ◌≡◌, refl, ◌≢◌, List, [], ◌∷◌, ◌++◌, NotIn, length, ==-eq_false, All_left}
use martos.Memory.{Memory, Ptr, null, ok, Returns, get_next-eq}
use martos.NodeList.{NodeList, list_add_tail, list_rem_head, list_insert, list_enqueue}
use martos.NodeList.Chain.{IsList, last_of, next_of, last_of-All, next_last}
use martos.NodeList.Insert.{inserted, link_after_run, prev_place, next_place-All, Chain-before}
use martos.NodeList.Order.{IsOrdered, enqueued, enqueued-IsOrdered}
use martos.NodeList.Refinement.{
  Becomes, inserted-Becomes, unlinked-Becomes, list_add_tail_run, list_enqueue_run,
  list_rem_head_nil, list_rem_head_cons,
}

module _ (m : Memory) (list : NodeList) where
  open list use {head, tail}

  -- `list_add_tail` of a node that is not in the list ends well, puts the node behind the others
  -- and writes to no node outside.
  pub list_add_tail-Becomes :
      (xs : List Ptr) (n : Ptr)
      → IsList m list xs
      → n ≢ null
      → NotIn n (head ∷ tail ∷ xs)
      → Returns (λ _ m'. Becomes m list (n ∷ xs) (xs ++ n ∷ []) m') (list_add_tail list n m)
  list_add_tail-Becomes xs n l fresh new =
      let r = list_add_tail_run m list xs n l fresh new in rw (r.0) (r.1)

  -- `list_enqueue` of a node that is not in a list in the order of priorities ends well within the
  -- fuel, which is more than the number of nodes. It puts the node in front of the first node with
  -- a lower priority and writes to no node outside, and the list is in the order of priorities.
  pub list_enqueue-Becomes :
      (xs : List Ptr) (n : Ptr)
      → IsList m list xs
      → length xs < m.bound
      → n ≢ null
      → NotIn n (head ∷ tail ∷ xs)
      → IsOrdered m.prio xs
      → Returns
          (λ _ m'.
            Becomes m list (n ∷ xs) (enqueued m.prio n xs) m'
            × IsOrdered m'.prio (enqueued m.prio n xs))
          (list_enqueue list n m)
  list_enqueue-Becomes xs n l fuel fresh new o =
      let r = list_enqueue_run m list xs n l fuel fresh new in
      rw (r.1) (r.2, rw (r.2.kept.1) (enqueued-IsOrdered m.prio n xs o))

  -- `list_rem_head` returns `NULL` and changes nothing if the list is empty.
  abbrev pub RemovesHead : List Ptr → Ptr → Memory → Type 0
  RemovesHead [] p m' = (p ≡ null) × (m' ≡ m)
  RemovesHead (x ∷ xs) p m' = (p ≡ x) × Becomes m list (x ∷ xs) xs m'

  -- `list_rem_head` ends well: on an empty list it returns `NULL` and changes nothing, and on any
  -- other it returns the first node and leaves the rest in the list.
  pub list_rem_head-RemovesHead :
      (xs : List Ptr) → IsList m list xs → Returns (RemovesHead xs) (list_rem_head list m)
  list_rem_head-RemovesHead [] l = rw (list_rem_head_nil m list l) (refl, refl)
  list_rem_head-RemovesHead (x ∷ xs) l =
      rw (list_rem_head_cons m list x xs l) (refl, unlinked-Becomes m list [] x xs l)

  pub list_insert_run :
      (xs ys : List Ptr) (n : Ptr)
      → IsList m list (xs ++ ys)
      → n ≢ null
      → NotIn n (head ∷ tail ∷ xs ++ ys)
      → list_insert list n (last_of head xs) m ≡ ok tt (inserted (next_of ys tail) n m)
  unfolding list_insert
  list_insert_run xs ys n l fresh new =
      let valid =
        last_of-All (λ a. a ≢ null) head xs l.valid.0
          (All_left (λ a. a ≢ null) xs ys l.valid.1.1) in
      let after = next_last m head xs (next_of ys tail) (Chain-before m head xs ys tail l.chain) in
      let more =
        next_place-All m list xs ys n l fresh new (λ a. a ≢ null) l.valid.1.0 l.valid.1.1 in
      let place = prev_place m list xs ys n l fresh new in
      let linked = rw place at (link_after_run m list xs ys n l fresh new) in
      rw
        (
          ==-eq_false (last_of head xs) null valid,
          get_next-eq (last_of head xs) m valid,
          after,
          ==-eq_false (next_of ys tail) null more,
          linked,
        )
        (rw place refl)

  -- `list_insert` with the head or a node of the list as `prev` puts the node right behind it, and
  -- with `NULL` as `prev` it changes nothing.
  pub list_insert-Becomes :
      (xs ys : List Ptr) (n : Ptr)
      → IsList m list (xs ++ ys)
      → n ≢ null
      → NotIn n (head ∷ tail ∷ xs ++ ys)
      → Returns
          (λ _ m'. Becomes m list (n ∷ xs ++ ys) (xs ++ n ∷ ys) m')
          (list_insert list n (last_of head xs) m)
        × (list_insert list n null m ≡ ok tt m)
  unfolding list_insert
  list_insert-Becomes xs ys n l fresh new =
      (rw (list_insert_run xs ys n l fresh new) (inserted-Becomes m list xs ys n l fresh new), refl)
