-- ===== src/NodeList/Refinement.antt =====
-- Each operation of src/list.c against the sequence of nodes that a list holds.
use mathlib.Core.List.{append-nil}
use martos.Common.{
  ◌<◌, ◌≡◌, refl, ◌∙◌, ap, ◌≢◌, List, [], ◌∷◌, ◌++◌, arith, NotIn, length, is_nil, ==_iff,
  ==-eq_false, update,
}
use martos.Memory.{Memory, Ptr, null, ok, Returns, SameData, get_next-eq, get_prev-eq}
use martos.NodeList.{
  NodeList, list_unlink, list_init, list_is_empty, list_add_tail, list_get_head, list_rem_head,
  list_enqueue, find_lower,
}
use martos.NodeList.Chain.{
  IsList, SameOutside, next_of, last_of, prev-Chain, next-Chain, last_of-All,
}
use martos.NodeList.Unlink.{unlinked, list_unlink_run, unlinked-IsList, unlinked-SameOutside}
use martos.NodeList.Insert.{inserted, link_before_run, inserted-IsList, inserted-SameOutside}
use martos.NodeList.Order.{higher, lower, enqueued, higher-append-lower, find_lower_run}

-- `m'` holds the nodes `xs` in `list`, and is as `m` but for pointers of the nodes `ws`.
pub record Becomes (m : Memory) (list : NodeList) (ws xs : List Ptr) (m' : Memory) : Type 0 where
  pub holds : IsList m' list xs
  pub same : SameOutside (list.head ∷ list.tail ∷ ws) m m'
  pub kept : SameData m m'

module _ (m : Memory) (list : NodeList) where
  open list use {head, tail}

  pub unlinked-Becomes :
      (xs : List Ptr) (x : Ptr) (ys : List Ptr)
      → IsList m list (xs ++ x ∷ ys)
      → Becomes m list (xs ++ x ∷ ys) (xs ++ ys) (unlinked x m)
  unlinked-Becomes xs x ys l = record {
    holds = unlinked-IsList m list xs x ys l;
    same = unlinked-SameOutside m list xs x ys l;
    kept = (refl, refl, refl);
  }

  pub inserted-Becomes :
      (xs ys : List Ptr) (n : Ptr)
      → IsList m list (xs ++ ys)
      → n ≢ null
      → NotIn n (head ∷ tail ∷ xs ++ ys)
      → Becomes m list (n ∷ xs ++ ys) (xs ++ n ∷ ys) (inserted (next_of ys tail) n m)
  inserted-Becomes xs ys n l fresh new = record {
    holds = inserted-IsList m list xs ys n l fresh new;
    same = λ a out.
        inserted-SameOutside m list xs ys n l fresh new a
          (out.1.1.0, (out.0, (out.1.0, out.1.1.1)));
    kept = (refl, refl, refl);
  }

  -- `list_unlink` of a node that a list holds ends well, takes it out of that list, leaves the
  -- others in their order and writes to no node outside.
  pub list_unlink-Becomes :
      (xs : List Ptr) (x : Ptr) (ys : List Ptr)
      → IsList m list (xs ++ x ∷ ys)
      → Returns (λ _ m'. Becomes m list (xs ++ x ∷ ys) (xs ++ ys) m') (list_unlink x m)
  list_unlink-Becomes xs x ys l = rw (list_unlink_run m list xs x ys l) (unlinked-Becomes xs x ys l)

  pub list_add_tail_run :
      (xs : List Ptr) (n : Ptr)
      → IsList m list xs
      → n ≢ null
      → NotIn n (head ∷ tail ∷ xs)
      → (list_add_tail list n m ≡ ok tt (inserted tail n m))
        × Becomes m list (n ∷ xs) (xs ++ n ∷ []) (inserted tail n m)
  unfolding list_add_tail
  list_add_tail_run xs n l fresh new =
      let l' : IsList m list (xs ++ []) = rw append-nil l in
      let new' : NotIn n (head ∷ tail ∷ xs ++ []) = rw append-nil new in
      (
        link_before_run m list xs [] n l' fresh new',
        rw append-nil at (inserted-Becomes xs [] n l' fresh new'),
      )

  pub list_enqueue_run :
      (xs : List Ptr) (n : Ptr)
      → IsList m list xs
      → length xs < m.bound
      → n ≢ null
      → NotIn n (head ∷ tail ∷ xs)
      → (m' : Memory) × (list_enqueue list n m ≡ ok tt m')
        × Becomes m list (n ∷ xs) (enqueued m.prio n xs) m'
  unfolding list_enqueue enqueued
  list_enqueue_run xs n l fuel fresh new =
      let before = higher m.prio (m.prio n) xs in
      let after = lower m.prio (m.prio n) xs in
      let l' : IsList m list (before ++ after) = rw (higher-append-lower m.prio (m.prio n) xs) l in
      let new' : NotIn n (head ∷ tail ∷ before ++ after) =
        rw (higher-append-lower m.prio (m.prio n) xs) new in
      let at : find_lower m.bound n (m.next head) m ≡ ok (next_of after tail) m =
        rw (next-Chain m head xs tail l.chain) (
          find_lower_run m n tail l.tail_next l.valid.1.0 m.bound head xs fuel l.valid.1.1
            l.chain) in
      (
        inserted (next_of after tail) n m,
        rw (get_next-eq head m l.valid.0, at) (link_before_run m list before after n l' fresh new'),
        rw (higher-append-lower m.prio (m.prio n) xs) at
            (inserted-Becomes before after n l' fresh new'),
      )

  -- The memory after `list_init`.
  abbrev pub initialised : Memory
  initialised = record m {
    next = update (update m.next head tail) tail null;
    prev = update (update m.prev head null) tail head;
  }

  module _ (h : head ≢ null) (t : tail ≢ null) (apart : head ≢ tail) where
    pub list_init-eq : list_init list m ≡ ok tt initialised
    unfolding list_init
    list_init-eq = ground arith

    pub initialised-Becomes : Becomes m list [] [] initialised
    unfolding update
    initialised-Becomes = record {
      holds = record {
        chain = (ground arith, ground arith);
        head_prev = ground arith;
        tail_next = ground arith;
        distinct = ((apart, tt), (tt, tt));
        valid = (h, (t, tt));
      };
      same = λ a out. (ground arith, ground arith);
      kept = (refl, refl, refl);
    }

  pub list_is_empty_run :
      (xs : List Ptr) → IsList m list xs → list_is_empty list m ≡ ok (is_nil xs) m
  unfolding list_is_empty
  list_is_empty_run [] l =
      rw (get_prev-eq tail m l.valid.1.0, l.chain.1, (==_iff head head).1 refl) refl
  list_is_empty_run (x ∷ xs) l = rw (
    get_prev-eq tail m l.valid.1.0,
    prev-Chain m head (x ∷ xs) tail l.chain,
    ==-eq_false head (last_of x xs)
        (last_of-All (λ z. head ≢ z) x xs l.distinct.0.1.0 l.distinct.0.1.1),
  )

  pub list_get_head_run :
      (xs : List Ptr) → IsList m list xs → list_get_head list m ≡ ok (next_of xs null) m
  unfolding list_get_head
  list_get_head_run [] l = rw (list_is_empty_run [] l)
  list_get_head_run (x ∷ xs) l =
      rw (list_is_empty_run (x ∷ xs) l)
        (get_next-eq head m l.valid.0 ∙ ap (λ p. ok p m) l.chain.0.0)

  pub list_rem_head_nil : IsList m list [] → list_rem_head list m ≡ ok null m
  unfolding list_rem_head
  list_rem_head_nil l = rw (list_get_head_run [] l)

  pub list_rem_head_cons :
      (x : Ptr) (xs : List Ptr)
      → IsList m list (x ∷ xs)
      → list_rem_head list m ≡ ok x (unlinked x m)
  unfolding list_rem_head
  list_rem_head_cons x xs l = rw (
    list_get_head_run (x ∷ xs) l,
    ==-eq_false x null l.valid.1.1.0,
    list_unlink_run m list [] x xs l,
  )
