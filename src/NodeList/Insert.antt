-- ===== src/NodeList/Insert.antt =====
-- The writes of src/list.c that put a node into a list: those that `list_add_tail` and
-- `list_enqueue` end in, and those of `list_insert`.
use mathlib.Core.List.{append-nil}
use martos.Common.{
  ◌≡◌, refl, sym, ◌∙◌, ◌≢◌, List, [], ◌∷◌, ◌++◌, arith, All, All_left, All_right, All_put, NotIn,
  Distinct, Apart, update, update_other, Apart-symm, Distinct-left, Distinct-right, Distinct-Apart,
  Distinct-put,
}
use martos.Memory.{Memory, Ptr, null, write_next, write_prev, ok}
use martos.NodeList.{NodeList, link_before, link_after}
use martos.NodeList.Chain.{
  Chain, IsList, SameOutside, last_of, next_of, last_of-All, next_of-All, next_last, Chain-split,
  Chain-join, prev-Chain, Chain-write_next, Chain-write_prev,
}

-- The memory with `n` between the neighbours `a` and `b`.
abbrev pub linked : (a n b : Ptr) → Memory → Memory
linked a n b m = write_prev b n (write_next a n (write_prev n a (write_next n b m)))

-- The memory after `n` is put in front of `at`.
abbrev pub inserted : (at n : Ptr) → Memory → Memory
inserted at n m = linked (m.prev at) n at m

link_before-eq :
    (m : Memory) (at n : Ptr)
    → n ≢ null
    → at ≢ null
    → m.prev at ≢ null
    → at ≢ n
    → link_before at n m ≡ ok tt (inserted at n m)
unfolding link_before
link_before-eq m at n hn ha hp ne = ground (arith, update_other m.prev (m.prev at) n at ne)

-- `list_insert` writes the same, from the other side.
link_after-eq :
    (m : Memory) (a b n : Ptr)
    → n ≢ null
    → a ≢ null
    → b ≢ null
    → a ≢ n
    → m.next a ≡ b
    → m.prev b ≡ a
    → link_after a n m ≡ ok tt (inserted b n m)
unfolding link_after
link_after-eq m a b n hn ha hb ne e f = ground (arith, update_other m.next b n a ne)

-- The chain up to the new node, and on to `b`.
Chain-linked :
    (m : Memory) (n b p : Ptr) (xs : List Ptr)
    → Distinct (p ∷ xs)
    → NotIn n (p ∷ xs)
    → NotIn b xs
    → b ≢ n
    → Chain m p xs b
    → Chain (linked (last_of p xs) n b m) p (xs ++ n ∷ []) b
unfolding update
Chain-linked m n b p [] d hn hb ne c = ground arith
Chain-linked m n b p (y ∷ ys) d hn hb ne c = (
  (ground (arith, last_of-All (λ a. p ≢ a) y ys d.0.0 d.0.1), ground arith),
  Chain-linked m n b y ys d.1 hn.1 hb.1 ne c.1,
)

-- The chain behind stays.
Chain-behind :
    (m : Memory) (a n y : Ptr) (ys : List Ptr) (q : Ptr)
    → NotIn a (y ∷ ys)
    → NotIn n (y ∷ ys)
    → NotIn y ys
    → y ≢ q
    → n ≢ q
    → Chain m y ys q
    → Chain (linked a n y m) y ys q
Chain-behind m a n y ys q na nn ny yq nq c =
    Chain-write_prev (write_next a n (write_prev n a (write_next n y m))) y n y ys q ny yq (
      Chain-write_next (write_prev n a (write_next n y m)) a n y ys q na (
        Chain-write_prev (write_next n y m) n a y ys q nn.1 nq
          (Chain-write_next m n y y ys q nn c)))

pub Chain-before :
    (m : Memory) (p : Ptr) (xs ys : List Ptr) (q : Ptr)
    → Chain m p (xs ++ ys) q
    → Chain m p xs (next_of ys q)
Chain-before m p xs [] q c = rw append-nil at c
Chain-before m p xs (y ∷ ys) q c = (Chain-split m p xs y ys q c).0

module _ (m : Memory) (n p : Ptr) (xs : List Ptr) (q : Ptr) (dp : Distinct (p ∷ xs))
    (np : NotIn n (p ∷ xs)) where
  Chain-inserted :
      (ys : List Ptr)
      → NotIn n ys
      → n ≢ q
      → Distinct ys
      → NotIn q ys
      → Apart (p ∷ xs) ys
      → NotIn (next_of ys q) xs
      → Chain m p (xs ++ ys) q
      → Chain (linked (last_of p xs) n (next_of ys q) m) p (xs ++ n ∷ ys) q
  Chain-inserted [] ny nq dy qy apart out c =
      Chain-linked m n q p xs dp np out (λ e. nq (sym e)) (Chain-before m p xs [] q c)
  Chain-inserted (y ∷ ys) ny nq dy qy apart out c =
      let m' : Memory = linked (last_of p xs) n y m in
      let front : Chain m' p (xs ++ n ∷ []) y =
        Chain-linked m n y p xs dp np out (λ e. ny.0 (sym e)) (Chain-before m p xs (y ∷ ys) q c) in
      let halves = Chain-split m' p xs n [] y front in
      Chain-join m' p xs n (y ∷ ys) q halves.0 (
        halves.1,
        Chain-behind m (last_of p xs) n y ys q
            (last_of-All (λ a. NotIn a (y ∷ ys)) p xs apart.0 apart.1) ny dy.0 (λ e. qy.0 (sym e))
            nq (Chain-split m p xs y ys q c).1,
      )

module _ (m : Memory) (list : NodeList) (xs ys : List Ptr) (n : Ptr) (l : IsList m list (xs ++ ys))
    (fresh : n ≢ null) (new : NotIn n (list.head ∷ list.tail ∷ xs ++ ys)) where
  open list use {head, tail}

  pub prev_place : m.prev (next_of ys tail) ≡ last_of head xs
  prev_place = prev-Chain m head xs (next_of ys tail) (Chain-before m head xs ys tail l.chain)

  -- A property of all nodes of the list holds of the new node's neighbours.
  pub next_place-All {ℓ} : (P : Ptr → Type ℓ) → P tail → All P (xs ++ ys) → P (next_of ys tail)
  next_place-All P h hs = next_of-All P ys tail (All_right P xs ys hs) h

  pub prev_place-All {ℓ} :
      (P : Ptr → Type ℓ) → P head → All P (xs ++ ys) → P (m.prev (next_of ys tail))
  prev_place-All P h hs = rw prev_place (last_of-All P head xs h (All_left P xs ys hs))

  pub link_before_run : link_before (next_of ys tail) n m ≡ ok tt (inserted (next_of ys tail) n m)
  link_before_run =
      link_before-eq m (next_of ys tail) n fresh
        (next_place-All (λ a. a ≢ null) l.valid.1.0 l.valid.1.1)
        (prev_place-All (λ a. a ≢ null) l.valid.0 l.valid.1.1)
        (λ e. next_place-All (λ a. n ≢ a) new.1.0 new.1.1 (sym e))

  place_apart : NotIn (next_of ys tail) xs
  place_apart =
      next_of-All (λ a. NotIn a xs) ys tail (Apart-symm xs ys (Distinct-Apart xs ys l.distinct.1.1))
        (All_left (λ z. tail ≢ z) xs ys l.distinct.1.0)

  pub inserted-IsList : IsList (inserted (next_of ys tail) n m) list (xs ++ n ∷ ys)
  inserted-IsList = rw prev_place (record {
    chain =
        Chain-inserted m n head xs tail
          (All_left (λ z. head ≢ z) xs ys l.distinct.0.1, Distinct-left xs ys l.distinct.1.1)
          (new.0, All_left (λ z. n ≢ z) xs ys new.1.1) ys (All_right (λ z. n ≢ z) xs ys new.1.1)
          new.1.0 (Distinct-right xs ys l.distinct.1.1)
          (All_right (λ z. tail ≢ z) xs ys l.distinct.1.0)
          (All_right (λ z. head ≢ z) xs ys l.distinct.0.1, Distinct-Apart xs ys l.distinct.1.1)
          place_apart l.chain;
    head_prev =
        update_other (update m.prev n (last_of head xs)) n (next_of ys tail) head
          (next_place-All (λ z. head ≢ z) l.distinct.0.0 l.distinct.0.1)
        ∙ update_other m.prev (last_of head xs) n head (λ e. new.0 (sym e))
        ∙ l.head_prev;
    tail_next =
        update_other (update m.next n (next_of ys tail)) n (last_of head xs) tail (
          last_of-All (λ z. tail ≢ z) head xs (λ e. l.distinct.0.0 (sym e))
            (All_left (λ z. tail ≢ z) xs ys l.distinct.1.0))
        ∙ update_other m.next (next_of ys tail) n tail (λ e. new.1.0 (sym e))
        ∙ l.tail_next;
    distinct = (
      (l.distinct.0.0, All_put (λ z. head ≢ z) n xs ys (λ e. new.0 (sym e)) l.distinct.0.1),
      (
        All_put (λ z. tail ≢ z) n xs ys (λ e. new.1.0 (sym e)) l.distinct.1.0,
        Distinct-put n ys xs (All_left (λ z. n ≢ z) xs ys new.1.1)
            (All_right (λ z. n ≢ z) xs ys new.1.1) l.distinct.1.1,
      ),
    );
    valid = (l.valid.0, (l.valid.1.0, All_put (λ a. a ≢ null) n xs ys fresh l.valid.1.1));
  })

  -- Nothing outside the list and the new node is written.
  pub inserted-SameOutside :
      SameOutside (n ∷ head ∷ tail ∷ xs ++ ys) m (inserted (next_of ys tail) n m)
  inserted-SameOutside a out = (
    update_other (update m.next n (next_of ys tail)) n (m.prev (next_of ys tail)) a
          (prev_place-All (λ z. a ≢ z) out.1.0 out.1.1.1)
        ∙ update_other m.next (next_of ys tail) n a out.0,
    update_other (update m.prev n (m.prev (next_of ys tail))) n (next_of ys tail) a
          (next_place-All (λ z. a ≢ z) out.1.1.0 out.1.1.1)
        ∙ update_other m.prev (m.prev (next_of ys tail)) n a out.0,
  )

  -- `list_insert` after the node in front of `place` has the same effect.
  pub link_after_run :
      link_after (m.prev (next_of ys tail)) n m ≡ ok tt (inserted (next_of ys tail) n m)
  link_after_run =
      link_after-eq m (m.prev (next_of ys tail)) (next_of ys tail) n fresh
        (prev_place-All (λ a. a ≢ null) l.valid.0 l.valid.1.1)
        (next_place-All (λ a. a ≢ null) l.valid.1.0 l.valid.1.1)
        (λ e. prev_place-All (λ a. n ≢ a) new.0 new.1.1 (sym e))
        (rw prev_place
          (next_last m head xs (next_of ys tail) (Chain-before m head xs ys tail l.chain)))
        refl
