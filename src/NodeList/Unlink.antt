-- ===== src/NodeList/Unlink.antt =====
-- `list_unlink` of src/list.c.
use martos.Common.{
  ◌≡◌, sym, ◌∙◌, ◌≢◌, List, [], ◌∷◌, ◌++◌, arith, All, All_left, All_right, All_middle, All_drop,
  NotIn, Distinct, update_self, update_other, NotIn-before, Apart-symm, Distinct-left,
  Distinct-right, Distinct-drop, Distinct-Apart,
}
use mathlib.Core.List.{append-nil}
use martos.Memory.{Memory, Ptr, null, write_next, write_prev, ok}
use martos.NodeList.{NodeList, list_unlink}
use martos.NodeList.Chain.{
  Chain, IsList, SameOutside, last_of, next_of, last_of-All, next_of-All, Chain-split, Chain-join,
  prev-Chain, next-Chain, Chain-write_next, Chain-write_prev,
}

-- The memory in which `a` and `b` point at each other.
abbrev pub redirected : Ptr → Ptr → Memory → Memory
redirected a b m = write_prev b a (write_next a b m)

-- The memory after `list_unlink x`.
abbrev pub unlinked : Ptr → Memory → Memory
unlinked x m = redirected (m.prev x) (m.next x) m

-- Leads a chain to another end `b`.
module _ (m : Memory) (b : Ptr) where
  Chain-redirect :
      (p : Ptr) (xs : List Ptr) (x : Ptr)
      → Distinct (p ∷ xs)
      → NotIn b xs
      → Chain m p xs x
      → Chain (redirected (last_of p xs) b m) p xs b
  Chain-redirect p [] x d n c = (update_self m.next b p, update_self m.prev p b)
  Chain-redirect p (y ∷ ys) x d n c = (
    (
      update_other m.next b (last_of y ys) p (last_of-All (λ a. p ≢ a) y ys d.0.0 d.0.1) ∙ c.0.0,
      update_other m.prev (last_of y ys) b y (λ e. n.0 (sym e)) ∙ c.0.1,
    ),
    Chain-redirect y ys x d.1 n.1 c.1,
  )

-- The chain behind the removed node stays, up to where it starts.
Chain-rest :
    (m : Memory) (a p x : Ptr) (xs ys : List Ptr) (q : Ptr)
    → NotIn a ys
    → Distinct ys
    → NotIn q ys
    → Chain m x ys q
    → Chain (redirected a (next_of ys q) m) p xs (next_of ys q)
    → Chain (redirected a (next_of ys q) m) p (xs ++ ys) q
Chain-rest m a p x xs [] q na d nq c before = rw append-nil before
Chain-rest m a p x xs (y ∷ ys) q na d nq c before =
    Chain-join (redirected a y m) p xs y ys q before (
      Chain-write_prev (write_next a y m) y a y ys q d.0 (λ e. nq.0 (sym e))
        (Chain-write_next m a y y ys q na c.1))

list_unlink-eq :
    (m : Memory) (x : Ptr)
    → x ≢ null
    → m.prev x ≢ null
    → m.next x ≢ null
    → x ≢ m.prev x
    → list_unlink x m ≡ ok tt (unlinked x m)
unfolding list_unlink
list_unlink-eq m x hx hp hn self = ground (arith, update_other m.next (m.next x) (m.prev x) x self)

module _ (m : Memory) (list : NodeList) (xs : List Ptr) (x : Ptr) (ys : List Ptr)
    (l : IsList m list (xs ++ x ∷ ys)) where
  open list use {head, tail}

  head_ne : x ≢ head
  head_ne e = All_middle (λ z. head ≢ z) x xs ys l.distinct.0.1 (sym e)

  pub prev_middle : m.prev x ≡ last_of head xs
  prev_middle = prev-Chain m head xs x (Chain-split m head xs x ys tail l.chain).0

  pub next_middle : m.next x ≡ next_of ys tail
  next_middle = next-Chain m x ys tail (Chain-split m head xs x ys tail l.chain).1

  -- A property of all nodes of the list holds of the two neighbours of `x`.
  pub prev_middle-All {ℓ} : (P : Ptr → Type ℓ) → P head → All P (xs ++ x ∷ ys) → P (m.prev x)
  prev_middle-All P h hs = rw prev_middle (last_of-All P head xs h (All_left P xs (x ∷ ys) hs))

  pub next_middle-All {ℓ} : (P : Ptr → Type ℓ) → P tail → All P (xs ++ x ∷ ys) → P (m.next x)
  next_middle-All P h hs = rw next_middle (next_of-All P ys tail (All_right P xs (x ∷ ys) hs).1 h)

  pub list_unlink_run : list_unlink x m ≡ ok tt (unlinked x m)
  list_unlink_run =
      list_unlink-eq m x (All_middle (λ a. a ≢ null) x xs ys l.valid.1.1)
        (prev_middle-All (λ a. a ≢ null) l.valid.0 l.valid.1.1)
        (next_middle-All (λ a. a ≢ null) l.valid.1.0 l.valid.1.1)
        (rw prev_middle
          (last_of-All (λ a. x ≢ a) head xs head_ne (NotIn-before x ys xs l.distinct.1.1)))

  -- The last node before `x` is none of those behind it, and so on.
  last_apart : NotIn (last_of head xs) ys
  last_apart =
      last_of-All (λ a. NotIn a ys) head xs (All_right (λ z. head ≢ z) xs (x ∷ ys) l.distinct.0.1).1
        (Distinct-Apart xs ys (Distinct-drop x ys xs l.distinct.1.1))

  next_apart : NotIn (next_of ys tail) xs
  next_apart =
      next_of-All (λ a. NotIn a xs) ys tail
        (Apart-symm xs ys (Distinct-Apart xs ys (Distinct-drop x ys xs l.distinct.1.1)))
        (All_left (λ z. tail ≢ z) xs (x ∷ ys) l.distinct.1.0)

  pub unlinked-IsList : IsList (unlinked x m) list (xs ++ ys)
  unlinked-IsList =
      rw (prev_middle, next_middle)
        (record {
          chain =
              Chain-rest m (last_of head xs) head x xs ys tail last_apart
                (Distinct-right xs ys (Distinct-drop x ys xs l.distinct.1.1))
                (All_right (λ z. tail ≢ z) xs (x ∷ ys) l.distinct.1.0).1
                (Chain-split m head xs x ys tail l.chain).1
                (Chain-redirect m (next_of ys tail) head xs x
                  (
                    All_left (λ z. head ≢ z) xs (x ∷ ys) l.distinct.0.1,
                    Distinct-left xs (x ∷ ys) l.distinct.1.1,
                  )
                  next_apart (Chain-split m head xs x ys tail l.chain).0);
          head_prev =
              update_other m.prev (last_of head xs) (next_of ys tail) head (
                next_of-All (λ z. head ≢ z) ys tail
                  (All_right (λ z. head ≢ z) xs (x ∷ ys) l.distinct.0.1).1 l.distinct.0.0)
              ∙ l.head_prev;
          tail_next =
              update_other m.next (next_of ys tail) (last_of head xs) tail (
                last_of-All (λ z. tail ≢ z) head xs (λ e. l.distinct.0.0 (sym e))
                  (All_left (λ z. tail ≢ z) xs (x ∷ ys) l.distinct.1.0))
              ∙ l.tail_next;
          distinct = (
            (l.distinct.0.0, All_drop (λ z. head ≢ z) x xs ys l.distinct.0.1),
            (All_drop (λ z. tail ≢ z) x xs ys l.distinct.1.0, Distinct-drop x ys xs l.distinct.1.1),
          );
          valid = (l.valid.0, (l.valid.1.0, All_drop (λ a. a ≢ null) x xs ys l.valid.1.1));
        })

  -- Nothing outside the list is written.
  pub unlinked-SameOutside : SameOutside (head ∷ tail ∷ xs ++ x ∷ ys) m (unlinked x m)
  unlinked-SameOutside a out = (
    update_other m.next (m.next x) (m.prev x) a (prev_middle-All (λ z. a ≢ z) out.0 out.1.1),
    update_other m.prev (m.prev x) (m.next x) a (next_middle-All (λ z. a ≢ z) out.1.0 out.1.1),
  )
