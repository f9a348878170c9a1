-- ===== src/NodeList/Chain.antt =====
-- What it is for a chain of nodes in memory to be a list (src/list.c): the `next` pointers lead
-- from one node to another through the given nodes, and the `prev` pointers lead back.
use martos.Common.{
  ◌≡◌, sym, ◌∙◌, ◌≢◌, List, [], ◌∷◌, ◌++◌, arith, All, NotIn, Distinct, Apart, update, update_other,
}
use martos.Memory.{Memory, Ptr, null, write_next, write_prev}
use martos.NodeList.{NodeList}

abbrev pub Links : Memory → Ptr → Ptr → Type 0
Links m p q = (m.next p ≡ q) × (m.prev q ≡ p)

abbrev pub Chain : Memory → Ptr → List Ptr → Ptr → Type 0
Chain m p [] q = Links m p q
Chain m p (x ∷ xs) q = (Links m p x) × (Chain m x xs q)

-- The node before the end of a chain, and the node after its start.
abbrev pub last_of : Ptr → List Ptr → Ptr
last_of p [] = p
last_of p (x ∷ xs) = last_of x xs

abbrev pub next_of : List Ptr → Ptr → Ptr
next_of [] q = q
next_of (x ∷ xs) q = x

-- `list` is well-formed and holds the nodes `xs`, in this order.
pub record IsList (m : Memory) (list : NodeList) (xs : List Ptr) : Type 0 where
  pub chain : Chain m list.head xs list.tail
  pub head_prev : m.prev list.head ≡ null
  pub tail_next : m.next list.tail ≡ null
  pub distinct : Distinct (list.head ∷ list.tail ∷ xs)
  pub valid : All (λ a. a ≢ null) (list.head ∷ list.tail ∷ xs)

-- `m'` differs from `m` at most in the pointers of the nodes `xs`.
abbrev pub SameOutside : List Ptr → Memory → Memory → Type 0
SameOutside xs m m' = (a : Ptr) → NotIn a xs → (m'.next a ≡ m.next a) × (m'.prev a ≡ m.prev a)

pub last_of-All {ℓ} :
    (P : Ptr → Type ℓ) (p : Ptr) (xs : List Ptr) → P p → All P xs → P (last_of p xs)
last_of-All P p [] h hs = h
last_of-All P p (x ∷ xs) h hs = last_of-All P x xs hs.0 hs.1

pub next_of-All {ℓ} :
    (P : Ptr → Type ℓ) (xs : List Ptr) (q : Ptr) → All P xs → P q → P (next_of xs q)
next_of-All P [] q hs h = h
next_of-All P (x ∷ xs) q hs h = hs.0

module _ (m : Memory) where
  pub Chain-split :
      (p : Ptr) (xs : List Ptr) (x : Ptr) (ys : List Ptr) (q : Ptr)
      → Chain m p (xs ++ x ∷ ys) q
      → Chain m p xs x × Chain m x ys q
  Chain-split p [] x ys q c = c
  Chain-split p (z ∷ xs) x ys q c = let r = Chain-split z xs x ys q c.1 in ((c.0, r.0), r.1)

  pub Chain-join :
      (p : Ptr) (xs : List Ptr) (x : Ptr) (ys : List Ptr) (q : Ptr)
      → Chain m p xs x
      → Chain m x ys q
      → Chain m p (xs ++ x ∷ ys) q
  Chain-join p [] x ys q c d = (c, d)
  Chain-join p (z ∷ xs) x ys q c d = (c.0, Chain-join z xs x ys q c.1 d)

  pub prev-Chain : (p : Ptr) (xs : List Ptr) (q : Ptr) → Chain m p xs q → m.prev q ≡ last_of p xs
  prev-Chain p [] q c = c.1
  prev-Chain p (x ∷ xs) q c = prev-Chain x xs q c.1

  pub next-Chain : (p : Ptr) (xs : List Ptr) (q : Ptr) → Chain m p xs q → m.next p ≡ next_of xs q
  next-Chain p [] q c = c.0
  next-Chain p (x ∷ xs) q c = c.0.0

  pub next_last : (p : Ptr) (xs : List Ptr) (q : Ptr) → Chain m p xs q → m.next (last_of p xs) ≡ q
  next_last p [] q c = c.0
  next_last p (x ∷ xs) q c = next_last x xs q c.1

  pub Chain-write_next :
      (a v p : Ptr) (xs : List Ptr) (q : Ptr)
      → NotIn a (p ∷ xs)
      → Chain m p xs q
      → Chain (write_next a v m) p xs q
  unfolding update
  Chain-write_next a v p [] q n c = ground arith
  Chain-write_next a v p (x ∷ xs) q n c = (
    (update_other m.next v a p (λ e. n.0 (sym e)) ∙ c.0.0, c.0.1),
    Chain-write_next a v x xs q n.1 c.1,
  )

  pub Chain-write_prev :
      (a v p : Ptr) (xs : List Ptr) (q : Ptr)
      → NotIn a xs
      → a ≢ q
      → Chain m p xs q
      → Chain (write_prev a v m) p xs q
  Chain-write_prev a v p [] q n ne c = (c.0, update_other m.prev v a q (λ e. ne (sym e)) ∙ c.1)
  Chain-write_prev a v p (x ∷ xs) q n ne c = (
    (c.0.0, update_other m.prev v a x (λ e. n.0 (sym e)) ∙ c.0.1),
    Chain-write_prev a v x xs q n.1 ne c.1,
  )

-- A chain survives what does not touch its nodes.
pub Chain-outside :
    (m m' : Memory) (ws : List Ptr) (p : Ptr) (xs : List Ptr) (q : Ptr)
    → SameOutside ws m m'
    → NotIn p ws
    → Apart xs ws
    → NotIn q ws
    → Chain m p xs q
    → Chain m' p xs q
Chain-outside m m' ws p [] q same np nx nq c = ((same p np).0 ∙ c.0, (same q nq).1 ∙ c.1)
Chain-outside m m' ws p (x ∷ xs) q same np nx nq c = (
  ((same p np).0 ∙ c.0.0, (same x nx.0).1 ∙ c.0.1),
  Chain-outside m m' ws x xs q same nx.0 nx.1 nq c.1,
)

pub IsList-outside :
    (m m' : Memory) (ws : List Ptr) (list : NodeList) (xs : List Ptr)
    → SameOutside ws m m'
    → Apart (list.head ∷ list.tail ∷ xs) ws
    → IsList m list xs
    → IsList m' list xs
IsList-outside m m' ws list xs same apart l = record {
  chain = Chain-outside m m' ws list.head xs list.tail same apart.0 apart.1.1 apart.1.0 l.chain;
  head_prev = (same list.head apart.0).1 ∙ l.head_prev;
  tail_next = (same list.tail apart.1.0).0 ∙ l.tail_next;
  distinct = l.distinct;
  valid = l.valid;
}
