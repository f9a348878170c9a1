-- ===== src/NodeList/Order.antt =====
-- The order in which `list_enqueue` of src/list.c keeps a list: where a node goes by its priority.
use martos.Common.{
  ℕ, zero, suc, ◌<◌, ◌≡◌, refl, ap, ◌≢◌, inl, inr, List, [], ◌∷◌, ◌++◌, arith, All, All-append,
  All_left, All_right, All_mono, length, length-append, Bool-cases, if◌then◌else◌,
}
use martos.Common.Int.{ℤ, ltb_ℤ, ◌≤ℤ◌, ≤ℤ_trans}
use martos.Memory.{Memory, Ptr, null, ok}
use martos.NodeList.{find_lower}
use martos.NodeList.Chain.{Chain, next_of, next_of-All, next-Chain}

module _ (prio : Ptr → ℤ) where
  -- The nodes in front of the first one with a lower priority than `p`, and the others.
  unfoldable pub higher : ℤ → List Ptr → List Ptr
  higher p [] = []
  higher p (x ∷ xs) = if ltb_ℤ (prio x) p then [] else x ∷ higher p xs

  unfoldable pub lower : ℤ → List Ptr → List Ptr
  lower p [] = []
  lower p (x ∷ xs) = if ltb_ℤ (prio x) p then x ∷ xs else lower p xs

  -- The order of a list after `list_enqueue`.
  unfoldable pub enqueued : Ptr → List Ptr → List Ptr
  unfolding higher lower
  enqueued n xs = higher (prio n) xs ++ n ∷ lower (prio n) xs

  -- Priorities fall, or stay, from the head to the tail.
  abbrev pub IsOrdered : List Ptr → Type 0
  IsOrdered [] = Unit
  IsOrdered (x ∷ xs) = All (λ y. prio y ≤ℤ prio x) xs × IsOrdered xs

  pub higher-append-lower : (p : ℤ) (xs : List Ptr) → higher p xs ++ lower p xs ≡ xs
  unfolding higher lower
  higher-append-lower p [] = refl
  higher-append-lower p (x ∷ xs) = elim (Bool-cases (ltb_ℤ (prio x) p)) [
    | inl e ↦ rw e
    | inr e ↦ rw e (ap (◌∷◌ x) (higher-append-lower p xs))
  ]

  higher-All : (p : ℤ) (xs : List Ptr) → All (λ x. p ≤ℤ prio x) (higher p xs)
  unfolding higher
  higher-All p [] = tt
  higher-All p (x ∷ xs) = ground (arith, higher-All p xs)

  lower-All : (p : ℤ) (xs : List Ptr) → IsOrdered xs → All (λ x. prio x ≤ℤ p) (lower p xs)
  unfolding lower
  lower-All p [] o = tt
  lower-All p (x ∷ xs) o = elim (Bool-cases (ltb_ℤ (prio x) p)) [
    | inl e ↦
        let below : prio x ≤ℤ p = ground arith in
        rw e (
          below,
          All_mono (λ y. prio y ≤ℤ prio x) (λ y. prio y ≤ℤ p) xs
              (λ y h. ≤ℤ_trans (prio y) (prio x) p h below) o.0,
        )
    | inr e ↦ rw e (lower-All p xs o.1)
  ]

  IsOrdered-put :
      (n : Ptr) (xs ys : List Ptr)
      → IsOrdered (xs ++ ys)
      → All (λ x. prio n ≤ℤ prio x) xs
      → All (λ x. prio x ≤ℤ prio n) ys
      → IsOrdered (xs ++ n ∷ ys)
  IsOrdered-put n [] ys o h l = (l, o)
  IsOrdered-put n (x ∷ xs) ys o h l = (
    All-append (λ y. prio y ≤ℤ prio x) xs (n ∷ ys) (All_left (λ y. prio y ≤ℤ prio x) xs ys o.0)
        (h.0, All_right (λ y. prio y ≤ℤ prio x) xs ys o.0),
    IsOrdered-put n xs ys o.1 h.1 l,
  )

  pub enqueued-IsOrdered : (n : Ptr) (xs : List Ptr) → IsOrdered xs → IsOrdered (enqueued n xs)
  unfolding enqueued
  enqueued-IsOrdered n xs o =
      IsOrdered-put n (higher (prio n) xs) (lower (prio n) xs)
        (rw (higher-append-lower (prio n) xs) o) (higher-All (prio n) xs) (lower-All (prio n) xs o)

  pub enqueued-All {ℓ} :
      (P : Ptr → Type ℓ) (n : Ptr) (xs : List Ptr) → P n → All P xs → All P (enqueued n xs)
  unfolding enqueued
  enqueued-All P n xs hn h =
      let h' : All P (higher (prio n) xs ++ lower (prio n) xs) =
        rw (higher-append-lower (prio n) xs) h in
      All-append P (higher (prio n) xs) (n ∷ lower (prio n) xs)
        (All_left P (higher (prio n) xs) (lower (prio n) xs) h')
        (hn, All_right P (higher (prio n) xs) (lower (prio n) xs) h')

pub length-enqueued :
    (prio : Ptr → ℤ) (n : Ptr) (xs : List Ptr) → length (enqueued prio n xs) ≡ suc (length xs)
unfolding enqueued
length-enqueued prio n xs = omega (
  arith,
  length-append (higher prio (prio n) xs) (n ∷ lower prio (prio n) xs),
  length-append (higher prio (prio n) xs) (lower prio (prio n) xs),
  ap length (higher-append-lower prio (prio n) xs),
)

-- The loop stops in front of the nodes with a lower priority.
module _ (m : Memory) (n q : Ptr) (end : m.next q ≡ null) (valid : q ≢ null) where
  pub find_lower_run :
      (fuel : ℕ) (p : Ptr) (xs : List Ptr)
      → length xs < fuel
      → All (λ a. a ≢ null) xs
      → Chain m p xs q
      → find_lower fuel n (next_of xs q) m ≡ ok (next_of (lower m.prio (m.prio n) xs) q) m
  unfolding find_lower lower
  find_lower_run zero p xs f v c = absurd (omega arith)
  find_lower_run (suc fuel) p [] f v c = ground arith
  find_lower_run (suc fuel) p (x ∷ xs) f v c =
      let after = next-Chain m x xs q c.1 in
      let more : m.next x ≢ null = rw after (next_of-All (λ a. a ≢ null) xs q v.1 valid) in
      let rest : find_lower fuel n (m.next x) m ≡ ok (next_of (lower m.prio (m.prio n) xs) q) m =
        rw after (find_lower_run fuel x xs (omega arith) v.1 c.1) in
      ground (arith, more, rest)
