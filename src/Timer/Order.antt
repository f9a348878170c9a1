-- ===== src/Timer/Order.antt =====
-- The order in which `timer_add` of src/timer.c keeps the queue of timers: by their ticks.
use martos.Common.{
  true, ℕ, zero, suc, ◌<◌, ◌≤◌, ◌≡◌, refl, sym, ap, ◌≢◌, inl, inr, List, [], ◌∷◌, ◌++◌, arith, All,
  All-append, NotIn, All_left, All_right, All_mono, All_drop, Has, All-Has, All_put, subst, length,
  Bool-cases, if◌then◌else◌, ltb, ==-eq_false,
}
use martos.Memory.{Ptr, null, ok}
use martos.NodeList.Chain.{Chain, next_of, next_of-All, next-Chain}
use martos.Kernel.{Kernel}
use martos.Timer.{find_later}

module _ (tick : Ptr → ℕ) where
  -- The timers in front of the first one with a later tick than `n`, and the others.
  unfoldable pub earlier : ℕ → List Ptr → List Ptr
  earlier n [] = []
  earlier n (x ∷ xs) = if ltb n (tick x) then [] else x ∷ earlier n xs

  unfoldable pub later : ℕ → List Ptr → List Ptr
  later n [] = []
  later n (x ∷ xs) = if ltb n (tick x) then x ∷ xs else later n xs

  -- The queue with timer `t` added to it.
  unfoldable pub with_timer : Ptr → List Ptr → List Ptr
  unfolding earlier later
  with_timer t xs = earlier (tick t) xs ++ t ∷ later (tick t) xs

  -- Ticks rise, or stay, from the head to the tail.
  abbrev pub IsSorted : List Ptr → Type 0
  IsSorted [] = Unit
  IsSorted (x ∷ xs) = All (λ y. tick x ≤ tick y) xs × IsSorted xs

  pub IsSorted-drop :
      (xs : List Ptr) (t : Ptr) (ys : List Ptr) → IsSorted (xs ++ t ∷ ys) → IsSorted (xs ++ ys)
  IsSorted-drop [] t ys o = o.1
  IsSorted-drop (x ∷ xs) t ys o =
      (All_drop (λ y. tick x ≤ tick y) t xs ys o.0, IsSorted-drop xs t ys o.1)

  pub earlier-append-later : (n : ℕ) (xs : List Ptr) → earlier n xs ++ later n xs ≡ xs
  unfolding earlier later
  earlier-append-later n [] = refl
  earlier-append-later n (x ∷ xs) = elim (Bool-cases (ltb n (tick x))) [
    | inl e ↦ rw e
    | inr e ↦ rw e (ap (◌∷◌ x) (earlier-append-later n xs))
  ]

  earlier-All : (n : ℕ) (xs : List Ptr) → All (λ x. tick x ≤ n) (earlier n xs)
  unfolding earlier
  earlier-All n [] = tt
  earlier-All n (x ∷ xs) = ground (arith, earlier-All n xs)

  later-All : (n : ℕ) (xs : List Ptr) → IsSorted xs → All (λ x. n ≤ tick x) (later n xs)
  unfolding later
  later-All n [] o = tt
  later-All n (x ∷ xs) o = elim (Bool-cases (ltb n (tick x))) [
    | inl e ↦
        let below : n ≤ tick x = ground arith in
        rw e (below, All_mono (λ y. tick x ≤ tick y) (λ y. n ≤ tick y) xs (λ y h. omega arith) o.0)
    | inr e ↦ rw e (later-All n xs o.1)
  ]

  pub earlier-All_kept {ℓ} :
      (P : Ptr → Type ℓ) (n : ℕ) (xs : List Ptr) → All P xs → All P (earlier n xs)
  unfolding earlier
  earlier-All_kept P n [] h = tt
  earlier-All_kept P n (x ∷ xs) h = elim (Bool-cases (ltb n (tick x))) [
    | inl e ↦ rw e tt
    | inr e ↦ rw e (h.0, earlier-All_kept P n xs h.1)
  ]

  IsSorted-put :
      (t : Ptr) (xs ys : List Ptr)
      → IsSorted (xs ++ ys)
      → All (λ x. tick x ≤ tick t) xs
      → All (λ x. tick t ≤ tick x) ys
      → IsSorted (xs ++ t ∷ ys)
  IsSorted-put t [] ys o h l = (l, o)
  IsSorted-put t (x ∷ xs) ys o h l = (
    All-append (λ y. tick x ≤ tick y) xs (t ∷ ys) (All_left (λ y. tick x ≤ tick y) xs ys o.0)
        (h.0, All_right (λ y. tick x ≤ tick y) xs ys o.0),
    IsSorted-put t xs ys o.1 h.1 l,
  )

  pub with_timer-IsSorted : (t : Ptr) (xs : List Ptr) → IsSorted xs → IsSorted (with_timer t xs)
  unfolding with_timer
  with_timer-IsSorted t xs o =
      IsSorted-put t (earlier (tick t) xs) (later (tick t) xs)
        (rw (earlier-append-later (tick t) xs) o) (earlier-All (tick t) xs)
        (later-All (tick t) xs o)

-- The timers up to a tick stand in front.
pub earlier-Has :
    (tick : Ptr → ℕ) (n : ℕ) (t : Ptr) (xs : List Ptr)
    → IsSorted tick xs
    → tick t ≤ n
    → Has t xs
    → Has t (earlier tick n xs)
unfolding earlier
earlier-Has tick n t [] o due h = h
earlier-Has tick n t (x ∷ xs) o due h = elim (Bool-cases (ltb n (tick x))) [
  | inl e ↦ absurd (too_late e h)
  | inr e ↦ rw e (front (λ there. earlier-Has tick n t xs o.1 due there) h)
]
  where
    too_late : ltb n (tick x) ≡ true → ¬ (Has t (x ∷ xs))
    too_late e (inl same) =
        let at : tick x ≤ n = subst (λ a. tick a ≤ n) same due in ground (arith, e, at)
    too_late e (inr h) =
        let behind : tick x ≤ tick t = All-Has (λ y. tick x ≤ tick y) t xs h o.0 in
        ground (arith, e, due, behind)

    front : (Has t xs → Has t (earlier tick n xs)) → Has t (x ∷ xs) → Has t (x ∷ earlier tick n xs)
    front rest (inl e) = inl e
    front rest (inr h) = inr (rest h)

module _ (tick : Ptr → ℕ) (P : Ptr → Type 0) (t : Ptr) (xs : List Ptr) where
  pub with_timer-All : P t → All P xs → All P (with_timer tick t xs)
  unfolding with_timer
  with_timer-All h all =
      All_put P t (earlier tick (tick t) xs) (later tick (tick t) xs) h
        (subst (All P) (sym (earlier-append-later tick (tick t) xs)) all)

-- The order only looks at the timers of the queue.
pub IsSorted-agree :
    (f g : Ptr → ℕ) (t : Ptr) (xs : List Ptr)
    → ((x : Ptr) → x ≢ t → g x ≡ f x)
    → NotIn t xs
    → IsSorted f xs
    → IsSorted g xs
IsSorted-agree f g t [] same out o = tt
IsSorted-agree f g t (x ∷ xs) same out o =
    (rest xs out.1 o.0, IsSorted-agree f g t xs same out.1 o.1)
  where
    rest : (ys : List Ptr) → NotIn t ys → All (λ y. f x ≤ f y) ys → All (λ y. g x ≤ g y) ys
    rest [] n h = tt
    rest (y ∷ ys) n h =
        (rw (same x (λ e. out.0 (sym e)), same y (λ e. n.0 (sym e))) (h.0), rest ys n.1 h.1)

-- The search ends at the first timer with a later tick.
module _ (k : Kernel) (n : ℕ) (q : Ptr) (end : k.mem.next q ≡ null) (valid : q ≢ null) where
  abbrev ticks : Ptr → ℕ
  ticks x = (k.timer_objects x).tick

  pub find_later_run :
      (fuel : ℕ) (p : Ptr) (xs : List Ptr)
      → length xs < fuel
      → All (λ a. a ≢ null) xs
      → Chain k.mem p xs q
      → find_later fuel n (next_of xs q) k ≡ ok (next_of (later ticks n xs) null) k
  unfolding find_later later
  find_later_run zero p xs f v c = absurd (omega arith)
  find_later_run (suc fuel) p [] f v c = rw (==-eq_false q null valid, end) refl
  find_later_run (suc fuel) p (x ∷ xs) f v c =
      let after = next-Chain k.mem x xs q c.1 in
      let more : k.mem.next x ≢ null = rw after (next_of-All (λ a. a ≢ null) xs q v.1 valid) in
      let rest : find_later fuel n (k.mem.next x) k ≡ ok (next_of (later ticks n xs) null) k =
        rw after (find_later_run fuel x xs (omega arith) v.1 c.1) in
      elim (Bool-cases (ltb n (k.timer_objects x).tick)) [
        | inl h ↦ rw (==-eq_false x null v.0, ==-eq_false (k.mem.next x) null more, h) refl
        | inr h ↦ rw (==-eq_false x null v.0, ==-eq_false (k.mem.next x) null more, h) rest
      ]
