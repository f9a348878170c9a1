-- ===== src/Signal/Sets.antt =====
-- Words as sets of signals (src/task.c tests and changes them by `&`, `|` and `~`).
use martos.Common.{
  ℕ, ◌^◌, ◌<◌, ◌≤◌, ◌≡◌, refl, sym, ◌∙◌, ap, Bool, false, not, ◌&&◌, ◌||◌, ◌==◌, arith, bit_and,
  bit_or, Bool-cases, inl, inr, ltb, ◌↔◌,
}
use martos.Common.Bits.{
  bit, bit-zero, bit-bit_and, bit-bit_or, bit_ext, eq_zero_of_bits, bit-complement, complement,
  bit_above, bit_and-le,
}
use martos.Kernel.{Signals, without}
use martos.Signal.{meets}

pub meets-eq_zero : (a b : Signals) → meets a b ≡ false → bit_and a b ≡ 0
meets-eq_zero a b h = ground arith

-- Two sets are apart exactly when no signal is in both.
pub meets-false_iff :
    (a b : Signals) → (meets a b ≡ false) ↔ ((i : ℕ) → (bit a i && bit b i) ≡ false)
meets-false_iff a b = (
  λ h i. sym (bit-bit_and a b i) ∙ ap (λ n. bit n i) (meets-eq_zero a b h) ∙ bit-zero i,
  λ h. ap (λ n. not (n == 0)) (eq_zero_of_bits (bit_and a b) (λ i. bit-bit_and a b i ∙ h i)),
)

meets_ext :
    (a b c d : Signals)
    → ((i : ℕ) → (bit a i && bit b i) ≡ (bit c i && bit d i))
    → meets a b ≡ meets c d
meets_ext a b c d h =
    ap (λ n. not (n == 0))
      (bit_ext (bit_and a b) (bit_and c d) λ i. bit-bit_and a b i ∙ (h i ∙ sym (bit-bit_and c d i)))

-- Which of two sets is met by the received signals among both.
pub meets_left : (a b r : Signals) → meets (bit_and (bit_or a b) r) a ≡ meets a r
meets_left a b r =
    meets_ext (bit_and (bit_or a b) r) a a r λ i.
      rw (bit-bit_and (bit_or a b) r i, bit-bit_or a b i) (within (bit a i) (bit b i) (bit r i))
  where
    within : (x y z : Bool) → ((x || y) && z && x) ≡ (x && z)
    within x y z = ground arith

pub meets_right : (a b r : Signals) → meets (bit_and (bit_or a b) r) b ≡ meets b r
meets_right a b r =
    meets_ext (bit_and (bit_or a b) r) b b r λ i.
      rw (bit-bit_and (bit_or a b) r i, bit-bit_or a b i) (within (bit a i) (bit b i) (bit r i))
  where
    within : (x y z : Bool) → ((x || y) && z && y) ≡ (y && z)
    within x y z = ground arith

-- What is apart from `b` and from `c` is apart from both together.
pub meets-bit_or :
    (a b c : Signals) → meets a b ≡ false → meets c a ≡ false → meets a (bit_or b c) ≡ false
meets-bit_or a b c hb hc = (meets-false_iff a (bit_or b c)).1 (λ i.
    let x = (meets-false_iff a b).0 hb i in
    let y = (meets-false_iff c a).0 hc i in ground (arith, bit-bit_or b c i))

-- `a & ~b` holds the signals of `a` that are not in `b`.
pub bit-without :
    (a b i : ℕ) → a < 2 ^ 16 → b < 2 ^ 16 → bit (without a b) i ≡ (bit a i && not (bit b i))
bit-without a b i ha hb = elim (Bool-cases (ltb i 16)) [
  | inl e ↦
      bit-bit_and a (complement 16 b) i
      ∙ ap (λ z. bit a i && z) (bit-complement 16 b i hb ∙ rw e refl)
  | inr e ↦ bit-bit_and a (complement 16 b) i ∙ rw (bit_above 16 a i ha (ground arith)) refl
]

pub bit_and-bound : (a b : ℕ) → b < 2 ^ 16 → bit_and a b < 2 ^ 16
bit_and-bound a b h =
    let e =
      bit_ext (bit_and a b) (bit_and b a)
        (λ i. bit-bit_and a b i ∙ (and_comm (bit a i) (bit b i) ∙ sym (bit-bit_and b a i))) in
    let l = bit_and-le b a in rw e (omega arith)
  where
    and_comm : (a b : Bool) → (a && b) ≡ (b && a)
    and_comm a b = ground arith

-- Once the signals of `s` are taken from `r`, none of `s` is left.
pub meets_taken : (s r : Signals) → r < 2 ^ 16 → meets s (without r (bit_and s r)) ≡ false
meets_taken s r h = (meets-false_iff s (without r (bit_and s r))).1 λ i.
    let b : bit_and s r < 2 ^ 16 = bit_and-bound s r h in
    rw (bit-without r (bit_and s r) i h b, bit-bit_and s r i) (taken_apart (bit s i) (bit r i))
  where
    taken_apart : (a b : Bool) → (a && (b && not (a && b))) ≡ false
    taken_apart a b = ground arith

pub bit_or_zero : (a : Signals) → bit_or 0 a ≡ a
bit_or_zero a = bit_ext (bit_or 0 a) a λ i. rw (bit-bit_or 0 a i, bit-zero i) refl

-- What meets neither of two sets does not meet the first.
pub meets_none : (a b r : Signals) → meets (bit_or a b) r ≡ false → meets a r ≡ false
meets_none a b r h =
    (meets-false_iff a r).1
      λ i. let both = (meets-false_iff (bit_or a b) r).0 h i in ground (arith, bit-bit_or a b i)

pub without-le : (a b : Signals) → without a b ≤ a
without-le a b = bit_and-le a (complement 16 b)

-- All signals of `b` are in `a`.
abbrev pub Contains : Signals → Signals → Type 0
Contains a b = bit_or a b ≡ a

bit_or_assoc : (a b c : Signals) → bit_or (bit_or a b) c ≡ bit_or a (bit_or b c)
bit_or_assoc a b c = bit_ext (bit_or (bit_or a b) c) (bit_or a (bit_or b c)) λ i.
    rw
      (bit-bit_or (bit_or a b) c i, bit-bit_or a b i, bit-bit_or a (bit_or b c) i, bit-bit_or b c i)
      (or_assoc (bit a i) (bit b i) (bit c i))
  where
    or_assoc : (x y z : Bool) → (x || y || z) ≡ (x || (y || z))
    or_assoc x y z = ground arith

pub Contains-refl : (a : Signals) → Contains a a
Contains-refl a = bit_ext (bit_or a a) a λ i. rw (bit-bit_or a a i) (same (bit a i))
  where
    same : (x : Bool) → (x || x) ≡ x
    same x = ground arith

pub Contains-right : (a b : Signals) → Contains (bit_or a b) b
Contains-right a b = bit_or_assoc a b b ∙ ap (λ z. bit_or a z) (Contains-refl b)

pub Contains-trans : (a b c : Signals) → Contains a b → Contains b c → Contains a c
Contains-trans a b c h k =
    ap (λ z. bit_or z c) (sym h) ∙ bit_or_assoc a b c ∙ ap (λ z. bit_or a z) k ∙ h

pub Contains-left : (a b : Signals) → Contains (bit_or a b) a
Contains-left a b =
    bit_ext (bit_or (bit_or a b) a) (bit_or a b)
      λ i. rw (bit-bit_or (bit_or a b) a i, bit-bit_or a b i) (again (bit a i) (bit b i))
  where
    again : (x y : Bool) → (x || y || x) ≡ (x || y)
    again x y = ground arith

-- Whatever misses a set misses what it contains.
pub meets-Contains : (w r s : Signals) → Contains r s → meets w r ≡ false → meets w s ≡ false
meets-Contains w r s c h = (meets-false_iff w s).1 λ i.
    let apart = (meets-false_iff w r).0 h i in
    let more = sym (bit-bit_or r s i) ∙ ap (λ n. bit n i) c in ground (arith, apart, more)
