-- ===== src/Signal/Allocate.antt =====
-- `signal_allocate` of src/task.c: which signal it allocates, and what it does to the sets of
-- signals of the running task.
use martos.Common.{
  ℕ, zero, suc, ◌^◌, ◌≤◌, ◌<◌, ◌≡◌, refl, sym, ◌∙◌, ap, ◌⊎◌, inl, inr, true, false, not, ◌&&◌, ◌||◌,
  ◌==◌, arith, bit_or, Bool-cases, ltb,
}
use mathlib.Core.Bool.{false≢true}
use native.Mathlib.Nat.{pow-le-pow_right}
use native.Mathlib.Decide.{dec_le}
use martos.Common.Int.{ℤ, pos, negsuc}
use martos.Common.Bits.{bit, bit-bit_or, bit-pow}
use martos.Kernel.{Task, Signals, without}
use martos.Signal.{shifted, meets, search_free}
use martos.Signal.Sets.{meets-false_iff, bit-without}

two_pow_lt : (n : ℕ) → n < 16 → 2 ^ n < 2 ^ 16
two_pow_lt n h =
    let l : 2 ^ n ≤ 2 ^ 15 =
      pow-le-pow_right {n = 2} (omega arith) {i = n} {j = 15} (omega arith) in
    omega arith

shifted-eq : (n : ℕ) → n < 16 → shifted n ≡ 2 ^ n
shifted-eq n h = let l = two_pow_lt n h in omega arith

pub shifted-positive : (n : ℕ) → n < 16 → ltb 0 (shifted n) ≡ true
shifted-positive n h =
    let l : 2 ^ 0 ≤ 2 ^ n = pow-le-pow_right {n = 2} (omega arith) {i = 0} {j = n} (omega arith) in
    rw (shifted-eq n h) (ground (arith, l))

-- The test of one signal.
pub meets-shifted : (n alloc : ℕ) → n < 16 → meets (shifted n) alloc ≡ bit alloc n
meets-shifted n alloc h = elim (Bool-cases (bit alloc n)) [
  | inl e ↦ elim (Bool-cases (meets (shifted n) alloc)) [
    | inl m ↦ m ∙ sym e
    | inr m ↦
        let both = (meets-false_iff (shifted n) alloc).0 m n in
        absurd (false≢true (sym both ∙ rw (shifted-eq n h, bit-pow n n, e) (ground arith)))
  ]
  | inr e ↦
      (meets-false_iff (shifted n) alloc).1
        (λ i. rw (shifted-eq n h, bit-pow n i) (ground (arith, e, same i)))
      ∙ sym e
]
  where
    same : (i : ℕ) → i ≡ n → bit alloc i ≡ bit alloc n
    same i p = ap (bit alloc) p

-- The highest free signal up to `n`, or that there is none.
abbrev pub Searched : Signals → ℕ → Signals × ℤ → Type 0
Searched alloc n (target, result) =
    ((i : ℕ) × (i ≤ n)
      × (bit alloc i ≡ false)
      × ((j : ℕ) → i < j → j ≤ n → bit alloc j ≡ true)
      × (target ≡ shifted i)
      × (result ≡ pos i))
    ⊎ (((j : ℕ) → j ≤ n → bit alloc j ≡ true) × (target ≡ shifted 0) × (result ≡ negsuc 0))

-- One more signal that is taken.
taken_upto :
    (alloc : Signals) (a n j : ℕ)
    → ((j : ℕ) → a < j → j ≤ n → bit alloc j ≡ true)
    → bit alloc (suc n) ≡ true
    → a < j
    → j ≤ suc n
    → bit alloc j ≡ true
taken_upto alloc a n j h e below l = elim (dec_le j n) [
  | yes p ↦ h j below p
  | no p ↦ let same : j ≡ suc n = omega arith in ap (bit alloc) same ∙ e
]

Searched-suc :
    (alloc : Signals) (n : ℕ) (r : Signals × ℤ)
    → bit alloc (suc n) ≡ true
    → Searched alloc n r
    → Searched alloc (suc n) r
Searched-suc alloc n (target, result) e (inl (i, l, free, above, t, r)) =
    inl (i, omega arith, free, λ j below up. taken_upto alloc i n j above e below up, t, r)
Searched-suc alloc n (target, result) e (inr (all, t, r)) = inr (
  λ j up. elim (dec_le j n) [
    | yes p ↦ all j p
    | no p ↦ let same : j ≡ suc n = omega arith in ap (bit alloc) same ∙ e
  ],
  t,
  r,
)

pub search_free-Searched :
    (alloc : Signals) (n : ℕ) → n < 16 → Searched alloc n (search_free alloc n)
unfolding search_free
search_free-Searched alloc zero h = elim (Bool-cases (meets (shifted 0) alloc)) [
  | inl e ↦ rw e (
      inr (
        λ j up.
            let same : j ≡ 0 = omega arith in
            ap (bit alloc) same ∙ sym (meets-shifted 0 alloc h) ∙ e,
        refl,
        refl,
      ))
  | inr e ↦ rw e (
      inl (
        0,
        omega arith,
        sym (meets-shifted 0 alloc h) ∙ e,
        λ j below up. absurd (omega arith),
        refl,
        refl,
      ))
]
search_free-Searched alloc (suc n) h = elim (Bool-cases (meets (shifted (suc n)) alloc)) [
  | inl e ↦ rw e (
      Searched-suc alloc n (search_free alloc n) (sym (meets-shifted (suc n) alloc h) ∙ e)
        (search_free-Searched alloc n (omega arith)))
  | inr e ↦ rw e (
      inl (
        suc n,
        omega arith,
        sym (meets-shifted (suc n) alloc h) ∙ e,
        λ j below up. absurd (omega arith),
        refl,
        refl,
      ))
]

-- What the code does to the running task for a `target`.
abbrev pub marked : Signals → Task → Task
marked target t = record t {
  sig_alloc = bit_or t.sig_alloc target;
  sig_wait = without t.sig_wait target;
  sig_recvd = without t.sig_recvd target;
}

-- Signal `n` is allocated after the call, and is neither waited for nor received. The other
-- signals are as they were.
pub record Marks (n : ℕ) (t t' : Task) : Type 0 where
  pub alloc : (i : ℕ) → bit t'.sig_alloc i ≡ (bit t.sig_alloc i || (i == n))
  pub wait : (i : ℕ) → bit t'.sig_wait i ≡ (bit t.sig_wait i && not (i == n))
  pub recvd : (i : ℕ) → bit t'.sig_recvd i ≡ (bit t.sig_recvd i && not (i == n))
  pub state : t'.state ≡ t.state
  pub context : t'.context ≡ t.context
  pub nestcnt : t'.id_nestcnt ≡ t.id_nestcnt

-- The sets of signals of a task are words of 16 digits.
pub record IsWords (t : Task) : Type 0 where
  pub alloc : t.sig_alloc < 2 ^ 16
  pub wait : t.sig_wait < 2 ^ 16
  pub recvd : t.sig_recvd < 2 ^ 16

pub marked-Marks : (n : ℕ) (t : Task) → n < 16 → IsWords t → Marks n t (marked (shifted n) t)
marked-Marks n t h w = rw (shifted-eq n h) (record {
  alloc = λ i. bit-bit_or t.sig_alloc (2 ^ n) i ∙ ap (λ b. bit t.sig_alloc i || b) (bit-pow n i);
  wait = λ i.
      bit-without t.sig_wait (2 ^ n) i w.wait (two_pow_lt n h)
      ∙ ap (λ b. bit t.sig_wait i && not b) (bit-pow n i);
  recvd = λ i.
      bit-without t.sig_recvd (2 ^ n) i w.recvd (two_pow_lt n h)
      ∙ ap (λ b. bit t.sig_recvd i && not b) (bit-pow n i);
  state = refl;
  context = refl;
  nestcnt = refl;
})
