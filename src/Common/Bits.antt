-- ===== src/Common/Bits.antt =====
-- The binary digits of a word. `bit n i` is digit `i`, and `&`, `|` and the complement of a word of
-- `w` digits are given by what they do to each digit.
use Prim.Native.Nat.{
  ℕ, zero, suc, ◌+◌, ◌-◌, ◌*◌, ◌/◌, ◌%◌, ◌^◌, ◌≤◌, ◌<◌, min, max, bit_and, bit_or, digits,
  bit_and-bitwise, bit_or-bitwise,
}
use mathlib.Core.Path.{◌≡◌, refl, sym, ◌∙◌, ap}
use mathlib.Core.Bool.{Bool, false, not, ◌&&◌, ◌||◌}
use native.Mathlib.Omega.{arith}
use native.Mathlib.Nat.{pow-suc}
use martos.Common.Tests.{◌==◌, ltb}

pub bit : ℕ → ℕ → Bool
bit n zero = n % 2 == 1
bit n (suc i) = bit (n / 2) i

pub bit-zero : (i : ℕ) → bit 0 i ≡ false
unfolding bit
bit-zero zero = refl
bit-zero (suc i) = bit-zero i

-- One more digit in front of the digits of `d`.
bit-digit : (d r i : ℕ) → r < 2 → bit (d * 2 + r) (suc i) ≡ bit d i
unfolding bit
bit-digit d r i h = ap (λ n. bit n i) (omega arith)

and_digit : (d x y : ℕ) → x < 2 → y < 2 → bit (d * 2 + min x y) 0 ≡ ((x == 1) && (y == 1))
unfolding bit
and_digit d x y hx hy = ground arith

or_digit : (d x y : ℕ) → x < 2 → y < 2 → bit (d * 2 + max x y) 0 ≡ ((x == 1) || (y == 1))
unfolding bit
or_digit d x y hx hy = ground arith

bit_lowest : (n : ℕ) → bit n 0 ≡ (n % 2 == 1)
unfolding bit
bit_lowest n = refl

bit-suc : (n i : ℕ) → bit n (suc i) ≡ bit (n / 2) i
unfolding bit
bit-suc n i = refl

bit-and_digits : (n a b i : ℕ) → a ≤ n → bit (digits (λ _. 0) min n a b) i ≡ (bit a i && bit b i)
bit-and_digits zero zero b i h = ground (arith, bit-zero i)
bit-and_digits zero (suc a) b i h = absurd (omega arith)
bit-and_digits (suc n) zero b i h = ground (arith, bit-zero i)
bit-and_digits (suc n) (suc a) b zero h = ground (
  arith,
  and_digit (digits (λ _. 0) min n (suc a / 2) (b / 2)) (suc a % 2) (b % 2),
  bit_lowest (suc a),
  bit_lowest b,
)
bit-and_digits (suc n) (suc a) b (suc i) h = ground (
  arith,
  bit-digit (digits (λ _. 0) min n (suc a / 2) (b / 2)) (min (suc a % 2) (b % 2)) i,
  bit-suc (suc a) i,
  bit-suc b i,
  bit-and_digits n (suc a / 2) (b / 2) i,
)

bit-or_digits : (n a b i : ℕ) → a ≤ n → bit (digits (λ y. y) max n a b) i ≡ (bit a i || bit b i)
bit-or_digits zero zero b i h = ground (arith, bit-zero i)
bit-or_digits zero (suc a) b i h = absurd (omega arith)
bit-or_digits (suc n) zero b i h = ground (arith, bit-zero i)
bit-or_digits (suc n) (suc a) b zero h = ground (
  arith,
  or_digit (digits (λ y. y) max n (suc a / 2) (b / 2)) (suc a % 2) (b % 2),
  bit_lowest (suc a),
  bit_lowest b,
)
bit-or_digits (suc n) (suc a) b (suc i) h = ground (
  arith,
  bit-digit (digits (λ y. y) max n (suc a / 2) (b / 2)) (max (suc a % 2) (b % 2)) i,
  bit-suc (suc a) i,
  bit-suc b i,
  bit-or_digits n (suc a / 2) (b / 2) i,
)

pub bit-bit_and : (a b i : ℕ) → bit (bit_and a b) i ≡ (bit a i && bit b i)
bit-bit_and a b i = rw (bit_and-bitwise a b) (bit-and_digits a a b i (omega arith))

pub bit-bit_or : (a b i : ℕ) → bit (bit_or a b) i ≡ (bit a i || bit b i)
bit-bit_or a b i = rw (bit_or-bitwise a b) (bit-or_digits a a b i (omega arith))

-- `1 << k`
pub bit-pow : (k i : ℕ) → bit (2 ^ k) i ≡ (i == k)
unfolding bit
bit-pow zero zero = refl
bit-pow zero (suc i) = bit-zero i ∙ ground arith
bit-pow (suc k) zero = ground (arith, pow-suc 2 k)
bit-pow (suc k) (suc i) =
    ap (λ n. bit n i) (omega (arith, pow-suc 2 k)) ∙ bit-pow k i ∙ ground arith

-- `~n` in a word of `w` digits
abbrev pub complement : ℕ → ℕ → ℕ
complement w n = 2 ^ w - 1 - n

pub bit-complement : (w n i : ℕ) → n < 2 ^ w → bit (complement w n) i ≡ (ltb i w && not (bit n i))
unfolding bit
bit-complement zero n i h = ap (λ m. bit m i) (omega arith) ∙ bit-zero i ∙ ground arith
bit-complement (suc w) n zero h = ground (arith, pow-suc 2 w)
bit-complement (suc w) n (suc i) h =
    ap (λ m. bit m i) (omega (arith, pow-suc 2 w))
    ∙ bit-complement w (n / 2) i (omega (arith, pow-suc 2 w))
    ∙ ground arith

-- Numbers with the same digits are equal.
ext_fuel : (k a b : ℕ) → a ≤ k → b ≤ k → ((i : ℕ) → bit a i ≡ bit b i) → a ≡ b
ext_fuel zero a b ha hb h = omega arith
ext_fuel (suc k) a b ha hb h =
    let half =
      ext_fuel k (a / 2) (b / 2) (omega arith) (omega arith)
        (λ i. sym (bit-suc a i) ∙ h (suc i) ∙ bit-suc b i) in
    ground (arith, h 0, bit_lowest a, bit_lowest b, half)

pub bit_ext : (a b : ℕ) → ((i : ℕ) → bit a i ≡ bit b i) → a ≡ b
bit_ext a b h = ext_fuel (a + b) a b (omega arith) (omega arith) h

-- A number with no digit set is zero.
pub eq_zero_of_bits : (a : ℕ) → ((i : ℕ) → bit a i ≡ false) → a ≡ 0
eq_zero_of_bits a h = bit_ext a 0 (λ i. h i ∙ sym (bit-zero i))

-- A word of `w` digits has no digit from `w` on.
pub bit_above : (w a i : ℕ) → a < 2 ^ w → w ≤ i → bit a i ≡ false
bit_above zero a i h l = ap (λ n. bit n i) (omega arith) ∙ bit-zero i
bit_above (suc w) a zero h l = absurd (omega arith)
bit_above (suc w) a (suc i) h l =
    bit-suc a i ∙ bit_above w (a / 2) i (omega (arith, pow-suc 2 w)) (omega arith)

and_digits-le : (n a b : ℕ) → a ≤ n → digits (λ _. 0) min n a b ≤ a
and_digits-le zero a b h = omega arith
and_digits-le (suc n) zero b h = omega arith
and_digits-le (suc n) (suc a) b h = omega (arith, and_digits-le n (suc a / 2) (b / 2) (omega arith))

pub bit_and-le : (a b : ℕ) → bit_and a b ≤ a
bit_and-le a b = rw (bit_and-bitwise a b) (and_digits-le a a b (omega arith))
