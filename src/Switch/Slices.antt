-- ===== src/Switch/Slices.antt =====
-- The time slice of a task: SysTick_Handler of platforms/stm32f4-discovery/platform.c counts it down.
use martos.Common.{
  ℕ, zero, suc, ◌+◌, ◌-◌, ◌%◌, ◌^◌, ◌<◌, ◌≡◌, refl, sym, ◌∙◌, ap, ==-eq_false, subst, true, arith,
}
use martos.Memory.{Cmd, ok, ◌>>◌, pure}
use martos.Kernel.{Kernel}
use martos.Switch.{systick_handler}

-- So many calls of the handler, one after another.
unfoldable pub ticks : ℕ → Cmd Kernel (Unit {0})
ticks zero = pure tt
ticks (suc n) = do systick_handler; ticks n

abbrev pub counting : ℕ → Kernel → Kernel
counting n k = record k { elapsed = n }

abbrev pub expired : Kernel → Kernel
expired k = record k { elapsed = 0; pendsv = true }

tick_last : (k : Kernel) → k.elapsed ≡ 1 → systick_handler k ≡ ok tt (expired k)
unfolding systick_handler
tick_last k e = let left : (k.elapsed + 2 ^ 32 - 1) % 2 ^ 32 ≡ 0 = omega arith in rw left refl

tick_down :
    (n : ℕ) (k : Kernel)
    → k.elapsed ≡ suc (suc n)
    → k.elapsed < 2 ^ 32
    → systick_handler k ≡ ok tt (counting (suc n) k)
unfolding systick_handler
tick_down n k e small =
    let left : (k.elapsed + 2 ^ 32 - 1) % 2 ^ 32 ≡ suc n = omega arith in
    rw (left, ==-eq_false (suc n) 0 (λ z. omega arith)) refl

-- While a slice is left, its ticks count it down.
ticks_counting :
    (n left : ℕ) (k : Kernel)
    → k.elapsed ≡ n + suc left
    → k.elapsed < 2 ^ 32
    → ticks n k ≡ ok tt (counting (suc left) k)
unfolding ticks
ticks_counting zero left k e small = ap (λ m. ok tt (counting m k)) (e ∙ omega arith)
ticks_counting (suc n) left k e small =
    rw (tick_down (n + left) k (e ∙ omega arith) small)
      (ticks_counting n left (counting (suc (n + left)) k) (omega arith) (omega arith))

ticks_expired :
    (n : ℕ) (k : Kernel)
    → k.elapsed ≡ suc n
    → k.elapsed < 2 ^ 32
    → ticks (suc n) k ≡ ok tt (expired k)
unfolding ticks
ticks_expired zero k e small = rw (tick_last k e) refl
ticks_expired (suc n) k e small =
    rw (tick_down n k e small) (ticks_expired n (counting (suc n) k) refl (omega arith))

-- A time slice is exact. With `elapsed` above zero, fewer calls of `SysTick_Handler` than that count
-- it down and change nothing else, and as many of them make a switch pending.
pub ticks-slice :
    (k : Kernel) (n : ℕ)
    → 0 < k.elapsed
    → k.elapsed < 2 ^ 32
    → n < k.elapsed
    → (ticks n k ≡ ok tt (counting (k.elapsed - n) k)) × (ticks k.elapsed k ≡ ok tt (expired k))
ticks-slice k n some small below =
    let left : suc (k.elapsed - n - 1) ≡ k.elapsed - n = omega arith in
    let all : suc (k.elapsed - 1) ≡ k.elapsed = omega arith in
    (
      ticks_counting n (k.elapsed - n - 1) k (omega arith) small
          ∙ ap (λ m. ok tt (counting m k)) left,
      subst (λ m. ticks m k ≡ ok tt (expired k)) all
          (ticks_expired (k.elapsed - 1) k (sym all) small),
    )
