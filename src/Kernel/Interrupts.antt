-- ===== src/Kernel/Interrupts.antt =====
-- `disable` and `enable` of platforms/stm32f4-discovery/platform.c nest.
use martos.Common.{◌≡◌, refl, Bool, true, false, arith, ◌∙◌, if◌then◌else◌, ap, sym}
use martos.Common.Int.{ℤ, pos, negsuc, ltb_ℤ, ◌≤ℤ◌, ◌+ℤ◌, ◌-ℤ◌, +ℤ_cancel, +ℤ_parts}
use martos.Memory.{ok}
use martos.Kernel.{Kernel, enable}

-- Interrupts are enabled exactly outside the calls of `disable`.
pub record Masked (irq : Bool) (id_nestcnt : ℤ) : Type 0 where
  pub irq_below : irq ≡ ltb_ℤ id_nestcnt (pos 0)
  pub nested : negsuc 0 ≤ℤ id_nestcnt

-- The counter is back, and so is the mask.
abbrev pub unprotected : Kernel → Kernel → Kernel
unprotected k k1 = record k1 { id_nestcnt = k.id_nestcnt; irq = k.irq }

-- `enable` ends a section that was entered with the counter at `n`.
pub enable_at :
    (n : ℤ) (k : Kernel)
    → negsuc 0 ≤ℤ n
    → k.irq ≡ false
    → k.id_nestcnt ≡ n +ℤ pos 1
    → enable k ≡ ok tt (record k { id_nestcnt = n; irq = ltb_ℤ n (pos 0) })
unfolding enable
enable_at n k low i e = rw (guard, cancel, restored) refl
  where
    guard : ltb_ℤ k.id_nestcnt (negsuc 0) ≡ false
    guard = let up = +ℤ_parts n (pos 1) in rw e (ground arith)

    cancel : k.id_nestcnt -ℤ pos 1 ≡ n
    cancel = ap (λ z. z -ℤ pos 1) e ∙ +ℤ_cancel n (pos 1)

    as_is : (b : Bool) → (if b then true else false) ≡ b
    as_is true = refl
    as_is false = refl

    restored : (if ltb_ℤ n (pos 0) then true else k.irq) ≡ ltb_ℤ n (pos 0)
    restored = rw i (as_is (ltb_ℤ n (pos 0)))

pub enable_protected :
    (k k1 : Kernel)
    → Masked k.irq k.id_nestcnt
    → k1.irq ≡ false
    → k1.id_nestcnt ≡ k.id_nestcnt +ℤ pos 1
    → enable k1 ≡ ok tt (unprotected k k1)
enable_protected k k1 m i e =
    enable_at k.id_nestcnt k1 m.nested i e
    ∙ ap (λ b. ok tt (record k1 { id_nestcnt = k.id_nestcnt; irq = b })) (sym m.irq_below)
