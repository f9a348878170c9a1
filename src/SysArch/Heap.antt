-- ===== src/SysArch/Heap.antt =====
-- What lwip_martos/sys_arch.c relies on in the heap of the lwIP library, and its calls of the
-- kernel.
use martos.Common.{
  ℕ, suc, ◌+◌, ◌≤◌, ◌≡◌, refl, ◌∙◌, sym, ap, ◌≢◌, ◌⊎◌, List, [], ◌∷◌, NotIn, length, update,
  update_other,
}
use mathlib.Core.List.{map}
use martos.Memory.{Cmd, Run, Ptr, null, ok, err, Returns}
use martos.Kernel.{Kernel}
use martos.SysArch.{Lwip, Layer, on_kernel, lift_kernel, message_size}

-- The documented behaviour of the heap. `FreeAt h p` says that `p` is in free memory of the heap,
-- and `room` is a number of messages for which there is memory. A block comes out of free memory,
-- which is then in use until the block is freed.
pub record HeapLaws {H : Type 0} (lwip : Lwip H) (FreeAt : H → Ptr → Type 0) (room : H → ℕ)
    : Type 0 where
  pub malloc_free :
      (size : ℕ) (h : H) → ((lwip.mem_malloc size h).0 ≡ null) ⊎ FreeAt h (lwip.mem_malloc size h).0
  pub malloc_taken :
      (size : ℕ) (h : H) (p : Ptr)
      → FreeAt (lwip.mem_malloc size h).1 p
      → FreeAt h p × (p ≢ (lwip.mem_malloc size h).0)
  pub malloc_room :
      (h : H)
      → 1 ≤ room h
      → ((lwip.mem_malloc message_size h).0 ≢ null)
        × (room h ≤ 1 + room (lwip.mem_malloc message_size h).1)
  pub free_back : (p : Ptr) (h : H) (q : Ptr) → FreeAt (lwip.mem_free p h) q → FreeAt h q ⊎ (q ≡ p)
  pub inc_used_free : (h : H) (p : Ptr) → FreeAt (lwip.inc_used h) p → FreeAt h p
  pub inc_used_room : (h : H) → room h ≤ room (lwip.inc_used h)

module _ {H A : Type 0} (P : A → Kernel → Type 0) (s : Layer H) where
  -- The property of a call of the kernel, which leaves the library's state and the payloads.
  abbrev pub Lifted : A → Layer H → Type 0
  Lifted a s' = P a s'.kernel × (s'.library ≡ s.library) × (s'.payloads ≡ s.payloads)

  Returns-lift_kernel : (r : Run Kernel A) → Returns P r → Returns Lifted (lift_kernel r s)
  Returns-lift_kernel (ok a k) p = (p, refl, refl)
  Returns-lift_kernel (err f) p = p

  pub Returns-on_kernel :
      (c : Cmd Kernel A) → Returns P (c s.kernel) → Returns Lifted (on_kernel c s)
  Returns-on_kernel c h = Returns-lift_kernel (c s.kernel) h

-- A payload that is written at another address.
pub map-update :
    (f : Ptr → Ptr) (p v : Ptr) (xs : List Ptr) → NotIn p xs → map (update f p v) xs ≡ map f xs
map-update f p v [] n = refl
map-update f p v (x ∷ xs) n =
    ap (λ y. y ∷ map (update f p v) xs) (update_other f v p x λ e. n.0 (sym e))
    ∙ ap (λ ys. f x ∷ ys) (map-update f p v xs n.1)

pub length-map : (f : Ptr → Ptr) (xs : List Ptr) → length (map f xs) ≡ length xs
length-map f [] = refl
length-map f (x ∷ xs) = ap suc (length-map f xs)
