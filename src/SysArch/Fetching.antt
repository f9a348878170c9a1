-- ===== src/SysArch/Fetching.antt =====
-- sys_arch_mbox_tryfetch of lwip_martos/sys_arch.c: the payload that came first.
use martos.Common.{
  ℕ, ◌≡◌, refl, sym, ap, subst, ◌≢◌, inl, inr, true, ◌==◌, if◌then◌else◌, List, [], ◌∷◌, Option,
  none, some, NotIn, All, All_mono, All_zip, ==-eq_false,
}
use mathlib.Core.List.{map}
use martos.Memory.{Ptr, null, Returns, Returns-bind, pure, Cmd, ◌>>=◌}
use martos.Kernel.{Kernel, MsgPort}
use martos.Kernel.Queues.{queue_nodes}
use martos.MsgPort.{msgport_get}
use martos.MsgPort.Mailbox.{Got, msgport_get-Got}
use martos.Sched.{Inv}
use martos.Sched.Beside.{Beside}
use martos.SysArch.{Lwip, Layer, on_kernel, open_message, free, sys_arch_mbox_tryfetch}
use martos.SysArch.Heap.{HeapLaws, Lifted, Returns-on_kernel}
use martos.SysArch.Mailbox.{Holds, Holds-of, IsUsed}

apart_from : (x : Ptr) (ys : List Ptr) → NotIn x ys → All (λ y. y ≢ x) ys
apart_from x ys = All_mono (λ y. x ≢ y) (λ y. y ≢ x) ys λ y ne e. ne (sym e)

module _ {H : Type 0} (lwip : Lwip H) (FreeAt : H → Ptr → Type 0) (room : H → ℕ)
    (laws : HeapLaws lwip FreeAt room) (mbox : Ptr) (valid : mbox ≢ null) (rs ws : List Ptr) where
  abbrev pub HoldsHere : Layer H → List Ptr → List Ptr → Type 0
  HoldsHere = Holds lwip FreeAt room laws mbox valid rs ws

  abbrev IsUsedHere : H → Ptr → Type 0
  IsUsedHere = IsUsed lwip FreeAt room laws mbox valid rs ws

  -- A block that is freed leaves the other addresses in use.
  freed_used :
      (h : H) (x : Ptr) (ys : List Ptr)
      → All (λ y. y ≢ x) ys
      → All (IsUsedHere h) ys
      → All (IsUsedHere (lwip.mem_free x h)) ys
  freed_used h x ys =
      All_zip (λ y. y ≢ x) (IsUsedHere h) (IsUsedHere (lwip.mem_free x h)) ys
        λ y ne u f. elim (laws.free_back x h y f) [ inl g ↦ u g | inr e ↦ ne e ]

  module _ (s : Layer H) where
    -- The first payload is returned and leaves the mailbox, or there is none.
    abbrev pub Fetched : List Ptr → ℕ × Option Ptr → Layer H → Type 0
    Fetched [] r s' = (r ≡ (lwip.mbox_empty, none)) × HoldsHere s' [] []
    Fetched (x ∷ xs) r s' = (r ≡ (0, some (s.payloads x))) × HoldsHere s' xs (map s.payloads xs)

    -- What follows the call of `msgport_get`.
    abbrev opened : Ptr → Cmd (Layer H) (ℕ × Option Ptr)
    opened m =
        if m == null
        then pure (lwip.mbox_empty, none)
        else (open_message lwip m true >>= λ payload. pure (0, payload))

    opened-Fetched :
        (xs ms : List Ptr)
        → HoldsHere s xs ms
        → (m : Ptr) (s1 : Layer H) → Lifted (Got mbox s.kernel rs ws xs) s m s1
        → Returns (Fetched xs) (opened m s1)
    unfolding open_message free
    opened-Fetched [] ms holds m s1 ((e, same), library, payloads) = rw e (
      refl,
      Holds-of lwip FreeAt room laws mbox valid rs ws s1 [] [] (s.kernel.ports mbox) s.library
          s.payloads (ap (λ (k : Kernel). k.ports mbox) same) library payloads
          (subst (λ k. Inv k rs ws) (sym same) holds.inv)
          (subst (λ (k : Kernel). Beside k.mem rs ws (s.kernel.ports mbox).message_list [])
            (sym same) holds.beside)
          holds.quiet refl holds.used_nodes holds.used_tasks,
    )
    opened-Fetched (x ∷ xs) ms holds m s1 ((e, inv, b, _, ports, _), library, payloads) =
        let l = holds.beside.holds in
        rw (e, ==-eq_false x null l.valid.1.1.0)
          (
            ap (λ (f : Ptr → Ptr). (0, some (f x))) payloads,
            Holds-of lwip FreeAt room laws mbox valid rs ws
                (record s1 { library = lwip.mem_free x s1.library }) xs (map s.payloads xs)
                (s.kernel.ports mbox) (lwip.mem_free x s.library) s.payloads
                (ap (λ (f : Ptr → MsgPort). f mbox) ports) (ap (lwip.mem_free x) library) payloads
                inv b holds.quiet refl
                (freed_used s.library x
                  ((s.kernel.ports mbox).message_list.head
                    ∷ (s.kernel.ports mbox).message_list.tail
                    ∷ xs)
                  (l.distinct.0.1.0, (l.distinct.1.0.0, apart_from x xs l.distinct.1.1.0))
                  (holds.used_nodes.0, (holds.used_nodes.1.0, holds.used_nodes.1.1.1)))
                (freed_used s.library x (queue_nodes rs ws)
                  (apart_from x (queue_nodes rs ws) holds.beside.apart.1.1.0) holds.used_tasks),
          )

    pub sys_arch_mbox_tryfetch-Fetched :
        (xs ms : List Ptr)
        → HoldsHere s xs ms
        → Returns (Fetched xs) (sys_arch_mbox_tryfetch lwip mbox true s)
    unfolding sys_arch_mbox_tryfetch
    sys_arch_mbox_tryfetch-Fetched xs ms holds =
        Returns-bind (Lifted (Got mbox s.kernel rs ws xs) s) (Fetched xs)
          (on_kernel (msgport_get mbox) s) opened
          (Returns-on_kernel (Got mbox s.kernel rs ws xs) s (msgport_get mbox)
            (msgport_get-Got mbox s.kernel rs ws xs valid holds.inv holds.beside))
          (opened-Fetched xs ms holds)
