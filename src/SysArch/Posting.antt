-- ===== src/SysArch/Posting.antt =====
-- sys_mbox_post of lwip_martos/sys_arch.c, with and without memory for the message.
use native.Mathlib.Decide.{ℕ_discrete}
use martos.Common.{
  ℕ, ◌≡◌, ◌≢◌, ◌⊎◌, inl, inr, refl, subst, true, List, [], ◌∷◌, ◌++◌, NotIn, All, All_mono,
  ==-eq_false, update,
}
use martos.Memory.{Ptr, null, err, Run, null_pointer, Returns}
use martos.Kernel.Queues.{queue_nodes}
use martos.MsgPort.{msgport_send, known_action}
use martos.MsgPort.Posting.{Posted, msgport_send-Posted}
use martos.Sched.{Inv}
use martos.Sched.Beside.{Beside}
use martos.SysArch.{Lwip, Layer, message_size, sys_mbox_post, malloc, set_payload}
use martos.SysArch.Heap.{HeapLaws, Returns-on_kernel}

module _ {H : Type 0} (lwip : Lwip H) (FreeAt : H → Ptr → Type 0) (room : H → ℕ)
    (laws : HeapLaws lwip FreeAt room) (mbox msg : Ptr) (s : Layer H) (rs ws xs : List Ptr) where
  -- The block that the heap gives, or `NULL`.
  abbrev pub block : Ptr
  block = (lwip.mem_malloc message_size s.library).0

  -- The kernel, the library and the payloads once the message has been written.
  abbrev pub Delivered : Layer H → Type 0
  Delivered s' =
      Posted mbox s.kernel rs ws (xs ++ block ∷ []) s'.kernel
      × (s'.library ≡ (lwip.mem_malloc message_size s.library).1)
      × (s'.payloads ≡ update s.payloads block msg)

  abbrev pub Outcome : Run (Layer H) (Unit {0}) → Type 0
  Outcome r =
      ((block ≡ null) × (r ≡ err null_pointer))
      ⊎ ((block ≢ null) × Returns (λ _ s'. Delivered s') r)

  -- `sys_mbox_post` to a mailbox whose action is known comes to a write through `NULL` if the heap
  -- has no memory for the message, since the call does not test for that. If it has, the call ends
  -- well: the message is behind the others, with the payload in it, and what `msgport_send` does
  -- for a waiting task is done.
  pub sys_mbox_post-Outcome :
      mbox ≢ null
      → Inv s.kernel rs ws
      → Beside s.kernel.mem rs ws (s.kernel.ports mbox).message_list xs
      → known_action (s.kernel.ports mbox).action ≡ true
      → All
          (λ p. ¬ (FreeAt s.library p))
          ((s.kernel.ports mbox).message_list.head ∷ (s.kernel.ports mbox).message_list.tail ∷ xs)
      → All (λ p. ¬ (FreeAt s.library p)) (queue_nodes rs ws)
      → Outcome (sys_mbox_post lwip mbox msg s)
  unfolding sys_mbox_post malloc set_payload
  sys_mbox_post-Outcome valid inv b known nodes tasks = elim (ℕ_discrete block null) [
    | yes e ↦ inl (e, rw e refl)
    | no real ↦ rw (==-eq_false block null real) (
        inr (
          real,
          Returns-on_kernel (λ _ k'. Posted mbox s.kernel rs ws (xs ++ block ∷ []) k')
              (record s {
                library = (lwip.mem_malloc message_size s.library).1;
                payloads = update s.payloads block msg;
              })
              (msgport_send mbox block)
              (msgport_send-Posted mbox s.kernel rs ws block xs valid inv b known real
                (fresh real
                  ((s.kernel.ports mbox).message_list.head
                    ∷ (s.kernel.ports mbox).message_list.tail
                    ∷ xs)
                  nodes)
                (fresh real (queue_nodes rs ws) tasks)),
        ))
  ]
    where
      fresh : block ≢ null → (ys : List Ptr) → All (λ p. ¬ (FreeAt s.library p)) ys → NotIn block ys
      fresh real ys =
          All_mono (λ p. ¬ (FreeAt s.library p)) (λ p. block ≢ p) ys
            λ p u e. elim (laws.malloc_free message_size s.library) [
              | inl z ↦ real z
              | inr f ↦ u (subst (FreeAt s.library) e f)
            ]
