-- ===== src/SysArch/Mailbox.antt =====
-- The mailboxes of lwip_martos/sys_arch.c for which no task waits: a queue of payloads.
use martos.Common.{
  ℕ, ◌≤◌, ◌+◌, ◌≡◌, refl, sym, ◌∙◌, ap, subst, ◌≢◌, inl, inr, true, false, List, [], ◌∷◌, ◌++◌,
  NotIn, All, All_mono, All-append, ==-eq_false, update, update_self, arith,
}
use mathlib.Core.Bool.{false≢true}
use mathlib.Core.List.{map, map-append}
use martos.Memory.{Ptr, null, Returns, Returns-mono}
use martos.Kernel.{MsgPort, msgport_ignore}
use martos.Kernel.Queues.{queue_nodes}
use martos.MsgPort.{msgport_send, known_action, has_task}
use martos.MsgPort.Posting.{Posted, msgport_send-Posted}
use martos.Sched.{Inv}
use martos.Sched.Beside.{Beside}
use martos.SysArch.{Lwip, Layer, on_kernel, message_size, sys_mbox_post, malloc, set_payload}
use martos.SysArch.Heap.{HeapLaws, Lifted, Returns-on_kernel, map-update}

module _ {H : Type 0} (lwip : Lwip H) (FreeAt : H → Ptr → Type 0) (room : H → ℕ)
    (laws : HeapLaws lwip FreeAt room) (mbox : Ptr) (valid : mbox ≢ null) (rs ws : List Ptr) where
  -- An address that is in use.
  abbrev pub IsUsed : H → Ptr → Type 0
  IsUsed h p = ¬ (FreeAt h p)

  -- The mailbox holds the payloads `ms`, in the messages `xs`, and no task waits for them.
  pub record Holds (s : Layer H) (xs ms : List Ptr) : Type 0 where
    pub inv : Inv s.kernel rs ws
    pub beside : Beside s.kernel.mem rs ws (s.kernel.ports mbox).message_list xs
    pub quiet : (s.kernel.ports mbox).action ≡ msgport_ignore
    pub contents : map s.payloads xs ≡ ms
    pub used_nodes :
        All
          (IsUsed s.library)
          ((s.kernel.ports mbox).message_list.head ∷ (s.kernel.ports mbox).message_list.tail ∷ xs)
    pub used_tasks : All (IsUsed s.library) (queue_nodes rs ws)

  pub used-NotIn : (h : H) (p : Ptr) (xs : List Ptr) → FreeAt h p → All (IsUsed h) xs → NotIn p xs
  used-NotIn h p xs f = All_mono (IsUsed h) (λ x. p ≢ x) xs λ x u e. u (subst (FreeAt h) e f)

  -- The same of a mailbox, a library's state and payloads that are known by an equation.
  pub Holds-of :
      (s : Layer H) (xs ms : List Ptr) (q : MsgPort) (h : H) (f : Ptr → Ptr)
      → s.kernel.ports mbox ≡ q
      → s.library ≡ h
      → s.payloads ≡ f
      → Inv s.kernel rs ws
      → Beside s.kernel.mem rs ws q.message_list xs
      → q.action ≡ msgport_ignore
      → map f xs ≡ ms
      → All (IsUsed h) (q.message_list.head ∷ q.message_list.tail ∷ xs)
      → All (IsUsed h) (queue_nodes rs ws)
      → Holds s xs ms
  Holds-of s xs ms q h f e eh ef inv b a c nodes tasks = record {
    inv = inv;
    beside = subst (λ (r : MsgPort). Beside s.kernel.mem rs ws r.message_list xs) (sym e) b;
    quiet = ap (λ (r : MsgPort). r.action) e ∙ a;
    contents = subst (λ g. map g xs ≡ ms) (sym ef) c;
    used_nodes =
        subst
          (λ (r : MsgPort). All (IsUsed s.library) (r.message_list.head ∷ r.message_list.tail ∷ xs))
          (sym e)
          (subst (λ g. All (IsUsed g) (q.message_list.head ∷ q.message_list.tail ∷ xs)) (sym eh)
            nodes);
    used_tasks = subst (λ g. All (IsUsed g) (queue_nodes rs ws)) (sym eh) tasks;
  }

  quiet-has_task : (q : MsgPort) → q.action ≡ msgport_ignore → has_task q ≡ false
  quiet-has_task q e = ground arith

  -- What is in use stays in use, and a new block is.
  taken-IsUsed :
      (h : H) (size : ℕ) (xs : List Ptr)
      → All (IsUsed h) xs
      → All (IsUsed (lwip.mem_malloc size h).1) xs
  taken-IsUsed h size xs =
      All_mono (IsUsed h) (IsUsed (lwip.mem_malloc size h).1) xs
        λ x u f. u (laws.malloc_taken size h x f).0

  module _ (s : Layer H) (xs ms : List Ptr) (holds : Holds s xs ms) where
    pub post-Holds :
        (msg : Ptr)
        → 1 ≤ room s.library
        → Returns
            (λ _ s'.
              (p : Ptr) × Holds s' (xs ++ p ∷ []) (ms ++ msg ∷ [])
              × (room s.library ≤ 1 + room s'.library))
            (sys_mbox_post lwip mbox msg s)
    unfolding sys_mbox_post malloc set_payload
    post-Holds msg enough = rw (==-eq_false p null real) (
        Returns-mono (Lifted (λ _ k'. Posted mbox s.kernel rs ws (xs ++ p ∷ []) k') s1) _
          (on_kernel (msgport_send mbox p) s1)
          (Returns-on_kernel (λ _ k'. Posted mbox s.kernel rs ws (xs ++ p ∷ []) k') s1
            (msgport_send mbox p)
            (msgport_send-Posted mbox s.kernel rs ws p xs valid holds.inv holds.beside known real
              (used-NotIn s.library p
                ((s.kernel.ports mbox).message_list.head
                  ∷ (s.kernel.ports mbox).message_list.tail
                  ∷ xs)
                fresh holds.used_nodes)
              (used-NotIn s.library p (queue_nodes rs ws) fresh holds.used_tasks)))
          λ _ s' done. (
            p,
            after s' done,
            subst (λ h. room s.library ≤ 1 + room h) (sym done.1)
                (laws.malloc_room s.library enough).1,
          ))
      where
        p : Ptr
        p = (lwip.mem_malloc message_size s.library).0

        s1 : Layer H
        s1 = record s {
          library = (lwip.mem_malloc message_size s.library).1;
          payloads = update s.payloads p msg;
        }

        real : p ≢ null
        real = (laws.malloc_room s.library enough).0

        fresh : FreeAt s.library p
        fresh = elim (laws.malloc_free message_size s.library) [
          | inl e ↦ absurd (real e)
          | inr f ↦ f
        ]

        known : known_action (s.kernel.ports mbox).action ≡ true
        known = ap known_action holds.quiet

        after :
            (s' : Layer H)
            → Lifted (λ _ k'. Posted mbox s.kernel rs ws (xs ++ p ∷ []) k') s1 tt s'
            → Holds s' (xs ++ p ∷ []) (ms ++ msg ∷ [])
        after s' ((running, ports, how), library, payloads) = elim how [
          | inl (h, _) ↦
              absurd (false≢true (sym (quiet-has_task (s.kernel.ports mbox) holds.quiet) ∙ h))
          | inr (_, inv', b, _) ↦
              Holds-of s' (xs ++ p ∷ []) (ms ++ msg ∷ []) (s.kernel.ports mbox) s1.library
                s1.payloads (ap (λ (f : Ptr → MsgPort). f mbox) ports) library payloads inv' b
                holds.quiet filled
                (
                  holds_used.0,
                  (
                    holds_used.1.0,
                    All-append (IsUsed s1.library) xs (p ∷ []) holds_used.1.1 (taken, tt),
                  ),
                )
                (taken-IsUsed s.library message_size (queue_nodes rs ws) holds.used_tasks)
        ]
          where
            holds_used : All (IsUsed s1.library) (
                (s.kernel.ports mbox).message_list.head
                ∷ (s.kernel.ports mbox).message_list.tail
                ∷ xs)
            holds_used =
                taken-IsUsed s.library message_size
                  ((s.kernel.ports mbox).message_list.head
                    ∷ (s.kernel.ports mbox).message_list.tail
                    ∷ xs)
                  holds.used_nodes

            taken : IsUsed s1.library p
            taken f = (laws.malloc_taken message_size s.library p f).1 refl

            filled : map s1.payloads (xs ++ p ∷ []) ≡ ms ++ msg ∷ []
            filled =
                map-append s1.payloads xs (p ∷ [])
                ∙ (ap (λ ys. ys ++ s1.payloads p ∷ [])
                      (map-update s.payloads p msg xs
                          (used-NotIn s.library p xs fresh holds.used_nodes.1.1)
                        ∙ holds.contents)
                    ∙ ap (λ y. ms ++ y ∷ []) (update_self s.payloads msg p))
