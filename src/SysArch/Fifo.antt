-- ===== src/SysArch/Fifo.antt =====
-- The life of a mailbox of lwip_martos/sys_arch.c: it is made, payloads are posted, and they are
-- fetched.
use martos.Common.{
  ℕ, zero, suc, ◌+◌, ◌≤◌, ◌≡◌, refl, sym, ◌∙◌, ap, subst, ◌≢◌, true, List, [], ◌∷◌, ◌++◌, Option,
  none, some, Apart, Apart-symm, All, All_mono, ==-eq_false, update, update_self, length, arith,
}
use mathlib.Core.List.{map, append_assoc, append-nil}
use martos.Memory.{Memory, Cmd, Ptr, null, Returns, Returns-bind, ◌>>=◌, ◌>>◌, pure}
use martos.NodeList.Refinement.{Becomes, initialised, initialised-Becomes, list_init-eq}
use martos.Kernel.{MsgPort, msgport_ignore}
use martos.NodeList.{NodeList}
use martos.Kernel.Queues.{queue_nodes}
use martos.Kernel.Moves.{Queues-outside}
use martos.Sched.{Inv}
use martos.Sched.Beside.{Sched-memory}
use martos.SysArch.{Lwip, Layer, sys_mbox_new, sys_mbox_post, sys_arch_mbox_tryfetch}
use martos.SysArch.Heap.{HeapLaws, length-map}
use martos.SysArch.Mailbox.{Holds, Holds-of, post-Holds}
use martos.SysArch.Fetching.{Fetched, sys_arch_mbox_tryfetch-Fetched}

module _ {H : Type 0} (lwip : Lwip H) (mbox : Ptr) where
  -- Calls of `sys_mbox_post`, one for each payload.
  unfoldable pub posts : List Ptr → Cmd (Layer H) (Unit {0})
  posts [] = pure tt
  posts (msg ∷ msgs) = do sys_mbox_post lwip mbox msg; posts msgs

  -- Calls of `sys_arch_mbox_tryfetch`, with their results.
  unfoldable pub fetches : ℕ → Cmd (Layer H) (List (ℕ × Option Ptr))
  fetches zero = pure []
  fetches (suc n) = do r ← sys_arch_mbox_tryfetch lwip mbox true; rest ← fetches n; pure (r ∷ rest)

module _ {H : Type 0} (lwip : Lwip H) (FreeAt : H → Ptr → Type 0) (room : H → ℕ)
    (laws : HeapLaws lwip FreeAt room) (mbox : Ptr) (valid : mbox ≢ null) (rs ws : List Ptr) where
  abbrev HoldsHere : Layer H → List Ptr → List Ptr → Type 0
  HoldsHere = Holds lwip FreeAt room laws mbox valid rs ws

  posts-Holds :
      (msgs : List Ptr) (s : Layer H) (xs ms : List Ptr)
      → HoldsHere s xs ms
      → length msgs ≤ room s.library
      → Returns (λ _ s'. (ys : List Ptr) × HoldsHere s' ys (ms ++ msgs)) (posts lwip mbox msgs s)
  unfolding posts
  posts-Holds [] s xs ms holds enough = (xs, rw append-nil holds)
  posts-Holds (msg ∷ msgs) s xs ms holds enough =
      Returns-bind
        (λ _ s1.
          (p : Ptr) × HoldsHere s1 (xs ++ p ∷ []) (ms ++ msg ∷ [])
          × (room s.library ≤ 1 + room s1.library))
        (λ _ s'. (ys : List Ptr) × HoldsHere s' ys (ms ++ msg ∷ msgs))
        (sys_mbox_post lwip mbox msg s) (λ _. posts lwip mbox msgs)
        (post-Holds lwip FreeAt room laws mbox valid rs ws s xs ms holds msg (omega arith))
        λ _ s1 (p, h, more).
          subst
            (λ zs. Returns (λ _ s'. (ys : List Ptr) × HoldsHere s' ys zs) (posts lwip mbox msgs s1))
            (append_assoc ms (msg ∷ []) msgs)
            (posts-Holds msgs s1 (xs ++ p ∷ []) (ms ++ msg ∷ []) h (omega arith))

  abbrev pub results : List Ptr → List (ℕ × Option Ptr)
  results ms = map (λ m. (0, some m)) ms ++ (lwip.mbox_empty, none) ∷ []

  fetches-results :
      (xs : List Ptr) (s : Layer H) (ms : List Ptr)
      → HoldsHere s xs ms
      → Returns (λ out s'. out ≡ results ms) (fetches lwip mbox (suc (length xs)) s)
  unfolding fetches
  fetches-results [] s ms holds =
      Returns-bind (Fetched lwip FreeAt room laws mbox valid rs ws s []) (λ out _. out ≡ results ms)
        (sys_arch_mbox_tryfetch lwip mbox true s) (λ r. pure (r ∷ []))
        (sys_arch_mbox_tryfetch-Fetched lwip FreeAt room laws mbox valid rs ws s [] ms holds)
        λ r s1 (e, _). ap (λ z. z ∷ []) e ∙ ap results holds.contents
  fetches-results (x ∷ xs) s ms holds =
      Returns-bind (Fetched lwip FreeAt room laws mbox valid rs ws s (x ∷ xs))
        (λ out _. out ≡ results ms) (sys_arch_mbox_tryfetch lwip mbox true s)
        (λ r. fetches lwip mbox (suc (length xs)) >>= λ rest. pure (r ∷ rest))
        (sys_arch_mbox_tryfetch-Fetched lwip FreeAt room laws mbox valid rs ws s (x ∷ xs) ms holds)
        λ r s1 (e, h).
          Returns-bind (λ out _. out ≡ results (map s.payloads xs)) (λ out _. out ≡ results ms)
            (fetches lwip mbox (suc (length xs)) s1) (λ rest. pure (r ∷ rest))
            (fetches-results xs s1 (map s.payloads xs) h)
            λ rest s2 same.
              ap (λ z. z ∷ rest) e
              ∙ (ap (λ zs. (0, some (s.payloads x)) ∷ zs) same ∙ ap results holds.contents)

  -- The mailbox as `sys_mbox_new` leaves it.
  abbrev emptied : MsgPort → MsgPort
  emptied p = record p { signal = 0; action = msgport_ignore; task = null }

  sys_mbox_new-Holds :
      (s : Layer H)
      → Inv s.kernel rs ws
      → (s.kernel.ports mbox).message_list.head ≢ null
      → (s.kernel.ports mbox).message_list.tail ≢ null
      → (s.kernel.ports mbox).message_list.head ≢ (s.kernel.ports mbox).message_list.tail
      → Apart
          ((s.kernel.ports mbox).message_list.head ∷ (s.kernel.ports mbox).message_list.tail ∷ [])
          (queue_nodes rs ws)
      → All
          (λ p. ¬ (FreeAt s.library p))
          ((s.kernel.ports mbox).message_list.head
            ∷ (s.kernel.ports mbox).message_list.tail
            ∷ queue_nodes rs ws)
      → Returns
          (λ _ s'. HoldsHere s' [] [] × (room s.library ≤ room s'.library))
          (sys_mbox_new lwip mbox s)
  unfolding sys_mbox_new
  sys_mbox_new-Holds s inv h t ne apart used =
      rw
        (
          ==-eq_false mbox null valid,
          list_init-eq s.kernel.mem q h t ne,
          ==-eq_false mbox null valid,
          ==-eq_false mbox null valid,
          ==-eq_false mbox null valid,
        )
        (
          Holds-of lwip FreeAt room laws mbox valid rs ws s1 [] [] (emptied (f0 mbox)) s1.library
              s.payloads same refl refl
              (record {
                sched =
                    Sched-memory s.kernel.mem m s.kernel.tasks s.kernel.running s.kernel.pendsv rs
                      ws inv.sched
                      (Queues-outside s.kernel.mem m rs ws (q.head ∷ q.tail ∷ []) inv.sched.queues
                        b.same b.kept (Apart-symm (q.head ∷ q.tail ∷ []) (queue_nodes rs ws) apart))
                      b.kept;
                masked = inv.masked;
              })
              (record { holds = b.holds; apart = apart }) refl refl
              (keep q.head used.0, (keep q.tail used.1.0, tt))
              (All_mono (λ p. ¬ (FreeAt s.library p)) (λ p. ¬ (FreeAt s1.library p))
                (queue_nodes rs ws) keep used.1.1),
          laws.inc_used_room s.library,
        )
    where
      q : NodeList
      q = (s.kernel.ports mbox).message_list

      m : Memory
      m = initialised s.kernel.mem q

      b : Becomes s.kernel.mem q [] [] m
      b = initialised-Becomes s.kernel.mem q h t ne

      no_signal : MsgPort → MsgPort
      no_signal p = record p { signal = 0 }

      ignored : MsgPort → MsgPort
      ignored p = record p { action = msgport_ignore }

      no_task : MsgPort → MsgPort
      no_task p = record p { task = null }

      f0 : Ptr → MsgPort
      f0 = s.kernel.ports

      f1 : Ptr → MsgPort
      f1 = update f0 mbox (no_signal (f0 mbox))

      f2 : Ptr → MsgPort
      f2 = update f1 mbox (ignored (f1 mbox))

      f3 : Ptr → MsgPort
      f3 = update f2 mbox (no_task (f2 mbox))

      s1 : Layer H
      s1 = record s {
        kernel = record s.kernel { mem = m; ports = f3 };
        library = lwip.inc_used s.library;
      }

      same : f3 mbox ≡ emptied (f0 mbox)
      same =
          update_self f2 (no_task (f2 mbox)) mbox
          ∙ ap no_task (
              update_self f1 (ignored (f1 mbox)) mbox
              ∙ ap ignored (update_self f0 (no_signal (f0 mbox)) mbox))

      keep : (p : Ptr) → ¬ (FreeAt s.library p) → ¬ (FreeAt s1.library p)
      keep p u f = u (laws.inc_used_free s.library p f)

  -- A mailbox is a queue. When `sys_mbox_new` has made one, out of a port with two nodes of its own
  -- and whatever in its list, `sys_mbox_post` is called for each of some payloads, and then
  -- `sys_arch_mbox_tryfetch` once more often than that, all calls end well if the heap has room for
  -- the messages. The fetches return the payloads in the order in which they were posted, and the
  -- last one says that the mailbox is empty.
  pub mailbox-fifo :
      (msgs : List Ptr) (s : Layer H)
      → Inv s.kernel rs ws
      → (s.kernel.ports mbox).message_list.head ≢ null
      → (s.kernel.ports mbox).message_list.tail ≢ null
      → (s.kernel.ports mbox).message_list.head ≢ (s.kernel.ports mbox).message_list.tail
      → Apart
          ((s.kernel.ports mbox).message_list.head ∷ (s.kernel.ports mbox).message_list.tail ∷ [])
          (queue_nodes rs ws)
      → All
          (λ p. ¬ (FreeAt s.library p))
          ((s.kernel.ports mbox).message_list.head
            ∷ (s.kernel.ports mbox).message_list.tail
            ∷ queue_nodes rs ws)
      → length msgs ≤ room s.library
      → Returns
          (λ out _. out ≡ results msgs)
          ((sys_mbox_new lwip mbox >> posts lwip mbox msgs >> fetches lwip mbox (suc (length msgs)))
            s)
  mailbox-fifo msgs s inv h t ne apart used enough =
      Returns-bind (λ _ s2. (ys : List Ptr) × HoldsHere s2 ys msgs) (λ out _. out ≡ results msgs)
        ((sys_mbox_new lwip mbox >> posts lwip mbox msgs) s)
        (λ _. fetches lwip mbox (suc (length msgs)))
        (Returns-bind (λ _ s1. HoldsHere s1 [] [] × (room s.library ≤ room s1.library))
          (λ _ s2. (ys : List Ptr) × HoldsHere s2 ys msgs) (sys_mbox_new lwip mbox s)
          (λ _. posts lwip mbox msgs) (sys_mbox_new-Holds s inv h t ne apart used)
          λ _ s1 (empty, more). posts-Holds msgs s1 [] [] empty (omega arith))
        λ _ s2 (ys, full).
          subst (λ n. Returns (λ out _. out ≡ results msgs) (fetches lwip mbox (suc n) s2))
            (sym (length-map s2.payloads ys) ∙ ap length full.contents)
            (fetches-results ys s2 msgs full)
