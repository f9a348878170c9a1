-- ===== src/MsgPort/Mailbox.antt =====
-- `msgport_get`: the messages leave the port in the order of its list.
use martos.Common.{◌≡◌, refl, ◌≢◌, List, [], ◌∷◌, ==-eq_false}
use martos.Memory.{Ptr, null, Returns}
use martos.NodeList.Refinement.{list_rem_head_nil}
use martos.NodeList.Unlink.{unlinked}
use martos.Kernel.{Kernel, disabled}
use martos.Kernel.Interrupts.{enable_protected}
use martos.Sched.{Inv}
use martos.Sched.Beside.{Beside, Beside-pop, Sched-memory}
use martos.MsgPort.{msgport_get}

module _ (port : Ptr) (k : Kernel) (rs ws : List Ptr) where
  -- The first message is returned and leaves the list, or `NULL` is if there is none.
  abbrev pub Got : List Ptr → Ptr → Kernel → Type 0
  Got [] msg k' = (msg ≡ null) × (k' ≡ k)
  Got (x ∷ xs) msg k' =
      (msg ≡ x)
      × Inv k' rs ws
      × Beside k'.mem rs ws (k.ports port).message_list xs
      × (k'.tasks ≡ k.tasks)
      × (k'.ports ≡ k.ports)
      × (k'.running ≡ k.running)

  -- `msgport_get` of a port ends well. With no message in the port it returns `NULL` and changes
  -- nothing. If there are messages it returns the first, which leaves the list, and the scheduler's
  -- invariant stays.
  pub msgport_get-Got :
      (xs : List Ptr)
      → port ≢ null
      → Inv k rs ws
      → Beside k.mem rs ws (k.ports port).message_list xs
      → Returns (Got xs) (msgport_get port k)
  unfolding msgport_get
  msgport_get-Got [] valid inv b =
      rw
        (
          ==-eq_false port null valid,
          list_rem_head_nil k.mem (k.ports port).message_list b.holds,
          enable_protected k (disabled k) inv.masked refl refl,
        )
        (refl, refl)
  msgport_get-Got (x ∷ xs) valid inv b =
      let (run, kept, q, c) =
        Beside-pop k.mem rs ws inv.sched.queues (k.ports port).message_list x xs b in
      rw
        (
          ==-eq_false port null valid,
          run,
          enable_protected k (record (disabled k) { mem = unlinked x k.mem }) inv.masked refl refl,
        )
        (
          refl,
          record {
            sched =
                Sched-memory k.mem (unlinked x k.mem) k.tasks k.running k.pendsv rs ws inv.sched q
                  kept;
            masked = inv.masked;
          },
          c,
          refl,
          refl,
          refl,
        )
