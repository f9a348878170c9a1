-- ===== src/Init/Start.antt =====
-- `martos_pre` of src/init.c, which initialises the init task before any task runs.
use martos.Common.{◌<◌, ◌≡◌, refl, ◌≢◌, true, [], ◌∷◌, arith}
use martos.Common.Int.{negsuc}
use martos.Memory.{Memory, Ptr, null, err, null_pointer}
use martos.NodeList.Chain.{IsList, IsList-outside}
use martos.NodeList.Find.{first_named}
use martos.NodeList.Refinement.{Becomes, initialised, initialised-Becomes, list_init-eq}
use martos.Kernel.{Kernel, ready, waiting}
use martos.Task.Finding.{task_init-unknown}
use martos.Switch.{quantum}
use martos.Init.{martos_pre, task_prio_exclusive, init_task_stack_size}

module _ (m : Memory) where
  abbrev one : Memory
  one = initialised m ready

  -- The memory with both task lists empty.
  abbrev pub both : Memory
  both = initialised one waiting

  ready_made : Becomes m ready [] [] one
  ready_made = initialised-Becomes m ready (λ e. omega arith) (λ e. omega arith) (λ e. omega arith)

  waiting_made : Becomes one waiting [] [] both
  waiting_made =
      initialised-Becomes one waiting (λ e. omega arith) (λ e. omega arith) (λ e. omega arith)

  pub ready_empty : IsList both ready []
  ready_empty =
      IsList-outside one both (waiting.head ∷ waiting.tail ∷ []) ready [] waiting_made.same
        (ground arith) ready_made.holds

-- `martos_pre` with interrupts enabled, as they are after a reset, always comes to a read through
-- `NULL`, whatever the memory holds: the search for a task of the name "init" ends in it.
pub martos_pre-Fails :
    (init_task init_task_stack : Ptr) (k : Kernel)
    → init_task ≢ null
    → k.irq ≡ true
    → 0 < k.mem.bound
    → martos_pre init_task init_task_stack k ≡ err null_pointer
unfolding martos_pre first_named
martos_pre-Fails init_task init_task_stack k valid irq fuel =
    let k1 : Kernel = record k { mem = both k.mem; id_nestcnt = negsuc 0; elapsed = quantum } in
    rw
      (
        list_init-eq k.mem ready (λ e. omega arith) (λ e. omega arith) (λ e. omega arith),
        list_init-eq (one k.mem) waiting (λ e. omega arith) (λ e. omega arith) (λ e. omega arith),
        task_init-unknown "init" (λ _. "") k1 [] []
            (record { irq_below = irq; nested = omega arith }) (ready_empty k.mem)
            (waiting_made k.mem).holds fuel fuel tt tt init_task task_prio_exclusive init_task_stack
            init_task_stack_size valid refl refl,
      )
      refl
