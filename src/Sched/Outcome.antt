-- ===== src/Sched/Outcome.antt =====
-- What `signal_wait` of src/task.c leaves when it ends and when it blocks.
use martos.Common.{◌≡◌, true, false, List, [], ◌∷◌, ◌++◌, bit_and}
use martos.Common.Int.{ℤ, pos, ◌+ℤ◌}
use martos.Memory.{Ptr}
use martos.Kernel.{Kernel, Signals, task_waiting, task_running, without, waiting}
use martos.NodeList.Chain.{SameOutside}
use martos.Signal.{meets, Wait, received, blocked}
use martos.Sched.{Inv}
use martos.Sched.Checked.{AllChecked}
use martos.Sched.States.{AgreeBut}

-- The kernel's objects are as they were, and so are the running task's other sets of signals.
abbrev pub SameObjects : Kernel → Kernel → Type 0
SameObjects k k' =
    (k'.semaphores ≡ k.semaphores)
    × (k'.requests ≡ k.requests)
    × (k'.timer_objects ≡ k.timer_objects)
    × ((k'.tasks k.running).sig_alloc ≡ (k.tasks k.running).sig_alloc)
    × ((k'.tasks k.running).sig_wait ≡ (k.tasks k.running).sig_wait)

-- The test of the loop with the counter at `n` outside, from kernel `k`: the call takes the signals that have come of
-- those it waits for, or the task waits.
abbrev pub Took : Signals → ℤ → Kernel → List Ptr → List Ptr → Signals → Kernel → Type 0
Took s n k rs ws rcvd k' =
    (meets s (k.tasks k.running).sig_recvd ≡ true)
    × (rcvd ≡ bit_and s (k.tasks k.running).sig_recvd)
    × Inv k' rs ws
    × (k'.id_nestcnt ≡ n)
    × (k'.running ≡ k.running)
    × AgreeBut k.running k.tasks k'.tasks
    × ((k'.tasks k.running).sig_recvd ≡ without (k.tasks k.running).sig_recvd rcvd)
    × ((k'.tasks k.running).state ≡ task_running)
    × (k'.mem ≡ k.mem)
    × (k'.ports ≡ k.ports)
    × SameObjects k k'
    × (AllChecked k.tasks → AllChecked k'.tasks)

abbrev pub Blocks : Signals → ℤ → Kernel → List Ptr → List Ptr → ℤ → Kernel → Type 0
Blocks s n k rs ws nestcnt k' =
    (meets s (k.tasks k.running).sig_recvd ≡ false)
    × (nestcnt ≡ n +ℤ pos 1)
    × Inv k' rs (ws ++ k.running ∷ [])
    × (k'.irq ≡ true)
    × (k'.pendsv ≡ true)
    × (k'.running ≡ k.running)
    × AgreeBut k.running k.tasks k'.tasks
    × ((k'.tasks k.running).state ≡ task_waiting)
    × ((k'.tasks k.running).sig_wait ≡ s)
    × SameOutside (waiting.head ∷ waiting.tail ∷ k.running ∷ ws) k.mem k'.mem
    × (k'.ports ≡ k.ports)
    × (k'.timer_objects ≡ k.timer_objects)
    × (AllChecked k.tasks → AllChecked k'.tasks)

abbrev pub Waited : Signals → ℤ → Kernel → List Ptr → List Ptr → Wait → Kernel → Type 0
Waited s n k rs ws (received rcvd) k' = Took s n k rs ws rcvd k'
Waited s n k rs ws (blocked nestcnt) k' = Blocks s n k rs ws nestcnt k'
