-- ===== src/Vectors.antt =====
-- The vector table of platforms/stm32f4-discovery/platform.c, and the handlers that are written
-- in C.
use martos.Common.{ℕ, zero, suc, Option, none, some, List, [], ◌∷◌}
use martos.Memory.{Cmd, Ptr, endless, ◌>>◌, pure, fail}
use martos.Kernel.{Kernel}
use martos.Switch.{pendsv_handler, systick_handler}
use martos.Timer.{tim2_irq_handler}

-- An entry of the table: a handler, the top of the stack, or a reserved word.
pub data Vector : Type 0 where
  tos reset default_handler pendsv systick tim2_irq reserved : Vector

-- The first sixteen entries are the processor's, the others the interrupts' from number 0 on.
unfoldable pub vector_table : List Vector
vector_table =
    tos ∷ reset ∷ default_handler ∷ default_handler ∷ default_handler ∷ default_handler
    ∷ default_handler ∷ reserved ∷ reserved ∷ reserved ∷ reserved ∷ default_handler
    ∷ default_handler ∷ reserved ∷ pendsv ∷ systick ∷ default_handler ∷ default_handler
    ∷ default_handler ∷ default_handler ∷ default_handler ∷ default_handler ∷ default_handler
    ∷ default_handler ∷ default_handler ∷ default_handler ∷ default_handler ∷ default_handler
    ∷ default_handler ∷ default_handler ∷ default_handler ∷ default_handler ∷ default_handler
    ∷ default_handler ∷ default_handler ∷ default_handler ∷ default_handler ∷ default_handler
    ∷ default_handler ∷ default_handler ∷ default_handler ∷ default_handler ∷ default_handler
    ∷ default_handler ∷ tim2_irq ∷ []

-- `Default_Handler` loops for ever.
unfoldable pub default_handler_call : Cmd Kernel Ptr
default_handler_call = fail endless

-- What the handler of an entry does with the stack frame of the task that it interrupts, and the
-- frame that it goes back to. The handlers in assembly have none here: the one of PendSV calls the
-- C function.
unfoldable pub handle : Vector → Ptr → Option (Cmd Kernel Ptr)
unfolding default_handler_call
handle tos frame = none
handle reset frame = none
handle reserved frame = none
handle default_handler frame = some default_handler_call
handle pendsv frame = some (pendsv_handler frame)
handle systick frame = some (systick_handler >> pure frame)
handle tim2_irq frame = some (tim2_irq_handler >> pure frame)

unfoldable pub entry : ℕ → List Vector → Option Vector
entry n [] = none
entry zero (v ∷ vs) = some v
entry (suc n) (v ∷ vs) = entry n vs
