-- ===== src/Tests/Ports.antt =====
-- The results on message ports, applied to the kernel of the example.
use martos.Common.{refl, ◌≢◌, [], ◌∷◌, arith}
use martos.Common.Int.{negsuc}
use martos.Memory.{null, Returns}
use martos.MsgPort.{msgport_get, msgport_send, msgport_wait}
use martos.MsgPort.Mailbox.{Got, msgport_get-Got}
use martos.MsgPort.Posting.{Posted, msgport_send-Posted}
use martos.MsgPort.Receiving.{Arrives, msgport_wait-Arrives}
use martos.Tests.Example.{kernel, kernel_Inv, sem_Requests, empty_IsList}

valid : 32 ≢ null
valid e = omega arith

msgport_get-Got_example :
    Returns (Got 32 kernel (10 ∷ []) (11 ∷ []) (40 ∷ 41 ∷ [])) (msgport_get 32 kernel)
msgport_get-Got_example =
    msgport_get-Got 32 kernel (10 ∷ []) (11 ∷ []) (40 ∷ 41 ∷ []) valid kernel_Inv
      sem_Requests.beside

-- The port's task 11 waits for the port's signal.
msgport_send-Posted_example :
    Returns
      (λ _ k'. Posted 32 kernel (10 ∷ []) (11 ∷ []) (40 ∷ 41 ∷ 42 ∷ []) k')
      (msgport_send 32 42 kernel)
msgport_send-Posted_example =
    msgport_send-Posted 32 kernel (10 ∷ []) (11 ∷ []) 42 (40 ∷ 41 ∷ []) valid kernel_Inv
      sem_Requests.beside refl (λ e. omega arith) (ground arith) (ground arith)

msgport_wait-Arrives_example :
    Returns (Arrives 33 kernel (10 ∷ []) (11 ∷ []) [] (negsuc 0)) (msgport_wait 33 kernel)
msgport_wait-Arrives_example =
    msgport_wait-Arrives 33 kernel (10 ∷ []) (11 ∷ []) [] (λ e. omega arith) kernel_Inv refl
      (omega arith) empty_IsList
