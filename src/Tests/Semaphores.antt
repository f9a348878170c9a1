-- ===== src/Tests/Semaphores.antt =====
-- The results on semaphores, applied to the kernel of the example.
use martos.Common.{◌≡◌, refl, ◌≢◌, All, [], ◌∷◌, arith}
use martos.Common.Int.{pos}
use martos.Memory.{null, Returns}
use martos.Semaphore.{sem_init, sem_add_request, sem_wait, sem_signal}
use martos.Semaphore.Requests.{Requests, Added, sem_add_request-Added, sem_init-Requests}
use martos.Semaphore.Answering.{IsAnswerable, Released}
use martos.Semaphore.Release.{sem_signal-Released}
use martos.Semaphore.Waiting.{Waits, sem_wait-Waits}
use martos.Sched.{Inv}
use martos.Tests.Example.{kernel, kernel_Inv, sem_Requests}

answerable : All (IsAnswerable kernel) (40 ∷ 41 ∷ [])
answerable = (
  record { waits = λ e. omega arith; other = λ e. omega arith; some = λ e. omega arith },
  (record { waits = λ e. omega arith; other = λ e. omega arith; some = λ e. omega arith }, tt),
)

valid : 30 ≢ null
valid e = omega arith

sem_signal-Released_example :
    Returns
      (λ _ k'. Released 30 kernel (10 ∷ []) (11 ∷ []) (40 ∷ 41 ∷ []) k')
      (sem_signal 30 kernel)
sem_signal-Released_example =
    sem_signal-Released 30 kernel (10 ∷ []) (11 ∷ []) valid kernel_Inv (40 ∷ 41 ∷ []) sem_Requests
      answerable

sem_add_request-Added_example :
    Returns
      (Added 30 kernel valid 42 (10 ∷ []) (11 ∷ []) (40 ∷ 41 ∷ []))
      (sem_add_request 30 42 kernel)
sem_add_request-Added_example =
    sem_add_request-Added 30 kernel valid 42 (10 ∷ []) (11 ∷ []) (40 ∷ 41 ∷ []) kernel_Inv
      sem_Requests (λ e. omega arith) (ground arith) (ground arith)

sem_wait-Waits_example :
    Returns (Waits 30 kernel valid 42 (10 ∷ []) (11 ∷ []) (40 ∷ 41 ∷ [])) (sem_wait 30 42 kernel)
sem_wait-Waits_example =
    sem_wait-Waits 30 kernel valid 42 (10 ∷ []) (11 ∷ []) (40 ∷ 41 ∷ []) kernel_Inv refl
      sem_Requests (λ e. omega arith) (ground arith) (ground arith)

sem_init-Requests_example :
    Returns
      (λ _ k'.
        Inv k' (10 ∷ []) (11 ∷ [])
        × Requests k' (10 ∷ []) (11 ∷ []) 31 []
        × ((k'.semaphores 31).count ≡ pos 2))
      (sem_init 31 (pos 2) kernel)
sem_init-Requests_example =
    sem_init-Requests 31 2 kernel (10 ∷ []) (11 ∷ []) (λ e. omega arith) kernel_Inv
      (λ e. omega arith) (λ e. omega arith) (λ e. omega arith) (ground arith)
