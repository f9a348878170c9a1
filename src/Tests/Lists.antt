-- ===== src/Tests/Lists.antt =====
-- The results on lists, applied to the lists of the kernel of the example.
use martos.Common.{◌≡◌, [], ◌∷◌, arith}
use martos.Memory.{null, ok, Returns}
use martos.NodeList.{list_unlink, list_add_tail, list_rem_head, list_insert, list_enqueue}
use martos.NodeList.Refinement.{Becomes, list_unlink-Becomes}
use martos.NodeList.Sequences.{
  list_add_tail-Becomes, list_enqueue-Becomes, list_rem_head-RemovesHead, list_insert-Becomes,
}
use martos.NodeList.Order.{IsOrdered, enqueued}
use martos.Kernel.{ready, waiting}
use martos.Tests.Example.{mem, ready-IsList, waiting-IsList}

list_unlink-Becomes_example :
    Returns (λ _ m'. Becomes mem ready (10 ∷ []) [] m') (list_unlink 10 mem)
list_unlink-Becomes_example = list_unlink-Becomes mem ready [] 10 [] ready-IsList

list_add_tail-Becomes_example :
    Returns
      (λ _ m'. Becomes mem waiting (12 ∷ 11 ∷ []) (11 ∷ 12 ∷ []) m')
      (list_add_tail waiting 12 mem)
list_add_tail-Becomes_example =
    list_add_tail-Becomes mem waiting (11 ∷ []) 12 waiting-IsList (λ e. omega arith)
      (λ e. omega arith, (λ e. omega arith, (λ e. omega arith, tt)))

list_enqueue-Becomes_example :
    Returns
      (λ _ m'.
        Becomes mem ready (12 ∷ 10 ∷ []) (enqueued mem.prio 12 (10 ∷ [])) m'
        × IsOrdered m'.prio (enqueued mem.prio 12 (10 ∷ [])))
      (list_enqueue ready 12 mem)
list_enqueue-Becomes_example =
    list_enqueue-Becomes mem ready (10 ∷ []) 12 ready-IsList (omega arith) (λ e. omega arith)
      (λ e. omega arith, (λ e. omega arith, (λ e. omega arith, tt))) (tt, tt)

list_rem_head-RemovesHead_example :
    Returns (λ p m'. (p ≡ 10) × Becomes mem ready (10 ∷ []) [] m') (list_rem_head ready mem)
list_rem_head-RemovesHead_example = list_rem_head-RemovesHead mem ready (10 ∷ []) ready-IsList

list_insert-Becomes_example :
    Returns
      (λ _ m'. Becomes mem waiting (12 ∷ 11 ∷ []) (11 ∷ 12 ∷ []) m')
      (list_insert waiting 12 11 mem)
    × (list_insert waiting 12 null mem ≡ ok tt mem)
list_insert-Becomes_example =
    list_insert-Becomes mem waiting (11 ∷ []) [] 12 waiting-IsList (λ e. omega arith)
      (λ e. omega arith, (λ e. omega arith, (λ e. omega arith, tt)))
