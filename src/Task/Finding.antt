-- ===== src/Task/Finding.antt =====
-- `task_find` of src/task.c, and `task_init`, which relies on it.
use mathlib.Core.Bool.{false≢true}
use Prim.Native.String.{String}
use martos.Common.{
  ℕ, ◌<◌, ◌≡◌, refl, sym, ◌∙◌, ◌≢◌, ◌⊎◌, inl, inr, true, none, some, List, ◌==◌, if◌then◌else◌, All,
  length, ==-eq_false, ==_iff, Bool-cases,
}
use martos.Common.Int.{ℤ}
use martos.Memory.{Ptr, Run, null, ok, err, null_pointer, assertion}
use martos.NodeList.Chain.{IsList}
use martos.NodeList.Find.{first_named, list_find-first_named}
use martos.Kernel.{Kernel, Task, task_invalid, ready, waiting, disabled, write_task}
use martos.Kernel.Interrupts.{Masked, enable_protected}
use martos.Task.{task_find, find_waiting, find_self, node_name, task_init}

-- What the call comes to: the first ready task with the name, or the first waiting one, or a read
-- through `NULL`.
abbrev pub found : String → (Ptr → String) → List Ptr → List Ptr → Kernel → Run Kernel Ptr
found s name rs ws k =
    if first_named k.mem s name rs == null
    then (if first_named k.mem s name ws == null
        then err null_pointer
        else ok (first_named k.mem s name ws) k)
    else ok (first_named k.mem s name rs) k

find_self-null :
    (s : String) (p : Ptr) (k : Kernel)
    → (p == null) ≡ true
    → find_self (some s) p k ≡ err null_pointer
unfolding find_self node_name
find_self-null s p k e = rw e refl

module _ (s : String) (name : Ptr → String) (k : Kernel) (rs ws : List Ptr)
    (masked : Masked k.irq k.id_nestcnt) (r : IsList k.mem ready rs) (w : IsList k.mem waiting ws)
    (fuel : length rs < k.mem.bound) (more : length ws < k.mem.bound)
    (rn : All (λ a. k.mem.name a ≡ some (name a)) rs)
    (wn : All (λ a. k.mem.name a ≡ some (name a)) ws) where
  -- `task_find` of a name, if all tasks of the two lists have names, returns the first ready
  -- task with that name, or else the first waiting one, and changes nothing. If there is
  -- neither, it reads through `NULL`.
  pub task_find-found : task_find (some s) k ≡ found s name rs ws k
  unfolding task_find find_waiting
  task_find-found =
      let in_ready = list_find-first_named k.mem s name ready rs r fuel rn in
      let in_waiting = list_find-first_named k.mem s name waiting ws w more wn in
      let back = enable_protected k (disabled k) masked refl refl in
      elim (Bool-cases (first_named k.mem s name rs == null)) [
        | inr e ↦ rw (in_ready, e, back) refl
        | inl e ↦ elim (Bool-cases (first_named k.mem s name ws == null)) [
          | inr e' ↦ rw (in_ready, e, in_waiting, e', back) refl
          | inl e' ↦
              rw
                (
                  in_ready,
                  e,
                  in_waiting,
                  e',
                  find_self-null s (first_named k.mem s name ws) (disabled k) e',
                )
                refl
        ]
      ]

task_find_self : (k : Kernel) → task_find none k ≡ ok k.running k
unfolding task_find
task_find_self k = refl

module _ (s : String) (name : Ptr → String) (k : Kernel) (rs ws : List Ptr)
    (masked : Masked k.irq k.id_nestcnt) (r : IsList k.mem ready rs) (w : IsList k.mem waiting ws)
    (fuel : length rs < k.mem.bound) (more : length ws < k.mem.bound)
    (rn : All (λ a. k.mem.name a ≡ some (name a)) rs)
    (wn : All (λ a. k.mem.name a ≡ some (name a)) ws) where
  pub task_init-unknown :
      (t : Ptr) (prio : ℤ) (stack : Ptr) (stack_size : ℕ)
      → t ≢ null
      → first_named k.mem s name rs ≡ null
      → first_named k.mem s name ws ≡ null
      → task_init t (some s) prio stack stack_size k ≡ err null_pointer
  unfolding task_init
  task_init-unknown t prio stack stack_size valid e e' =
      let v : Task = record (k.tasks t) { state = task_invalid } in
      rw
        (
          ==-eq_false t null valid,
          task_find-found s name (write_task t v k) rs ws masked r w fuel more rn wn,
          e,
          e',
        )
        refl

  -- `task_init` of a named task, if all tasks of the two lists have names and none of them has the
  -- same, comes to a read through `NULL`. With a name that a task of the lists has, or with `NULL`
  -- while a task runs, its assertion fails. So it ends well in none of these cases.
  pub task_init-Fails :
      (t : Ptr) (prio : ℤ) (stack : Ptr) (stack_size : ℕ)
      → t ≢ null
      → k.running ≢ null
      → (task_init t none prio stack stack_size k ≡ err assertion)
        × (((first_named k.mem s name rs ≡ null)
              × (first_named k.mem s name ws ≡ null)
              × (task_init t (some s) prio stack stack_size k ≡ err null_pointer))
            ⊎ (((first_named k.mem s name rs ≢ null) ⊎ (first_named k.mem s name ws ≢ null))
                × (task_init t (some s) prio stack stack_size k ≡ err assertion)))
  unfolding task_init
  task_init-Fails t prio stack stack_size valid runs =
      let v : Task = record (k.tasks t) { state = task_invalid } in
      let first = first_named k.mem s name rs in
      let second = first_named k.mem s name ws in
      let search = task_find-found s name (write_task t v k) rs ws masked r w fuel more rn wn in
      (
        rw
            (
              ==-eq_false t null valid,
              task_find_self (write_task t v k),
              ==-eq_false k.running null runs,
            )
            refl,
        elim (Bool-cases (first == null)) [
          | inr e ↦ inr (
            inl (λ q. false≢true (sym e ∙ (==_iff first null).1 q)),
            rw (==-eq_false t null valid, search, e, e) refl,
          )
          | inl e ↦ elim (Bool-cases (second == null)) [
            | inr e' ↦ inr (
              inr (λ q. false≢true (sym e' ∙ (==_iff second null).1 q)),
              rw (==-eq_false t null valid, search, e, e', e') refl,
            )
            | inl e' ↦ inl (
              (==_iff first null).0 e,
              (==_iff second null).0 e',
              rw (==-eq_false t null valid, search, e, e') refl,
            )
          ]
        ],
      )
