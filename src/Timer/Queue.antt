-- ===== src/Timer/Queue.antt =====
-- The queue of timers of src/timer.c, and how `timer_add` puts a timer into it.
use martos.Common.{ℕ, ◌≡◌, refl, ◌≢◌, List, [], ◌∷◌, ◌++◌, NotIn, ==-eq_false, All_right}
use mathlib.Core.List.{append-nil}
use martos.Memory.{Ptr, null, ok, get_prev-eq}
use martos.NodeList.Chain.{IsList, next_of}
use martos.NodeList.Insert.{inserted, prev_place}
use martos.NodeList.Refinement.{list_add_tail_run}
use martos.NodeList.Sequences.{list_insert_run}
use martos.Kernel.{Kernel, Timer, timers}
use martos.Sched.Beside.{Beside}
use martos.Timer.{insert_before}
use martos.Timer.Order.{IsSorted}

abbrev pub tick_of : (Ptr → Timer) → Ptr → ℕ
tick_of f x = (f x).tick

-- The queue holds the timers `ts`, in the order of their ticks.
pub record TimerQueue (k : Kernel) (rs ws ts : List Ptr) : Type 0 where
  pub beside : Beside k.mem rs ws timers ts
  pub sorted : IsSorted (tick_of k.timer_objects) ts

pub insert_before_run :
    (k : Kernel) (xs ys : List Ptr) (n : Ptr)
    → IsList k.mem timers (xs ++ ys)
    → n ≢ null
    → NotIn n (timers.head ∷ timers.tail ∷ xs ++ ys)
    → insert_before n (next_of ys null) k
      ≡ ok tt (record k { mem = inserted (next_of ys timers.tail) n k.mem })
unfolding insert_before
insert_before_run k xs [] n l fresh new =
    rw ((list_add_tail_run k.mem timers xs n (rw append-nil at l) fresh (rw append-nil at new)).0)
      refl
insert_before_run k xs (y ∷ ys) n l fresh new =
    let valid = (All_right (λ a. a ≢ null) xs (y ∷ ys) l.valid.1.1).0 in
    rw
      (
        ==-eq_false y null valid,
        get_prev-eq y k.mem valid,
        prev_place k.mem timers xs (y ∷ ys) n l fresh new,
        list_insert_run k.mem timers xs (y ∷ ys) n l fresh new,
      )
      (rw (prev_place k.mem timers xs (y ∷ ys) n l fresh new) refl)
