-- ===== src/Sched/Rounds.antt =====
-- Tasks of one priority take turns: SysTick_Handler and PendSV_Handler_user of
-- platforms/stm32f4-discovery/platform.c, over several time slices.
use mathlib.Core.List.{append_assoc, append-nil, head-eq_of_cons-eq, tail-eq_of_cons-eq}
use martos.Common.{
  ℕ, zero, suc, ◌≡◌, refl, sym, ◌∙◌, ap, subst, inl, false, List, [], ◌∷◌, ◌++◌, All, All-append,
  All_mono, Has, length, arith,
}
use martos.Common.Int.{ℤ, ltb_ℤ}
use martos.Memory.{Cmd, Ptr, ok, Returns, Returns-bind, Returns-mono, ◌>>=◌, ◌>>◌, pure}
use martos.NodeList.Order.{enqueued, higher, lower}
use martos.Kernel.{Kernel, task_running}
use martos.Task.Verify.{IsVerified}
use martos.Switch.{quantum, pendsv_handler}
use martos.Switch.Slices.{ticks, expired, ticks-slice}
use martos.Sched.{Inv}
use martos.Sched.Checked.{AllChecked, checked-IsVerified}
use martos.Sched.Keep.{Sched-pending}
use martos.Sched.Leaving.{Switched}
use martos.Sched.Handler.{candidates, framed, is_running, pendsv_handler-Switched}

-- One time slice of the running task, which is interrupted with its frame at the given address, and
-- several. The value is the address of the frame of the task that runs then.
unfoldable pub slice : Ptr → Cmd Kernel Ptr
slice frame = do ticks quantum; pendsv_handler frame

unfoldable pub slices : ℕ → Ptr → Cmd Kernel Ptr
unfolding slice
slices zero frame = pure frame
slices (suc n) frame = do next ← slice frame; slices n next

-- The tasks in the order in which they run, from the running one on, after so many slices.
abbrev pub rotated : ℕ → List Ptr → List Ptr
rotated zero xs = xs
rotated (suc n) [] = []
rotated (suc n) (x ∷ xs) = rotated n (xs ++ x ∷ [])

not_below : (p : ℤ) → ltb_ℤ p p ≡ false
not_below p = ground arith

-- With one priority, a task is put behind the others.
enqueued_last :
    (prio : Ptr → ℤ) (t : Ptr) (xs : List Ptr)
    → All (λ x. prio x ≡ prio t) xs
    → enqueued prio t xs ≡ xs ++ t ∷ []
unfolding enqueued higher lower
enqueued_last prio t [] same = refl
enqueued_last prio t (x ∷ xs) same =
    let e : ltb_ℤ (prio x) (prio t) ≡ false = rw (same.0) (not_below (prio t)) in
    rw e (ap (λ ys. x ∷ ys) (enqueued_last prio t xs same.1))

-- A task has just been switched in, all that are ready have its priority, and the handler has loaded
-- its frame.
pub record IsFresh (k : Kernel) (frame : Ptr) (rs ws : List Ptr) : Type 0 where
  pub inv : Inv k rs ws
  pub checked : AllChecked k.tasks
  pub runs : (k.tasks k.running).state ≡ task_running
  pub whole : k.elapsed ≡ quantum
  pub loaded : frame ≡ (k.tasks k.running).context.frame
  pub level : All (λ t. k.mem.prio t ≡ k.mem.prio k.running) rs

module _ (k : Kernel) (frame : Ptr) (rs ws : List Ptr) (fresh : IsFresh k frame rs ws) where
  -- The next task, for a slice of its own.
  abbrev Next : Ptr → Kernel → Type 0
  Next frame' k' =
      (rest : List Ptr) × (rs ++ k.running ∷ [] ≡ k'.running ∷ rest) × IsFresh k' frame' rest ws

  expires : ticks quantum k ≡ ok tt (expired k)
  expires =
      let whole = fresh.whole in
      subst (λ n. ticks n k ≡ ok tt (expired k)) whole
        (ticks-slice k 0 (omega arith) (omega arith) (omega arith)).1

  expired_Inv : Inv (expired k) rs ws
  expired_Inv = record {
    sched = Sched-pending k.mem k.tasks k.running k.pendsv rs ws fresh.inv.sched;
    masked = fresh.inv.masked;
  }

  candidates_last : candidates (expired k) rs ≡ rs ++ k.running ∷ []
  candidates_last =
      rw (ap is_running fresh.runs) (enqueued_last k.mem.prio k.running rs fresh.level)

  Switched-Next :
      (frame' : Ptr) (k' : Kernel)
      → Switched (expired k) ws (candidates (expired k) rs) frame' k'
      → Next frame' k'
  Switched-Next frame' k' d =
      let turn = sym candidates_last ∙ d.first in
      let level =
        subst (λ zs. All (λ t. k.mem.prio t ≡ k.mem.prio k.running) zs) turn
          (All-append (λ t. k.mem.prio t ≡ k.mem.prio k.running) rs (k.running ∷ []) fresh.level
            (refl, tt)) in
      (
        d.rest,
        turn,
        record {
          inv = d.inv;
          checked = d.preserves.checked fresh.checked;
          runs = d.runs;
          whole = d.fresh_quantum;
          loaded = d.loaded;
          level =
              subst (λ (p : Ptr → ℤ). All (λ t. p t ≡ p k'.running) d.rest) (sym d.same_prio)
                (All_mono (λ t. k.mem.prio t ≡ k.mem.prio k.running)
                  (λ t. k.mem.prio t ≡ k.mem.prio k'.running) d.rest (λ t e. e ∙ sym level.0)
                  level.1);
        },
      )

  slice-Next : Returns Next (slice frame k)
  unfolding slice
  slice-Next = rw expires (
      Returns-mono (λ f k'. Switched (expired k) ws (candidates (expired k) rs) f k') Next
        (pendsv_handler frame (expired k))
        (pendsv_handler-Switched (expired k) rs ws frame expired_Inv all
          (subst (λ f. IsVerified (framed f (k.tasks k.running))) (sym fresh.loaded)
            (all k.running (inl refl)))
          λ h. absurd (h fresh.runs))
        Switched-Next)
    where
      all : (x : Ptr) → Has x (k.running ∷ rs) → IsVerified (k.tasks x)
      all = checked-IsVerified k rs ws fresh.inv fresh.checked

slices-rotated :
    (n : ℕ) (k : Kernel) (frame : Ptr) (rs ws : List Ptr)
    → IsFresh k frame rs ws
    → Returns
        (λ frame' k'.
          (rest : List Ptr) × (rotated n (k.running ∷ rs) ≡ k'.running ∷ rest)
          × IsFresh k' frame' rest ws)
        (slices n frame k)
unfolding slices
slices-rotated zero k frame rs ws fresh = (rs, refl, fresh)
slices-rotated (suc n) k frame rs ws fresh =
    Returns-bind (Next k frame rs ws fresh)
      (λ frame' k'.
        (rest : List Ptr) × (rotated n (rs ++ k.running ∷ []) ≡ k'.running ∷ rest)
        × IsFresh k' frame' rest ws)
      (slice frame k) (slices n) (slice-Next k frame rs ws fresh)
      λ f k1 (rest, turn, fresh1).
        Returns-mono
          (λ frame' k'.
            (more : List Ptr) × (rotated n (k1.running ∷ rest) ≡ k'.running ∷ more)
            × IsFresh k' frame' more ws)
          _ (slices n f k1) (slices-rotated n k1 f rest ws fresh1)
          λ _ k' (more, e, fresh'). (more, ap (rotated n) turn ∙ e, fresh')

-- Whoever stands behind `us` has its turn when all these have had theirs.
rotated_turn : (us vs : List Ptr) (t : Ptr) → rotated (length us) (us ++ t ∷ vs) ≡ t ∷ vs ++ us
rotated_turn [] vs t = ap (λ zs. t ∷ zs) (sym (append-nil vs))
rotated_turn (u ∷ us) vs t =
    ap (rotated (length us)) (append_assoc us (t ∷ vs) (u ∷ []))
    ∙ (rotated_turn us (vs ++ u ∷ []) t ∙ ap (λ zs. t ∷ zs) (append_assoc vs (u ∷ []) us))

-- Tasks of one priority take turns. A task has just been switched in with its frame, all ready tasks
-- have its priority, and nothing else happens but the ticks and the switches that they lead to. Then
-- every ready task runs after as many time slices as there are tasks in front of it, and one more;
-- all handlers end well, and the rest of the queue stands behind it in its order.
pub slices-turn :
    (k : Kernel) (frame : Ptr) (us vs ws : List Ptr) (t : Ptr)
    → IsFresh k frame (us ++ t ∷ vs) ws
    → Returns
        (λ frame' k'. (k'.running ≡ t) × IsFresh k' frame' (vs ++ k.running ∷ us) ws)
        (slices (suc (length us)) frame k)
slices-turn k frame us vs ws t fresh =
    Returns-mono
      (λ frame' k'.
        (rest : List Ptr) × (rotated (suc (length us)) (k.running ∷ us ++ t ∷ vs)
          ≡ k'.running ∷ rest)
        × IsFresh k' frame' rest ws)
      _ (slices (suc (length us)) frame k)
      (slices-rotated (suc (length us)) k frame (us ++ t ∷ vs) ws fresh)
      λ frame' k' (rest, e, fresh').
        let turn = sym (rotated_turn (k.running ∷ us) vs t) ∙ e in
        (
          sym (head-eq_of_cons-eq turn),
          subst (λ zs. IsFresh k' frame' zs ws) (sym (tail-eq_of_cons-eq turn)) fresh',
        )
