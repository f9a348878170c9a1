-- ===== src/System/Preempting.antt =====
-- A task of a high priority that waits for a signal (src/task.c) runs behind the next switch once
-- the signal is sent.
use native.Mathlib.Decide.{ℕ_discrete}
use mathlib.Core.Bool.{false≢true}
use martos.Common.{
  ◌<◌, ◌≡◌, refl, sym, ◌∙◌, ap, subst, ◌≢◌, ◌⊎◌, inl, inr, true, List, ◌∷◌, All, All-Has,
  All-members, All_mono, Has, arith, Bool-cases,
}
use martos.Common.Int.{ℤ, ltb_ℤ, ◌≤ℤ◌}
use martos.Memory.{Ptr, null, Returns, Returns-bind, ◌>>◌, pure}
use martos.NodeList.Order.{enqueued-All}
use martos.Kernel.{Kernel, Task, Signals, task_running, task_ready, last_static}
use martos.Kernel.Queues.{above-ne_null}
use martos.Signal.{signal_send}
use martos.Switch.{pendsv_handler}
use martos.Sched.Leaving.{Switched}
use martos.Sched.Handler.{candidates, is_running, pendsv_handler-Switched}
use martos.Sched.Send.{Sent, is_awaited, awaited_waiting, signal_send-Sent}
use martos.Sched.States.{AgreeBut, Has-enqueued}
use martos.System.{System, IsInStack, in_kernel, run, send, switch}
use martos.System.Holding.{Holds}
use martos.System.Calling.{Returns-in_kernel, Sent-Holds}
use martos.System.Switching.{candidate-IsVerified, framed-IsVerified, some_ready, Switched-Holds}

-- Each candidate of the switch is the running task or a ready one, and each of these is one.
module _ (k : Kernel) (rs : List Ptr) where
  candidates-All : (P : Ptr → Type 0) → P k.running → All P rs → All P (candidates k rs)
  candidates-All P own all = elim (Bool-cases (is_running (k.tasks k.running).state)) [
    | inl e ↦ rw e (enqueued-All k.mem.prio P k.running rs own all)
    | inr e ↦ rw e all
  ]

  ready_candidate : (t : Ptr) → Has t rs → Has t (candidates k rs)
  ready_candidate t h = elim (Bool-cases (is_running (k.tasks k.running).state)) [
    | inl e ↦ rw e (Has-enqueued k.mem.prio t k.running rs h)
    | inr e ↦ rw e h
  ]

-- `t` is above the running task and all ready ones.
abbrev pub IsAbove : Kernel → Ptr → Type 0
IsAbove k t =
    (x : Ptr)
    → (x ≡ k.running) ⊎ ((k.tasks x).state ≡ task_ready)
    → ltb_ℤ (k.mem.prio x) (k.mem.prio t) ≡ true

module _ (k : Kernel) (t : Ptr) (rs ws : List Ptr) where
  -- The switch chooses a ready task that is above the others.
  switch_chooses :
      (frame : Ptr) (k' : Kernel)
      → Has t rs
      → ((x : Ptr)
          → x ≢ t
          → (x ≡ k.running) ⊎ Has x rs
          → ltb_ℤ (k.mem.prio x) (k.mem.prio t) ≡ true)
      → Switched k ws (candidates k rs) frame k'
      → k'.running ≡ t
  switch_chooses frame k' listed above d = elim (ℕ_discrete k'.running t) [
    | yes e ↦ e
    | no ne ↦ absurd (too_high ne (subst (λ zs. Has t zs) d.first (ready_candidate k rs t listed)))
  ]
    where
      known : (k'.running ≡ k.running) ⊎ Has k'.running rs
      known =
          (subst (λ zs. All (λ x. (x ≡ k.running) ⊎ Has x rs) zs) d.first
            (candidates-All k rs (λ x. (x ≡ k.running) ⊎ Has x rs) (inl refl)
              (All_mono (λ x. Has x rs) (λ x. (x ≡ k.running) ⊎ Has x rs) rs (λ x h. inr h)
                (All-members rs)))).0

      too_high : k'.running ≢ t → ¬ (Has t (k'.running ∷ d.rest))
      too_high ne (inl e) = ne (sym e)
      too_high ne (inr h) =
          let le : k.mem.prio t ≤ℤ k.mem.prio k'.running =
            subst (λ (p : Ptr → ℤ). p t ≤ℤ p k'.running) d.same_prio
              (All-Has (λ x. k'.mem.prio x ≤ℤ k'.mem.prio k'.running) t d.rest h d.highest) in
          let lt = above k'.running ne known in ground (arith, le, lt)

-- The task runs.
abbrev pub Runs : Ptr → Ptr → System → Type 0
Runs idle t s = (s.kernel.running ≡ t) × ((s.kernel.tasks t).state ≡ task_running) × Holds idle s

switch-Runs :
    (idle : Ptr) (s : System) (holds : Holds idle s) (t frame : Ptr)
    → Has t holds.rs
    → ((x : Ptr)
        → x ≢ t
        → (x ≡ s.kernel.running) ⊎ Has x holds.rs
        → ltb_ℤ (s.kernel.mem.prio x) (s.kernel.mem.prio t) ≡ true)
    → IsInStack frame (s.kernel.tasks s.kernel.running).context
    → Returns (λ _ s'. Runs idle t s') (run (switch frame) s)
unfolding run
switch-Runs idle s holds t frame listed above inside =
    let k = s.kernel in
    Returns-bind (λ _ s'. Runs idle t s') (λ _ s'. Runs idle t s')
      (in_kernel (pendsv_handler frame) s) (λ _. pure tt)
      (Returns-in_kernel (λ f k'. Switched k holds.ws (candidates k holds.rs) f k')
        (λ _ s'. Runs idle t s') s
        (λ f k' d.
          let e = switch_chooses k t holds.rs holds.ws f k' listed above d in
          (
            e,
            subst (λ a. (k'.tasks a).state ≡ task_running) e d.runs,
            Switched-Holds idle s holds f k' d,
          ))
        (pendsv_handler frame)
        (pendsv_handler-Switched k holds.rs holds.ws frame holds.inv
          (candidate-IsVerified idle s holds) (framed-IsVerified idle s holds frame inside)
          (some_ready idle s holds)))
      λ _ s' h. h

module _ (idle : Ptr) (s : System) (holds : Holds idle s) (t : Ptr) (signals : Signals)
    (frame : Ptr) where
  abbrev k : Kernel
  k = s.kernel

  -- Who is ready or runs once the signals are sent was so before, or is the task.
  before_send :
      (k' : Kernel) (rs' : List Ptr) (x : Ptr)
      → k'.running ≡ k.running
      → AgreeBut t k.tasks k'.tasks
      → All (λ y. (k'.tasks y).state ≡ task_ready) rs'
      → x ≢ t
      → (x ≡ k'.running) ⊎ Has x rs'
      → (x ≡ k.running) ⊎ ((k.tasks x).state ≡ task_ready)
  before_send k' rs' x run agree states ne (inl e) = inl (e ∙ run)
  before_send k' rs' x run agree states ne (inr h) = inr (
      ap (λ (a : Task). a.state) (sym (agree x ne))
      ∙ All-Has (λ y. (k'.tasks y).state ≡ task_ready) x rs' h states)

  module _ (awaited : is_awaited (k.tasks t) signals ≡ true) (above : IsAbove k t)
      (inside : IsInStack frame (k.tasks k.running).context) where
    waiting_valid : t ≢ null
    waiting_valid = above-ne_null t (
        All-Has (λ x. last_static < x) t holds.ws
          (holds.inv.sched.states.waiting_listed t (awaited_waiting (k.tasks t) signals awaited))
          holds.inv.sched.queues.waiting_above)

    not_self : k.running ≢ t
    not_self e =
        let lt =
          subst (λ a. ltb_ℤ (k.mem.prio a) (k.mem.prio t) ≡ true) e (above k.running (inl refl)) in
        ground (arith, lt)

    Sent-Runs :
        (k' : Kernel)
        → Sent t signals k holds.rs holds.ws k'
        → Returns (λ _ s'. Runs idle t s') (run (switch frame) (record s { kernel = k' }))
    Sent-Runs k' (d, inr (unawaited, _, _)) = absurd (false≢true (sym unawaited ∙ awaited))
    Sent-Runs k' (d, inl (a, u)) =
        let after = Sent-Holds idle s holds t signals k' (d, inl (a, u)) in
        switch-Runs idle (record s { kernel = k' }) after t frame
          (after.inv.sched.states.ready_listed t u.state)
          (λ x ne how.
            subst (λ (p : Ptr → ℤ). ltb_ℤ (p x) (p t) ≡ true) (sym d.same_data.1)
              (above x (
                before_send k' after.rs x d.same_running d.others after.inv.sched.states.ready_state
                  ne how)))
          (subst (λ c. IsInStack frame c)
            (sym (
              ap (λ (a : Task). a.context)
                (ap k'.tasks d.same_running ∙ d.others k.running not_self)))
            inside)

    -- A system whose invariant holds, a task that waits for one of the signals, and a frame in the
    -- stack of the running task. If the waiting task has a higher priority than the running task
    -- and than every ready one, then `signal_send` of the signals to it and the switch that follows
    -- end well, and it is the running task. The invariant of the system holds.
    pub send_preempts :
        Returns (λ _ s'. Runs idle t s') ((run (send t signals) >> run (switch frame)) s)
    unfolding run
    send_preempts =
        Returns-bind
          (λ _ s1.
            (k' : Kernel) × (s1 ≡ record s { kernel = k' }) × Sent t signals k holds.rs holds.ws k')
          (λ _ s'. Runs idle t s') (in_kernel (signal_send t signals) s) (λ _. run (switch frame))
          (Returns-in_kernel (λ _ k'. Sent t signals k holds.rs holds.ws k') _ s
            (λ _ k' sent. (k', refl, sent)) (signal_send t signals)
            (signal_send-Sent t signals k holds.rs holds.ws holds.inv waiting_valid))
          λ _ s1 (k', e, sent). rw e (Sent-Runs k' sent)
