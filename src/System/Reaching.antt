-- ===== src/System/Reaching.antt =====
-- What holds of the system after any sequence of events, each of which can come.
use martos.Common.{◌≡◌, subst, false, All-Has}
use martos.Memory.{Ptr, ok, Run, Returns, Returns-run}
use martos.Kernel.{task_running, task_waiting}
use martos.Signal.{meets}
use martos.Sched.States.{IsUnserved}
use martos.System.{
  System, Event, send, start_wait, resume_wait, schedule, allocate, free, set_prio, mask, unmask,
  tick, switch, run, Allowed, Reaches, done, next,
}
use martos.System.Holding.{Holds}
use martos.System.Calling.{send-Holds, schedule-Holds, mask-Holds, unmask-Holds, tick-Holds}
use martos.System.Owning.{allocate-Holds, free-Holds, set_prio-Holds}
use martos.System.Suspending.{start-Holds, resume-Holds}
use martos.System.Switching.{switch-Holds}

module _ (idle : Ptr) where
  -- Each event that can come ends well and keeps the invariant of the system.
  pub run-Holds :
      (e : Event) (s : System)
      → Holds idle s
      → Allowed idle e s
      → Returns (λ _ s'. Holds idle s') (run e s)
  unfolding run
  run-Holds (send t signals) s holds (valid, _) = send-Holds idle s holds t signals valid
  run-Holds (start_wait signals) s holds (own, not_idle) =
      start-Holds idle s holds own.0 signals not_idle
  run-Holds resume_wait s holds (runs, (signals, n, call)) =
      resume-Holds idle s holds runs signals n call
  run-Holds (schedule t) s holds (own, above, new, verified, room) =
      schedule-Holds idle s holds t above new verified (room holds.rs holds.ws holds.inv)
  run-Holds (allocate signal) s holds (own, words, choice) =
      allocate-Holds idle s holds own words signal choice
  run-Holds (free signals) s holds (own, words, single, held) =
      free-Holds idle s holds own words signals single held
  run-Holds (set_prio t prio) s holds (own, valid, not_ready) =
      set_prio-Holds idle s holds own t prio valid not_ready
  run-Holds mask s holds can = mask-Holds idle s holds can.0
  run-Holds unmask s holds (own, nested) = unmask-Holds idle s holds own.0 nested
  run-Holds tick s holds on = tick-Holds idle s holds
  run-Holds (switch frame) s holds (on, pending, inside) = switch-Holds idle s holds frame inside

  after_run :
      (s2 : System) (r : Run System (Unit {0}))
      → Returns (λ _ s'. Holds idle s') r
      → r ≡ ok tt s2
      → Holds idle s2
  after_run s2 r h e = subst (Returns (λ _ s'. Holds idle s')) e h

  pub Reaches-Holds : (s s' : System) → Reaches idle s s' → Holds idle s → Holds idle s'
  Reaches-Holds s s' done holds = holds
  Reaches-Holds s s2 (next {s1} e before can ran) holds =
      after_run s2 (run e s1) (run-Holds e s1 (Reaches-Holds s s1 before holds) can) ran

  -- From a state with the invariant of the system, whatever calls, interrupts and switches come, one
  -- after another and each when it can: the next one that can come ends well, with no failed
  -- assertion, no access through `NULL`, no endless loop and enough fuel.
  pub Reaches-progress :
      (s s' : System) (e : Event)
      → Holds idle s
      → Reaches idle s s'
      → Allowed idle e s'
      → Returns (λ _ s2. Reaches idle s s2) (run e s')
  Reaches-progress s s' e holds before can =
      let (_, s2, ran, _) =
        Returns-run (λ _ s2. Holds idle s2) (run e s')
          (run-Holds e s' (Reaches-Holds s s' before holds) can) in
      rw ran (next e before can ran)

  -- Take a state with the invariant of the system, and any sequence of calls, interrupts and
  -- switches, each when it can come. After it at most one task is in the state of a running task,
  -- the one that the kernel calls running, and no wake-up is lost: a task that waits has received
  -- none of the signals that it waits for.
  pub Reaches-served :
      (s s' : System)
      → Holds idle s
      → Reaches idle s s'
      → ((t : Ptr) → (s'.kernel.tasks t).state ≡ task_running → t ≡ s'.kernel.running)
        × ((t : Ptr)
            → (s'.kernel.tasks t).state ≡ task_waiting
            → meets (s'.kernel.tasks t).sig_wait (s'.kernel.tasks t).sig_recvd ≡ false)
  Reaches-served s s' holds before =
      let after = Reaches-Holds s s' before holds in
      (
        after.inv.sched.only_running,
        λ t w.
            All-Has (λ x. IsUnserved (s'.kernel.tasks x)) t after.ws
              (after.inv.sched.states.waiting_listed t w) after.inv.sched.states.unserved,
      )
