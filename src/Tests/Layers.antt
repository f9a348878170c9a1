-- ===== src/Tests/Layers.antt =====
-- The results on the system layer of lwIP, applied to the kernel of the example and to a heap that
-- gives out each address from 100 to 199 once.
use martos.Common.{
  ℕ, ◌+◌, ◌-◌, ◌≤◌, ◌<◌, ◌≡◌, refl, inl, inr, true, false, if◌then◌else◌, Bool-cases, ltb, [], ◌∷◌,
  none, some, arith,
}
use martos.Common.{==-eq_false, ◌==◌, sym}
use martos.Common.Int.{pos, negsuc, ◌+ℤ◌}
use martos.Kernel.{Kernel, Task, msgport_ignore, task_running, timer_done}
use martos.Sched.{Inv}
use martos.Sched.Keep.{Sched-keep}
use martos.Sched.Wake.{waiting_not_running}
use martos.SysArch.Blocking.{sys_arch_sem_wait_resume}
use martos.SysArch.TimingOut.{TimedOut, sys_arch_sem_wait_resume-TimedOut}
use martos.Memory.{Ptr, null, Returns, ◌>>◌}
use martos.SysArch.{Lwip, Layer, sys_mbox_new, sys_mbox_post}
use martos.SysArch.Blocking.{sys_arch_mbox_fetch}
use martos.SysArch.Heap.{HeapLaws}
use martos.SysArch.Posting.{Outcome, sys_mbox_post-Outcome}
use martos.SysArch.Fifo.{posts, fetches, mailbox-fifo}
use martos.SysArch.FirstFetch.{FirstFetched, sys_arch_mbox_fetch-FirstFetched}
use martos.Tests.Example.{
  kernel, kernel_Inv, sem_Requests, two_list, task_in, state_of, example_timer,
}

abbrev lwip : Lwip ℕ
lwip = record {
  mem_malloc = λ _ h. if ltb h 100 then (100 + h, h + 1) else (null, h);
  mem_free = λ _ h. h;
  inc_used = λ h. h;
  dec_used = λ h. h;
  err_ok = 0;
  arch_timeout = 4294967295;
  mbox_empty = 4294967295;
}

abbrev FreeAt : ℕ → Ptr → Type 0
FreeAt h p = (100 + h ≤ p) × (p < 200)

abbrev room : ℕ → ℕ
room h = 100 - h

heap_laws : HeapLaws lwip FreeAt room
heap_laws = record {
  malloc_free = λ _ h. elim (Bool-cases (ltb h 100)) [
    | inl e ↦ rw e (inr (omega arith, ground arith))
    | inr e ↦ rw e (inl refl)
  ];
  malloc_taken = λ _ h. elim (Bool-cases (ltb h 100)) [
    | inl e ↦ rw e λ p f. ((omega (arith, f.0), f.1), λ q. omega (arith, f.0))
    | inr e ↦ rw e λ p f. (f, λ q. ground arith)
  ];
  malloc_room = λ h l.
      let e : ltb h 100 ≡ true = ground arith in
      rw e (λ (z : 100 + h ≡ 0). omega arith, ground arith);
  free_back = λ p h q f. inl f;
  inc_used_free = λ h p f. f;
  inc_used_room = λ h. omega arith;
}

abbrev layer : Layer ℕ
layer = record { kernel = kernel; library = 0; payloads = λ _. null }

sys_mbox_post-Outcome_example :
    Outcome lwip FreeAt room heap_laws 32 7 layer
      (10 ∷ [])
      (11 ∷ [])
      (40 ∷ 41 ∷ [])
      (sys_mbox_post lwip 32 7 layer)
sys_mbox_post-Outcome_example =
    sys_mbox_post-Outcome lwip FreeAt room heap_laws 32 7 layer (10 ∷ []) (11 ∷ []) (40 ∷ 41 ∷ [])
      (λ e. omega arith) kernel_Inv sem_Requests.beside refl
      (
        λ f. omega (arith, f.0),
        (λ f. omega (arith, f.0), (λ f. omega (arith, f.0), (λ f. omega (arith, f.0), tt))),
      )
      (ground arith)

mailbox-fifo_example :
    Returns
      (λ out _. out ≡ (0, some 7) ∷ (0, some 8) ∷ (0, some 9) ∷ (4294967295, none) ∷ [])
      ((sys_mbox_new lwip 33 >> posts lwip 33 (7 ∷ 8 ∷ 9 ∷ []) >> fetches lwip 33 4) layer)
mailbox-fifo_example =
    mailbox-fifo lwip FreeAt room heap_laws 33 (λ e. omega arith) (10 ∷ []) (11 ∷ [])
      (7 ∷ 8 ∷ 9 ∷ []) layer kernel_Inv (λ e. omega arith) (λ e. omega arith) (λ e. omega arith)
      (ground arith) (ground arith) (omega arith)

abbrev first_layer : Layer ℕ
first_layer = record layer {
  kernel = record kernel {
    ports =
        λ _. record { message_list = two_list; task = null; signal = 0; action = msgport_ignore };
  };
}

sys_arch_mbox_fetch-FirstFetched_example :
    FirstFetched lwip 32 true 60 first_layer
      (10 ∷ [])
      (11 ∷ [])
      (40 ∷ 41 ∷ [])
      (sys_arch_mbox_fetch lwip 32 true 0 60 first_layer)
sys_arch_mbox_fetch-FirstFetched_example =
    sys_arch_mbox_fetch-FirstFetched lwip 32 true 60 first_layer (10 ∷ []) (11 ∷ []) (40 ∷ 41 ∷ [])
      (λ e. omega arith) (record { sched = kernel_Inv.sched; masked = kernel_Inv.masked }) refl
      (record { alloc = omega arith; wait = omega arith; recvd = omega arith }) refl
      sem_Requests.beside.holds (ground arith)

-- The running task runs again in a wait for semaphore 30, with request 40 and timer 60, whose
-- signals are 4 and 8. The timer's has come.
abbrev late_task : Task
late_task = record (task_in task_running) { sig_alloc = 13; sig_wait = 12; sig_recvd = 8 }

abbrev late_kernel : Kernel
late_kernel = record kernel {
  tasks = λ a. if a == 12 then late_task else task_in (state_of a);
  requests = λ _. record { waiter = 12; signal = 4 };
  timer_objects = λ _. record (example_timer 12 5 timer_done) { signal = 8 };
}

late_kernel_Inv : Inv late_kernel (10 ∷ []) (11 ∷ [])
late_kernel_Inv = record {
  sched =
      Sched-keep kernel.tasks late_kernel.tasks 12 (λ x ne. rw (==-eq_false x 12 ne) refl) refl
        kernel.mem 12 false (10 ∷ []) (11 ∷ []) kernel_Inv.sched
        λ w _. absurd (waiting_not_running (sym w));
  masked = kernel_Inv.masked;
}

sys_arch_sem_wait_resume-TimedOut_example :
    Returns
      (TimedOut lwip 40 60 3 late_kernel (10 ∷ []) (11 ∷ []) 30 [] (41 ∷ []))
      (sys_arch_sem_wait_resume lwip 40 60 3 8 12 (pos 0) late_kernel)
unfolding ◌+ℤ◌
sys_arch_sem_wait_resume-TimedOut_example =
    sys_arch_sem_wait_resume-TimedOut lwip 40 60 3 late_kernel (10 ∷ []) (11 ∷ []) 30 [] (41 ∷ [])
      (negsuc 0) (pos 0) refl (omega arith)
      (record {
        inv = late_kernel_Inv;
        runs = refl;
        words = record { alloc = omega arith; wait = omega arith; recvd = omega arith };
        waits = refl;
        real = λ e. omega arith;
        done = refl;
        over = refl;
        missing = refl;
        timer_owned = record { single = refl; held = refl };
        own_owned = record { single = refl; held = refl };
        distinct = refl;
      })
      (record { beside = sem_Requests.beside; enough = sem_Requests.enough })
