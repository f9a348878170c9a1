-- ===== src/Tests/Slices.antt =====
-- The results on time slices, applied to the kernel of the example with one priority for all tasks.
use martos.Common.{◌≡◌, refl, inr, [], ◌∷◌, Apart-nil, arith}
use martos.Common.Int.{pos}
use martos.Memory.{Memory, ok, Returns}
use martos.NodeList.Chain.{IsList-outside}
use martos.Kernel.{Kernel, ready, waiting}
use martos.Kernel.Queues.{Queues}
use martos.Switch.Slices.{ticks, counting, expired, ticks-slice}
use martos.Sched.{Inv}
use martos.Sched.Rounds.{slices, IsFresh, slices-turn}
use martos.Tests.Example.{mem, kernel, kernel_Inv, state_of, ready-IsList, waiting-IsList}
use martos.Tests.Systems.{live-IsVerified}

abbrev level_mem : Memory
level_mem = record mem { prio = λ _. pos 1 }

abbrev level_kernel : Kernel
level_kernel = record kernel { mem = level_mem }

level_Queues : Queues level_mem (10 ∷ []) (11 ∷ [])
level_Queues = record {
  ready_list =
      IsList-outside mem level_mem [] ready (10 ∷ []) (λ a _. (refl, refl))
        (Apart-nil (1 ∷ 2 ∷ 10 ∷ [])) ready-IsList;
  waiting_list =
      IsList-outside mem level_mem [] waiting (11 ∷ []) (λ a _. (refl, refl))
        (Apart-nil (3 ∷ 4 ∷ 11 ∷ [])) waiting-IsList;
  ready_above = kernel_Inv.sched.queues.ready_above;
  waiting_above = kernel_Inv.sched.queues.waiting_above;
  apart = kernel_Inv.sched.queues.apart;
  ordered = (tt, tt);
  room = omega arith;
}

level_Inv : Inv level_kernel (10 ∷ []) (11 ∷ [])
level_Inv = record {
  sched = record {
    queues = level_Queues;
    states = kernel_Inv.sched.states;
    running_above = omega arith;
    live = tt;
    only_running = kernel_Inv.sched.only_running;
    spare = λ _. omega arith;
    due = inr (refl, (omega arith, tt));
  };
  masked = kernel_Inv.masked;
}

level_IsFresh : IsFresh level_kernel 1000 (10 ∷ []) (11 ∷ [])
level_IsFresh = record {
  inv = level_Inv;
  checked = λ x l. live-IsVerified (state_of x) l;
  runs = refl;
  whole = refl;
  loaded = refl;
  level = (refl, tt);
}

slices-turn_example :
    Returns
      (λ frame' k'. (k'.running ≡ 10) × IsFresh k' frame' (12 ∷ []) (11 ∷ []))
      (slices 1 1000 level_kernel)
slices-turn_example = slices-turn level_kernel 1000 [] [] (11 ∷ []) 10 level_IsFresh

ticks-slice_example :
    (ticks 3 kernel ≡ ok tt (counting 1 kernel)) × (ticks 4 kernel ≡ ok tt (expired kernel))
ticks-slice_example = ticks-slice kernel 3 (omega arith) (omega arith) (omega arith)
