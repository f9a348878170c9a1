-- ===== src/Tests/Example.antt =====
-- A kernel with one running, one ready, one waiting and one new task, which satisfies the
-- invariant of the scheduler.
use martos.Common.{
  ℕ, ◌≡◌, refl, inl, inr, true, false, none, some, List, [], ◌∷◌, ◌==◌, if◌then◌else◌, arith,
}
use martos.Common.Int.{pos, negsuc}
use martos.Memory.{Memory, Ptr, null}
use martos.NodeList.{NodeList}
use martos.NodeList.Chain.{IsList}
use martos.Kernel.{
  Kernel, Task, TaskState, Timer, msgport_signal, timer_delay, timer_added, timer_initialized,
  TimerStatus, ready, waiting, task_invalid, task_initialized, task_running, task_ready,
  task_waiting,
}
use martos.Kernel.Queues.{Queues}
use martos.Sched.{Inv}
use martos.Sched.States.{States}
use martos.Timer.Queue.{TimerQueue}
use martos.Semaphore.Requests.{Requests}

abbrev pub links : List (Ptr × Ptr) → Ptr → Ptr
links [] a = null
links ((b, v) ∷ ps) a = if a == b then v else links ps a

abbrev pub ready_task : Ptr
ready_task = 10

abbrev pub waiting_task : Ptr
waiting_task = 11

abbrev pub running_task : Ptr
running_task = 12

abbrev pub new_task : Ptr
new_task = 13

-- Nodes 20 and 21 are a list that is empty, and nodes 22 and 23 one that holds 40 and 41.
abbrev pub mem : Memory
mem = record {
  next = links (
      (1, 10)
      ∷ (10, 2)
      ∷ (3, 11)
      ∷ (11, 4)
      ∷ (20, 21)
      ∷ (22, 40)
      ∷ (40, 41)
      ∷ (41, 23)
      ∷ (5, 50)
      ∷ (50, 51)
      ∷ (51, 6)
      ∷ []);
  prev = links (
      (10, 1)
      ∷ (2, 10)
      ∷ (11, 3)
      ∷ (4, 11)
      ∷ (21, 20)
      ∷ (40, 22)
      ∷ (41, 40)
      ∷ (23, 41)
      ∷ (50, 5)
      ∷ (51, 50)
      ∷ (6, 51)
      ∷ []);
  name = λ a. if a == 10 then some "low" else if a == 11 then some "high" else none;
  prio =
      λ a. if a == 10 then pos 1 else if a == 11 then pos 5 else if a == 12 then pos 2 else pos 0;
  bound = 8;
}

abbrev pub task_in : TaskState → Task
task_in st = record {
  context = record { frame = 1000; bos = 900; tos = 1100 };
  sig_alloc = 9;
  sig_wait = 1;
  sig_recvd = 0;
  id_nestcnt = negsuc 0;
  state = st;
}

abbrev pub state_of : Ptr → TaskState
state_of a =
    if a == 10
    then task_ready
    else if a == 11
    then task_waiting
    else if a == 12
    then task_running
    else if a == 13
    then task_initialized
    else task_invalid

abbrev pub empty_list : NodeList
empty_list = record { head = 20; tail = 21 }

abbrev pub two_list : NodeList
two_list = record { head = 22; tail = 23 }

-- A timer for a task, with its tick.
abbrev pub example_timer : Ptr → ℕ → TimerStatus → Timer
example_timer t n st = record {
  task = t;
  signal = 1;
  delay = 1;
  tick = n;
  op = timer_delay;
  status = st;
}

-- Semaphore 30 has the requests 40, of the waiting task, and 41. Any other has no request and the
-- count 0. In the same way, 40 and 41 are the messages of port 32, and any other port is empty. The timers 50
-- and 51 are in the queue, and the first has elapsed.
abbrev pub kernel : Kernel
kernel = record {
  mem = mem;
  tasks = λ a. task_in (state_of a);
  running = running_task;
  id_nestcnt = negsuc 0;
  elapsed = 4;
  irq = true;
  pendsv = false;
  timer_now = 7;
  semaphores = λ a.
      if a == 30
      then record { req_queue = two_list; count = negsuc 1 }
      else record { req_queue = empty_list; count = pos 0 };
  requests = λ a.
      if a == 40 then record { waiter = 11; signal = 1 } else record { waiter = 10; signal = 1 };
  ports = λ a.
      if a == 32
      then record { message_list = two_list; task = 11; signal = 1; action = msgport_signal }
      else record { message_list = empty_list; task = null; signal = 2; action = msgport_signal };
  reply_ports = λ _. null;
  timer_objects = λ a.
      if a == 50
      then example_timer 11 5 timer_added
      else if a == 51
      then example_timer 10 9 timer_added
      else example_timer 12 0 timer_initialized;
}

pub ready-IsList : IsList mem ready (10 ∷ [])
ready-IsList = record {
  chain = ((refl, refl), (refl, refl));
  head_prev = refl;
  tail_next = refl;
  distinct = ((λ e. omega arith, (λ e. omega arith, tt)), ((λ e. omega arith, tt), (tt, tt)));
  valid = (λ e. omega arith, (λ e. omega arith, (λ e. omega arith, tt)));
}

pub waiting-IsList : IsList mem waiting (11 ∷ [])
waiting-IsList = record {
  chain = ((refl, refl), (refl, refl));
  head_prev = refl;
  tail_next = refl;
  distinct = ((λ e. omega arith, (λ e. omega arith, tt)), ((λ e. omega arith, tt), (tt, tt)));
  valid = (λ e. omega arith, (λ e. omega arith, (λ e. omega arith, tt)));
}

pub empty_IsList : IsList mem empty_list []
empty_IsList = record {
  chain = (refl, refl);
  head_prev = refl;
  tail_next = refl;
  distinct = ((λ e. omega arith, tt), (tt, tt));
  valid = (λ e. omega arith, (λ e. omega arith, tt));
}

queues : Queues mem (10 ∷ []) (11 ∷ [])
queues = record {
  ready_list = ready-IsList;
  waiting_list = waiting-IsList;
  ready_above = (omega arith, tt);
  waiting_above = (omega arith, tt);
  apart = ((λ e. omega arith, tt), tt);
  ordered = (tt, tt);
  room = omega arith;
}

pub is_ready : (t : Ptr) → state_of t ≡ task_ready → t ≡ 10
is_ready t h = ground arith

is_waiting : (t : Ptr) → state_of t ≡ task_waiting → t ≡ 11
is_waiting t h = ground arith

is_running : (t : Ptr) → state_of t ≡ task_running → t ≡ 12
is_running t h = ground arith

states : States kernel.tasks (10 ∷ []) (11 ∷ [])
states = record {
  ready_state = (refl, tt);
  waiting_state = (refl, tt);
  unserved = (refl, tt);
  ready_listed = λ t h. inl (is_ready t h);
  waiting_listed = λ t h. inl (is_waiting t h);
}

pub kernel_Inv : Inv kernel (10 ∷ []) (11 ∷ [])
kernel_Inv = record {
  sched = record {
    queues = queues;
    states = states;
    running_above = omega arith;
    live = tt;
    only_running = λ t h. is_running t h;
    spare = λ _. omega arith;
    due = inr (refl, (omega arith, tt));
  };
  masked = record { irq_below = refl; nested = omega arith };
}

pub sem_Requests : Requests kernel (10 ∷ []) (11 ∷ []) 30 (40 ∷ 41 ∷ [])
sem_Requests = record {
  beside = record {
    holds = record {
      chain = ((refl, refl), ((refl, refl), (refl, refl)));
      head_prev = refl;
      tail_next = refl;
      distinct = ground arith;
      valid = ground arith;
    };
    apart = ground arith;
  };
  enough = omega arith;
}

pub timer_TimerQueue : TimerQueue kernel (10 ∷ []) (11 ∷ []) (50 ∷ 51 ∷ [])
timer_TimerQueue = record {
  beside = record {
    holds = record {
      chain = ((refl, refl), ((refl, refl), (refl, refl)));
      head_prev = refl;
      tail_next = refl;
      distinct = ground arith;
      valid = ground arith;
    };
    apart = ground arith;
  };
  sorted = ((omega arith, tt), (tt, tt));
}
