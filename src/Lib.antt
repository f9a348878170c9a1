-- ===== src/Lib.antt =====
-- Martos: a model of the kernel of a small real-time operating system in C, and what is proved of
-- it.
--
-- The program's parts. Doubly linked lists (src/list.c) hold tasks, requests, messages and timers.
-- A task (src/task.c, include/martos/martos.h) is running, ready or waiting; the kernel keeps the
-- ready tasks in a list by priority and the waiting ones in another (src/private.h, src/data.c).
-- Tasks send each other signals and wait for them. PendSV_Handler_user of
-- platforms/stm32f4-discovery/platform.c switches tasks; disable and enable of that file mask
-- interrupts, and nest. Semaphores (src/semaphore.c), message ports (src/msgport.c) and timers
-- (src/timer.c) are built on lists and signals. src/init.c starts the kernel. lwip_martos/sys_arch.c
-- makes of all these what the lwIP library asks of a system: semaphores and mailboxes with
-- timeouts, and threads.
--
-- The model. A command takes a state and ends in a value and a new state, or in a fault: a read or
-- write through NULL, a failed assert, an endless loop of the source, or a loop that runs out of
-- fuel. A theorem `Returns P (f k)` says that `f` ends with no fault, and that `P` holds of what it
-- leaves.
--   Memory      the nodes: a map from addresses for each field of Node
--   NodeList    src/list.c, a read or write of a pointer at a time
--   Kernel      the global variables and the objects as one record; disable, enable, reschedule
--   Signal      signal_allocate, signal_free, signal_send and signal_wait of src/task.c
--   Task        the calls task_... of src/task.c, and taskcontext_... of platform.c
--   Switch      PendSV_Handler_user and SysTick_Handler
--   Semaphore   src/semaphore.c
--   MsgPort     src/msgport.c
--   Timer       src/timer.c, TIM2_IRQHandler
--   SysArch     lwip_martos/sys_arch.c; the heap of lwIP is a parameter, with laws for it
--   Init        src/init.c
--   Vectors     the vector table of platform.c
--   Sched       the invariant of the scheduler, and that the calls and the switch keep it; time
--               slices and the turns of tasks with one priority
--   System      the kernel as a system of events: calls of the running task, interrupts and switches
--               in any order
--   Tests       a kernel with four tasks, and each result applied to it
--   Common      lists, integers and bits
-- The fields of a struct other than those of its Node are in the Kernel, by the struct's address.
-- A static list has addresses of its own, 1 to 6, and a task lies above these.
--
-- A call that blocks (signal_wait, sem_wait, msgport_wait, timer_delay, sys_arch_sem_wait,
-- sys_arch_mbox_fetch) is cut where the task is switched out: one definition runs up to that point
-- and returns the value of the local variable nestcnt, and another goes on from where the task is
-- switched in again.
--
-- The events of System are signal_allocate, signal_free, signal_send, signal_wait, its rest behind
-- the switch, task_schedule, task_set_prio, disable, enable, SysTick_Handler and
-- PendSV_Handler_user. A state of System is the kernel and, for each task in a call of signal_wait,
-- the local variables of that call. `Allowed` says when an event can come: a task that runs and is
-- not in a call makes a call, an interrupt comes when interrupts are enabled, the frame of an
-- interrupted task lies in its stack, the idle task does not wait; signal_free gets signals that the
-- task has, and task_set_prio a task that is not ready. The calls on semaphores, ports and timers
-- are no events of it; what they leave is stated for each alone.
--
-- Bounds. `bound` of Memory is the fuel of a loop over a list; it is more than the number of nodes
-- in a list, which the invariant of the scheduler states of the two task lists, and a theorem on
-- another list assumes. The loop of msgport_wait has two rounds: after one that takes the signal no
-- signal is left, so that the second one blocks or returns. Sets of signals are words of 16 bits
-- and stack addresses words of 32 bits, with their wrap-around. Priorities, the counters of
-- disable and of semaphores are integers with no overflow.
--
-- Not modelled: the registers and the saved frames of the processor (a frame is its address), the
-- hardware set-up, the assembly, the settings of lwIP, its lock of the heap, and the example and
-- test programs. An interrupt comes between two calls or between the parts of a call that is cut,
-- and not elsewhere: within a call the code masks interrupts where it touches shared data.
pub mod Common
pub mod Memory
pub mod NodeList
pub mod Kernel
pub mod Signal
pub mod Task
pub mod Switch
pub mod Sched
pub mod Semaphore
pub mod MsgPort
pub mod Timer
pub mod Vectors
pub mod SysArch
pub mod System
pub mod Init
pub mod Tests
