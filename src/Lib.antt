-- ===== src/Lib.antt =====
-- A verification library for the user threads of this repository: an M-to-N threads package in C,
-- where threads (`uthread_t`) are run by posix threads, its LWPs.
--
-- The program's parts, and the files about them:
--   * list.h and uthread_queue.c, queues of threads on a circular doubly linked list. Link.antt
--     has them on a heap of links, with each assignment of the macros; Link/Chain, Link/Insert,
--     Link/Remove, Link/Refine and Link/Frame are proofs. State/Fifo.antt has the same queues as
--     lists, oldest first, and Queue.antt the calls of them on the library's state.
--   * uthread.h and the globals of uthread.c and uthread_sched.c: State.antt. A struct's field is
--     a family over the structs' indices (`ut_state t` is `uthreads[t].ut_state`), a thread-local
--     variable a family over LWPs, and a posix mutex the LWP that holds it, if any. `int` is ℤ of
--     State/Int.antt where the source tests for negative values, ℕ elsewhere; no count that the
--     library keeps can pass the number of threads, or of nested calls.
--   * wrapper.c and the monad: Cmd.antt. A command runs on one LWP and stops where others come
--     in: it asks for a posix mutex, has released one, or leaves the LWP in `uthread_switch`. It
--     also stops where the clock interrupt may come.
--     What goes wrong is a fault: a failed assertion, PANIC, a posix error (wrapper.c aborts),
--     NULL, an index outside `runq_table`. Cmd/Solo.antt runs a command while the other LWPs
--     stand still, and Cmd/Reach.antt names the points that it comes to.
--   * uthread_sched.c: Sched.antt (preemption, run queue, `uthread_wake`, `uthread_startonrunq`),
--     Switch.antt (`uthread_switch`, `uthread_yield`, `lwp_switch`, `lwp_park`), Prio.antt
--     (`uthread_setprio`, `clock_interrupt`). `Switch.Laws.Leaves` is the contract of a call that
--     gives up the processor: the state in which the thread leaves the LWP, its continuation, and
--     the run of `lwp_leave` from that state, which does what the thread asked for before the LWP
--     looks for another one. `Switch.Laws.Parks` keeps of this only the continuation and the
--     state after `lwp_leave`.
--   * uthread_mtx.c: Mtx.antt. uthread_cond.c: Cond.antt.
--   * uthread.c: Thread/Alloc.antt (`uthread_alloc`, `uthread_create`, `uthread_self`),
--     Thread/Life.antt (`make_reapable`, `uthread_exit`, and `thread_start` of uthread_ctx.c),
--     Thread/Join.antt (`uthread_join`, `uthread_detach`), Thread/Reaper.antt (`uthread_destroy`,
--     `reaper`), Thread/Start.antt (`uthread_start`, `create_first_thr`, `lwp_start`, and
--     `uthread_sched_init` of uthread_sched.c).
--   * The whole program: System.antt. A thread's function is a `Prog`, the calls that it makes
--     and what it does with their answers; `exec` is one call. A `System` is the memory, where
--     each LWP stands, and the saved contexts. A step is what one LWP does up to its next pause
--     point: `step` (it goes on, gets the posix mutex that it asks for, or wakes in `lwp_park`),
--     `tick` (the clock interrupt, where it is not masked, of a thread that runs its own code or
--     is at a point of a call where it may come), or
--     `uthread_makecontext`, which in the model comes at any time and on any slot.
--     System/Launch.antt is the program as `uthread_start` leaves it, with its eight LWPs.
--   * The lock discipline: Discipline.antt says which posix mutex guards which part of the state,
--     and `Keeps` that a command writes such a part only while its LWP holds the mutex, whatever
--     the others do where it pauses, and asks for a mutex only while those that it holds are of a
--     lower `rank`, and that a thread joins a mutex's waiters only while it has an owner. The
--     files below it follow every call of the library by rules (`Op-...`, composed along the do
--     blocks). System/Guarded.antt and System/Steps.antt carry the discipline through the steps;
--     System/Exclusion.antt and System/Order.antt say what it gives. A thread's `ut_pmut` is not
--     tracked: it is initialised again when a slot is used again, and an LWP may leave
--     `uthread_detach` with one (Thread/Join/Holding.antt).
-- Files below one of these are proofs about it. Sched/Scheduled.antt has the run queue's
-- invariant, Sched/Taking.antt and Sched/Moving.antt a thread that leaves its queue or changes
-- it; the files below Invariant.antt are about the invariant and the operations.
-- Tests/Machine.antt has concrete machines, and the rest of Tests applies the theorems to them.
--
-- `Scheduled s` is the invariant: a run queue holds just the threads in UT_RUNNABLE that have its
-- priority, once each, and the counts agree. `IsRunning s t` says that `t` runs on the LWP of the
-- step and that SIGVTALRM is masked just when its nesting count is positive. `CanAdd` says that a
-- thread is on no queue and has a legal priority, and what its run queue holds.
--
-- Bounds: `wake_all` has one round more than the queue is long, and so has `reap_all`, which is
-- enough as each round takes a thread off; `lwp_look` needs two, since `lwp_park` returns with a
-- thread to run. The rounds of the reaper's outer loop and of its wait are arguments. A loop of
-- the machine that runs out of fuel is a fault, where the machine has no step; the theorems about
-- it hold for all bounds.
--
-- Not modelled: contexts (`uthread_makecontext` fills a structure for the C library; the saved
-- context of a thread is the continuation that its last pause left), the timer, `errno`,
-- printing, and the posix threads' creation: the other LWPs' first steps come after
-- `uthread_start`, which holds `runq_mtx` when it makes them. Inside a call of the library the
-- clock interrupt may come at the points called `may_tick`: in `uthread_alloc`, `uthread_create`,
-- `uthread_cond_wait` and `uthread_setprio`, outside the stretches that mask it. The other calls
-- mask it but for their ends, where they test arguments, assert or return, and there it is not a
-- step. What a thread's function does with its own memory is not in the model.
-- `pthread_cond_signal` on `lwp_park_cond` does nothing, because a parked LWP may wake at any time.
-- `malloc`'s answer is an argument.
pub mod Base
pub mod Discipline
pub mod Link
pub mod State
pub mod Cmd
pub mod Queue
pub mod Sched
pub mod Switch
pub mod Prio
pub mod Mtx
pub mod Cond
pub mod Thread
pub mod Invariant
pub mod System
pub mod Tests
