-- ===== src/Prio.antt =====
-- uthread_sched.c: `uthread_setprio`, and the clock interrupt.
pub mod Laws
pub mod Clock
use multi_process_threading.Base.{
  ℕ, ◌-◌, Bool, true, false, not, ◌&&◌, ◌||◌, Option, none, some, ◌==◌, ltb, if◌then◌else◌,
}
use multi_process_threading.State.{
  State, Tid, runq_mtx, UthreadState, ut_no_state, ut_on_cpu, ut_runnable, ut_zombie, ut_transition,
  uth_maxprio, uth_max_uthreads,
}
use multi_process_threading.State.Int.{ℤ, pos, negsuc, is_neg, ltz, eqz}
use multi_process_threading.Cmd.{
  may_tick, Cmd, pure, ◌>>=◌, ◌>>◌, bind, gets, modify, assert, curthr, pthread_mutex_lock,
  is_masked, set_mask,
}
use multi_process_threading.Sched.{
  is_state, set_prio, set_count, uthread_nopreempt_on, uthread_runq_requeue, release_runq,
}
use multi_process_threading.Switch.{uthread_yield}

-- The codes of errno.h that the library returns.
pub data Errno : Type 0 where
  success einval esrch eagain : Errno

-- The thread array at an `int`: no such index below 0 or from `uth_max_uthreads` on.
unfoldable pub index_of : ℤ → Option Tid
index_of (pos n) = if ltb n uth_max_uthreads then some n else none
index_of (negsuc _) = none

-- A thread that `uthread_setprio` refuses.
abbrev pub is_inactive : UthreadState → Bool
is_inactive u = is_state u ut_no_state || is_state u ut_transition || is_state u ut_zombie

-- `thr` has the new priority; if it is on the run queue it changes lists, and the caller yields to
-- it if it is the better one.
unfoldable pub requeue_if : Bool → Tid → ℤ → Cmd (Unit {0})
requeue_if runnable thr oldprio = if runnable then uthread_runq_requeue thr oldprio else pure tt

unfoldable pub yield_if : Bool → Cmd (Unit {0})
yield_if better = if better then (release_runq >> (may_tick >> uthread_yield)) else release_runq

unfoldable pub change_prio : Tid → ℤ → Cmd Errno
change_prio thr prio = do
  oldprio ← gets (λ s. s.ut_prio thr)
  modify (set_prio thr prio)
  u ← gets (λ s. s.ut_state thr)
  requeue_if (is_state u ut_runnable) thr oldprio
  t ← curthr
  mine ← gets (λ s. s.ut_prio t)
  u ← gets (λ s. s.ut_state thr)
  yield_if (ltz mine prio && is_state u ut_runnable)
  pure success

unfoldable pub setprio_thread : Tid → ℤ → Cmd Errno
setprio_thread thr prio = do
  uthread_nopreempt_on
  pthread_mutex_lock runq_mtx
  u ← gets (λ s. s.ut_state thr)
  old ← gets (λ s. s.ut_prio thr)
  if is_inactive u
      then (do release_runq; pure einval)
      else (if eqz old prio then (do release_runq; pure success) else change_prio thr prio)

unfoldable pub uthread_setprio : ℤ → ℤ → Cmd Errno
uthread_setprio id prio =
    if ltz (pos uth_maxprio) prio || is_neg prio
    then pure einval
    else elim (index_of id) [ none ↦ pure esrch | some thr ↦ setprio_thread thr prio ]

-- The handler of SIGVTALRM. The kernel masks the signal while it runs, and unmasks it on return.
unfoldable pub clock_interrupt : Cmd (Unit {0})
clock_interrupt = do
  set_mask true
  t ← curthr
  u ← gets (λ s. s.ut_state t)
  assert (is_state u ut_on_cpu)
  n ← gets (λ s. s.ut_no_preempt_count t)
  assert (n == 0)
  modify (set_count t 1)
  uthread_yield
  t ← curthr
  n ← gets (λ s. s.ut_no_preempt_count t)
  assert (n == 1)
  masked ← is_masked
  assert masked
  modify (set_count t 0)
  set_mask false
