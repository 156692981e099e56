-- ===== src/Sched.antt =====
-- uthread_sched.c: preemption, the run queue, and waking a thread.
pub mod Preempt
pub mod Wake
pub mod Scheduled
pub mod Taking
pub mod Moving
use multi_process_threading.Base.{
  ℕ, zero, suc, ◌+◌, ◌-◌, Bool, true, false, not, ◌&&◌, ◌||◌, Option, none, some, ◌==◌, ltb,
  if◌then◌else◌, update, is_none,
}
use multi_process_threading.State.{
  State, Tid, QueueId, runq_table, PmutId, runq_mtx, UthreadState, ut_no_state, ut_on_cpu,
  ut_runnable, ut_wait, ut_zombie, ut_transition, uth_maxprio, uth_max_uthreads,
}
use multi_process_threading.State.Int.{ℤ, pos, negsuc, is_neg, ltz, eqz}
use multi_process_threading.Cmd.{
  Run, Cmd, switching, pure, ◌>>=◌, ◌>>◌, bind, gets, modify, assert, fail, assert_failed, panicked,
  out_of_bounds, curthr, pthread_mutex_lock, pthread_mutex_unlock, is_masked, set_mask,
}
use multi_process_threading.Queue.{utqueue_empty, utqueue_enqueue, utqueue_dequeue, utqueue_remove}

abbrev pub is_state : UthreadState → UthreadState → Bool
is_state ut_no_state ut_no_state = true
is_state ut_on_cpu ut_on_cpu = true
is_state ut_runnable ut_runnable = true
is_state ut_wait ut_wait = true
is_state ut_zombie ut_zombie = true
is_state ut_transition ut_transition = true
is_state _ _ = false

abbrev pub set_state : Tid → UthreadState → State → State
set_state t u s = record s { uths = record (s.uths) { ut_state = update s.ut_state t u } }

abbrev pub set_prio : Tid → ℤ → State → State
set_prio t p s = record s { uths = record (s.uths) { ut_prio = update s.ut_prio t p } }

abbrev pub set_count : Tid → ℕ → State → State
set_count t n s = record s {
  uths = record (s.uths) { ut_no_preempt_count = update s.ut_no_preempt_count t n };
}

-- The left operand of `assert(!is_masked() || ut_curthr->ut_no_preempt_count)` decides whether the
-- right one is read.
unfoldable pub nesting_agrees : Bool → Cmd Bool
nesting_agrees false = pure true
nesting_agrees true = do t ← curthr; n ← gets (λ s. s.ut_no_preempt_count t); pure (ltb 0 n)

unfoldable pub uthread_nopreempt_on : Cmd (Unit {0})
uthread_nopreempt_on = do
  masked ← is_masked
  agrees ← nesting_agrees masked
  assert agrees
  set_mask true
  t ← curthr
  modify (λ s. set_count t (s.ut_no_preempt_count t + 1) s)
  n ← gets (λ s. s.ut_no_preempt_count t)
  assert (ltb 0 n)

unfoldable pub uthread_nopreempt_off : Cmd (Unit {0})
uthread_nopreempt_off = do
  masked ← is_masked
  assert masked
  t ← curthr
  n ← gets (λ s. s.ut_no_preempt_count t)
  assert (ltb 0 n)
  modify (set_count t (n - 1))
  if n - 1 == 0 then set_mask false else pure tt

-- `runq_table[prio]`, an array of `uth_maxprio + 1` queues
unfoldable pub runq : ℤ → Cmd QueueId
runq (pos p) = if ltb uth_maxprio p then fail out_of_bounds else pure (runq_table p)
runq (negsuc _) = fail out_of_bounds

-- `lwp_release` signals `lwp_park_cond`. A parked LWP may also wake for no reason, so the model
-- lets each one wake at any time, and the signal itself changes nothing.
unfoldable pub lwp_release : Cmd (Unit {0})
lwp_release = pure tt

abbrev pub set_runq_size : ℕ → State → State
set_runq_size n s = record s { runq_size = n }

unfoldable pub uthread_runq_enqueue : Tid → Cmd (Unit {0})
uthread_runq_enqueue thr = do
  prio ← gets (λ s. s.ut_prio thr)
  q ← runq prio
  utqueue_enqueue q thr
  modify (λ s. set_runq_size (s.runq_size + 1) s)
  n ← gets (λ s. s.runq_size)
  if n == 1 then lwp_release else pure tt

unfoldable pub uthread_runq_requeue : Tid → ℤ → Cmd (Unit {0})
uthread_runq_requeue thr oldprio = do
  old ← runq oldprio
  utqueue_remove old thr
  prio ← gets (λ s. s.ut_prio thr)
  new ← runq prio
  utqueue_enqueue new thr

-- `pthread_mutex_unlock(&runq_mtx); uthread_nopreempt_off();`
unfoldable pub release_runq : Cmd (Unit {0})
release_runq = do pthread_mutex_unlock runq_mtx; uthread_nopreempt_off

unfoldable pub wake_waiting : Tid → Cmd (Unit {0})
wake_waiting uthr = do modify (set_state uthr ut_runnable); uthread_runq_enqueue uthr; release_runq

unfoldable pub uthread_wake : Tid → Cmd (Unit {0})
uthread_wake uthr = do
  u ← gets (λ s. s.ut_state uthr)
  assert (not (is_state u ut_no_state))
  uthread_nopreempt_on
  pthread_mutex_lock runq_mtx
  u ← gets (λ s. s.ut_state uthr)
  if is_state u ut_wait then wake_waiting uthr else release_runq

unfoldable pub start_transition : Tid → UthreadState → Cmd (Unit {0})
start_transition thr u =
    if is_state u ut_transition
    then (do modify (set_state thr ut_runnable); uthread_runq_enqueue thr)
    else fail panicked

unfoldable pub uthread_startonrunq : Tid → ℤ → Cmd (Unit {0})
uthread_startonrunq thr prio = do
  uthread_nopreempt_on
  pthread_mutex_lock runq_mtx
  modify (set_prio thr prio)
  u ← gets (λ s. s.ut_state thr)
  start_transition thr u
  release_runq
