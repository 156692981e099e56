-- ===== src/Thread/Life.antt =====
-- uthread.c: `make_reapable` and `uthread_exit`; uthread_ctx.c: `thread_start`.
pub mod Exit
pub mod Detached
use multi_process_threading.Base.{
  ℕ, Bool, true, false, not, Option, none, some, ◌==◌, if◌then◌else◌,
}
use multi_process_threading.State.{
  State, Tid, MtxId, CondId, ut_pmut, ut_waiter, reap_queue, ut_zombie,
}
use multi_process_threading.Cmd.{
  Cmd, pure, ◌>>=◌, ◌>>◌, bind, gets, modify, assert, fail, panicked, curthr, pthread_mutex_lock,
  pthread_mutex_unlock, is_masked,
}
use multi_process_threading.Queue.{utqueue_enqueue, utqueue_dequeue}
use multi_process_threading.Sched.{
  is_state, set_state, uthread_nopreempt_on, uthread_nopreempt_off, uthread_wake,
}
use multi_process_threading.Switch.{uthread_switch}
use multi_process_threading.Mtx.{uthread_mtx_lock, uthread_mtx_unlock}
use multi_process_threading.Cond.{wake_if_some, uthread_cond_signal}
use multi_process_threading.Thread.Alloc.{set_exit}

-- `reap_mtx` and `reap_cond` among the mutexes and conditions.
abbrev pub reap_mtx : MtxId
reap_mtx = 0

abbrev pub reap_cond : CondId
reap_cond = 0

-- `ut_pmut` of the thread and `reap_mtx`, released in this order.
unfoldable pub release_reap : Tid → Cmd (Unit {0})
release_reap uth = do pthread_mutex_unlock (ut_pmut uth); uthread_mtx_unlock reap_mtx

unfoldable pub add_reapable : Tid → Cmd (Unit {0})
add_reapable uth = do
  utqueue_enqueue reap_queue uth
  uthread_cond_signal reap_cond
  t ← curthr
  release_reap uth
  if uth == t then (do uthread_switch none false none; fail panicked) else pure tt

unfoldable pub make_reapable : Tid → Cmd (Unit {0})
make_reapable uth = do
  masked ← is_masked
  assert masked
  u ← gets (λ s. s.ut_state uth)
  if is_state u ut_zombie then add_reapable uth else release_reap uth

-- Both branches of `uthread_exit`, up to the switch.
unfoldable pub exit_detached : Tid → Cmd (Unit {0})
exit_detached t = make_reapable t

unfoldable pub exit_joinable : Tid → Cmd (Unit {0})
exit_joinable t = do
  waiter ← utqueue_dequeue (ut_waiter t)
  wake_if_some waiter
  uthread_mtx_unlock reap_mtx

unfoldable pub uthread_exit : {A : Type 0} → ℕ → Cmd A
uthread_exit status = do
  uthread_nopreempt_on
  uthread_mtx_lock reap_mtx
  t ← curthr
  pthread_mutex_lock (ut_pmut t)
  modify (set_state t ut_zombie)
  modify (set_exit t status)
  detached ← gets (λ s. s.ut_detached t)
  if detached then exit_detached t else exit_joinable t
  uthread_switch none false (some (ut_pmut t))
  fail panicked

-- The first function of a thread's context; `func` is the caller's, with its arguments.
unfoldable pub thread_start : {A : Type 0} → Cmd ℕ → Cmd A
thread_start func = do
  uthread_nopreempt_off
  masked ← is_masked
  assert (not masked)
  ret ← func
  uthread_exit ret
