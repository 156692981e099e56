-- ===== src/Thread/Reaper.antt =====
-- uthread.c: `uthread_destroy` and the reaper.
pub mod Laws
pub mod Gone
use multi_process_threading.Base.{
  ℕ, zero, suc, ◌+◌, Bool, true, false, not, ◌&&◌, ◌||◌, Option, none, some, ◌==◌, if◌then◌else◌,
}
use multi_process_threading.State.{
  State, Tid, ut_pmut, ut_waiter, reap_queue, UthreadState, ut_no_state, ut_zombie,
  uth_max_uthreads,
}
use multi_process_threading.Cmd.{
  Cmd, exiting, pure, ◌>>=◌, ◌>>◌, bind, gets, modify, assert, fail, out_of_fuel, deref,
  pthread_mutex_lock, pthread_mutex_unlock,
}
use multi_process_threading.Queue.{queue_of, utqueue_init, utqueue_empty, utqueue_dequeue}
use multi_process_threading.Sched.{is_state, set_state, uthread_nopreempt_on, uthread_nopreempt_off}
use multi_process_threading.Mtx.{uthread_mtx_init, uthread_mtx_lock}
use multi_process_threading.Cond.{uthread_cond_init, uthread_cond_wait}
use multi_process_threading.Thread.Alloc.{set_stack, set_exit, set_detached, reset_ut_pmut}
use multi_process_threading.Thread.Life.{reap_mtx, reap_cond}

unfoldable pub free_stack : Tid → Cmd (Unit {0})
free_stack t = do uthread_nopreempt_on; modify (set_stack t false); uthread_nopreempt_off

unfoldable pub uthread_destroy : Tid → Cmd (Unit {0})
uthread_destroy uth = do
  u ← gets (λ s. s.ut_state uth)
  assert (is_state u ut_zombie)
  free_stack uth
  modify (set_detached uth false)
  modify (set_exit uth 0)
  utqueue_init (ut_waiter uth)
  modify (reset_ut_pmut uth)
  modify (set_state uth ut_no_state)

unfoldable pub reaper_init : Cmd (Unit {0})
reaper_init = do utqueue_init reap_queue; uthread_mtx_init reap_mtx; uthread_cond_init reap_cond

-- `while (utqueue_empty(&reap_queue)) uthread_cond_wait(…)`, with a bound on its rounds.
unfoldable pub await_reapable : ℕ → Cmd (Unit {0})
await_reapable zero = fail out_of_fuel
await_reapable (suc fuel) = do
  empty ← utqueue_empty reap_queue
  let again = await_reapable fuel
  if empty then (do uthread_cond_wait reap_cond reap_mtx; again) else pure tt

-- One thread off the reap queue: its `ut_pmut` is free once it is off its stack.
unfoldable pub reap_one : Cmd (Unit {0})
reap_one = do
  thread ← utqueue_dequeue reap_queue
  thread ← deref thread
  u ← gets (λ s. s.ut_state thread)
  assert (is_state u ut_zombie)
  pthread_mutex_lock (ut_pmut thread)
  pthread_mutex_unlock (ut_pmut thread)
  uthread_destroy thread

unfoldable pub reap_all : ℕ → Cmd (Unit {0})
reap_all zero = fail out_of_fuel
reap_all (suc fuel) = do
  empty ← utqueue_empty reap_queue
  let again = reap_all fuel
  if empty then pure tt else (do reap_one; again)

-- `for (th = 0; …)`: whether every slot below `n` but the reaper's is in UT_NO_STATE.
unfoldable pub all_gone : ℕ → Tid → (Tid → UthreadState) → Bool
all_gone zero reaper u = true
all_gone (suc n) reaper u = (n == reaper || is_state (u n) ut_no_state) && all_gone n reaper u

unfoldable pub exit_if : Bool → Cmd (Unit {0})
exit_if true = exiting
exit_if false = pure tt

-- One round of the reaper's `while (1)`; `waits` bounds its inner loop.
unfoldable pub reaper_round : ℕ → Cmd (Unit {0})
reaper_round waits = do
  await_reapable waits
  q ← gets (queue_of reap_queue)
  reap_all (q.tq_size + 1)
  gone ← gets (λ s. all_gone uth_max_uthreads s.reaper_thr_id s.ut_state)
  exit_if gone

unfoldable pub reaper_loop : ℕ → ℕ → Cmd (Unit {0})
reaper_loop waits zero = fail out_of_fuel
reaper_loop waits (suc rounds) = do reaper_round waits; reaper_loop waits rounds

unfoldable pub reaper : ℕ → ℕ → Cmd (Unit {0})
reaper waits rounds = do uthread_nopreempt_on; uthread_mtx_lock reap_mtx; reaper_loop waits rounds
