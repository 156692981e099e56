-- ===== src/Cond.antt =====
-- uthread_cond.c: condition variables. The waiters of `c` stand at `c` in the state, its posix mutex
-- is `c_pmut c`.
pub mod Signal
pub mod Wakes
pub mod Broadcast
pub mod Wait
use multi_process_threading.Base.{
  ℕ, zero, suc, ◌+◌, Bool, true, false, not, Option, none, some, if◌then◌else◌, update,
}
use multi_process_threading.State.{State, Tid, MtxId, CondId, uc_waiters, c_pmut, ut_wait}
use multi_process_threading.State.Fifo.{Utqueue}
use multi_process_threading.Cmd.{
  may_tick, Cmd, pure, ◌>>=◌, ◌>>◌, bind, gets, modify, assert, fail, out_of_fuel, deref, curthr,
  pthread_mutex_lock, pthread_mutex_unlock,
}
use multi_process_threading.Queue.{queue_of, utqueue_init, utqueue_empty, utqueue_dequeue}
use multi_process_threading.Sched.{
  set_state, uthread_nopreempt_on, uthread_nopreempt_off, uthread_wake,
}
use multi_process_threading.Switch.{uthread_switch}
use multi_process_threading.Mtx.{uthread_mtx_lock, uthread_mtx_unlock}

abbrev pub pthread_mutex_init_c : CondId → State → State
pthread_mutex_init_c c s = record s {
  pmuts = record (s.pmuts) { of_cond = update s.pmuts.of_cond c none };
}

unfoldable pub uthread_cond_init : CondId → Cmd (Unit {0})
uthread_cond_init c = do utqueue_init (uc_waiters c); modify (pthread_mutex_init_c c)

-- The caller off the processor, and on the condition's queue.
unfoldable pub cond_sleep : CondId → Cmd (Unit {0})
cond_sleep c = do
  t ← curthr
  modify (set_state t ut_wait)
  uthread_switch (some (uc_waiters c)) false (some (c_pmut c))

-- What `uthread_cond_wait` does once it has been woken.
unfoldable pub cond_awake : MtxId → Cmd (Unit {0})
cond_awake m = do
  uthread_nopreempt_off
  may_tick
  uthread_mtx_lock m
  may_tick
  uthread_nopreempt_on
  t ← curthr
  linked ← gets (λ s. s.linked t)
  assert (not linked)
  uthread_nopreempt_off

unfoldable pub uthread_cond_wait : CondId → MtxId → Cmd (Unit {0})
uthread_cond_wait c m = do
  uthread_nopreempt_on
  pthread_mutex_lock (c_pmut c)
  uthread_mtx_unlock m
  cond_sleep c
  cond_awake m

-- `while (!utqueue_empty(&cond->uc_waiters))`, with a bound on its rounds.
unfoldable pub wake_all : ℕ → CondId → Cmd (Unit {0})
wake_all zero c = fail out_of_fuel
wake_all (suc fuel) c = do
  empty ← utqueue_empty (uc_waiters c)
  let again = wake_all fuel c
  if empty then pure tt else (do
    waiter ← utqueue_dequeue (uc_waiters c)
    waiter ← deref waiter
    uthread_wake waiter
    again)

unfoldable pub uthread_cond_broadcast : CondId → Cmd (Unit {0})
uthread_cond_broadcast c = do
  uthread_nopreempt_on
  pthread_mutex_lock (c_pmut c)
  u ← gets (queue_of (uc_waiters c))
  wake_all (u.tq_size + 1) c
  pthread_mutex_unlock (c_pmut c)
  uthread_nopreempt_off

unfoldable pub wake_if_some : Option Tid → Cmd (Unit {0})
wake_if_some none = pure tt
wake_if_some (some t) = uthread_wake t

unfoldable pub uthread_cond_signal : CondId → Cmd (Unit {0})
uthread_cond_signal c = do
  uthread_nopreempt_on
  pthread_mutex_lock (c_pmut c)
  thr ← utqueue_dequeue (uc_waiters c)
  wake_if_some thr
  pthread_mutex_unlock (c_pmut c)
  uthread_nopreempt_off
