-- ===== src/Mtx.antt =====
-- uthread_mtx.c: mutexes of threads. `m_owner` and the waiters of mutex `m` stand at `m` in the
-- state, its posix mutex is `m_pmut m`.
pub mod Lock
pub mod Unlock
pub mod Block
use multi_process_threading.Base.{
  Bool, true, false, Option, none, some, if◌then◌else◌, is_none, update, ◌==◌,
}
use multi_process_threading.State.{State, Tid, MtxId, m_waiters, m_pmut, ut_wait}
use multi_process_threading.Cmd.{
  Cmd, pure, ◌>>=◌, ◌>>◌, bind, gets, modify, assert, deref, curthr, pthread_mutex_lock,
  pthread_mutex_unlock,
}
use multi_process_threading.Queue.{utqueue_init, utqueue_empty, utqueue_dequeue}
use multi_process_threading.Sched.{
  set_state, uthread_nopreempt_on, uthread_nopreempt_off, uthread_wake,
}
use multi_process_threading.Switch.{uthread_switch}

abbrev pub set_owner : MtxId → Option Tid → State → State
set_owner m o s = record s { m_owner = update s.m_owner m o }

-- `pthread_mutex_init` leaves the mutex free.
abbrev pub pthread_mutex_init_m : MtxId → State → State
pthread_mutex_init_m m s = record s {
  pmuts = record (s.pmuts) { of_mtx = update s.pmuts.of_mtx m none };
}

unfoldable pub uthread_mtx_init : MtxId → Cmd (Unit {0})
uthread_mtx_init m = do
  modify (set_owner m none)
  utqueue_init (m_waiters m)
  modify (pthread_mutex_init_m m)

-- The mutex is free: the caller takes it, under `m_pmut`.
unfoldable pub own : MtxId → Cmd (Unit {0})
own m = do
  t ← curthr
  modify (set_owner m (some t))
  pthread_mutex_unlock (m_pmut m)
  uthread_nopreempt_off

unfoldable pub owns : Option Tid → Tid → Bool
owns none t = false
owns (some o) t = o == t

-- Back from the wait: the mutex has been handed over.
unfoldable pub after_wait : MtxId → Cmd (Unit {0})
after_wait m = do t ← curthr; o ← gets (λ s. s.m_owner m); assert (owns o t); uthread_nopreempt_off

-- The mutex is locked: the caller waits until `uthread_mtx_unlock` hands it over.
unfoldable pub wait_for : MtxId → Cmd (Unit {0})
wait_for m = do
  t ← curthr
  modify (set_state t ut_wait)
  uthread_switch (some (m_waiters m)) false (some (m_pmut m))
  after_wait m

unfoldable pub uthread_mtx_lock : MtxId → Cmd (Unit {0})
uthread_mtx_lock m = do
  uthread_nopreempt_on
  pthread_mutex_lock (m_pmut m)
  o ← gets (λ s. s.m_owner m)
  if is_none o then own m else wait_for m

unfoldable pub uthread_mtx_trylock : MtxId → Cmd Bool
uthread_mtx_trylock m = do
  uthread_nopreempt_on
  pthread_mutex_lock (m_pmut m)
  o ← gets (λ s. s.m_owner m)
  if is_none o
      then (do own m; pure true)
      else (do pthread_mutex_unlock (m_pmut m); uthread_nopreempt_off; pure false)

unfoldable pub free_mtx : MtxId → Cmd (Unit {0})
free_mtx m = do modify (set_owner m none); pthread_mutex_unlock (m_pmut m)

unfoldable pub hand_over : MtxId → Cmd (Unit {0})
hand_over m = do
  next ← utqueue_dequeue (m_waiters m)
  modify (set_owner m next)
  pthread_mutex_unlock (m_pmut m)
  next ← deref next
  uthread_wake next

unfoldable pub uthread_mtx_unlock : MtxId → Cmd (Unit {0})
uthread_mtx_unlock m = do
  uthread_nopreempt_on
  pthread_mutex_lock (m_pmut m)
  empty ← utqueue_empty (m_waiters m)
  if empty then free_mtx m else hand_over m
  uthread_nopreempt_off
