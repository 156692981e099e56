-- ===== src/Thread/Join.antt =====
-- uthread.c: `uthread_join` and `uthread_detach`.
pub mod Laws
pub mod Zombie
pub mod Holding
pub mod Twice
use multi_process_threading.Base.{
  ℕ, Bool, true, false, not, Option, none, some, ◌==◌, if◌then◌else◌,
}
use multi_process_threading.State.{State, Tid, ut_pmut, ut_waiter, ut_zombie, ut_wait}
use multi_process_threading.State.Int.{ℤ}
use multi_process_threading.Cmd.{
  Cmd, pure, ◌>>=◌, ◌>>◌, bind, gets, modify, curthr, pthread_mutex_lock, pthread_mutex_unlock,
}
use multi_process_threading.Queue.{utqueue_empty, utqueue_enqueue}
use multi_process_threading.Sched.{is_state, set_state, uthread_nopreempt_on, uthread_nopreempt_off}
use multi_process_threading.Switch.{uthread_switch}
use multi_process_threading.Mtx.{uthread_mtx_lock, uthread_mtx_unlock}
use multi_process_threading.Prio.{Errno, success, einval, esrch, index_of}
use multi_process_threading.Thread.Alloc.{set_detached}
use multi_process_threading.Thread.Life.{reap_mtx, make_reapable, release_reap}

-- The code, and what is written to `*return_value`, if anything.
abbrev pub Joined : Type 0
Joined = Errno × Option ℕ

-- `pthread_mutex_unlock(&thr->ut_pmut); uthread_nopreempt_off();`
unfoldable pub release_thread : Tid → Cmd (Unit {0})
release_thread t = do pthread_mutex_unlock (ut_pmut t); uthread_nopreempt_off

-- The rest of `uthread_join` from `return_value` on.
unfoldable pub reap_joined : Tid → Option ℕ → Cmd Joined
reap_joined thr value = do
  uthread_mtx_lock reap_mtx
  pthread_mutex_lock (ut_pmut thr)
  u ← gets (λ s. s.ut_state thr)
  if is_state u ut_zombie then make_reapable thr else release_reap thr
  uthread_nopreempt_off
  pure (success, value)

unfoldable pub finish_join : Tid → Bool → Cmd Joined
finish_join thr wanted = do
  u ← gets (λ s. s.ut_state thr)
  exit ← gets (λ s. s.ut_exit thr)
  if is_state u ut_zombie
      then (do
        modify (set_detached thr true)
        pthread_mutex_unlock (ut_pmut thr)
        reap_joined thr (if wanted then some exit else none))
      else (do release_thread thr; pure (einval, none))

-- The caller on the target's queue, and off the processor until the target exits.
unfoldable pub await_exit : Tid → Cmd (Unit {0})
await_exit thr = do
  t ← curthr
  modify (set_state t ut_wait)
  utqueue_enqueue (ut_waiter thr) t
  uthread_switch none false (some (ut_pmut thr))
  pthread_mutex_lock (ut_pmut thr)

unfoldable pub join_thread : Tid → Bool → Cmd Joined
join_thread thr wanted = do
  uthread_nopreempt_on
  pthread_mutex_lock (ut_pmut thr)
  empty ← utqueue_empty (ut_waiter thr)
  detached ← gets (λ s. s.ut_detached thr)
  u ← gets (λ s. s.ut_state thr)
  if not empty
      then (do release_thread thr; pure (einval, none))
      else (if detached
          then (do release_thread thr; pure (einval, none))
          else (if is_state u ut_zombie
              then finish_join thr wanted
              else (await_exit thr >> finish_join thr wanted)))

-- `wanted` says that `return_value` is not NULL.
unfoldable pub uthread_join : ℤ → Bool → Cmd Joined
uthread_join uid wanted = elim (index_of uid) [
  | none ↦ pure (esrch, none)
  | some thr ↦ join_thread thr wanted
]

-- The branch of `uthread_detach` for a thread that has exited already.
unfoldable pub detach_zombie : Tid → Cmd (Unit {0})
detach_zombie thr = do
  uthread_mtx_lock reap_mtx
  u ← gets (λ s. s.ut_state thr)
  if is_state u ut_zombie then make_reapable thr else release_reap thr

unfoldable pub detach_thread : Tid → Cmd Errno
detach_thread thr = do
  uthread_nopreempt_on
  pthread_mutex_lock (ut_pmut thr)
  empty ← utqueue_empty (ut_waiter thr)
  detached ← gets (λ s. s.ut_detached thr)
  u ← gets (λ s. s.ut_state thr)
  if not empty
      then (do release_thread thr; pure einval)
      else (if detached then (do release_thread thr; pure einval) else (do
        modify (set_detached thr true)
        if is_state u ut_zombie then detach_zombie thr else pthread_mutex_unlock (ut_pmut thr)
        uthread_nopreempt_off
        pure success))

unfoldable pub uthread_detach : ℤ → Cmd Errno
uthread_detach uid = elim (index_of uid) [ none ↦ pure esrch | some thr ↦ detach_thread thr ]
