-- ===== src/Thread/Start.antt =====
-- uthread.c: `uthread_start`, the first two threads and the LWPs; uthread_sched.c:
-- `uthread_sched_init`.
pub mod Laws
use multi_process_threading.Base.{ℕ, zero, suc, ◌+◌, Bool, true, false, none, some, if◌then◌else◌}
use multi_process_threading.State.{
  Tid, runq_table, ut_waiter, runq_mtx, ut_no_state, ut_runnable, ut_transition, uth_maxprio,
}
use multi_process_threading.State.Int.{pos}
use multi_process_threading.Cmd.{
  Cmd, pure, ◌>>=◌, ◌>>◌, modify, assert, fail, panicked, deref, pthread_mutex_lock, is_masked,
  set_mask,
}
use multi_process_threading.Queue.{utqueue_init, set_linked}
use multi_process_threading.Sched.{set_state, set_prio, set_count, uthread_runq_enqueue}
use multi_process_threading.Switch.{Next, set_curthr, set_curlwp, lwp_switch}
use multi_process_threading.Thread.Alloc.{
  uthread_alloc, alloc_stack, set_stack, set_exit, set_detached, reset_ut_pmut,
}
use multi_process_threading.Thread.Reaper.{reaper_init}

unfoldable pub init_runqs : ℕ → Cmd (Unit {0})
init_runqs zero = pure tt
init_runqs (suc n) = do init_runqs n; utqueue_init (runq_table n)

-- The mutexes are made free, the timer starts with its signal masked.
unfoldable pub uthread_sched_init : Cmd (Unit {0})
uthread_sched_init = do
  modify (λ s. record s { pmuts = record (s.pmuts) { of_runq = none } })
  init_runqs (suc uth_maxprio)
  set_mask true

-- What `create_first_thr` does for each of its two threads, from `ut_curthr = …` on.
unfoldable pub first_thread : Tid → Bool → Cmd (Unit {0})
first_thread t stack = do
  modify (set_curthr (some t))
  modify (set_linked t false)
  modify (set_prio t (pos uth_maxprio))
  modify (set_exit t 0)
  modify (set_detached t true)
  utqueue_init (ut_waiter t)
  modify (set_state t ut_runnable)
  modify (reset_ut_pmut t)
  modify (set_count t 1)
  got ← alloc_stack stack
  modify (set_stack t got)
  if got then uthread_runq_enqueue t else fail panicked

unfoldable pub create_first_thr : Bool → Bool → Cmd Next
create_first_thr stack reaper_stack = do
  masked ← is_masked
  assert masked
  modify (set_state 0 ut_transition)
  first_thread 0 stack
  tid ← uthread_alloc
  reaper ← deref tid
  modify (λ s. record s { reaper_thr_id = reaper })
  first_thread reaper reaper_stack
  pthread_mutex_lock runq_mtx
  modify (λ s. record s { lwp_cnt = 1 })
  modify (set_curlwp none false none)
  modify (set_curthr none)
  masked ← is_masked
  assert masked
  lwp_switch

-- The other LWPs.
unfoldable pub lwp_start : Cmd Next
lwp_start = do
  set_mask true
  modify (set_curthr none)
  modify (set_curlwp none false none)
  pthread_mutex_lock runq_mtx
  modify (λ s. record s { lwp_cnt = s.lwp_cnt + 1 })
  masked ← is_masked
  assert masked
  lwp_switch

unfoldable pub uthread_start : Bool → Bool → Cmd Next
uthread_start stack reaper_stack = do
  modify (λ s. record s { uths = record (s.uths) { ut_state = λ _. ut_no_state } })
  modify (λ s. record s { pmuts = record (s.pmuts) { of_runq = none; of_uthreads = none } })
  uthread_sched_init
  reaper_init
  create_first_thr stack reaper_stack
