-- ===== src/Switch.antt =====
-- uthread_sched.c: the switch from a thread to its LWP, what the LWP does there, and the calls that
-- give the processor up.
pub mod Laws
pub mod Pick
pub mod Yield
pub mod Release
use multi_process_threading.Base.{
  ℕ, zero, suc, ◌+◌, ◌-◌, Bool, true, false, not, ◌&&◌, ◌||◌, Option, none, some, ◌==◌, ltb,
  if◌then◌else◌, update, is_none,
}
use multi_process_threading.State.{
  State, Tid, LwpId, Lwps, QueueId, runq_table, PmutId, runq_mtx, UthreadState, ut_no_state,
  ut_on_cpu, ut_runnable, ut_wait, ut_zombie, ut_transition, uth_maxprio, uth_max_uthreads,
}
use multi_process_threading.State.Int.{ℤ, pos, negsuc, is_neg, ltz, eqz}
use multi_process_threading.Cmd.{
  Run, Cmd, switching, pure, ◌>>=◌, ◌>>◌, bind, gets, modify, assert, fail, assert_failed, panicked,
  out_of_fuel, curthr, pthread_mutex_lock, pthread_mutex_unlock, is_masked, set_mask,
}
use multi_process_threading.Queue.{utqueue_empty, utqueue_enqueue, utqueue_dequeue}
use multi_process_threading.Sched.{
  is_state, set_state, set_prio, set_count, set_runq_size, uthread_nopreempt_on,
  uthread_nopreempt_off, uthread_runq_enqueue, uthread_runq_requeue, release_runq,
}

-- The fields `queue`, `saveonrq` and `pmut` of `*curlwp`.
abbrev pub set_curlwp : Option QueueId → Bool → Option PmutId → State → State
set_curlwp q saveonrq m s = record s {
  lwps = record (s.lwps) {
    queue = update s.lwps.queue s.cpu q;
    saveonrq = update s.lwps.saveonrq s.cpu saveonrq;
    pmut = update s.lwps.pmut s.cpu m;
  };
}

abbrev pub set_curthr : Option Tid → State → State
set_curthr t s = record s { lwps = record (s.lwps) { ut_curthr = update s.ut_curthr s.cpu t } }

abbrev pub set_parked : ℕ → State → State
set_parked n s = record s { lwp_parked_cnt = n }

-- `setcontext(&curlwp->lwp_ctx)`; the thread goes on from its `getcontext`, perhaps on another LWP.
unfoldable pub setcontext_lwp : Cmd (Unit {0})
setcontext_lwp s = switching s (pure tt)

-- The second return of `getcontext`, in the thread that runs on the LWP by then.
unfoldable pub after_switch : Cmd (Unit {0})
after_switch = do
  t ← curthr
  u ← gets (λ s. s.ut_state t)
  if is_state u ut_zombie then fail panicked else pure tt

unfoldable pub uthread_switch : Option QueueId → Bool → Option PmutId → Cmd (Unit {0})
uthread_switch q saveonrq m = do
  masked ← is_masked
  assert masked
  t ← curthr
  n ← gets (λ s. s.ut_no_preempt_count t)
  assert (ltb 0 n)
  pthread_mutex_lock runq_mtx
  t ← curthr
  u ← gets (λ s. s.ut_state t)
  modify (set_curlwp q (if is_state u ut_zombie then false else saveonrq) m)
  setcontext_lwp
  after_switch

unfoldable pub after_yield : Cmd (Unit {0})
after_yield = do masked ← is_masked; assert masked; uthread_nopreempt_off

unfoldable pub uthread_yield : Cmd (Unit {0})
uthread_yield = do
  uthread_nopreempt_on
  masked ← is_masked
  assert masked
  t ← curthr
  linked ← gets (λ s. s.linked t)
  assert (not linked)
  uthread_switch none true none
  after_yield

-- What `lwp_switch` does for the thread that has left, once it is off that thread's stack.
unfoldable pub enqueue_on : Option QueueId → Tid → Cmd (Unit {0})
enqueue_on none t = pure tt
enqueue_on (some q) t = utqueue_enqueue q t

unfoldable pub save_on_runq : Bool → Tid → Cmd (Unit {0})
save_on_runq saveonrq t = do
  u ← gets (λ s. s.ut_state t)
  if saveonrq && not (is_state u ut_zombie)
      then (do modify (set_state t ut_runnable); uthread_runq_enqueue t)
      else pure tt

unfoldable pub leave_thread : Option Tid → Cmd (Unit {0})
leave_thread none = pure tt
leave_thread (some t) = do
  n ← gets (λ s. s.ut_no_preempt_count t)
  assert (ltb 0 n)
  q ← gets (λ s. s.lwps.queue s.cpu)
  enqueue_on q t
  saveonrq ← gets (λ s. s.lwps.saveonrq s.cpu)
  save_on_runq saveonrq t

unfoldable pub unlock_pmut : Option PmutId → Cmd (Unit {0})
unlock_pmut none = pure tt
unlock_pmut (some m) = pthread_mutex_unlock m

unfoldable pub lwp_leave : Cmd (Unit {0})
lwp_leave = do
  t ← gets (λ s. s.ut_curthr s.cpu)
  leave_thread t
  m ← gets (λ s. s.lwps.pmut s.cpu)
  unlock_pmut m
  modify (set_curlwp none false none)
  modify (set_curthr none)

-- `for (i = UTH_MAXPRIO; i >= 0; i--)`, with `n` values of `i` left
unfoldable pub find_thread : ℕ → Cmd (Option Tid)
find_thread zero = pure none
find_thread (suc i) = do
  empty ← utqueue_empty (runq_table i)
  let rest = find_thread i
  if empty then rest else (do
    thr ← utqueue_dequeue (runq_table i)
    modify (λ s. set_runq_size (s.runq_size - 1) s)
    pure thr)

-- `runs t`: the LWP has done `setcontext(&t->ut_ctx)`. `waits`: it is in `pthread_cond_wait`.
pub data Next : Type 0 where
  runs : Tid → Next
  waits : Next

-- The loop of `lwp_park`: false where it waits, and has given up `runq_mtx`.
unfoldable pub park_test : Cmd Bool
park_test = do
  n ← gets (λ s. s.runq_size)
  if n == 0
      then (do pthread_mutex_unlock runq_mtx; pure false)
      else (do modify (λ s. set_parked (s.lwp_parked_cnt - 1) s); pure true)

unfoldable pub lwp_park : Cmd Bool
lwp_park = do
  t ← gets (λ s. s.ut_curthr s.cpu)
  assert (is_none t)
  modify (λ s. set_parked (s.lwp_parked_cnt + 1) s)
  stuck ← gets (λ s. s.lwp_parked_cnt == s.lwp_cnt)
  if stuck then fail panicked else park_test

unfoldable pub run_thread : Tid → Cmd Next
run_thread t = do
  modify (set_curthr (some t))
  modify (set_state t ut_on_cpu)
  pthread_mutex_unlock runq_mtx
  pure (runs t)

-- `while (1)` of `lwp_switch`, with a bound on its rounds.
unfoldable pub lwp_look : ℕ → Cmd Next
lwp_look zero = fail out_of_fuel
lwp_look (suc fuel) = do
  found ← find_thread (suc uth_maxprio)
  let again = lwp_look fuel
  elim found [ some t ↦ run_thread t | none ↦ do go ← lwp_park; if go then again else pure waits ]

-- An LWP back from the thread that it ran, and one back from `pthread_cond_wait`.
unfoldable pub lwp_switch : Cmd Next
lwp_switch = do lwp_leave; lwp_look 2

unfoldable pub lwp_unpark : Cmd Next
lwp_unpark = do pthread_mutex_lock runq_mtx; go ← park_test; if go then lwp_look 2 else pure waits
