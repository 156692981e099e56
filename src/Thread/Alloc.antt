-- ===== src/Thread/Alloc.antt =====
-- uthread.c: thread ids and stacks, and `uthread_create`.
pub mod Free
pub mod Create
pub mod Race
use multi_process_threading.Base.{
  ℕ, zero, suc, ◌+◌, ◌-◌, Bool, true, false, Option, none, some, ltb, if◌then◌else◌, update,
}
use multi_process_threading.State.{
  State, Tid, uthreads_mtx, ut_waiter, UthreadState, ut_no_state, ut_transition, uth_max_uthreads,
}
use multi_process_threading.State.Int.{ℤ, negsuc}
use multi_process_threading.Cmd.{
  may_tick, Cmd, pure, ◌>>=◌, ◌>>◌, bind, gets, modify, curthr, pthread_mutex_lock,
  pthread_mutex_unlock,
}
use multi_process_threading.Queue.{utqueue_init, set_linked}
use multi_process_threading.Sched.{
  is_state, set_state, set_prio, set_count, uthread_nopreempt_on, uthread_nopreempt_off,
  uthread_startonrunq,
}
use multi_process_threading.Prio.{Errno, success, eagain}

-- The first index from `i` on, among `n`, whose slot is in UT_NO_STATE.
unfoldable pub first_free : ℕ → ℕ → (Tid → UthreadState) → Option Tid
first_free zero i u = none
first_free (suc n) i u =
    let rest = first_free n (i + 1) u in if is_state (u i) ut_no_state then some i else rest

-- `int start = PrevID + 1; if (start >= UTH_MAX_UTHREADS) start = 0;`
unfoldable pub start_of : Option Tid → ℕ
start_of none = 0
start_of (some i) = if ltb (i + 1) uth_max_uthreads then i + 1 else 0

-- Both passes: from `start` to the end, then from 0 to `start`.
unfoldable pub find_free : ℕ → (Tid → UthreadState) → Option Tid
find_free start u = elim (first_free (uth_max_uthreads - start) start u) [
  | some i ↦ some i
  | none ↦ first_free start 0 u
]

abbrev pub set_prev_id : Option Tid → State → State
set_prev_id i s = record s { prev_id = i }

unfoldable pub release_uthreads : Cmd (Unit {0})
release_uthreads = do pthread_mutex_unlock uthreads_mtx; uthread_nopreempt_off

-- The id is read back from the static `PrevID`, after the mutex is released.
unfoldable pub claim : Option Tid → Cmd (Option Tid)
claim none = do release_uthreads; pure none
claim (some i) = do
  modify (set_state i ut_transition)
  modify (set_prev_id (some i))
  release_uthreads
  may_tick
  gets (λ s. s.prev_id)

-- `none` stands for -1.
unfoldable pub uthread_alloc : Cmd (Option Tid)
uthread_alloc = do
  start ← gets (λ s. start_of s.prev_id)
  may_tick
  uthread_nopreempt_on
  pthread_mutex_lock uthreads_mtx
  found ← gets (λ s. find_free start s.ut_state)
  claim found

-- `stack` says whether `malloc` gives one.
unfoldable pub alloc_stack : Bool → Cmd Bool
alloc_stack stack = do uthread_nopreempt_on; uthread_nopreempt_off; pure stack

abbrev pub set_stack : Tid → Bool → State → State
set_stack t b s = record s { uths = record (s.uths) { ut_stack = update s.ut_stack t b } }

abbrev pub set_exit : Tid → ℕ → State → State
set_exit t v s = record s { uths = record (s.uths) { ut_exit = update s.ut_exit t v } }

abbrev pub set_detached : Tid → Bool → State → State
set_detached t b s = record s { uths = record (s.uths) { ut_detached = update s.ut_detached t b } }

-- `pthread_mutex_init` and `pthread_mutex_destroy` on `ut_pmut`.
abbrev pub reset_ut_pmut : Tid → State → State
reset_ut_pmut t s = record s { pmuts = record (s.pmuts) { of_ut = update s.pmuts.of_ut t none } }

-- The fields that `uthread_create` sets. It does not set `ut_detached`, and it does not mask the
-- clock interrupt.
unfoldable pub setup_thread : Tid → Cmd (Unit {0})
setup_thread t = do
  modify (set_linked t false)
  may_tick
  modify (set_prio t (negsuc 0))
  may_tick
  modify (set_exit t 0)
  may_tick
  utqueue_init (ut_waiter t)
  may_tick
  modify (reset_ut_pmut t)
  may_tick
  modify (set_count t 1)

-- The code and what is left in `*uidp`.
unfoldable pub create_at : Option Tid → Bool → ℤ → Cmd (Errno × Option Tid)
create_at none stack prio = pure (eagain, none)
create_at (some t) stack prio = do
  may_tick
  got ← alloc_stack stack
  may_tick
  modify (set_stack t got)
  may_tick
  if got
      then (do setup_thread t; may_tick; uthread_startonrunq t prio; pure (success, some t))
      else pure (eagain, none)

unfoldable pub uthread_create : Bool → ℤ → Cmd (Errno × Option Tid)
uthread_create stack prio = do tid ← uthread_alloc; create_at tid stack prio

unfoldable pub uthread_self : Cmd Tid
uthread_self = do uthread_nopreempt_on; id ← curthr; uthread_nopreempt_off; pure id
