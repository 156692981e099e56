-- ===== src/State.antt =====
-- The state that the library keeps: uthread.h, uthread_mtx.h, uthread_cond.h, and the globals of
-- uthread.c and uthread_sched.c. A struct's field is a family over the structs' indices.
pub mod Fifo
pub mod Int
use multi_process_threading.Base.{ℕ, Bool, Option, update}
use Fifo.{Utqueue}
use Int.{ℤ}

abbrev pub uth_maxprio : ℕ
uth_maxprio = 7

abbrev pub uth_max_uthreads : ℕ
uth_max_uthreads = 512

-- An index of `uthreads`, a mutex, a condition variable, an LWP.
abbrev pub Tid : Type 0
Tid = ℕ

abbrev pub MtxId : Type 0
MtxId = ℕ

abbrev pub CondId : Type 0
CondId = ℕ

abbrev pub LwpId : Type 0
LwpId = ℕ

pub data UthreadState : Type 0 where
  ut_no_state ut_on_cpu ut_runnable ut_wait ut_zombie ut_transition : UthreadState

-- Where a `utqueue_t *` may point.
pub data QueueId : Type 0 where
  runq_table : ℕ → QueueId
  ut_waiter : Tid → QueueId
  reap_queue : QueueId
  m_waiters : MtxId → QueueId
  uc_waiters : CondId → QueueId

-- Where a `pthread_mutex_t *` may point.
pub data PmutId : Type 0 where
  runq_mtx uthreads_mtx : PmutId
  ut_pmut : Tid → PmutId
  m_pmut : MtxId → PmutId
  c_pmut : CondId → PmutId

-- Who holds each posix mutex.
pub record Pmuts : Type 0 where
  pub of_runq : Option LwpId
  pub of_uthreads : Option LwpId
  pub of_ut : Tid → Option LwpId
  pub of_mtx : MtxId → Option LwpId
  pub of_cond : CondId → Option LwpId

pub record Queues : Type 0 where
  pub runqs : ℕ → Utqueue
  pub waiters : Tid → Utqueue
  pub reaps : Utqueue
  pub mtx_waiters : MtxId → Utqueue
  pub cond_waiters : CondId → Utqueue

-- `uthreads`: `linked t` says that `ut_link` is on a list, `ut_stack` that there is a stack.
pub record Uthreads : Type 0 where
  pub linked : Tid → Bool
  pub ut_stack : Tid → Bool
  pub ut_state : Tid → UthreadState
  pub ut_prio : Tid → ℤ
  pub ut_exit : Tid → ℕ
  pub ut_detached : Tid → Bool
  pub ut_no_preempt_count : Tid → ℕ

-- The thread-local variables of each LWP: `ut_curthr`, the parameters in `*curlwp`, and whether
-- SIGVTALRM is masked.
pub record Lwps : Type 0 where
  pub ut_curthr : LwpId → Option Tid
  pub queue : LwpId → Option QueueId
  pub saveonrq : LwpId → Bool
  pub pmut : LwpId → Option PmutId
  pub masked : LwpId → Bool

-- `cpu` is the LWP whose step is being taken, `prev_id` the static `PrevID`, `none` for -1.
pub record State : Type 0 where
  pub uths : Uthreads
  pub open uths use {linked, ut_stack, ut_state, ut_prio, ut_exit, ut_detached, ut_no_preempt_count}
  pub queues : Queues
  pub pmuts : Pmuts
  pub lwps : Lwps
  pub open lwps use {ut_curthr, masked}
  pub m_owner : MtxId → Option Tid
  pub runq_size : ℕ
  pub lwp_cnt : ℕ
  pub lwp_parked_cnt : ℕ
  pub reaper_thr_id : Tid
  pub prev_id : Option Tid
  pub cpu : LwpId

abbrev pub get_queue : Queues → QueueId → Utqueue
get_queue s (runq_table p) = s.runqs p
get_queue s (ut_waiter t) = s.waiters t
get_queue s reap_queue = s.reaps
get_queue s (m_waiters m) = s.mtx_waiters m
get_queue s (uc_waiters c) = s.cond_waiters c

abbrev pub put_queue : Queues → QueueId → Utqueue → Queues
put_queue s (runq_table p) q = record s { runqs = update s.runqs p q }
put_queue s (ut_waiter t) q = record s { waiters = update s.waiters t q }
put_queue s reap_queue q = record s { reaps = q }
put_queue s (m_waiters m) q = record s { mtx_waiters = update s.mtx_waiters m q }
put_queue s (uc_waiters c) q = record s { cond_waiters = update s.cond_waiters c q }

abbrev pub get_pmut : Pmuts → PmutId → Option LwpId
get_pmut s runq_mtx = s.of_runq
get_pmut s uthreads_mtx = s.of_uthreads
get_pmut s (ut_pmut t) = s.of_ut t
get_pmut s (m_pmut m) = s.of_mtx m
get_pmut s (c_pmut c) = s.of_cond c

abbrev pub put_pmut : Pmuts → PmutId → Option LwpId → Pmuts
put_pmut s runq_mtx o = record s { of_runq = o }
put_pmut s uthreads_mtx o = record s { of_uthreads = o }
put_pmut s (ut_pmut t) o = record s { of_ut = update s.of_ut t o }
put_pmut s (m_pmut m) o = record s { of_mtx = update s.of_mtx m o }
put_pmut s (c_pmut c) o = record s { of_cond = update s.of_cond c o }
