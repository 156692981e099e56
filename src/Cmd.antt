-- ===== src/Cmd.antt =====
-- Commands: what one LWP runs, cut at the points where other LWPs come in. These are each
-- `pthread_mutex_lock`, which waits; each `pthread_mutex_unlock`, after which others may run; and
-- `uthread_switch`, where the thread leaves the LWP; and the
-- points inside `uthread_create` where the clock interrupt may come. The posix calls are read as POSIX documents
-- them; wrapper.c turns each error that they return into `abort`.
pub mod Solo
pub mod Reach
use multi_process_threading.Base.{
  ℕ, ◌≡◌, Bool, true, false, ◌&&◌, Option, none, some, ◌==◌, if◌then◌else◌, update, is_none,
}
use multi_process_threading.State.{
  State, Tid, LwpId, PmutId, runq_mtx, uthreads_mtx, ut_pmut, m_pmut, c_pmut, QueueId, get_pmut,
  put_pmut, UthreadState,
}
use multi_process_threading.State.Int.{ℤ}

pub data Fault : Type 0 where
  assert_failed : Fault  -- assert
  panicked : Fault  -- PANIC
  mutex_error : Fault  -- wrapper.c: abort
  undefined_unlock : Fault  -- a mutex that does not check, unlocked by an LWP that does not hold it
  deadlocked : Fault  -- waits for a mutex that this LWP holds or another one keeps
  null_pointer : Fault  -- NULL dereferenced
  out_of_bounds : Fault  -- `runq_table` indexed outside the array
  out_of_fuel : Fault  -- a bound of the model, never of the code

pub data Run (A : Type 0) : Type 0 where
  done : A → State → Run A
  locking : PmutId → State → (State → Run A) → Run A
  unlocked : State → (State → Run A) → Run A
  switching : State → (State → Run A) → Run A
  preemptible : State → (State → Run A) → Run A
  exiting : State → Run A
  failed : Fault → Run A

abbrev pub Cmd : Type 0 → Type 0
Cmd A = State → Run A

abbrev pub pure : {A : Type 0} → A → Cmd A
pure = done

module _ {A B : Type 0} where
  unfoldable pub bind : Run A → (A → Cmd B) → Run B
  bind (done a s) f = f a s
  bind (locking m s k) f = locking m s (λ s'. bind (k s') f)
  bind (unlocked s k) f = unlocked s (λ s'. bind (k s') f)
  bind (switching s k) f = switching s (λ s'. bind (k s') f)
  bind (preemptible s k) f = preemptible s (λ s'. bind (k s') f)
  bind (exiting s) f = exiting s
  bind (failed e) f = failed e

  infixl 5 ◌>>=◌ ◌>>◌
  abbrev pub ◌>>=◌ : Cmd A → (A → Cmd B) → Cmd B
  m >>= f = λ s. bind (m s) f

  abbrev pub ◌>>◌ : Cmd A → Cmd B → Cmd B
  m >> n = m >>= λ _. n

abbrev pub fail : {A : Type 0} → Fault → Cmd A
fail e s = failed e

abbrev pub gets : {A : Type 0} → (State → A) → Cmd A
gets f s = done (f s) s

abbrev pub modify : (State → State) → Cmd (Unit {0})
modify f s = done tt (f s)

abbrev pub assert : Bool → Cmd (Unit {0})
assert true = done tt
assert false = fail assert_failed

abbrev pub deref : {A : Type 0} → Option A → Cmd A
deref none = fail null_pointer
deref (some a) = pure a

-- A point between two statements where the call has not masked SIGVTALRM, so that the clock interrupt
-- may come if the caller has not masked it either.
unfoldable pub may_tick : Cmd (Unit {0})
may_tick s = preemptible s (done tt)

-- `ut_curthr->…`
unfoldable pub curthr : Cmd Tid
curthr s = deref (s.ut_curthr s.cpu) s

-- `uthread_mtx_init` and `uthread_cond_init` make mutexes of the default kind, all others check.
abbrev checks_errors : PmutId → Bool
checks_errors (m_pmut _) = false
checks_errors (c_pmut _) = false
checks_errors _ = true

-- The mutex is taken, or the call fails: EDEADLK at the LWP's own mutex if it is checked. Waiting
-- ends only when the mutex is free, so another LWP's mutex is never met here.
unfoldable pub take_from : Option LwpId → PmutId → Cmd (Unit {0})
take_from none m s = done tt (record s { pmuts = put_pmut s.pmuts m (some s.cpu) })
take_from (some l) m s =
    failed (if (l == s.cpu) && checks_errors m then mutex_error else deadlocked)

-- `__wrap_pthread_mutex_lock`
unfoldable pub pthread_mutex_lock : PmutId → Cmd (Unit {0})
pthread_mutex_lock m s = locking m s (λ s'. take_from (get_pmut s'.pmuts m) m s')

unfoldable pub give_back : Option LwpId → PmutId → Cmd (Unit {0})
give_back none m s = failed (if checks_errors m then mutex_error else undefined_unlock)
give_back (some l) m s =
    if l == s.cpu
    then unlocked (record s { pmuts = put_pmut s.pmuts m none }) (done tt)
    else failed (if checks_errors m then mutex_error else undefined_unlock)

-- `__wrap_pthread_mutex_unlock`: EPERM at a checked mutex that the LWP does not hold. POSIX leaves
-- it undefined for the others, which is a fault here.
unfoldable pub pthread_mutex_unlock : PmutId → Cmd (Unit {0})
pthread_mutex_unlock m s = give_back (get_pmut s.pmuts m) m s

-- Whether SIGVTALRM is masked on this LWP.
unfoldable pub is_masked : Cmd Bool
is_masked s = done (s.masked s.cpu) s

-- `pthread_sigmask` with `VTALRMmask`
unfoldable pub set_mask : Bool → Cmd (Unit {0})
set_mask b s = done tt (record s { lwps = record (s.lwps) { masked = update s.masked s.cpu b } })
