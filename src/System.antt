-- ===== src/System.antt =====
-- The whole program: several LWPs that run threads, each a step at a time. A step is what one LWP
-- does up to its next pause point, so LWPs come in where commands pause: at a posix mutex, and
-- where a thread leaves its LWP. `step` is one LWP's step, `tick` the clock interrupt that it takes
-- in a thread's own code, and `Step` any of these.
pub mod Launch
pub mod Guarded
pub mod Kept
pub mod Steps
pub mod Exclusion
pub mod Order
use multi_process_threading.Base.{
  ℕ, ◌+◌, ◌≡◌, Bool, true, false, not, Option, none, some, ◌==◌, if◌then◌else◌, update,
}
use multi_process_threading.State.{
  State, Tid, LwpId, MtxId, CondId, PmutId, UthreadState, ut_transition, get_pmut,
}
use multi_process_threading.State.Int.{ℤ}
use multi_process_threading.Cmd.{
  Run, Cmd, done, locking, unlocked, switching, preemptible, exiting, failed, pure, ◌>>=◌, ◌>>◌,
  bind, assert, is_masked,
}
use multi_process_threading.Sched.{uthread_nopreempt_on, uthread_nopreempt_off}
use multi_process_threading.Switch.{Next, runs, waits, uthread_yield, lwp_switch, lwp_unpark}
use multi_process_threading.Prio.{Errno, uthread_setprio, clock_interrupt}
use multi_process_threading.Mtx.{uthread_mtx_lock, uthread_mtx_trylock, uthread_mtx_unlock}
use multi_process_threading.Cond.{uthread_cond_wait, uthread_cond_signal, uthread_cond_broadcast}
use multi_process_threading.Thread.Alloc.{uthread_create, uthread_self}
use multi_process_threading.Thread.Life.{uthread_exit}
use multi_process_threading.Thread.Join.{Joined, uthread_join, uthread_detach}
use multi_process_threading.Thread.Reaper.{reaper}

-- A thread's function, as the calls of the library that it makes, and what it does with the answers.
-- `returns` is the end of the function, which `thread_start` turns into `uthread_exit`.
pub data Prog : Type 0 where
  returns : ℕ → Prog
  exits : ℕ → Prog
  works : Prog → Prog
  yields : Prog → Prog
  locks : MtxId → Prog → Prog
  trylocks : MtxId → (Bool → Prog) → Prog
  unlocks : MtxId → Prog → Prog
  waits_for : CondId → MtxId → Prog → Prog
  signals : CondId → Prog → Prog
  broadcasts : CondId → Prog → Prog
  creates : Bool → ℤ → (Errno × Option Tid → Prog) → Prog
  joins : ℤ → Bool → (Joined → Prog) → Prog
  detaches : ℤ → (Errno → Prog) → Prog
  sets_prio : ℤ → ℤ → (Errno → Prog) → Prog
  asks_self : (Tid → Prog) → Prog
  turns_off : Prog → Prog
  turns_on : Prog → Prog

-- The next call, which leaves the rest of the function.
unfoldable pub exec : Prog → Cmd Prog
exec (returns v) = uthread_exit v
exec (exits v) = uthread_exit v
exec (works p) = pure p
exec (yields p) = do uthread_yield; pure p
exec (locks m p) = do uthread_mtx_lock m; pure p
exec (trylocks m f) = do b ← uthread_mtx_trylock m; pure (f b)
exec (unlocks m p) = do uthread_mtx_unlock m; pure p
exec (waits_for c m p) = do uthread_cond_wait c m; pure p
exec (signals c p) = do uthread_cond_signal c; pure p
exec (broadcasts c p) = do uthread_cond_broadcast c; pure p
exec (creates b prio f) = do r ← uthread_create b prio; pure (f r)
exec (joins id b f) = do r ← uthread_join id b; pure (f r)
exec (detaches id f) = do r ← uthread_detach id; pure (f r)
exec (sets_prio id prio f) = do r ← uthread_setprio id prio; pure (f r)
exec (asks_self f) = do t ← uthread_self; pure (f t)
exec (turns_off p) = do uthread_nopreempt_off; pure p
exec (turns_on p) = do uthread_nopreempt_on; pure p

-- `thread_start` up to its call of the function
unfoldable pub enter : Prog → Cmd Prog
enter p = do uthread_nopreempt_off; masked ← is_masked; assert (not masked); pure p

-- The reaper's function never returns; `turns` and `rounds` bound its loops.
unfoldable pub enter_reaper : ℕ → ℕ → Cmd Prog
enter_reaper turns rounds = do
  uthread_nopreempt_off
  masked ← is_masked
  assert (not masked)
  reaper turns rounds
  pure (returns 0)

-- What is left of a call, in the context of a thread, or in that of the LWP.
pub data Code : Type 0 where
  thread : Cmd Prog → Code
  lwp : Cmd Next → Code

-- Where an LWP stands: it asks for a posix mutex; it may go on; it may go on in a thread's call, at
-- a point where the clock interrupt may come; it runs a thread's own code; it waits in `lwp_park`;
-- it has not been created.
pub data Doing : Type 0 where
  asks : PmutId → Code → Doing
  ready : Code → Doing
  exposed : Cmd Prog → Doing
  user : Prog → Doing
  parked : Doing
  absent : Doing

-- `saved t` is the context of thread `t`.
pub record System : Type 0 where
  pub mem : State
  pub at : LwpId → Doing
  pub saved : Tid → Cmd Prog

-- The memory as LWP `l` sees it.
abbrev pub here : LwpId → State → State
here l s = record s { cpu = l }

abbrev pub becomes : System → LwpId → State → Doing → System
becomes σ l s d = record σ { mem = s; at = update σ.at l d }

-- The LWP's code up to its pause. `none` is the end of the process: `exit`, `abort`, or a context
-- that the LWP cannot be in.
unfoldable pub settle_lwp : LwpId → System → Run Next → Option System
settle_lwp l σ (done (runs t) s) = some (becomes σ l s (ready (thread (σ.saved t))))
settle_lwp l σ (done waits s) = some (becomes σ l s parked)
settle_lwp l σ (locking m s k) = some (becomes σ l s (asks m (lwp k)))
settle_lwp l σ (unlocked s k) = some (becomes σ l s (ready (lwp k)))
settle_lwp l σ (switching s k) = none
settle_lwp l σ (preemptible s k) = none
settle_lwp l σ (exiting s) = none
settle_lwp l σ (failed e) = none

-- `uthread_switch` saves the thread's context, and the LWP goes on in `lwp_switch`.
unfoldable pub save_context : LwpId → System → Option Tid → State → Cmd Prog → Option System
save_context l σ none s k = none
save_context l σ (some t) s k =
    settle_lwp l (record σ { saved = update σ.saved t k }) (lwp_switch s)

unfoldable pub settle_thread : LwpId → System → Run Prog → Option System
settle_thread l σ (done p s) = some (becomes σ l s (user p))
settle_thread l σ (locking m s k) = some (becomes σ l s (asks m (thread k)))
settle_thread l σ (unlocked s k) = some (becomes σ l s (ready (thread k)))
settle_thread l σ (switching s k) = save_context l σ (s.ut_curthr s.cpu) s k
settle_thread l σ (preemptible s k) = some (becomes σ l s (exposed k))
settle_thread l σ (exiting s) = none
settle_thread l σ (failed e) = none

unfoldable pub settle : LwpId → System → Code → Option System
settle l σ (thread k) = settle_thread l σ (k (here l σ.mem))
settle l σ (lwp k) = settle_lwp l σ (k (here l σ.mem))

-- A mutex that another LWP holds is waited for.
abbrev pub is_others : LwpId → Option LwpId → Bool
is_others l none = false
is_others l (some h) = not (h == l)

unfoldable pub step_at : LwpId → System → Doing → Option System
step_at l σ (asks m c) = if is_others l (get_pmut σ.mem.pmuts m) then none else settle l σ c
step_at l σ (ready c) = settle l σ c
step_at l σ (exposed k) = settle l σ (thread k)
step_at l σ (user p) = settle l σ (thread (exec p))
step_at l σ parked = settle l σ (lwp lwp_unpark)
step_at l σ absent = none

unfoldable pub step : LwpId → System → Option System
step l σ = step_at l σ (σ.at l)

-- SIGVTALRM, where it is not masked. A call goes on where it was, and the next one may come there.
unfoldable pub tick_at : LwpId → System → Doing → Option System
tick_at l σ (user p) =
    if σ.mem.masked l then none else settle l σ (thread (clock_interrupt >> pure p))
tick_at l σ (exposed k) =
    if σ.mem.masked l then none else settle l σ (thread (clock_interrupt >> (λ s. preemptible s k)))
tick_at l σ (asks m c) = none
tick_at l σ (ready c) = none
tick_at l σ parked = none
tick_at l σ absent = none

unfoldable pub tick : LwpId → System → Option System
tick l σ = tick_at l σ (σ.at l)

-- A step of LWP `l`. `makes` is `uthread_makecontext` in `uthread_create`; in the model it comes at any
-- time and on any slot, also on one whose thread runs, as after two allocations of one slot.
pub data Step (l : LwpId) (σ : System) : System → Type 0 where
  goes : {τ : System} → step l σ ≡ some τ → Step l σ τ
  ticks : {τ : System} → tick l σ ≡ some τ → Step l σ τ
  makes :
      (t : Tid) (p : Prog)
      → Step l σ (record σ { mem = here l σ.mem; saved = update σ.saved t (enter p) })
