-- ===== src/System/Guarded.antt =====
-- What the threads' code keeps of the lock discipline.
use multi_process_threading.Base.{ℕ, []}
use multi_process_threading.State.{State, Tid, LwpId}
use multi_process_threading.Cmd.{Run, Cmd, preemptible, pure, ◌>>◌}
use multi_process_threading.Prio.{clock_interrupt}
use multi_process_threading.Discipline.{Held, Only, Ranked, Left, Keeps, Op}
use multi_process_threading.Discipline.Rules.{Op-preemptible, Op-assert, Op-pure, ◌⨾◌}
use multi_process_threading.Discipline.Sched.{Op-is_masked, Op-nopreempt_off, Op-nopreempt_on}
use multi_process_threading.Discipline.Switch.{Op-yield}
use multi_process_threading.Discipline.Locks.{Op-mtx_lock, Op-mtx_trylock}
use multi_process_threading.Discipline.Sync.{
  Op-cond_wait, Op-cond_signal, Op-cond_broadcast, Op-setprio, Op-clock_interrupt,
}
use multi_process_threading.Discipline.Locks.{Op-mtx_unlock}
use multi_process_threading.Discipline.Threads.{Op-create, Op-self, Op-exit}
use multi_process_threading.Discipline.Joins.{Op-join, Op-detach, Op-reaper}
use multi_process_threading.System.{
  Prog, returns, exits, works, yields, locks, trylocks, unlocks, waits_for, signals, broadcasts,
  creates, joins, detaches, sets_prio, asks_self, turns_off, turns_on, exec, enter, enter_reaper,
  thread, lwp, Doing, asks, ready, exposed, user, parked, absent, System, here,
}

-- A command that can start and end anywhere.
abbrev pub IsFree : {A : Type 0} → Cmd A → Type 0
IsFree c = Op [] (λ _. []) c

pub Op-exec : (p : Prog) → IsFree (exec p)
unfolding exec
Op-exec (returns v) = Op-exit v
Op-exec (exits v) = Op-exit v
Op-exec (works p) = Op-pure
Op-exec (yields p) = Op-yield ⨾ λ _. Op-pure
Op-exec (locks m p) = Op-mtx_lock m ⨾ λ _. Op-pure
Op-exec (trylocks m f) = Op-mtx_trylock m ⨾ λ _. Op-pure
Op-exec (unlocks m p) = Op-mtx_unlock m tt tt ⨾ λ _. Op-pure
Op-exec (waits_for c m p) = Op-cond_wait c m ⨾ λ _. Op-pure
Op-exec (signals c p) = Op-cond_signal c ⨾ λ _. Op-pure
Op-exec (broadcasts c p) = Op-cond_broadcast c ⨾ λ _. Op-pure
Op-exec (creates b prio f) = Op-create b prio ⨾ λ _. Op-pure
Op-exec (joins id b f) = Op-join id b ⨾ λ _. Op-pure
Op-exec (detaches id f) = Op-detach id ⨾ λ _. Op-pure
Op-exec (sets_prio id prio f) = Op-setprio id prio ⨾ λ _. Op-pure
Op-exec (asks_self f) = Op-self ⨾ λ _. Op-pure
Op-exec (turns_off p) = Op-nopreempt_off ⨾ λ _. Op-pure
Op-exec (turns_on p) = Op-nopreempt_on ⨾ λ _. Op-pure

pub Op-enter : (p : Prog) → IsFree (enter p)
unfolding enter
Op-enter p = Op-nopreempt_off ⨾ λ _. Op-is_masked ⨾ λ _. Op-assert _ ⨾ λ _. Op-pure

pub Op-enter_reaper : (w n : ℕ) → IsFree (enter_reaper w n)
unfolding enter_reaper
Op-enter_reaper w n =
    Op-nopreempt_off ⨾ λ _. Op-is_masked ⨾ λ _. Op-assert _ ⨾ λ _. Op-reaper w n ⨾ λ _. Op-pure

pub Op-tick : (p : Prog) → IsFree (clock_interrupt >> pure p)
Op-tick p = Op-clock_interrupt ⨾ λ _. Op-pure

-- At its end a command has nothing to keep.
abbrev pub Ends : {A : Type 0} → State → Run A → Type 0
Ends s r = Keeps (λ _. Held []) s r

-- What is left of a call where the clock interrupt may come.
pub Op-interrupted :
    (k : Cmd Prog)
    → ((s' : State) → Only [] s' → Ends s' (k s'))
    → IsFree (clock_interrupt >> (λ s. preemptible s k))
Op-interrupted k f = Op-clock_interrupt ⨾ λ _. Op-preemptible f

-- What an LWP has still to do keeps the discipline, whatever the others do before.
abbrev pub Follows : {A : Type 0} → LwpId → State → Cmd A → Type 0
Follows l m k = (s' : State) → Left (here l m) s' → Ends s' (k s')

-- It holds no tracked mutex where it runs a thread's own code, or waits for a thread.
abbrev pub IsGuarded : LwpId → State → Doing → Type 0
IsGuarded l m (asks x (thread k)) = Ranked x (here l m) × Follows l m k
IsGuarded l m (asks x (lwp k)) = Ranked x (here l m) × Follows l m k
IsGuarded l m (ready (thread k)) = Follows l m k
IsGuarded l m (ready (lwp k)) = Follows l m k
IsGuarded l m (exposed k) = Only [] (here l m) × ((s' : State) → Only [] s' → Ends s' (k s'))
IsGuarded l m (user p) = Only [] (here l m)
IsGuarded l m parked = Only [] (here l m)
IsGuarded l m absent = Only [] (here l m)

pub record AreGuarded (σ : System) : Type 0 where
  pub doing : (l : LwpId) → IsGuarded l σ.mem (σ.at l)
  pub contexts : (t : Tid) (s' : State) → Only [] s' → Ends s' (σ.saved t s')
