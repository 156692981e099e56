-- ===== src/Discipline.antt =====
-- The lock discipline of the library: which posix mutex guards which part of the state, and what a
-- command may do between two of its pause points while other LWPs hold mutexes.
pub mod Pmuts
pub mod Parts
pub mod Writes
pub mod Possession
pub mod Locking
pub mod Rules
pub mod Reads
pub mod Queues
pub mod Sched
pub mod Switch
pub mod Keys
pub mod Leave
pub mod Dispatch
pub mod Locks
pub mod Sync
pub mod Threads
pub mod Joins
pub mod LwpStart
use multi_process_threading.Base.{
  ℕ, ◌<◌, ◌⊎◌, inl, inr, ◌≡◌, ◌≢◌, Bool, true, false, Option, none, some, List, [], ◌∷◌, ◌++◌, ◌==◌,
}
use multi_process_threading.State.{
  State, Tid, MtxId, CondId, LwpId, PmutId, runq_mtx, uthreads_mtx, ut_pmut, m_pmut, c_pmut,
  QueueId, runq_table, ut_waiter, reap_queue, m_waiters, uc_waiters, get_pmut,
}
use multi_process_threading.State.Fifo.{Utqueue}
use multi_process_threading.Cmd.{
  Run, Cmd, done, locking, unlocked, switching, preemptible, exiting, failed,
}

-- The type of what a mutex guards. `ut_pmut` is initialised and destroyed while threads come and go,
-- and is left out.
abbrev pub Part : PmutId → Type 0
Part runq_mtx = (ℕ → Utqueue) × ℕ × ℕ × ℕ
Part uthreads_mtx = Option Tid
Part (ut_pmut t) = Unit {0}
Part (m_pmut m) = Utqueue × Option Tid
Part (c_pmut c) = Utqueue

-- The run queues and the counts, `PrevID`, the waiters and the owner of a mutex, those of a condition.
abbrev pub guarded : (m : PmutId) → State → Part m
guarded runq_mtx s = (s.queues.runqs, s.runq_size, s.lwp_parked_cnt, s.lwp_cnt)
guarded uthreads_mtx s = s.prev_id
guarded (ut_pmut t) s = tt
guarded (m_pmut m) s = (s.queues.mtx_waiters m, s.m_owner m)
guarded (c_pmut c) s = s.queues.cond_waiters c

abbrev pub is_tracked : PmutId → Bool
is_tracked (ut_pmut t) = false
is_tracked _ = true

abbrev pub Holds : PmutId → State → Type 0
Holds m s = get_pmut s.pmuts m ≡ some s.cpu

-- The LWP's own variables.
abbrev pub own_vars : LwpId → State → Option Tid × Option QueueId × Bool × Option PmutId × Bool
own_vars l s = (s.ut_curthr l, s.lwps.queue l, s.lwps.saveonrq l, s.lwps.pmut l, s.masked l)

-- A mutex that nobody owns has no waiters.
abbrev pub IsOwned : State → Type 0
IsOwned s = (m : MtxId) → s.m_owner m ≡ none → (s.queues.mtx_waiters m).tq_waiters ≡ []

-- What an LWP does from `s` to `z`, between two pause points.
pub record Respects (s z : State) : Type 0 where
  pub cpu : z.cpu ≡ s.cpu
  pub kept :
      (m : PmutId) (h : LwpId)
      → is_tracked m ≡ true
      → get_pmut s.pmuts m ≡ some h
      → (h == s.cpu) ≡ false
      → (get_pmut z.pmuts m ≡ some h) × (guarded m z ≡ guarded m s)
  pub gave :
      (m : PmutId) (h : LwpId)
      → get_pmut z.pmuts m ≡ some h
      → (h == s.cpu) ≡ false
      → get_pmut s.pmuts m ≡ some h
  pub private : (l : LwpId) → (l == s.cpu) ≡ false → own_vars l z ≡ own_vars l s
  pub owned : IsOwned s → IsOwned z
  pub room : s.lwp_parked_cnt < s.lwp_cnt → z.lwp_parked_cnt < z.lwp_cnt

abbrev pub Out : PmutId → List PmutId → Type 0
Out m [] = Unit {0}
Out m (x ∷ xs) = (m ≢ x) × Out m xs

-- The LWP of the step holds these mutexes, all of them different.
abbrev pub Has : List PmutId → State → Type 0
Has [] s = Unit {0}
Has (m ∷ ms) s = Holds m s × (is_tracked m ≡ true) × Out m ms × Has ms s

abbrev pub In : PmutId → List PmutId → Type 0
In m [] = ⊥
In m (x ∷ xs) = (x ≡ m) ⊎ In m xs

-- It holds no others.
abbrev pub Only : List PmutId → State → Type 0
Only ls s = (m : PmutId) → is_tracked m ≡ true → Holds m s → In m ls

pub record Held (ls : List PmutId) (s : State) : Type 0 where
  pub has : Has ls s
  pub only : Only ls s

-- The order in which an LWP takes the mutexes.
abbrev pub rank : PmutId → ℕ
rank (ut_pmut t) = 0
rank (c_pmut c) = 1
rank (m_pmut m) = 2
rank runq_mtx = 3
rank uthreads_mtx = 3

-- An LWP that asks for a mutex holds only those of a lower rank.
abbrev pub Ranked : PmutId → State → Type 0
Ranked m s = (x : PmutId) → is_tracked x ≡ true → Holds x s → rank x < rank m

-- The mutex that guards the queue is held.
abbrev pub Guards : QueueId → State → Type 0
Guards (runq_table p) s = Holds runq_mtx s
Guards (ut_waiter t) s = Unit {0}
Guards reap_queue s = Unit {0}
Guards (m_waiters m) s = Holds (m_pmut m) s
Guards (uc_waiters c) s = Holds (c_pmut c) s

-- The thread is put on the waiters' queue of a mutex only while it has an owner.
abbrev pub Adds : QueueId → State → Type 0
Adds (m_waiters m) s = s.m_owner m ≢ none
Adds _ s = Unit {0}

-- The queue becomes `u`, and nobody waits then for a mutex without an owner.
abbrev pub Shrinks : QueueId → State → Utqueue → Type 0
Shrinks (m_waiters m) s u =
    s.m_owner m ≡ none → (s.queues.mtx_waiters m).tq_waiters ≡ [] → u.tq_waiters ≡ []
Shrinks _ s u = Unit {0}

abbrev pub is_runq_mtx : PmutId → Bool
is_runq_mtx runq_mtx = true
is_runq_mtx _ = false

-- What a thread leaves to its LWP: `runq_mtx`, and the mutex of the queue that it wants to be on.
pub record Handed (s : State) : Type 0 where
  pub runq : Holds runq_mtx s
  pub only :
      (m : PmutId) → is_tracked m ≡ true → Holds m s → (runq_mtx ≡ m) ⊎ (s.lwps.pmut s.cpu ≡ some m)
  pub queue : (q : QueueId) → s.lwps.queue s.cpu ≡ some q → Guards q s × Adds q s
  pub pmut : (m : PmutId) → s.lwps.pmut s.cpu ≡ some m → is_runq_mtx m ≡ false

-- What the other LWPs leave to one that pauses: its own variables, and the mutexes that it holds.
pub record Left (z s' : State) : Type 0 where
  pub cpu : s'.cpu ≡ z.cpu
  pub holds : (m : PmutId) → is_tracked m ≡ true → Holds m z → Holds m s'
  pub only : (m : PmutId) → Holds m s' → Holds m z
  pub same : (m : PmutId) → is_tracked m ≡ true → Holds m z → guarded m s' ≡ guarded m z
  pub mine : own_vars z.cpu s' ≡ own_vars z.cpu z

-- The command respects the discipline from `s` on, through all its pause points and whatever the
-- others do at these, and ends with `Q`.
unfoldable pub Keeps : {A : Type 0} → (A → State → Type 0) → State → Run A → Type 0
Keeps Q s (done a z) = Respects s z × Q a z
Keeps Q s (locking m z k) =
    Respects s z × Ranked m z × ((s' : State) → Left z s' → Keeps Q s' (k s'))
Keeps Q s (unlocked z k) = Respects s z × ((s' : State) → Left z s' → Keeps Q s' (k s'))
Keeps Q s (switching z k) =
    Respects s z × Handed z × ((s' : State) → Only [] s' → Keeps Q s' (k s'))
Keeps Q s (preemptible z k) =
    Respects s z × Only [] z × ((s' : State) → Only [] s' → Keeps Q s' (k s'))
Keeps Q s (exiting z) = Respects s z
Keeps Q s (failed f) = Unit {0}

-- From any state where just the tracked mutexes of `ls` are held, to those of `ms`.
pub record Op {A : Type 0} (ls : List PmutId) (ms : A → List PmutId) (c : Cmd A) : Type 0 where
  pub at : (s : State) → Held ls s → Keeps (λ a z. Held (ms a) z) s (c s)
