-- ===== src/Invariant/Blocking.antt =====
-- Proofs about uthread_mtx.c, `uthread_cond_signal` and `uthread_setprio` under the invariant.
use multi_process_threading.Base.{
  ℕ, ◌+◌, ◌≤◌, ◌<◌, ◌≡◌, ◌∙◌, refl, sym, ap, subst, true, false, none, some, List, [], ◌∷◌, ◌++◌,
  ◌==◌, has, update, update_self, Option, ==-self,
}
use multi_process_threading.State.{
  uth_max_uthreads, State, Tid, MtxId, CondId, ut_on_cpu, ut_runnable, ut_wait, uth_maxprio,
}
use multi_process_threading.State.Int.{pos, ltz, eqz}
use multi_process_threading.Cmd.{Run}
use multi_process_threading.Cmd.Solo.{returned, solo}
use multi_process_threading.Queue.Laws.{queue}
use multi_process_threading.Sched.{set_state}
use multi_process_threading.Sched.Preempt.{IsRunning}
use multi_process_threading.Sched.Wake.{runq_added}
use multi_process_threading.Sched.Scheduled.{
  is_runnable, AreQueued, Scheduled, AreQueued-state, AreQueued-link, AreQueued-add,
}
use multi_process_threading.Sched.Moving.{left_out, AreQueued-move}
use multi_process_threading.Switch.Laws.{Parks}
use multi_process_threading.Mtx.{set_owner, uthread_mtx_lock, uthread_mtx_unlock}
use multi_process_threading.Mtx.Unlock.{unlock-free, unlock-hand_over, handed}
use multi_process_threading.Mtx.Block.{lock-Parks}
use multi_process_threading.Cond.{uthread_cond_signal}
use multi_process_threading.Cond.Signal.{woken, signal-nil, signal-cons}
use multi_process_threading.Prio.{success, uthread_setprio}
use multi_process_threading.Prio.Laws.{moved, setprio-moves}

-- A thread in UT_WAIT, of a legal priority.
pub record IsWaiter (s : State) (u : Tid) : Type 0 where
  pub level : ℕ
  pub legal : level ≤ uth_maxprio
  pub prio : s.ut_prio u ≡ pos level
  pub waits : s.ut_state u ≡ ut_wait

abbrev pub oldest_of : List ℕ → Option Tid
oldest_of [] = none
oldest_of (u ∷ _) = some u

module _ (s : State) (t : Tid) (r : IsRunning s t) (free : s.pmuts.of_runq ≡ none)
    (a : Scheduled s) where
  -- A waiter off its queue and on the run queue.
  released :
      (u : Tid) (i : IsWaiter s u)
      → AreQueued
          (update s.queues.runqs i.level (queue ((s.queues.runqs i.level).tq_waiters ++ u ∷ [])))
          (update s.ut_state u ut_runnable)
          s.ut_prio
          (update (update s.linked u false) u true)
          (s.runq_size + 1)
  released u i =
      AreQueued-add _ _ _ _ _ (AreQueued-link _ _ _ _ _ a u idle false) u idle i.level i.legal
        i.prio
    where
      idle : is_runnable (s.ut_state u) ≡ false
      idle = ap is_runnable i.waits

  -- A running thread unlocks a mutex whose waiters are in UT_WAIT with legal priorities, while
  -- `runq_mtx` and `m_pmut` are free and the run queues have the right sizes and hold the
  -- runnable threads, each once and linked, on the queue of its legal priority, and `runq_size`
  -- is their number. The call returns, this still holds, and the owner is the oldest waiter, or
  -- nobody if there was none.
  pub unlock-Scheduled :
      (m : MtxId) (us : List ℕ)
      → s.pmuts.of_mtx m ≡ none
      → s.queues.mtx_waiters m ≡ queue us
      → ((u : Tid) → has u us ≡ true → IsWaiter s u)
      → (z : State) × (solo (uthread_mtx_unlock m s) ≡ returned tt z)
        × Scheduled z
        × (z.m_owner m ≡ oldest_of us)
  unlock-Scheduled m [] p e w =
      (set_owner m none s, unlock-free s t m r p e, a, update_self s.m_owner m none)
  unlock-Scheduled m (u ∷ us) p e w =
      let i : IsWaiter s u = w u (rw (==-self u) refl) in
      (
        runq_added u i.level (s.queues.runqs i.level).tq_waiters
            (set_state u ut_runnable (handed s t m r p u us s)),
        unlock-hand_over s t m r p u i.level us (s.queues.runqs i.level).tq_waiters i.waits
            (record {
              prio = i.prio;
              small = i.legal;
              free = update_self s.linked u false;
              holds = a.sized i.level i.legal;
            })
            free e,
        released u i,
        update_self s.m_owner m (some u),
      )

  -- A running thread signals a condition whose waiters are in UT_WAIT with legal priorities,
  -- while `runq_mtx` and `pmut` are free and the run queues have the right sizes and hold the
  -- runnable threads, each once and linked, on the queue of its legal priority, and `runq_size`
  -- is their number. The call returns, and this still holds.
  pub signal-Scheduled :
      (c : CondId) (us : List ℕ)
      → s.pmuts.of_cond c ≡ none
      → s.queues.cond_waiters c ≡ queue us
      → ((u : Tid) → has u us ≡ true → IsWaiter s u)
      → (z : State) × (solo (uthread_cond_signal c s) ≡ returned tt z) × Scheduled z
  signal-Scheduled c [] p e w = (s, signal-nil s t c r p e, a)
  signal-Scheduled c (u ∷ us) p e w =
      let i : IsWaiter s u = w u (rw (==-self u) refl) in
      (
        woken c u us i.level (s.queues.runqs i.level).tq_waiters s,
        signal-cons s t c r p u i.level us (s.queues.runqs i.level).tq_waiters i.waits
            (record {
              prio = i.prio;
              small = i.legal;
              free = update_self s.linked u false;
              holds = a.sized i.level i.legal;
            })
            free e,
        released u i,
      )

  -- A running thread in UT_ON_CPU and on no queue locks a mutex with an owner, while the posix
  -- mutexes are free and the run queues have the right sizes and hold the runnable threads, each
  -- once and linked, on the queue of its legal priority, and `runq_size` is their number. It
  -- leaves the LWP, which then leaves this as it was, with the thread in UT_WAIT.
  pub lock-Scheduled :
      (m : MtxId) (o : Tid) (ws : List ℕ)
      → s.pmuts.of_mtx m ≡ none
      → s.m_owner m ≡ some o
      → s.linked t ≡ false
      → s.ut_state t ≡ ut_on_cpu
      → s.queues.mtx_waiters m ≡ queue ws
      → (z : State) × (k : State → Run (Unit {0})) × Parks (solo (uthread_mtx_lock m s)) z k
        × Scheduled z
        × (z.ut_state t ≡ ut_wait)
  lock-Scheduled m o ws p owned off on e = (
    _,
    _,
    lock-Parks s t m r p o owned ws free off e,
    AreQueued-link _ _ _ _ _ (AreQueued-state _ _ _ _ _ a t (ap is_runnable on) ut_wait refl) t
        (ap is_runnable (update_self s.ut_state t ut_wait)) true,
    update_self s.ut_state t ut_wait,
  )

  -- A running thread gives another, runnable one a new legal priority that is no better than its
  -- own, while `runq_mtx` is free and the run queues have the right sizes and hold the runnable
  -- threads, each once and linked, on the queue of its legal priority, and `runq_size` is their
  -- number. The call returns 0, this still holds, and the thread has the new priority.
  pub setprio-Scheduled :
      (thr : Tid) (p1 : ℕ)
      → thr < uth_max_uthreads
      → s.ut_state thr ≡ ut_runnable
      → p1 ≤ uth_maxprio
      → eqz (s.ut_prio thr) (pos p1) ≡ false
      → (thr == t) ≡ false
      → ltz (s.ut_prio t) (pos p1) ≡ false
      → (z : State) × (solo (uthread_setprio (pos thr) (pos p1) s) ≡ returned success z)
        × Scheduled z
        × (z.ut_prio thr ≡ pos p1)
  setprio-Scheduled thr p1 inside run le1 new ne better =
      let (p0, le0, e) = a.legal thr (ap is_runnable run) in
      let other : eqz (pos p0) (pos p1) ≡ false = ap (λ z. eqz z (pos p1)) (sym e) ∙ new in
      let m : has thr (s.queues.runqs p0).tq_waiters ≡ true =
        a.on_queue p0 le0 thr ∙ rw (run, e) (==-self p0) in
      (
        moved thr p0 p1 (s.queues.runqs p0).tq_waiters (s.queues.runqs p1).tq_waiters s,
        setprio-moves s t r free thr p0 p1 _ _
            (record {
              inside = inside;
              runnable = run;
              prio = e;
              linked = a.linked thr (ap is_runnable run);
              old = le0;
              new = le1;
              other = other;
              on_old = a.sized p0 le0;
              member = m;
              on_new = a.sized p1 le1;
            })
            ne better,
        subst
            (λ (zs : List ℕ).
              AreQueued
                (update
                  (left_out s.queues.runqs s.ut_state s.ut_prio s.linked s.runq_size a thr p0 p1 le0
                    le1 m run)
                  p1 (queue (zs ++ thr ∷ [])))
                s.ut_state (update s.ut_prio thr (pos p1))
                (update (update s.linked thr false) thr true) s.runq_size)
            (rw other refl)
            (AreQueued-move s.queues.runqs s.ut_state s.ut_prio s.linked s.runq_size a thr p0 p1 le0
              le1 m run),
        update_self s.ut_prio thr (pos p1),
      )
