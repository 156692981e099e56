-- ===== src/Invariant/Wake.antt =====
-- Proofs about `uthread_wake`, `uthread_yield` and `uthread_create` under the invariant.
use multi_process_threading.Base.{
  ℕ, ◌≤◌, ◌≡◌, ◌∙◌, refl, sym, ap, true, false, none, some, arith, update, update_self,
}
use multi_process_threading.State.{
  State, Tid, UthreadState, ut_no_state, ut_on_cpu, ut_runnable, ut_wait, ut_zombie, ut_transition,
  uth_maxprio,
}
use multi_process_threading.State.Int.{pos, negsuc}
use multi_process_threading.Cmd.{Run}
use multi_process_threading.Cmd.Solo.{returned, solo}
use multi_process_threading.Sched.{is_state, set_state, uthread_wake}
use multi_process_threading.Sched.Preempt.{IsRunning}
use multi_process_threading.Sched.Wake.{CanAdd, runq_added, solo-wake, solo-wake_other}
use multi_process_threading.Sched.Scheduled.{
  is_runnable, AreQueued, Scheduled, AreQueued-state, AreQueued-link, AreQueued-prio, AreQueued-add,
}
use multi_process_threading.Switch.{uthread_yield}
use multi_process_threading.Switch.Laws.{Parks}
use multi_process_threading.Switch.Yield.{yield-Parks}
use multi_process_threading.Prio.{success}
use multi_process_threading.Thread.Alloc.{find_free, start_of, uthread_create}
use multi_process_threading.Thread.Alloc.Free.{find_free-IsNextFree, start_of-small}
use multi_process_threading.Thread.Alloc.Create.{created, create-some}

-- A thread on no queue, of a legal priority.
pub record IsIdle (s : State) (u : Tid) : Type 0 where
  pub level : ℕ
  pub legal : level ≤ uth_maxprio
  pub prio : s.ut_prio u ≡ pos level
  pub off : s.linked u ≡ false

module _ (s : State) (t : Tid) (r : IsRunning s t) (free : s.pmuts.of_runq ≡ none)
    (a : Scheduled s) where
  idle-CanAdd : (u : Tid) (i : IsIdle s u) → CanAdd s u i.level (s.queues.runqs i.level).tq_waiters
  idle-CanAdd u i = record {
    prio = i.prio;
    small = i.legal;
    free = i.off;
    holds = a.sized i.level i.legal;
  }

  -- A running thread wakes a thread whose slot is in use and which, if it is in UT_WAIT, is on no
  -- queue and has a legal priority, while `runq_mtx` is free and the run queues have the right
  -- sizes and hold the runnable threads, each once and linked, on the queue of its legal
  -- priority, and `runq_size` is their number. The call returns, this still holds, and the thread
  -- is not in UT_WAIT.
  pub wake-Scheduled :
      (u : Tid)
      → is_state (s.ut_state u) ut_no_state ≡ false
      → (s.ut_state u ≡ ut_wait → IsIdle s u)
      → (z : State) × (solo (uthread_wake u s) ≡ returned tt z)
        × Scheduled z
        × (is_state (z.ut_state u) ut_wait ≡ false)
  wake-Scheduled u used idle = go (s.ut_state u) refl
    where
      stays :
          (v : UthreadState)
          → s.ut_state u ≡ v
          → is_state v ut_no_state ≡ false
          → is_state v ut_wait ≡ false
          → (z : State) × (solo (uthread_wake u s) ≡ returned tt z)
            × Scheduled z
            × (is_state (z.ut_state u) ut_wait ≡ false)
      stays v e x w = (s, solo-wake_other s t r free u v e x w, a, rw e w)

      go :
          (v : UthreadState)
          → s.ut_state u ≡ v
          → (z : State) × (solo (uthread_wake u s) ≡ returned tt z)
            × Scheduled z
            × (is_state (z.ut_state u) ut_wait ≡ false)
      go ut_wait e =
          let i : IsIdle s u = idle e in
          (
            runq_added u i.level (s.queues.runqs i.level).tq_waiters (set_state u ut_runnable s),
            solo-wake s t r free u i.level _ e (idle-CanAdd u i),
            AreQueued-add _ _ _ _ _ a u (rw e refl) i.level i.legal i.prio,
            rw (update_self s.ut_state u ut_runnable) refl,
          )
      go ut_no_state e =
          absurd (let both : true ≡ false = sym (ap (λ v. is_state v ut_no_state) e) ∙ used in cc)
      go ut_on_cpu e = stays ut_on_cpu e refl refl
      go ut_runnable e = stays ut_runnable e refl refl
      go ut_zombie e = stays ut_zombie e refl refl
      go ut_transition e = stays ut_transition e refl refl

  -- A running thread in UT_ON_CPU, on no queue and of a legal priority, yields while `runq_mtx`
  -- is free and the run queues have the right sizes and hold the runnable threads, each once and
  -- linked, on the queue of its legal priority, and `runq_size` is their number. It leaves the
  -- LWP, which then leaves this as it was, with the thread in UT_RUNNABLE.
  pub yield-Scheduled :
      s.ut_state t ≡ ut_on_cpu
      → IsIdle s t
      → (z : State) × (k : State → Run (Unit {0})) × Parks (solo (uthread_yield s)) z k
        × Scheduled z
        × (z.ut_state t ≡ ut_runnable)
  yield-Scheduled on i = (
    _,
    _,
    yield-Parks s t r (rw on refl) i.level (s.queues.runqs i.level).tq_waiters (idle-CanAdd t i)
        free,
    AreQueued-add _ _ _ _ _ a t (rw on refl) i.level i.legal i.prio,
    update_self s.ut_state t ut_runnable,
  )

  -- A running thread, whose own slot is in use, creates a thread of a legal priority, while the
  -- search finds a slot, there is memory for the stack, the posix mutexes are free, and the run
  -- queues have the right sizes and hold the runnable threads, each once and linked, on the queue
  -- of its legal priority, and `runq_size` is their number. The call returns 0 and the slot's id,
  -- and this still holds.
  pub create-Scheduled :
      (i : Tid) (p : ℕ)
      → s.pmuts.of_uthreads ≡ none
      → find_free (start_of s.prev_id) s.ut_state ≡ some i
      → is_state (s.ut_state t) ut_no_state ≡ false
      → p ≤ uth_maxprio
      → (z : State) × (solo (uthread_create true (pos p) s) ≡ returned (success, some i) z)
        × Scheduled z
  create-Scheduled i p ufree e alive le = (
    created i p (s.queues.runqs p).tq_waiters s,
    create-some s t r ufree free i p (s.queues.runqs p).tq_waiters e alive le (a.sized p le),
    AreQueued-add _ _ _ _ _ step4 i (rw (update_self s.ut_state i ut_transition) refl) p le
        (update_self (update s.ut_prio i (negsuc 0)) i (pos p)),
  )
    where
      idle : is_runnable (s.ut_state i) ≡ false
      idle =
          let (l, f, ns) = find_free-IsNextFree s.ut_state _ (start_of-small s.prev_id) i e in
          ground arith

      step1 :
          AreQueued s.queues.runqs
            (update s.ut_state i ut_transition)
            s.ut_prio
            s.linked
            s.runq_size
      step1 = AreQueued-state _ _ _ _ _ a i idle ut_transition refl

      now : is_runnable (update s.ut_state i ut_transition i) ≡ false
      now = rw (update_self s.ut_state i ut_transition) refl

      step2 :
          AreQueued s.queues.runqs
            (update s.ut_state i ut_transition)
            s.ut_prio
            (update s.linked i false)
            s.runq_size
      step2 = AreQueued-link _ _ _ _ _ step1 i now false

      step3 :
          AreQueued s.queues.runqs
            (update s.ut_state i ut_transition)
            (update s.ut_prio i (negsuc 0))
            (update s.linked i false)
            s.runq_size
      step3 = AreQueued-prio _ _ _ _ _ step2 i now (negsuc 0)

      step4 :
          AreQueued s.queues.runqs
            (update s.ut_state i ut_transition)
            (update (update s.ut_prio i (negsuc 0)) i (pos p))
            (update s.linked i false)
            s.runq_size
      step4 = AreQueued-prio _ _ _ _ _ step3 i now (pos p)
