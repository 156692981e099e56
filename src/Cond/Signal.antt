-- ===== src/Cond/Signal.antt =====
-- Proofs about `uthread_cond_signal`.
use multi_process_threading.Base.{ℕ, ◌≡◌, ◌∙◌, refl, false, none, some, List, [], ◌∷◌, update}
use multi_process_threading.State.{State, Tid, CondId, uc_waiters, c_pmut, ut_wait, ut_runnable}
use multi_process_threading.Cmd.{bind}
use multi_process_threading.Cmd.Solo.{returned, solo, solo-seq, solo-lock, solo-unlock}
use multi_process_threading.Queue.{write_queue, set_linked}
use multi_process_threading.Queue.Laws.{queue, solo-utqueue_dequeue_nil, solo-utqueue_dequeue_cons}
use multi_process_threading.Sched.{set_state}
use multi_process_threading.Sched.Preempt.{
  IsRunning, masked_in, IsRunning-masked_in, solo-nopreempt_on, solo-nopreempt_off,
}
use multi_process_threading.Sched.Wake.{CanAdd, runq_added, solo-wake}
use multi_process_threading.Cond.{wake_if_some, uthread_cond_signal}

-- `u` off the condition's queue, which then holds `us`.
abbrev pub taken : CondId → Tid → List ℕ → State → State
taken c u us s = set_linked u false (write_queue (uc_waiters c) (queue us) s)

-- `u`, the oldest waiter, made runnable: at the end of the run queue of its priority.
abbrev pub woken : CondId → Tid → List ℕ → ℕ → List ℕ → State → State
woken c u us prio xs s = runq_added u prio xs (set_state u ut_runnable (taken c u us s))

module _ (s : State) (t : Tid) (c : CondId) (r : IsRunning s t) (p : s.pmuts.of_cond c ≡ none) where
  abbrev entered : State
  entered = record (masked_in s t) {
    pmuts = record (s.pmuts) { of_cond = update s.pmuts.of_cond c (some s.cpu) };
  }

  -- Nobody waits: the signal is lost.
  pub signal-nil :
      s.queues.cond_waiters c ≡ queue [] → solo (uthread_cond_signal c s) ≡ returned tt s
  unfolding uthread_cond_signal bind wake_if_some
  signal-nil e =
      solo-seq _ _ (solo-nopreempt_on s t r)
      ∙ (solo-seq _ _ (solo-lock (c_pmut c) _ p)
          ∙ (solo-seq _ _ (solo-utqueue_dequeue_nil (uc_waiters c) entered e)
              ∙ (solo-seq _ _ (solo-unlock (c_pmut c) _ s.pmuts refl p)
                  ∙ solo-nopreempt_off s t _ r r.here refl refl refl)))

  -- A running thread signals a condition whose oldest waiter is in UT_WAIT with a legal priority,
  -- while `runq_mtx` and `pmut` are free. That waiter alone is off the condition's queue, and
  -- runnable behind the others of its priority.
  pub signal-cons :
      (u : Tid) (prio : ℕ) (us xs : List ℕ)
      → s.ut_state u ≡ ut_wait
      → CanAdd (taken c u us s) u prio xs
      → s.pmuts.of_runq ≡ none
      → s.queues.cond_waiters c ≡ queue (u ∷ us)
      → solo (uthread_cond_signal c s) ≡ returned tt (woken c u us prio xs s)
  unfolding uthread_cond_signal bind wake_if_some
  signal-cons u prio us xs w a free e =
      solo-seq _ _ (solo-nopreempt_on s t r)
      ∙ (solo-seq _ _ (solo-lock (c_pmut c) _ p)
          ∙ (solo-seq _ _ (solo-utqueue_dequeue_cons (uc_waiters c) entered u us e)
              ∙ (solo-seq _ _ (
                    solo-wake (taken c u us entered) t (record { here = r.here; nested = i.nested })
                      free u prio xs w
                      (record { prio = a.prio; small = a.small; free = a.free; holds = a.holds }))
                  ∙ (solo-seq _ _ (solo-unlock (c_pmut c) _ s.pmuts refl p)
                      ∙ solo-nopreempt_off s t _ r r.here refl refl refl))))
    where
      i : IsRunning (masked_in s t) t
      i = IsRunning-masked_in s t r
