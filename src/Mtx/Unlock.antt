-- ===== src/Mtx/Unlock.antt =====
-- Proofs about `uthread_mtx_unlock`.
use multi_process_threading.Base.{ℕ, ◌≡◌, ◌∙◌, refl, false, none, some, List, [], ◌∷◌, update}
use multi_process_threading.State.{State, Tid, MtxId, m_waiters, m_pmut, ut_wait, ut_runnable}
use multi_process_threading.Cmd.{bind}
use multi_process_threading.Cmd.Solo.{returned, solo, solo-seq, solo-lock, solo-unlock}
use multi_process_threading.Queue.{write_queue, set_linked}
use multi_process_threading.Queue.Laws.{queue, solo-utqueue_empty, solo-utqueue_dequeue_cons}
use multi_process_threading.Sched.{set_state}
use multi_process_threading.Sched.Preempt.{
  IsRunning, masked_in, IsRunning-masked_in, solo-nopreempt_on, solo-nopreempt_off,
}
use multi_process_threading.Sched.Wake.{CanAdd, runq_added, solo-wake}
use multi_process_threading.Mtx.{set_owner, free_mtx, hand_over, uthread_mtx_unlock}

module _ (s : State) (t : Tid) (m : MtxId) (r : IsRunning s t) (p : s.pmuts.of_mtx m ≡ none) where
  abbrev entered : State
  entered = record (masked_in s t) {
    pmuts = record (s.pmuts) { of_mtx = update s.pmuts.of_mtx m (some s.cpu) };
  }

  solo-free_mtx : solo (free_mtx m entered) ≡ returned tt (set_owner m none (masked_in s t))
  unfolding free_mtx bind
  solo-free_mtx = solo-unlock (m_pmut m) _ s.pmuts refl p

  -- Nobody waits: the mutex is free afterwards, and nothing else has changed.
  pub unlock-free :
      s.queues.mtx_waiters m ≡ queue []
      → solo (uthread_mtx_unlock m s) ≡ returned tt (set_owner m none s)
  unfolding uthread_mtx_unlock bind
  unlock-free e =
      solo-seq _ _ (solo-nopreempt_on s t r)
      ∙ (solo-seq _ _ (solo-lock (m_pmut m) _ p)
          ∙ (solo-seq _ _ (solo-utqueue_empty (m_waiters m) entered [] e)
              ∙ (solo-seq _ _ solo-free_mtx ∙ solo-nopreempt_off s t _ r r.here refl refl refl)))

  -- `u`, off the waiters' queue and owner of the mutex.
  abbrev pub handed : Tid → List ℕ → State → State
  handed u us z = set_owner m (some u) (set_linked u false (write_queue (m_waiters m) (queue us) z))

  module _ (u : Tid) (prio : ℕ) (us xs : List ℕ) (w : s.ut_state u ≡ ut_wait)
      (c : CanAdd (handed u us s) u prio xs) (free : s.pmuts.of_runq ≡ none) where
    solo-hand_over :
        s.queues.mtx_waiters m ≡ queue (u ∷ us)
        → solo (hand_over m entered)
          ≡ returned tt
              (runq_added u prio xs (set_state u ut_runnable (handed u us (masked_in s t))))
    unfolding hand_over bind
    solo-hand_over e =
        solo-seq _ _ (solo-utqueue_dequeue_cons (m_waiters m) entered u us e)
        ∙ (solo-seq _ _ (solo-unlock (m_pmut m) _ s.pmuts refl p)
            ∙ solo-wake (handed u us (masked_in s t)) t
                (record { here = r.here; nested = i.nested }) free u prio xs w
                (record { prio = c.prio; small = c.small; free = c.free; holds = c.holds }))
      where
        i : IsRunning (masked_in s t) t
        i = IsRunning-masked_in s t r

    -- A running thread unlocks a mutex with waiters, the oldest of which is in UT_WAIT with a
    -- legal priority; the posix mutexes are free. Then that waiter owns the mutex, is off the
    -- waiters' queue, and is runnable behind the others of its priority; the other waiters keep
    -- their order, and mask, nesting count and posix mutexes are as before.
    pub unlock-hand_over :
        s.queues.mtx_waiters m ≡ queue (u ∷ us)
        → solo (uthread_mtx_unlock m s)
          ≡ returned tt (runq_added u prio xs (set_state u ut_runnable (handed u us s)))
    unfolding uthread_mtx_unlock bind
    unlock-hand_over e =
        solo-seq _ _ (solo-nopreempt_on s t r)
        ∙ (solo-seq _ _ (solo-lock (m_pmut m) _ p)
            ∙ (solo-seq _ _ (solo-utqueue_empty (m_waiters m) entered (u ∷ us) e)
                ∙ (solo-seq _ _ (solo-hand_over e)
                    ∙ solo-nopreempt_off s t _ r r.here refl refl refl)))
