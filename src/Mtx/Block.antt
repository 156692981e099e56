-- ===== src/Mtx/Block.antt =====
-- Proofs about `uthread_mtx_lock` at a mutex that is locked.
use multi_process_threading.Base.{
  ℕ, ◌≡◌, ◌∙◌, refl, true, false, none, some, List, arith, ==-self, update, update_self,
}
use multi_process_threading.State.{State, Tid, MtxId, m_waiters, m_pmut, ut_wait, ut_zombie}
use multi_process_threading.Cmd.{bind, curthr}
use multi_process_threading.Cmd.Solo.{returned, solo, solo-seq, solo-lock, solo-unlock, solo-done}
use multi_process_threading.Queue.Laws.{queue}
use multi_process_threading.Sched.{set_state, is_state}
use multi_process_threading.Sched.Preempt.{
  IsRunning, masked_in, solo-nopreempt_on, solo-nopreempt_off,
}
use multi_process_threading.Switch.{after_switch}
use multi_process_threading.Switch.Laws.{
  Parks, Leaves, Leaves-bind, Leaves-after, Leaves-Parks, leaving, queued, releasing, parked,
  switch-Leaves,
}
use multi_process_threading.Mtx.{wait_for, after_wait, owns, uthread_mtx_lock, uthread_mtx_trylock}

-- Thread `t` with preemption off and `m_pmut` held by its LWP.
abbrev pub entered : State → Tid → MtxId → State
entered s t m = record (masked_in s t) {
  pmuts = record (s.pmuts) { of_mtx = update s.pmuts.of_mtx m (some s.cpu) };
}

-- The same, in UT_WAIT.
abbrev pub asleep : State → Tid → MtxId → State
asleep s t m = set_state t ut_wait (entered s t m)

module _ (s : State) (t : Tid) (m : MtxId) (r : IsRunning s t) (p : s.pmuts.of_mtx m ≡ none) where
  module _ (o : Tid) (owned : s.m_owner m ≡ some o) where
    module _ (ws : List ℕ) (free : s.pmuts.of_runq ≡ none) (unlinked : s.linked t ≡ false) where
      wait_for-Leaves :
          s.queues.mtx_waiters m ≡ queue ws
          → Leaves
              (solo (wait_for m (entered s t m)))
              (leaving (asleep s t m) (some (m_waiters m)) false (some (m_pmut m)))
              (releasing (queued (asleep s t m) t (m_waiters m) (m_pmut m) ws s.pmuts))
              (λ s'. bind (after_switch s') (λ _. after_wait m))
      unfolding wait_for bind curthr
      wait_for-Leaves e = rw r.here (
          Leaves-bind _ _ (
            switch-Leaves (asleep s t m) t (m_waiters m) (m_pmut m) ws s.pmuts
              (record {
                here = r.here;
                masked = update_self s.masked s.cpu true;
                nested = ground arith;
              })
              free refl e unlinked refl p))

      -- A running thread that is on no queue locks a mutex with an owner, while the posix
      -- mutexes are free. It leaves the LWP in UT_WAIT, on no queue yet, and the LWP then
      -- holds `m_pmut` and `runq_mtx`. What `lwp_leave` does there is given whole: it puts
      -- the thread behind the mutex's other waiters, its only pause is the release of
      -- `m_pmut` after that, and then the LWP is vacant. What is left of the thread's call is
      -- the second return in `uthread_switch` and the test of ownership.
      pub lock-Leaves :
          s.queues.mtx_waiters m ≡ queue ws
          → Leaves
              (solo (uthread_mtx_lock m s))
              (leaving (asleep s t m) (some (m_waiters m)) false (some (m_pmut m)))
              (releasing (queued (asleep s t m) t (m_waiters m) (m_pmut m) ws s.pmuts))
              (λ s'. bind (after_switch s') (λ _. after_wait m))
      unfolding uthread_mtx_lock bind
      lock-Leaves e =
          Leaves-after (solo-seq _ _ (solo-nopreempt_on s t r))
            (Leaves-after (solo-seq _ _ (solo-lock (m_pmut m) _ p)) (rw owned (wait_for-Leaves e)))

      pub lock-Parks :
          s.queues.mtx_waiters m ≡ queue ws
          → Parks
              (solo (uthread_mtx_lock m s))
              (parked (set_state t ut_wait (masked_in s t)) t (m_waiters m) ws s.pmuts)
              (λ s'. bind (after_switch s') (λ _. after_wait m))
      lock-Parks e = Leaves-Parks _ (some (m_waiters m)) false (some (m_pmut m)) (lock-Leaves e)

    -- `uthread_mtx_trylock` by a running thread at a mutex with an owner, while `m_pmut` is
    -- free, returns 0 at once and changes nothing.
    pub trylock-busy : solo (uthread_mtx_trylock m s) ≡ returned false s
    unfolding uthread_mtx_trylock bind
    trylock-busy =
        solo-seq _ _ (solo-nopreempt_on s t r)
        ∙ (solo-seq _ _ (solo-lock (m_pmut m) _ p)
            ∙ rw owned (
                solo-seq _ _ (solo-unlock (m_pmut m) _ s.pmuts refl p)
                ∙ solo-seq _ _ (solo-nopreempt_off s t _ r r.here refl refl refl)
                ∙ solo-done false s))

-- The waiter, resumed by an LWP after the mutex was handed to it.
module _ (s : State) (t : Tid) (m : MtxId) where
  -- A thread that is no zombie is run again inside `uthread_mtx_lock`, while it owns the mutex.
  -- The assertion holds, and the call returns with preemption as it was and nothing else changed.
  pub resume-owner :
      IsRunning s t
      → s.m_owner m ≡ some t
      → is_state (s.ut_state t) ut_zombie ≡ false
      → solo (bind (after_switch (masked_in s t)) (λ _. after_wait m)) ≡ returned tt s
  unfolding after_switch after_wait bind curthr owns
  resume-owner r o alive =
      rw (r.here, alive, r.here, o, ==-self t) (solo-nopreempt_off s t _ r r.here refl refl refl)
