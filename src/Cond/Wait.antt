-- ===== src/Cond/Wait.antt =====
-- Proofs about `uthread_cond_wait`.
use multi_process_threading.Base.{
  ℕ, ◌≡◌, ◌∙◌, refl, ap, sym, true, false, none, some, List, [], ◌∷◌, arith, ◌==◌, update,
  update_self,
}
use multi_process_threading.State.{
  State, Tid, LwpId, Pmuts, put_pmut, MtxId, CondId, m_waiters, uc_waiters, c_pmut, ut_wait,
  ut_runnable, ut_zombie,
}
use multi_process_threading.Cmd.{bind, curthr}
use multi_process_threading.Cmd.Solo.{solo-may_tick, returned, solo, solo-seq, solo-lock}
use multi_process_threading.Queue.{write_queue, set_linked}
use multi_process_threading.Queue.Laws.{queue}
use multi_process_threading.Sched.{set_state, is_state}
use multi_process_threading.Sched.Preempt.{
  IsRunning, masked_in, IsRunning-masked_in, solo-nopreempt_on, solo-nopreempt_off,
}
use multi_process_threading.Sched.Wake.{CanAdd, runq_added}
use multi_process_threading.Switch.{after_switch}
use multi_process_threading.Switch.Laws.{
  IsMasked, Leaves, leaving, queued, releasing, Leaves-bind, Leaves-after, switch-Leaves,
}
use multi_process_threading.Mtx.{set_owner, uthread_mtx_unlock}
use multi_process_threading.Mtx.Lock.{lock-free}
use multi_process_threading.Mtx.Unlock.{unlock-free, unlock-hand_over}
use multi_process_threading.Cond.{cond_sleep, cond_awake, uthread_cond_wait}

-- The mutex is the waiter `u`'s, which is runnable behind `xs`; `us` still wait for it.
abbrev pub mutex_given : State → MtxId → Tid → ℕ → List ℕ → List ℕ → State
mutex_given z m u prio us xs = runq_added u prio xs (
    set_state u ut_runnable
      (set_owner m (some u) (set_linked u false (write_queue (m_waiters m) (queue us) z))))

module _ (s : State) (t : Tid) (c : CondId) (m : MtxId) (r : IsRunning s t)
    (p : s.pmuts.of_cond c ≡ none) (free : s.pmuts.of_runq ≡ none) where
  -- Thread `t` with preemption off and `pmut` held by its LWP.
  abbrev pub entered : State
  entered = record (masked_in s t) {
    pmuts = record (s.pmuts) { of_cond = update s.pmuts.of_cond c (some s.cpu) };
  }

  sleep-Leaves :
      (z : State) (ws : List ℕ)
      → IsMasked z t
      → z.pmuts ≡ entered.pmuts
      → z.cpu ≡ s.cpu
      → z.queues.cond_waiters c ≡ queue ws
      → z.linked t ≡ false
      → Leaves
          (solo (cond_sleep c z))
          (leaving (set_state t ut_wait z) (some (uc_waiters c)) false (some (c_pmut c)))
          (releasing (queued (set_state t ut_wait z) t (uc_waiters c) (c_pmut c) ws s.pmuts))
          after_switch
  unfolding cond_sleep bind curthr
  sleep-Leaves z ws i held cpu e unlinked = rw i.here (
      switch-Leaves (set_state t ut_wait z) t (uc_waiters c) (c_pmut c) ws s.pmuts
        (record { here = i.here; masked = i.masked; nested = i.nested })
        (ap (λ (ps : Pmuts). ps.of_runq) held ∙ free) refl e unlinked
        (held ∙ ap (λ (l : LwpId). put_pmut s.pmuts (c_pmut c) (some l)) (sym cpu)) p)

  wait-Leaves :
      (z : State) (ws : List ℕ)
      → solo (uthread_mtx_unlock m entered) ≡ returned tt z
      → IsMasked z t
      → z.pmuts ≡ entered.pmuts
      → z.cpu ≡ s.cpu
      → z.queues.cond_waiters c ≡ queue ws
      → z.linked t ≡ false
      → Leaves
          (solo (uthread_cond_wait c m s))
          (leaving (set_state t ut_wait z) (some (uc_waiters c)) false (some (c_pmut c)))
          (releasing (queued (set_state t ut_wait z) t (uc_waiters c) (c_pmut c) ws s.pmuts))
          (λ s'. bind (after_switch s') (λ _. cond_awake m))
  unfolding uthread_cond_wait bind
  wait-Leaves z ws u i held cpu e unlinked = Leaves-after (solo-seq _ _ (solo-nopreempt_on s t r)) (
      Leaves-after (solo-seq _ _ (solo-lock (c_pmut c) _ p))
        (Leaves-after (solo-seq _ _ u) (Leaves-bind _ _ (sleep-Leaves z ws i held cpu e unlinked))))

  module _ (ws : List ℕ) (unlinked : s.linked t ≡ false) (mfree : s.pmuts.of_mtx m ≡ none) where
    now_masked : IsRunning entered t
    now_masked = record { here = r.here; nested = (IsRunning-masked_in s t r).nested }

    here-IsMasked : IsMasked entered t
    here-IsMasked = record {
      here = r.here;
      masked = update_self s.masked s.cpu true;
      nested = ground arith;
    }

    -- A running thread on no queue waits for a condition with a mutex that nobody waits for;
    -- the posix mutexes are free. The mutex has no owner then. The caller leaves the LWP, which
    -- then holds `pmut`, and is on no queue yet; only then is it put, in UT_WAIT, behind the
    -- condition's other waiters, and only after that is `pmut` released.
    pub wait-frees :
        s.queues.cond_waiters c ≡ queue ws
        → s.queues.mtx_waiters m ≡ queue []
        → Leaves
            (solo (uthread_cond_wait c m s))
            (leaving
              (set_state t ut_wait (set_owner m none entered))
              (some (uc_waiters c))
              false
              (some (c_pmut c)))
            (releasing (
              queued
                (set_state t ut_wait (set_owner m none entered))
                t
                (uc_waiters c)
                (c_pmut c)
                ws
                s.pmuts))
            (λ s'. bind (after_switch s') (λ _. cond_awake m))
    wait-frees e nobody =
        wait-Leaves (set_owner m none entered) ws (unlock-free entered t m now_masked mfree nobody)
          (record { here = r.here; masked = here-IsMasked.masked; nested = here-IsMasked.nested })
          refl refl e unlinked

    -- A running thread on no queue waits for a condition with a mutex that others wait for, of
    -- whom the oldest is in UT_WAIT with a legal priority, while the posix mutexes are free.
    -- The mutex is handed to that waiter, which is runnable. The caller leaves the LWP in
    -- UT_WAIT, on no queue yet, and the LWP then holds `pmut` and `runq_mtx`. What `lwp_leave`
    -- does there is given whole: it puts the caller behind the condition's other waiters, its
    -- only pause is the release of `pmut` after that, and then the LWP is vacant.
    pub wait-hands_over :
        (u : Tid) (prio : ℕ) (us xs : List ℕ)
        → s.queues.cond_waiters c ≡ queue ws
        → s.queues.mtx_waiters m ≡ queue (u ∷ us)
        → s.ut_state u ≡ ut_wait
        → (t == u) ≡ false
        → CanAdd
            (set_owner m (some u) (set_linked u false (write_queue (m_waiters m) (queue us) s)))
            u
            prio
            xs
        → Leaves
            (solo (uthread_cond_wait c m s))
            (leaving
              (set_state t ut_wait (mutex_given entered m u prio us xs))
              (some (uc_waiters c))
              false
              (some (c_pmut c)))
            (releasing (
              queued
                (set_state t ut_wait (mutex_given entered m u prio us xs))
                t
                (uc_waiters c)
                (c_pmut c)
                ws
                s.pmuts))
            (λ s'. bind (after_switch s') (λ _. cond_awake m))
    wait-hands_over u prio us xs e some_wait w other a =
        wait-Leaves _ ws
          (unlock-hand_over entered t m now_masked mfree u prio us xs w
            (record { prio = a.prio; small = a.small; free = a.free; holds = a.holds }) free
            some_wait)
          (record { here = r.here; masked = here-IsMasked.masked; nested = here-IsMasked.nested })
          refl refl e (ground arith)

-- A thread that is no zombie and on no queue is run again inside `uthread_cond_wait`, while the
-- mutex is free. It returns as its owner, with preemption as it was before the wait.
pub awake-locks :
    (s : State) (t : Tid) (m : MtxId)
    → IsRunning s t
    → is_state (s.ut_state t) ut_zombie ≡ false
    → s.m_owner m ≡ none
    → s.pmuts.of_mtx m ≡ none
    → s.linked t ≡ false
    → solo (bind (after_switch (masked_in s t)) (λ _. cond_awake m))
      ≡ returned tt (set_owner m (some t) s)
unfolding after_switch cond_awake bind curthr
awake-locks s t m r alive o p unlinked =
    rw (r.here, alive)
      (solo-seq _ _ (solo-nopreempt_off s t _ r r.here refl refl refl)
        ∙ (solo-seq _ _ (solo-may_tick s)
            ∙ (solo-seq _ _ (lock-free s t m r p o)
                ∙ (solo-seq _ _ (solo-may_tick _)
                    ∙ (solo-seq _ _ (
                          solo-nopreempt_on (set_owner m (some t) s) t
                            (record { here = r.here; nested = r.nested }))
                        ∙ rw (r.here, unlinked)
                            (solo-nopreempt_off s t _ r r.here refl refl refl))))))
