-- ===== src/Thread/Life/Detached.antt =====
-- Proofs about `uthread_exit` of a thread that is detached.
use multi_process_threading.Base.{
  ℕ, ◌≤◌, ◌≡◌, ◌∙◌, refl, Bool, true, false, Option, none, some, List, [], ◌∷◌, ◌++◌, arith, ◌==◌,
  update, update_self, ==-self,
}
use multi_process_threading.State.{
  State, Tid, QueueId, PmutId, runq_mtx, ut_pmut, reap_queue, ut_zombie, ut_wait, uth_maxprio,
}
use multi_process_threading.State.Int.{pos}
use multi_process_threading.Cmd.{fail, panicked, Run, bind, curthr, is_masked, pthread_mutex_lock}
use multi_process_threading.Cmd.Solo.{returned, solo, solo-seq, solo-lock, solo-unlock}
use multi_process_threading.Cmd.Reach.{
  Reaches, Reaches-seq, Reaches-bind, here, AsksFor, AsksFor-bind,
}
use multi_process_threading.Queue.{write_queue, set_linked}
use multi_process_threading.Queue.Laws.{queue, solo-utqueue_enqueue}
use multi_process_threading.Sched.Preempt.{
  IsRunning, masked_in, solo-nopreempt_on, IsRunning-masked_in,
}
use multi_process_threading.Switch.{uthread_switch}
use multi_process_threading.Switch.Laws.{IsMasked}
use multi_process_threading.Mtx.{set_owner}
use multi_process_threading.Mtx.Lock.{lock-free}
use multi_process_threading.Mtx.Unlock.{unlock-free}
use multi_process_threading.Cond.Signal.{woken, signal-cons}
use multi_process_threading.Thread.Life.{
  reap_mtx, reap_cond, release_reap, add_reapable, make_reapable, exit_detached, uthread_exit,
}
use multi_process_threading.Thread.Life.Exit.{dead}

-- The detached thread `t` is on no queue, the reaper `u` sleeps, and the mutexes are free.
pub record CanVanish (s : State) (t : Tid) (xs : List ℕ) (u : Tid) (us : List ℕ) (prio : ℕ)
    (ys : List ℕ) : Type 0 where
  pub detached : s.ut_detached t ≡ true
  pub off : s.linked t ≡ false
  pub reaps : s.queues.reaps ≡ queue xs
  pub not_reaper : (t == u) ≡ false
  pub sleeps : s.ut_state u ≡ ut_wait
  pub asleep : s.queues.cond_waiters reap_cond ≡ queue (u ∷ us)
  pub level : s.ut_prio u ≡ pos prio
  pub legal : prio ≤ uth_maxprio
  pub holds : s.queues.runqs prio ≡ queue ys
  pub owner : s.m_owner reap_mtx ≡ none
  pub mtx_waiters : s.queues.mtx_waiters reap_mtx ≡ queue []
  pub of_runq : s.pmuts.of_runq ≡ none
  pub of_cond : s.pmuts.of_cond reap_cond ≡ none
  pub of_mtx : s.pmuts.of_mtx reap_mtx ≡ none
  pub of_ut : s.pmuts.of_ut t ≡ none

switch-AsksFor :
    (s : State) (t : Tid) (q : Option QueueId) (b : Bool) (m : Option PmutId)
    → IsMasked s t
    → AsksFor runq_mtx s (uthread_switch q b m s)
unfolding uthread_switch bind curthr is_masked pthread_mutex_lock AsksFor
switch-AsksFor s t q b m i = rw (i.masked, i.here, i.nested) (refl, refl)

module _ (s : State) (t : Tid) (r : IsRunning s t) (status : ℕ) (xs : List ℕ) (u : Tid)
    (us : List ℕ) (prio : ℕ) (ys : List ℕ) (c : CanVanish s t xs u us prio ys) where
  -- `t` is dead and owns `reap_mtx`.
  abbrev ended_thread : State
  ended_thread = dead t status (set_owner reap_mtx (some t) (masked_in s t))

  abbrev locked : State → State
  locked z = record z { pmuts = record (s.pmuts) { of_ut = update s.pmuts.of_ut t (some s.cpu) } }

  abbrev queued_up : State
  queued_up = set_linked t true (write_queue reap_queue (queue (xs ++ t ∷ [])) ended_thread)

  -- On the reap queue, with the reaper runnable and both mutexes free.
  abbrev pub exposed : State
  exposed = set_owner reap_mtx none (woken reap_cond u us prio ys queued_up)

  masked_now : IsRunning (masked_in s t) t
  masked_now = IsRunning-masked_in s t r

  solo-release_reap :
      solo (release_reap t (locked (woken reap_cond u us prio ys queued_up))) ≡ returned tt exposed
  unfolding release_reap
  solo-release_reap =
      solo-seq _ _ (solo-unlock (ut_pmut t) _ s.pmuts refl c.of_ut)
      ∙ unlock-free (woken reap_cond u us prio ys queued_up) t reap_mtx
          (record { here = r.here; nested = masked_now.nested }) c.of_mtx c.mtx_waiters

  -- What comes next: the switch, which first asks for `runq_mtx`.
  last_switch : Run (Unit {0})
  last_switch = bind (uthread_switch none false none exposed) (λ _. fail panicked)

  last_switch-AsksFor : AsksFor runq_mtx exposed last_switch
  unfolding last_switch
  last_switch-AsksFor = AsksFor-bind runq_mtx exposed (uthread_switch none false none exposed) _ (
      switch-AsksFor exposed t none false none
        (record { here = r.here; masked = update_self s.masked s.cpu true; nested = ground arith }))

  add_reapable-Reaches : Reaches (add_reapable t (locked ended_thread)) last_switch
  unfolding add_reapable bind curthr last_switch
  add_reapable-Reaches =
      Reaches-seq _ _ (solo-utqueue_enqueue reap_queue (locked ended_thread) t xs c.reaps c.off) (
        Reaches-seq _ _
          (signal-cons (locked queued_up) t reap_cond
            (record { here = r.here; nested = masked_now.nested }) c.of_cond u prio us ys
            (rw c.not_reaper c.sleeps)
            (record {
              prio = c.level;
              small = c.legal;
              free = update_self (update s.linked t true) u false;
              holds = c.holds;
            })
            c.of_runq c.asleep)
          (rw r.here (Reaches-seq _ _ solo-release_reap (rw (==-self t) here))))

  make_reapable-Reaches : Reaches (make_reapable t (locked ended_thread)) last_switch
  unfolding make_reapable bind is_masked
  make_reapable-Reaches =
      rw (update_self s.masked s.cpu true, update_self s.ut_state t ut_zombie) add_reapable-Reaches

  -- A running thread that is detached and on no queue exits, while the reaper sleeps on
  -- `reap_cond` with a legal priority, nobody owns or waits for `reap_mtx`, and the posix mutexes
  -- are free. While the other LWPs stand still it comes to the point where it asks for `runq_mtx`
  -- to leave the LWP. There it is still the LWP's thread, but is last on the reap queue,
  -- `reap_mtx` has no owner, and its `ut_pmut` is free.
  pub exit-exposed :
      {A : Type 0}
      → (x : Run A) × Reaches (uthread_exit {A = A} status s) x
        × AsksFor runq_mtx exposed x
        × (exposed.ut_curthr exposed.cpu ≡ some t)
        × (exposed.pmuts.of_ut t ≡ none)
        × (exposed.queues.reaps ≡ queue (xs ++ t ∷ []))
        × (exposed.m_owner reap_mtx ≡ none)
  unfolding uthread_exit exit_detached bind curthr
  exit-exposed {A = A} = (
    bind last_switch
        (λ _ s'. bind (uthread_switch none false (some (ut_pmut t)) s') (λ _. fail panicked)),
    Reaches-seq _ _ (solo-nopreempt_on s t r) (
        Reaches-seq _ _ (lock-free (masked_in s t) t reap_mtx masked_now c.of_mtx c.owner) (
          rw r.here (
            Reaches-seq _ _
              (solo-lock (ut_pmut t) (set_owner reap_mtx (some t) (masked_in s t)) c.of_ut)
              (rw c.detached (Reaches-bind _ make_reapable-Reaches))))),
    AsksFor-bind runq_mtx exposed last_switch _ last_switch-AsksFor,
    r.here,
    c.of_ut,
    refl,
    update_self (update s.m_owner reap_mtx (some t)) reap_mtx none,
  )
