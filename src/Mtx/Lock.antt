-- ===== src/Mtx/Lock.antt =====
-- Proofs about `uthread_mtx_lock` and `uthread_mtx_trylock`.
use multi_process_threading.Base.{◌≡◌, ◌∙◌, refl, true, none, some, update}
use multi_process_threading.State.{State, Tid, MtxId, m_pmut}
use multi_process_threading.Cmd.{bind, curthr}
use multi_process_threading.Cmd.Solo.{returned, solo, solo-seq, solo-lock, solo-unlock, solo-done}
use multi_process_threading.Sched.Preempt.{
  IsRunning, masked_in, solo-nopreempt_on, solo-nopreempt_off,
}
use multi_process_threading.Mtx.{set_owner, own, uthread_mtx_lock, uthread_mtx_trylock}

module _ (s : State) (t : Tid) (m : MtxId) (r : IsRunning s t) (p : s.pmuts.of_mtx m ≡ none) where
  abbrev entered : State
  entered = record (masked_in s t) {
    pmuts = record (s.pmuts) { of_mtx = update s.pmuts.of_mtx m (some s.cpu) };
  }

  solo-own : solo (own m entered) ≡ returned tt (set_owner m (some t) s)
  unfolding own bind curthr
  solo-own = rw r.here (
      solo-seq _ _ (solo-unlock (m_pmut m) _ s.pmuts refl p)
      ∙ solo-nopreempt_off s t _ r r.here refl refl refl)

  -- A running thread locks a mutex without an owner, while `m_pmut` is free. The call returns
  -- with the thread as owner, and nothing else has changed.
  pub lock-free :
      s.m_owner m ≡ none → solo (uthread_mtx_lock m s) ≡ returned tt (set_owner m (some t) s)
  unfolding uthread_mtx_lock bind
  lock-free o =
      solo-seq _ _ (solo-nopreempt_on s t r)
      ∙ (solo-seq _ _ (solo-lock (m_pmut m) _ p) ∙ rw o solo-own)

  pub trylock-free :
      s.m_owner m ≡ none → solo (uthread_mtx_trylock m s) ≡ returned true (set_owner m (some t) s)
  unfolding uthread_mtx_trylock bind
  trylock-free o =
      solo-seq _ _ (solo-nopreempt_on s t r)
      ∙ (solo-seq _ _ (solo-lock (m_pmut m) _ p) ∙ rw o (solo-seq _ _ solo-own ∙ solo-done true _))
