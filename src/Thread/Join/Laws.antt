-- ===== src/Thread/Join/Laws.antt =====
-- Proofs about `uthread_join` and `uthread_detach`.
use multi_process_threading.Base.{
  ◌<◌, ℕ, ◌≡◌, ◌∙◌, refl, ap, Bool, true, false, not, ◌||◌, Option, none, some, List, [], ◌∷◌,
  arith, update, update_self,
}
use multi_process_threading.State.{
  uth_max_uthreads, State, Tid, ut_pmut, ut_waiter, ut_zombie, ut_wait,
}
use multi_process_threading.State.Int.{ℤ, pos}
use multi_process_threading.Cmd.{Cmd, pure, ◌>>=◌, bind, curthr, pthread_mutex_lock}
use multi_process_threading.Cmd.Solo.{returned, solo, solo-seq, solo-done, solo-lock, solo-unlock}
use multi_process_threading.Queue.{utqueue_empty, write_queue, set_linked}
use multi_process_threading.Queue.Laws.{queue, is_nil, solo-utqueue_empty, solo-utqueue_enqueue}
use multi_process_threading.Sched.{uthread_nopreempt_on, is_state, set_state}
use multi_process_threading.Sched.Preempt.{
  IsRunning, masked_in, solo-nopreempt_on, solo-nopreempt_off,
}
use multi_process_threading.Switch.{after_switch}
use multi_process_threading.Switch.Laws.{
  Leaves, Leaves-bind, Leaves-after, leaving, releasing, released,
}
use multi_process_threading.Switch.Release.{switch-releases}
use multi_process_threading.Prio.{Errno, success, einval, esrch, index_of}
use multi_process_threading.Prio.Laws.{index_of-inside}
use multi_process_threading.Thread.Alloc.{set_detached}
use multi_process_threading.Thread.Join.{
  Joined, release_thread, finish_join, await_exit, join_thread, uthread_join, detach_thread,
  uthread_detach,
}

-- An id outside the array: ESRCH from both, and nothing changes.
pub join-range :
    (s : State) (uid : ℤ) (wanted : Bool)
    → index_of uid ≡ none
    → (solo (uthread_join uid wanted s) ≡ returned (esrch, none) s)
      × (solo (uthread_detach uid s) ≡ returned esrch s)
unfolding uthread_join uthread_detach
join-range s uid wanted e = (
  ap
        (λ (o : Option Tid). solo (
          elim o as (λ _. Cmd Joined) [
            | none ↦ pure (esrch, none)
            | some thr ↦ join_thread thr wanted
          ]
            s))
        e
      ∙ solo-done _ s,
  ap
        (λ (o : Option Tid).
          solo (elim o as (λ _. Cmd Errno) [ none ↦ pure esrch | some thr ↦ detach_thread thr ] s))
        e
      ∙ solo-done _ s,
)

-- An id inside the array names its slot.
module _ (s : State) (thr : Tid) (inside : thr < uth_max_uthreads) where
  pub uthread_join-at : (wanted : Bool) → uthread_join (pos thr) wanted s ≡ join_thread thr wanted s
  unfolding uthread_join
  uthread_join-at wanted =
      ap
        (λ (o : Option Tid).
          elim o as (λ _. Cmd Joined) [ none ↦ pure (esrch, none) | some t ↦ join_thread t wanted ]
            s)
        (index_of-inside thr inside)

  pub uthread_detach-at : uthread_detach (pos thr) s ≡ detach_thread thr s
  unfolding uthread_detach
  uthread_detach-at =
      ap
        (λ (o : Option Tid).
          elim o as (λ _. Cmd Errno) [ none ↦ pure esrch | some t ↦ detach_thread t ] s)
        (index_of-inside thr inside)

module _ (s : State) (t : Tid) (r : IsRunning s t) (thr : Tid)
    (free : s.pmuts.of_ut thr ≡ none) where
  -- Preemption off, and the target's `ut_pmut` held.
  abbrev pub at_thread : State
  at_thread = record (masked_in s t) {
    pmuts = record (s.pmuts) { of_ut = update s.pmuts.of_ut thr (some s.cpu) };
  }

  solo-release_thread : solo (release_thread thr at_thread) ≡ returned tt s
  unfolding release_thread
  solo-release_thread =
      solo-seq _ _ (solo-unlock (ut_pmut thr) at_thread s.pmuts refl free)
      ∙ solo-nopreempt_off s t _ r r.here refl refl refl

  pub solo-look :
      {A : Type 0} (xs : List ℕ) (f : Unit {0} → Unit {0} → Bool → Cmd A)
      → s.queues.waiters thr ≡ queue xs
      → solo (
          (uthread_nopreempt_on >>= λ a.
          pthread_mutex_lock (ut_pmut thr) >>= λ b. utqueue_empty (ut_waiter thr) >>= f a b)
            s)
        ≡ solo (f tt tt (is_nil xs) at_thread)
  solo-look xs f e =
      solo-seq _ _ (solo-nopreempt_on s t r)
      ∙ (solo-seq _ _ (solo-lock (ut_pmut thr) _ free)
          ∙ solo-seq _ _ (solo-utqueue_empty (ut_waiter thr) at_thread xs e))

  -- For a thread that another one waits for, or that is detached, `uthread_join` and
  -- `uthread_detach` called by a running thread return EINVAL and change nothing, while its
  -- `ut_pmut` is free.
  pub join-refused :
      (inside : thr < uth_max_uthreads) (xs : List ℕ) (wanted : Bool)
      → s.queues.waiters thr ≡ queue xs
      → (not (is_nil xs) || s.ut_detached thr) ≡ true
      → (solo (uthread_join (pos thr) wanted s) ≡ returned (einval, none) s)
        × (solo (uthread_detach (pos thr) s) ≡ returned einval s)
  unfolding join_thread detach_thread bind
  join-refused inside (x ∷ xs) wanted e h = (
    ap solo (uthread_join-at s thr inside wanted)
        ∙ (solo-look (x ∷ xs) _ e ∙ (solo-seq _ _ solo-release_thread ∙ solo-done _ s)),
    ap solo (uthread_detach-at s thr inside)
        ∙ (solo-look (x ∷ xs) _ e ∙ (solo-seq _ _ solo-release_thread ∙ solo-done _ s)),
  )
  join-refused inside [] wanted e h = (
    ap solo (uthread_join-at s thr inside wanted)
        ∙ (solo-look [] _ e ∙ rw h (solo-seq _ _ solo-release_thread ∙ solo-done _ s)),
    ap solo (uthread_detach-at s thr inside)
        ∙ (solo-look [] _ e ∙ rw h (solo-seq _ _ solo-release_thread ∙ solo-done _ s)),
  )

  -- The caller on the queue of `thr`, in UT_WAIT, while its LWP holds `ut_pmut`.
  abbrev pub joining : State
  joining =
      set_linked t true
        (write_queue (ut_waiter thr) (queue (t ∷ [])) (set_state t ut_wait at_thread))

  await_exit-Leaves :
      s.queues.waiters thr ≡ queue []
      → s.linked t ≡ false
      → s.pmuts.of_runq ≡ none
      → Leaves
          (solo (await_exit thr at_thread))
          (leaving joining none false (some (ut_pmut thr)))
          (releasing (released joining (ut_pmut thr) s.pmuts))
          (λ s'. bind (after_switch s') (λ _. pthread_mutex_lock (ut_pmut thr)))
  unfolding await_exit bind curthr
  await_exit-Leaves e off runq_free = rw r.here (
      Leaves-after
        (solo-seq _ _
          (solo-utqueue_enqueue (ut_waiter thr) (set_state t ut_wait at_thread) t [] e off))
        (Leaves-bind _ _ (
          switch-releases _ t (ut_pmut thr) s.pmuts
            (record {
              here = r.here;
              masked = update_self s.masked s.cpu true;
              nested = ground arith;
            })
            runq_free refl refl free)))

  -- A running thread on no queue joins a thread that has not exited, is not detached and has no
  -- waiter, while its `ut_pmut` and `runq_mtx` are free. The caller leaves the LWP in UT_WAIT, on
  -- the thread's queue, and the LWP then holds `ut_pmut` and `runq_mtx`. What `lwp_leave` does
  -- there is given whole: its only pause is the release of `ut_pmut`, and then the LWP is vacant.
  -- What is left of the caller's call is the second return in `uthread_switch`, the lock of
  -- `ut_pmut`, and `finish_join`.
  pub join-Leaves :
      (inside : thr < uth_max_uthreads) (wanted : Bool)
      → s.queues.waiters thr ≡ queue []
      → s.ut_detached thr ≡ false
      → is_state (s.ut_state thr) ut_zombie ≡ false
      → s.linked t ≡ false
      → s.pmuts.of_runq ≡ none
      → Leaves
          (solo (uthread_join (pos thr) wanted s))
          (leaving joining none false (some (ut_pmut thr)))
          (releasing (released joining (ut_pmut thr) s.pmuts))
          (λ s'.
            bind
              (bind (after_switch s') (λ _. pthread_mutex_lock (ut_pmut thr)))
              (λ _. finish_join thr wanted))
  unfolding join_thread bind
  join-Leaves inside wanted e attached lives off runq_free =
      Leaves-after
        (ap solo (uthread_join-at s thr inside wanted)
          ∙ (solo-look [] _ e ∙ rw (attached, lives) refl))
        (Leaves-bind _ _ (await_exit-Leaves e off runq_free))

  -- A thread that has not exited yet is detached: `uthread_exit` will have it reaped.
  pub detach-lives :
      thr < uth_max_uthreads
      → s.queues.waiters thr ≡ queue []
      → s.ut_detached thr ≡ false
      → is_state (s.ut_state thr) ut_zombie ≡ false
      → solo (uthread_detach (pos thr) s) ≡ returned success (set_detached thr true s)
  unfolding detach_thread bind
  detach-lives inside e attached lives =
      ap solo (uthread_detach-at s thr inside)
      ∙ (solo-look [] _ e
          ∙ rw (attached, lives)
              (solo-seq _ _
                  (solo-unlock (ut_pmut thr) (set_detached thr true at_thread) s.pmuts refl free)
                ∙ (solo-seq _ _ (
                      solo-nopreempt_off s t (set_detached thr true (masked_in s t)) r r.here refl
                        refl refl)
                    ∙ solo-done _ _)))
