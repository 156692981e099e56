-- ===== src/Thread/Alloc/Race.antt =====
-- The window in `uthread_alloc` between the release of `uthreads_mtx` and the read of `PrevID`.
use multi_process_threading.Base.{
  ◌-◌, ◌≡◌, ◌∙◌, refl, ap, true, false, Option, none, some, ◌==◌, update, Bool-cases, inl, inr,
  arith, update_self, ==-self,
}
use multi_process_threading.State.{State, Tid, LwpId, uthreads_mtx, ut_transition}
use multi_process_threading.Cmd.{
  may_tick, ◌>>◌, ◌>>=◌, gets, Run, unlocked, bind, curthr, is_masked, set_mask,
  pthread_mutex_unlock, give_back, pthread_mutex_lock, take_from,
}
use multi_process_threading.Cmd.Solo.{solo-may_tick, returned, solo, solo-seq}
use multi_process_threading.Cmd.Reach.{Reaches, granted, here, Reaches-seq}
use multi_process_threading.Sched.{set_state, set_count, uthread_nopreempt_off}
use multi_process_threading.Sched.Preempt.{IsRunning, masked_in, solo-nopreempt_on}
use multi_process_threading.Switch.Laws.{IsMasked}
use multi_process_threading.Thread.Alloc.{
  start_of, find_free, release_uthreads, claim, uthread_alloc,
}

module _ (s : State) (t : Tid) (i : IsMasked s t) where
  -- Preemption on again: nothing that other threads see has changed.
  solo-off :
      (w : State) × (solo (uthread_nopreempt_off s) ≡ returned tt w)
      × (w.prev_id ≡ s.prev_id)
      × (w.ut_state ≡ s.ut_state)
  unfolding uthread_nopreempt_off bind solo curthr is_masked set_mask
  solo-off = elim (Bool-cases (s.ut_no_preempt_count t - 1 == 0)) [
    | inl last ↦ (
      record (set_count t (s.ut_no_preempt_count t - 1) s) {
        lwps = record (s.lwps) { masked = update s.masked s.cpu false };
      },
      rw (i.masked, i.here, i.nested, last) refl,
      refl,
      refl,
    )
    | inr inner ↦ (
      set_count t (s.ut_no_preempt_count t - 1) s,
      rw (i.masked, i.here, i.nested, inner) refl,
      refl,
      refl,
    )
  ]

-- `t` has claimed slot `i` and released `uthreads_mtx`.
abbrev pub claimed_in : State → Tid → Tid → State
claimed_in s t i = record (set_state i ut_transition (masked_in s t)) {
  prev_id = some i;
  pmuts = record (s.pmuts) { of_uthreads = none };
}

-- What is left of `uthread_alloc` then.
abbrev pub reads : State → Run (Option Tid)
reads s' = bind (uthread_nopreempt_off s') (λ _. may_tick >> gets (λ z. z.prev_id))

reads_late :
    (s : State) (t j : Tid)
    → IsMasked s t
    → s.prev_id ≡ some j
    → (w : State) × (solo (reads s) ≡ returned (some j) w)
unfolding solo
reads_late s t j k e =
    let (w, off, prev, states) = solo-off s t k in
    (w, solo-seq _ _ off ∙ solo-seq _ _ (solo-may_tick w) ∙ (ap (λ o. returned o w) (prev ∙ e)))

module _ (s : State) (t i : Tid) (r : IsRunning s t) (free : s.pmuts.of_uthreads ≡ none)
    (found : find_free (start_of s.prev_id) s.ut_state ≡ some i) where
  claim_comes :
      Reaches
        (bind
          (pthread_mutex_lock uthreads_mtx (masked_in s t))
          (λ _. gets (λ z. find_free (start_of s.prev_id) z.ut_state) >>= claim))
        (unlocked (claimed_in s t i) reads)
  unfolding bind pthread_mutex_lock take_from claim release_uthreads pthread_mutex_unlock give_back
  claim_comes = granted (rw (free, found, ==-self s.cpu) here)

  alloc_comes : Reaches (uthread_alloc s) (unlocked (claimed_in s t i) reads)
  unfolding uthread_alloc bind
  alloc_comes =
      Reaches-seq _ _ (solo-may_tick s) (Reaches-seq _ _ (solo-nopreempt_on s t r) claim_comes)

-- Thread `u` of another LWP, `b`, calls `uthread_alloc` too while `t` stands at that point.
module _ (s : State) (t i : Tid) (r : IsRunning s t) (free : s.pmuts.of_uthreads ≡ none)
    (found : find_free (start_of s.prev_id) s.ut_state ≡ some i) (b : LwpId) (u j : Tid)
    (apart : (b == s.cpu) ≡ false) (different : (u == t) ≡ false) where
  abbrev pub between : State
  between = record (claimed_in s t i) { cpu = b }

  -- A running thread calls `uthread_alloc` while `uthreads_mtx` is free and the search finds a
  -- slot; it can come to the point where it has claimed the slot and released `uthreads_mtx`.
  -- There another thread, on another LWP, calls it too and finds a second slot, and can come to
  -- the same point. From there both calls return, and both return the second slot.
  pub alloc_twice :
      IsRunning between u
      → find_free (start_of (some i)) between.ut_state ≡ some j
      → Reaches (uthread_alloc s) (unlocked (claimed_in s t i) reads)
        × Reaches (uthread_alloc between) (unlocked (claimed_in between u j) reads)
        × ((w : State) × (solo (reads (record (claimed_in between u j) { cpu = s.cpu }))
              ≡ returned (some j) w))
        × ((w : State) × (solo (reads (claimed_in between u j)) ≡ returned (some j) w))
  alloc_twice r' found' = (
    alloc_comes s t i r free found,
    alloc_comes between u j r' refl found',
    reads_late _ t j
        (record {
          here = r.here;
          masked = rw apart (update_self s.masked s.cpu true);
          nested = rw different (rw (==-self t) (ground arith));
        })
        refl,
    reads_late _ u j
        (record {
          here = r'.here;
          masked = update_self between.masked b true;
          nested = rw (==-self u) (ground arith);
        })
        refl,
  )
