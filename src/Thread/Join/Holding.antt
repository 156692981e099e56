-- ===== src/Thread/Join/Holding.antt =====
-- `uthread_detach` of a zombie while another thread has `reap_mtx`.
use multi_process_threading.Base.{
  ℕ, ◌<◌, ◌≡◌, ◌∙◌, refl, ap, Bool, true, false, some, none, List, [], if◌then◌else◌, ==-self,
  update_self,
}
use multi_process_threading.State.{
  State, Tid, ut_pmut, m_waiters, ut_wait, ut_zombie, uth_max_uthreads,
}
use multi_process_threading.State.Int.{pos}
use multi_process_threading.Cmd.{
  Run, Cmd, Fault, bind, gets, pure, ◌>>=◌, ◌>>◌, mutex_error, pthread_mutex_lock, take_from,
}
use multi_process_threading.Cmd.Solo.{aborted, solo, solo-seq, solo-bind, and_then}
use multi_process_threading.Queue.Laws.{queue}
use multi_process_threading.Sched.{set_state, is_state, uthread_nopreempt_off}
use multi_process_threading.Sched.Preempt.{
  IsRunning, masked_in, IsRunning-masked_in, solo-nopreempt_on,
}
use multi_process_threading.Switch.{after_switch}
use multi_process_threading.Switch.Laws.{Parks, Parks-bind, Parks-after, parked}
use multi_process_threading.Mtx.{after_wait}
use multi_process_threading.Mtx.Block.{lock-Parks}
use multi_process_threading.Prio.{Errno, success}
use multi_process_threading.Thread.Alloc.{set_detached}
use multi_process_threading.Thread.Life.{reap_mtx, make_reapable, release_reap}
use multi_process_threading.Thread.Join.{
  uthread_join, uthread_detach, join_thread, detach_thread, detach_zombie,
}
use multi_process_threading.Thread.Join.Laws.{
  uthread_join-at, uthread_detach-at, at_thread, solo-look,
}

pub solo-aborts :
    {A B : Type 0} (x : Run A) (f : A → Cmd B) {e : Fault}
    → solo x ≡ aborted e
    → solo (bind x f) ≡ aborted e
unfolding and_then
solo-aborts x f e = rw (solo-bind x f, e) refl

-- A thread whose LWP holds the target's `ut_pmut` already, by another thread's doing.
module _ (v : State) (u thr : Tid) (r : IsRunning v u) (inside : thr < uth_max_uthreads)
    (held : v.pmuts.of_ut thr ≡ some v.cpu) where
  held-aborts : solo (pthread_mutex_lock (ut_pmut thr) (masked_in v u)) ≡ aborted mutex_error
  unfolding solo pthread_mutex_lock take_from
  held-aborts =
      ap (λ o. solo (take_from o (ut_pmut thr) (masked_in v u))) held ∙ rw (==-self v.cpu) refl

  join-aborts : (wanted : Bool) → solo (uthread_join (pos thr) wanted v) ≡ aborted mutex_error
  unfolding join_thread bind
  join-aborts wanted =
      ap solo (uthread_join-at v thr inside wanted)
      ∙ solo-seq _ _ (solo-nopreempt_on v u r)
      ∙ solo-aborts _ _ held-aborts

module _ (s : State) (t : Tid) (r : IsRunning s t) (thr : Tid) (inside : thr < uth_max_uthreads)
    (free : s.pmuts.of_ut thr ≡ none) where
  abbrev detaching : State
  detaching = set_detached thr true (at_thread s t r thr free)

  detaching-IsRunning : IsRunning detaching t
  detaching-IsRunning = record { here = r.here; nested = i.nested }
    where
      i : IsRunning (masked_in s t) t
      i = IsRunning-masked_in s t r

  -- The caller waits for `reap_mtx`, off its LWP.
  abbrev pub waiting : List ℕ → State
  waiting ws =
      parked (set_state t ut_wait (masked_in detaching t)) t (m_waiters reap_mtx) ws detaching.pmuts

  -- What is left of its call.
  abbrev pub resuming : State → Run Errno
  resuming s' =
      bind
        (bind (bind (after_switch s') (λ _. after_wait reap_mtx)) (λ _.
          gets (λ z. z.ut_state thr) >>= λ u.
          if is_state u ut_zombie then make_reapable thr else release_reap thr))
        (λ _. uthread_nopreempt_off >> pure success)

  -- A running thread on no queue detaches a zombie that is attached and without a waiter, while
  -- another thread owns `reap_mtx`, and `runq_mtx`, the zombie's `ut_pmut` and the `m_pmut` of
  -- `reap_mtx` are free. The caller is put behind the waiters of `reap_mtx` and is off its LWP,
  -- which still holds the zombie's `ut_pmut` then. Wherever an LWP holds the `ut_pmut` already, a
  -- thread that it runs and that joins the zombie makes the program abort.
  pub detach-Parks :
      (o : Tid) (ws : List ℕ)
      → s.queues.waiters thr ≡ queue []
      → s.ut_detached thr ≡ false
      → s.ut_state thr ≡ ut_zombie
      → s.m_owner reap_mtx ≡ some o
      → s.queues.mtx_waiters reap_mtx ≡ queue ws
      → s.pmuts.of_mtx reap_mtx ≡ none
      → s.pmuts.of_runq ≡ none
      → s.linked t ≡ false
      → Parks (solo (uthread_detach (pos thr) s)) (waiting ws) resuming
        × ((waiting ws).ut_state t ≡ ut_wait)
        × ((waiting ws).pmuts.of_ut thr ≡ some s.cpu)
        × ((v : State) (u : Tid) (wanted : Bool)
            → IsRunning v u
            → v.pmuts.of_ut thr ≡ some v.cpu
            → solo (uthread_join (pos thr) wanted v) ≡ aborted mutex_error)
  unfolding detach_thread detach_zombie bind
  detach-Parks o ws nobody attached zombie owned e mtx runq off = (
    Parks-after (ap solo (uthread_detach-at s thr inside) ∙ solo-look s t r thr free [] _ nobody) (
        rw (attached, zombie)
          (Parks-bind _ _ (
            Parks-bind _ _
              (lock-Parks detaching t reap_mtx detaching-IsRunning mtx o owned ws runq off e)))),
    update_self s.ut_state t ut_wait,
    update_self s.pmuts.of_ut thr (some s.cpu),
    λ v u wanted i h. join-aborts v u thr i inside h wanted,
  )
