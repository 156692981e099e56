-- ===== src/Thread/Join/Twice.antt =====
-- `uthread_join` by a thread whose target another thread has joined in the meantime.
use multi_process_threading.Base.{
  ℕ, ◌≡◌, ◌∙◌, refl, Bool, true, false, Option, some, none, if◌then◌else◌, update_self, List, [],
  ◌==◌, ==-self, arith,
}
use multi_process_threading.State.{State, Tid, LwpId, ut_pmut, ut_zombie}
use multi_process_threading.Cmd.{Run, bind, assert_failed, curthr, is_masked, pthread_mutex_lock}
use multi_process_threading.Cmd.Solo.{aborted, returned, solo, solo-seq, solo-lock, solo-unlock}
use multi_process_threading.State.Int.{pos}
use multi_process_threading.Queue.Laws.{queue}
use multi_process_threading.Prio.{success}
use multi_process_threading.Queue.{utqueue_enqueue}
use multi_process_threading.Sched.{is_state}
use multi_process_threading.Sched.Preempt.{IsRunning, masked_in, IsRunning-masked_in}
use multi_process_threading.Switch.{after_switch}
use multi_process_threading.Mtx.{set_owner}
use multi_process_threading.Mtx.Lock.{lock-free}
use multi_process_threading.Thread.Alloc.{set_detached}
use multi_process_threading.Thread.Life.{reap_mtx, add_reapable, make_reapable}
use multi_process_threading.Thread.Join.{Joined, uthread_join, reap_joined, finish_join}
use multi_process_threading.Thread.Join.Laws.{at_thread}
use multi_process_threading.Thread.Join.Zombie.{CanReap, reaped, join-zombie}
use multi_process_threading.Thread.Join.Holding.{solo-aborts}

-- What is left of a call of `uthread_join` that waits.
abbrev pub joiner : Tid → Bool → State → Run Joined
joiner thr wanted s' =
    bind (bind (after_switch s') (λ _. pthread_mutex_lock (ut_pmut thr)))
      (λ _. finish_join thr wanted)

-- The thread that is to be reaped is on the reap queue already.
queued-aborts :
    (s : State) (thr : Tid)
    → s.masked s.cpu ≡ true
    → s.ut_state thr ≡ ut_zombie
    → s.linked thr ≡ true
    → solo (make_reapable thr s) ≡ aborted assert_failed
unfolding make_reapable add_reapable utqueue_enqueue bind is_masked solo
queued-aborts s thr masked zombie linked = rw (masked, zombie, linked) refl

module _ (v : State) (t thr : Tid) (r : IsRunning v t) (zombie : v.ut_state thr ≡ ut_zombie)
    (linked : v.linked thr ≡ true) (owner : v.m_owner reap_mtx ≡ none)
    (of_mtx : v.pmuts.of_mtx reap_mtx ≡ none) (free : v.pmuts.of_ut thr ≡ none) where
  abbrev rejoining : State
  rejoining = set_owner reap_mtx (some t) (set_detached thr true (masked_in v t))

  reap-aborts :
      (value : Option ℕ)
      → solo (reap_joined thr value (set_detached thr true (masked_in v t))) ≡ aborted assert_failed
  unfolding reap_joined bind
  reap-aborts value =
      solo-seq _ _ (
        lock-free (set_detached thr true (masked_in v t)) t reap_mtx
          (record { here = r.here; nested = i.nested }) of_mtx owner)
      ∙ (solo-seq _ _ (solo-lock (ut_pmut thr) rejoining free)
          ∙ rw zombie (
              solo-aborts _ _
                (queued-aborts _ thr (update_self v.masked v.cpu true) zombie linked)))
    where
      i : IsRunning (masked_in v t) t
      i = IsRunning-masked_in v t r

  joiner-aborts :
      (wanted : Bool)
      → is_state (v.ut_state t) ut_zombie ≡ false
      → solo (joiner thr wanted (masked_in v t)) ≡ aborted assert_failed
  unfolding after_switch finish_join bind curthr
  joiner-aborts wanted alive =
      rw (r.here, alive)
        (solo-seq _ _ (solo-lock (ut_pmut thr) (masked_in v t) free)
          ∙ rw zombie (
              solo-seq _ _ (
                solo-unlock (ut_pmut thr) (set_detached thr true (at_thread v t r thr free)) v.pmuts
                  refl free)
              ∙ reap-aborts _))

==-flip : (a b : ℕ) → (a == b) ≡ false → (b == a) ≡ false
==-flip a b h = ground arith

-- Thread `t` joins the zombie `thr`, whose first joiner `w` is only then run, on LWP `b`.
module _ (s : State) (t : Tid) (r : IsRunning s t) (thr : Tid) (xs : List ℕ) (u : Tid) (us : List ℕ)
    (prio : ℕ) (ys : List ℕ) (c : CanReap s t thr xs u us prio ys)
    (owner : s.m_owner reap_mtx ≡ none) (nobody : s.queues.waiters thr ≡ queue [])
    (attached : s.ut_detached thr ≡ false) (b : LwpId) where
  abbrev pub joined : State
  joined = record (reaped s t r thr xs u us prio ys c owner nobody attached) { cpu = b }

  -- A running thread joins a zombie under the conditions of the join of a zombie, so that its
  -- call returns 0, although another thread waits in `uthread_join` for the zombie, which has
  -- been woken and is off `ut_waiter`. If that one is run next, on any LWP, its call fails at the
  -- assertion that a thread is on no queue: it gives the reaper the zombie a second time.
  pub join-twice :
      (w : Tid) (wanted wanted' : Bool)
      → IsRunning joined w
      → is_state (joined.ut_state w) ut_zombie ≡ false
      → (solo (uthread_join (pos thr) wanted s)
          ≡ returned
              (success, if wanted then some (s.ut_exit thr) else none)
              (reaped s t r thr xs u us prio ys c owner nobody attached))
        × (solo (joiner thr wanted' (masked_in joined w)) ≡ aborted assert_failed)
  join-twice w wanted wanted' r' alive =
      let not_thr : (u == thr) ≡ false = ==-flip thr u c.not_reaper in
      (
        join-zombie s t r thr xs u us prio ys c owner nobody attached wanted,
        joiner-aborts joined w thr r' (rw not_thr c.zombie) (rw (not_thr, ==-self thr) refl) owner
            c.of_mtx c.of_ut wanted' alive,
      )
