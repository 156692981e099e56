-- ===== src/Thread/Join/Zombie.antt =====
-- Proofs about `make_reapable`, and about `uthread_join` and `uthread_detach` of a thread that has
-- exited.
use multi_process_threading.Base.{
  ◌<◌, ℕ, ◌≡◌, ◌∙◌, refl, ap, Bool, true, false, Option, none, some, List, [], ◌∷◌, ◌++◌,
  if◌then◌else◌, ◌==◌, update, update_self, update-restore,
}
use multi_process_threading.State.{
  uth_max_uthreads, State, Tid, MtxId, ut_pmut, reap_queue, ut_zombie, ut_wait,
}
use multi_process_threading.State.Int.{pos}
use multi_process_threading.Cmd.{pure, bind, curthr, is_masked}
use multi_process_threading.Cmd.Solo.{returned, solo, solo-seq, solo-done, solo-lock, solo-unlock}
use multi_process_threading.Queue.{write_queue, set_linked}
use multi_process_threading.Queue.Laws.{queue, solo-utqueue_enqueue}
use multi_process_threading.Sched.{uthread_nopreempt_off}
use multi_process_threading.Sched.Preempt.{
  IsRunning, masked_in, solo-nopreempt_off, IsRunning-masked_in,
}
use multi_process_threading.Sched.Wake.{CanAdd}
use multi_process_threading.Mtx.{set_owner}
use multi_process_threading.Mtx.Lock.{lock-free}
use multi_process_threading.Mtx.Unlock.{unlock-free}
use multi_process_threading.Cond.Signal.{taken, woken, signal-cons}
use multi_process_threading.Prio.{success}
use multi_process_threading.Thread.Alloc.{set_detached}
use multi_process_threading.Thread.Life.{
  reap_mtx, reap_cond, release_reap, add_reapable, make_reapable,
}
use multi_process_threading.Thread.Join.{
  uthread_join, uthread_detach, finish_join, reap_joined, join_thread, detach_zombie, detach_thread,
}
use multi_process_threading.Thread.Join.Laws.{
  uthread_join-at, uthread_detach-at, at_thread, solo-look,
}

-- The zombie `thr` at the end of the reap queue, and the reaper `u` runnable.
abbrev pub reapable : Tid → List ℕ → Tid → List ℕ → ℕ → List ℕ → State → State
reapable thr xs u us prio ys s =
    woken reap_cond u us prio ys
      (set_linked thr true (write_queue reap_queue (queue (xs ++ thr ∷ [])) s))

-- `thr` has exited and is on no queue, the reaper `u` sleeps, and the posix mutexes are free.
pub record CanReap (s : State) (t thr : Tid) (xs : List ℕ) (u : Tid) (us : List ℕ) (prio : ℕ)
    (ys : List ℕ) : Type 0 where
  pub inside : thr < uth_max_uthreads
  pub zombie : s.ut_state thr ≡ ut_zombie
  pub off : s.linked thr ≡ false
  pub reaps : s.queues.reaps ≡ queue xs
  pub not_self : (thr == t) ≡ false
  pub not_reaper : (thr == u) ≡ false
  pub sleeps : s.ut_state u ≡ ut_wait
  pub can_add : CanAdd (taken reap_cond u us s) u prio ys
  pub asleep : s.queues.cond_waiters reap_cond ≡ queue (u ∷ us)
  pub mtx_waiters : s.queues.mtx_waiters reap_mtx ≡ queue []
  pub of_runq : s.pmuts.of_runq ≡ none
  pub of_cond : s.pmuts.of_cond reap_cond ≡ none
  pub of_mtx : s.pmuts.of_mtx reap_mtx ≡ none
  pub of_ut : s.pmuts.of_ut thr ≡ none

module _ (s : State) (t : Tid) (r : IsRunning s t) (masked : s.masked s.cpu ≡ true) (thr : Tid)
    (xs : List ℕ) (u : Tid) (us : List ℕ) (prio : ℕ) (ys : List ℕ)
    (c : CanReap s t thr xs u us prio ys) where
  abbrev locked : State → State
  locked z = record z { pmuts = record (s.pmuts) { of_ut = update s.pmuts.of_ut thr (some s.cpu) } }

  abbrev queued : State → State
  queued z = set_linked thr true (write_queue reap_queue (queue (xs ++ thr ∷ [])) z)

  solo-release_reap :
      solo (release_reap thr (locked (reapable thr xs u us prio ys s)))
      ≡ returned tt (set_owner reap_mtx none (reapable thr xs u us prio ys s))
  unfolding release_reap
  solo-release_reap =
      solo-seq _ _ (solo-unlock (ut_pmut thr) _ s.pmuts refl c.of_ut)
      ∙ unlock-free (reapable thr xs u us prio ys s) t reap_mtx
          (record { here = r.here; nested = r.nested }) c.of_mtx c.mtx_waiters

  -- Another thread's `make_reapable`: the zombie is queued, the reaper woken, both mutexes released.
  pub make_reapable-other :
      solo (make_reapable thr (locked s))
      ≡ returned tt (set_owner reap_mtx none (reapable thr xs u us prio ys s))
  unfolding make_reapable add_reapable bind is_masked curthr
  make_reapable-other =
      rw (masked, c.zombie)
        (solo-seq _ _ (solo-utqueue_enqueue reap_queue (locked s) thr xs c.reaps c.off)
          ∙ (solo-seq _ _ (
                signal-cons (locked (queued s)) t reap_cond
                  (record { here = r.here; nested = r.nested }) c.of_cond u prio us ys c.sleeps
                  (record {
                    prio = a.prio;
                    small = a.small;
                    free = update_self (update s.linked thr true) u false;
                    holds = a.holds;
                  })
                  c.of_runq c.asleep)
              ∙ rw r.here (solo-seq _ _ solo-release_reap ∙ rw c.not_self (solo-done tt _))))
    where
      a : CanAdd (taken reap_cond u us s) u prio ys
      a = c.can_add

module _ (s : State) (t : Tid) (r : IsRunning s t) (thr : Tid) (xs : List ℕ) (u : Tid) (us : List ℕ)
    (prio : ℕ) (ys : List ℕ) (c : CanReap s t thr xs u us prio ys)
    (owner : s.m_owner reap_mtx ≡ none) (nobody : s.queues.waiters thr ≡ queue [])
    (attached : s.ut_detached thr ≡ false) where
  -- Detached, and with `reap_mtx` held, preemption off.
  abbrev reaping : State
  reaping = set_owner reap_mtx (some t) (set_detached thr true (masked_in s t))

  reaping-IsRunning : IsRunning reaping t
  reaping-IsRunning = record { here = r.here; nested = i.nested }
    where
      i : IsRunning (masked_in s t) t
      i = IsRunning-masked_in s t r

  reaping-CanReap : CanReap reaping t thr xs u us prio ys
  reaping-CanReap = record {
    inside = c.inside;
    zombie = c.zombie;
    off = c.off;
    reaps = c.reaps;
    not_self = c.not_self;
    not_reaper = c.not_reaper;
    sleeps = c.sleeps;
    can_add = record { prio = a.prio; small = a.small; free = a.free; holds = a.holds };
    asleep = c.asleep;
    mtx_waiters = c.mtx_waiters;
    of_runq = c.of_runq;
    of_cond = c.of_cond;
    of_mtx = c.of_mtx;
    of_ut = c.of_ut;
  }
    where
      a : CanAdd (taken reap_cond u us s) u prio ys
      a = c.can_add

  -- `thr` detached and given to the reaper.
  abbrev pub reaped : State
  reaped = reapable thr xs u us prio ys (set_detached thr true s)

  -- `reap_mtx` is released, and preemption is as it was.
  solo-leave_reaping :
      {A : Type 0} (a : A)
      → solo (
          bind
            (uthread_nopreempt_off (set_owner reap_mtx none (reapable thr xs u us prio ys reaping)))
            (λ _. pure a))
        ≡ returned a reaped
  solo-leave_reaping a =
      solo-seq _ _ (solo-nopreempt_off s t _ r r.here refl refl refl)
      ∙ (solo-done a _
          ∙ ap (λ (f : MtxId → Option Tid). returned a (record reaped { m_owner = f }))
              (update-restore s.m_owner reap_mtx (some t) none owner))

  solo-reap_joined :
      (value : Option ℕ)
      → solo (reap_joined thr value (set_detached thr true (masked_in s t)))
        ≡ returned (success, value) reaped
  unfolding reap_joined bind
  solo-reap_joined value =
      solo-seq _ _ (
        lock-free (set_detached thr true (masked_in s t)) t reap_mtx
          (record { here = r.here; nested = i.nested }) c.of_mtx owner)
      ∙ (solo-seq _ _ (solo-lock (ut_pmut thr) reaping c.of_ut)
          ∙ rw c.zombie (
              solo-seq _ _ (
                make_reapable-other reaping t reaping-IsRunning (update_self s.masked s.cpu true)
                  thr xs u us prio ys reaping-CanReap)
              ∙ solo-leave_reaping (success, value)))
    where
      i : IsRunning reaping t
      i = reaping-IsRunning

  solo-finish_join :
      (wanted : Bool)
      → solo (finish_join thr wanted (at_thread s t r thr c.of_ut))
        ≡ returned (success, if wanted then some (s.ut_exit thr) else none) reaped
  unfolding finish_join bind
  solo-finish_join wanted = rw c.zombie (
      solo-seq _ _ (
        solo-unlock (ut_pmut thr) (set_detached thr true (at_thread s t r thr c.of_ut)) s.pmuts refl
          c.of_ut)
      ∙ solo-reap_joined _)

  -- A running thread joins another that is a zombie, on no queue, not detached and without a
  -- waiter, while the reaper sleeps on `reap_cond`, nobody owns or waits for `reap_mtx`, and the
  -- posix mutexes are free. The call returns 0 with the exit value, if it is wanted; the zombie
  -- is detached and last on the reap queue, the reaper is runnable, `reap_mtx` and the posix
  -- mutexes are free, and preemption is as it was.
  pub join-zombie :
      (wanted : Bool)
      → solo (uthread_join (pos thr) wanted s)
        ≡ returned (success, if wanted then some (s.ut_exit thr) else none) reaped
  unfolding join_thread bind
  join-zombie wanted =
      ap solo (uthread_join-at s thr c.inside wanted)
      ∙ solo-look s t r thr c.of_ut [] _ nobody
      ∙ rw (attached, c.zombie) (solo-finish_join wanted)

  solo-detach_zombie :
      solo (detach_zombie thr (set_detached thr true (at_thread s t r thr c.of_ut)))
      ≡ returned tt (set_owner reap_mtx none (reapable thr xs u us prio ys reaping))
  unfolding detach_zombie bind
  solo-detach_zombie =
      solo-seq _ _ (
        lock-free (set_detached thr true (at_thread s t r thr c.of_ut)) t reap_mtx
          (record { here = r.here; nested = i.nested }) c.of_mtx owner)
      ∙ rw c.zombie (
          make_reapable-other reaping t reaping-IsRunning (update_self s.masked s.cpu true) thr xs u
            us prio ys reaping-CanReap)
    where
      i : IsRunning (masked_in s t) t
      i = IsRunning-masked_in s t r

  -- A running thread detaches another that is a zombie, under the conditions of the join of a
  -- zombie: the call returns 0, the zombie is detached and last on the reap queue, the reaper is
  -- runnable, `reap_mtx` and the posix mutexes are free, and preemption is as it was.
  pub detach-zombie_thread : solo (uthread_detach (pos thr) s) ≡ returned success reaped
  unfolding detach_thread bind
  detach-zombie_thread =
      ap solo (uthread_detach-at s thr c.inside)
      ∙ solo-look s t r thr c.of_ut [] _ nobody
      ∙ rw (attached, c.zombie) (solo-seq _ _ solo-detach_zombie ∙ solo-leave_reaping success)
