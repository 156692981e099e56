-- ===== src/Invariant/Life.antt =====
-- Proofs about `uthread_exit` under the invariant.
use multi_process_threading.Base.{
  ℕ, ◌≡◌, refl, ap, true, false, List, [], ◌∷◌, arith, ◌==◌, has, update, update_self, ==-self,
}
use multi_process_threading.State.{State, Tid, ut_on_cpu, ut_wait, ut_zombie}
use multi_process_threading.Cmd.Solo.{solo}
use multi_process_threading.Queue.Laws.{queue}
use multi_process_threading.Sched.Preempt.{IsRunning, masked_in}
use multi_process_threading.Sched.Scheduled.{
  is_runnable, AreQueued, Scheduled, AreQueued-state, AreQueued-link, AreQueued-add,
}
use multi_process_threading.Switch.Laws.{Parks}
use multi_process_threading.Thread.Life.{uthread_exit}
use multi_process_threading.Thread.Life.Exit.{
  dead, after_exit, gone, woken_by, CanExit, exit-alone, exit_waking-Parks,
}
use multi_process_threading.Invariant.Blocking.{IsWaiter}

module _ (s : State) (t : Tid) (r : IsRunning s t) (c : CanExit s t) (status : ℕ) (a : Scheduled s)
    (on : s.ut_state t ≡ ut_on_cpu) where
  after_death :
      AreQueued s.queues.runqs (update s.ut_state t ut_zombie) s.ut_prio s.linked s.runq_size
  after_death = AreQueued-state _ _ _ _ _ a t (ap is_runnable on) ut_zombie refl

  abbrev pub Exits : (A : Type 0) → Type 0
  Exits A =
      (z : State) × Parks (solo (uthread_exit {A = A} status s)) z after_exit
      × Scheduled z
      × (z.ut_state t ≡ ut_zombie)
      × (z.ut_exit t ≡ status)

  -- A running thread in UT_ON_CPU that is not detached exits, where its waiters are others, in
  -- UT_WAIT with legal priorities, `reap_mtx` is free with no waiters, the posix mutexes are
  -- free, and the run queues have the right sizes and hold the runnable threads, each once and
  -- linked, on the queue of its legal priority, and `runq_size` is their number. It leaves the
  -- LWP, which then leaves this as it was, with the thread in UT_ZOMBIE and its exit value kept.
  pub exit-Scheduled :
      {A : Type 0} (ws : List ℕ)
      → s.ut_detached t ≡ false
      → s.queues.waiters t ≡ queue ws
      → ((u : Tid) → has u ws ≡ true → IsWaiter s u × ((t == u) ≡ false))
      → Exits A
  exit-Scheduled [] attached e w = (
    gone s (dead t status (masked_in s t)),
    exit-alone s t r c status e attached,
    after_death,
    update_self s.ut_state t ut_zombie,
    update_self s.ut_exit t status,
  )
  exit-Scheduled (u ∷ us) attached e w =
      let (i, ne) = w u (rw (==-self u) refl) in
      let asleep : update s.ut_state t ut_zombie u ≡ ut_wait = rw ne i.waits in
      (
        gone s (
            woken_by t u us i.level (s.queues.runqs i.level).tq_waiters
              (dead t status (masked_in s t))),
        exit_waking-Parks s t r c status u i.level us (s.queues.runqs i.level).tq_waiters i.waits ne
            (record {
              prio = i.prio;
              small = i.legal;
              free = update_self s.linked u false;
              holds = a.sized i.level i.legal;
            })
            e attached,
        AreQueued-add _ _ _ _ _
            (AreQueued-link _ _ _ _ _ after_death u (ap is_runnable asleep) false) u
            (ap is_runnable asleep) i.level i.legal i.prio,
        ground arith,
        update_self s.ut_exit t status,
      )
