-- ===== src/Cond/Wakes.antt =====
-- Proofs about the loop of `uthread_cond_broadcast`.
use multi_process_threading.Base.{
  ℕ, zero, suc, ◌≤◌, ◌<◌, ◌≡◌, ◌∙◌, false, none, List, [], ◌∷◌, arith, ◌==◌, length, has, Distinct,
  update, update_self, if◌then◌else◌,
}
use multi_process_threading.State.{
  State, Tid, CondId, uc_waiters, UthreadState, ut_wait, ut_runnable, uth_maxprio,
}
use multi_process_threading.State.Fifo.{Utqueue}
use multi_process_threading.State.Int.{ℤ, pos, negsuc}
use multi_process_threading.Cmd.{bind}
use multi_process_threading.Cmd.Solo.{returned, solo, solo-seq, solo-done}
use multi_process_threading.Queue.Laws.{queue, solo-utqueue_empty, solo-utqueue_dequeue_cons}
use multi_process_threading.Sched.Preempt.{IsRunning}
use multi_process_threading.Sched.Wake.{solo-wake}
use multi_process_threading.Cond.{wake_all}
use multi_process_threading.Cond.Signal.{taken, woken}

abbrev pub prio_of : ℤ → ℕ
prio_of (pos p) = p
prio_of (negsuc _) = 0

-- Each of `us`, in order, taken off the condition's queue and put at the end of the run queue of its
-- priority.
unfoldable pub wake_each : CondId → List ℕ → State → State
wake_each c [] s = s
wake_each c (u ∷ us) s =
    let p = prio_of (s.ut_prio u) in wake_each c us (woken c u us p (s.queues.runqs p).tq_waiters s)

-- The threads of `us` that have priority `p`, in order.
unfoldable pub with_prio : (Tid → ℤ) → ℕ → List ℕ → List ℕ
with_prio g p [] = []
with_prio g p (u ∷ us) = if prio_of (g u) == p then u ∷ with_prio g p us else with_prio g p us

-- A thread in UT_WAIT with a legal priority.
pub record IsWaiting (f : Tid → UthreadState) (g : Tid → ℤ) (u : Tid) : Type 0 where
  pub waits : f u ≡ ut_wait
  pub prio : g u ≡ pos (prio_of (g u))
  pub small : prio_of (g u) ≤ uth_maxprio

abbrev pub AllWaiting : (Tid → UthreadState) → (Tid → ℤ) → List ℕ → Type 0
AllWaiting f g [] = Unit {0}
AllWaiting f g (u ∷ us) = IsWaiting f g u × AllWaiting f g us

-- Every run queue has the right size.
abbrev pub RunqsSized : State → Type 0
RunqsSized s = (p : ℕ) → s.queues.runqs p ≡ queue (s.queues.runqs p).tq_waiters

AllWaiting-update :
    (f : Tid → UthreadState) (g : Tid → ℤ) (u : Tid) (v : UthreadState) (us : List ℕ)
    → has u us ≡ false
    → AllWaiting f g us
    → AllWaiting (update f u v) g us
AllWaiting-update f g u v [] out a = tt
AllWaiting-update f g u v (w ∷ us) out a = (
  record { waits = ground arith; prio = a.0.prio; small = a.0.small },
  AllWaiting-update f g u v us (ground arith) a.1,
)

update-sized :
    (f : ℕ → Utqueue) (p : ℕ) (xs : List ℕ)
    → ((q : ℕ) → f q ≡ queue (f q).tq_waiters)
    → (q : ℕ) → update f p (queue xs) q ≡ queue (update f p (queue xs) q).tq_waiters
update-sized f p xs e q = ground (arith, e q)

-- What the loop needs of the state.
pub record Ready (s : State) (t : Tid) (c : CondId) (us : List ℕ) : Type 0 where
  pub running : IsRunning s t
  pub free : s.pmuts.of_runq ≡ none
  pub holds : s.queues.cond_waiters c ≡ queue us
  pub waiting : AllWaiting s.ut_state s.ut_prio us
  pub distinct : Distinct us
  pub sized : RunqsSized s

module _ (t : Tid) (c : CondId) where
  pub Ready-woken :
      (s : State) (u : Tid) (us : List ℕ)
      → Ready s t c (u ∷ us)
      → Ready
          (woken c u us
            (prio_of (s.ut_prio u))
            (s.queues.runqs (prio_of (s.ut_prio u))).tq_waiters
            s)
          t
          c
          us
  Ready-woken s u us a = record {
    running = record { here = a.running.here; nested = a.running.nested };
    free = a.free;
    holds = update_self s.queues.cond_waiters c (queue us);
    waiting = AllWaiting-update s.ut_state s.ut_prio u ut_runnable us a.distinct.0 a.waiting.1;
    distinct = a.distinct.1;
    sized = update-sized s.queues.runqs _ _ a.sized;
  }

  pub solo-wake_all :
      (fuel : ℕ) (us : List ℕ) (s : State)
      → length us < fuel
      → Ready s t c us
      → solo (wake_all fuel c s) ≡ returned tt (wake_each c us s)
  unfolding wake_all wake_each bind
  solo-wake_all zero us s lt a = elim lt [ ]
  solo-wake_all (suc fuel) [] s lt a =
      solo-seq _ _ (solo-utqueue_empty (uc_waiters c) s [] a.holds) ∙ solo-done tt s
  solo-wake_all (suc fuel) (u ∷ us) s lt a =
      solo-seq _ _ (solo-utqueue_empty (uc_waiters c) s (u ∷ us) a.holds)
      ∙ (solo-seq _ _ (solo-utqueue_dequeue_cons (uc_waiters c) s u us a.holds)
          ∙ (solo-seq _ _ (
                solo-wake (taken c u us s) t
                  (record { here = a.running.here; nested = a.running.nested }) a.free u
                  (prio_of (s.ut_prio u)) (s.queues.runqs (prio_of (s.ut_prio u))).tq_waiters
                  a.waiting.0.waits
                  (record {
                    prio = a.waiting.0.prio;
                    small = a.waiting.0.small;
                    free = update_self s.linked u false;
                    holds = a.sized (prio_of (s.ut_prio u));
                  }))
              ∙ solo-wake_all fuel us _ (omega arith) (Ready-woken s u us a)))
