-- ===== src/Sched/Wake.antt =====
-- Proofs about the run queue's insertion and about `uthread_wake`.
use multi_process_threading.Base.{
  ℕ, ◌+◌, ◌≤◌, ◌≡◌, ◌∙◌, refl, ap, sym, true, false, none, some, List, [], ◌∷◌, ◌++◌, arith, ◌==◌,
  update, if◌then◌else◌,
}
use multi_process_threading.State.{
  State, Tid, LwpId, Lwps, runq_table, runq_mtx, UthreadState, ut_no_state, ut_wait, ut_runnable,
  uth_maxprio,
}
use multi_process_threading.State.Int.{pos}
use multi_process_threading.Cmd.{Cmd, done, bind, ◌>>=◌, pthread_mutex_lock}
use multi_process_threading.Cmd.Solo.{returned, solo, bind-done, solo-seq, solo-lock, solo-unlock}
use multi_process_threading.Queue.{write_queue, set_linked}
use multi_process_threading.Queue.Laws.{queue, utqueue_enqueue_lem}
use multi_process_threading.Sched.{
  is_state, set_state, set_runq_size, runq, lwp_release, uthread_nopreempt_on, uthread_runq_enqueue,
  release_runq, wake_waiting, uthread_wake,
}
use multi_process_threading.Sched.Preempt.{
  IsRunning, masked_in, solo-nopreempt_on, solo-nopreempt_off,
}

-- The state with `t` added to the end of its run queue, which was `xs`.
abbrev pub runq_added : Tid → ℕ → List ℕ → State → State
runq_added t p xs s =
    set_runq_size (s.runq_size + 1)
      (set_linked t true (write_queue (runq_table p) (queue (xs ++ t ∷ [])) s))

-- `t` has priority `p`, and stands on no list; the run queue of `p` holds `xs`.
pub record CanAdd (s : State) (t : Tid) (p : ℕ) (xs : List ℕ) : Type 0 where
  pub prio : s.ut_prio t ≡ pos p
  pub small : p ≤ uth_maxprio
  pub free : s.linked t ≡ false
  pub holds : s.queues.runqs p ≡ queue xs

module _ (t : Tid) (p : ℕ) (xs : List ℕ) where
  runq_lem : (s : State) → p ≤ uth_maxprio → runq (pos p) s ≡ done (runq_table p) s
  unfolding runq
  runq_lem s le = ground arith

  signal_lem : (s : State) → (if s.runq_size == 1 then lwp_release else done tt) s ≡ done tt s
  unfolding lwp_release
  signal_lem s = ground arith

  pub uthread_runq_enqueue_lem :
      (s : State) → CanAdd s t p xs → uthread_runq_enqueue t s ≡ done tt (runq_added t p xs s)
  unfolding uthread_runq_enqueue bind
  uthread_runq_enqueue_lem s c = rw c.prio (
      bind-done _ (runq_lem s c.small)
      ∙ (bind-done _ (utqueue_enqueue_lem (runq_table p) s t xs c.holds c.free)
          ∙ signal_lem (runq_added t p xs s)))

  pub solo-runq : (s : State) → p ≤ uth_maxprio → solo (runq (pos p) s) ≡ returned (runq_table p) s
  unfolding solo runq
  solo-runq s le = ground arith

  pub solo-runq_enqueue :
      (s : State)
      → CanAdd s t p xs
      → solo (uthread_runq_enqueue t s) ≡ returned tt (runq_added t p xs s)
  unfolding solo
  solo-runq_enqueue s c = ap solo (uthread_runq_enqueue_lem s c)

module _ (s : State) (t : Tid) (r : IsRunning s t) (free : s.pmuts.of_runq ≡ none) where
  -- Preemption off and `runq_mtx` held.
  abbrev pub holding_runq : State
  holding_runq = record (masked_in s t) { pmuts = record (s.pmuts) { of_runq = some s.cpu } }

  pub solo-hold_runq :
      {A : Type 0} (f : Unit {0} → Unit {0} → Cmd A)
      → solo (((uthread_nopreempt_on >>= λ a. pthread_mutex_lock runq_mtx >>= f a)) s)
        ≡ solo (f tt tt holding_runq)
  solo-hold_runq f =
      solo-seq _ _ (solo-nopreempt_on s t r)
      ∙ solo-seq _ _ (solo-lock runq_mtx (masked_in s t) free)

  -- Both given back: of a state that differs from `holding_runq` elsewhere, the rest stays.
  pub solo-release_runq :
      (s' : State)
      → s'.lwps ≡ (masked_in s t).lwps
      → s'.ut_no_preempt_count ≡ (masked_in s t).ut_no_preempt_count
      → s'.cpu ≡ s.cpu
      → s'.pmuts ≡ record (s.pmuts) { of_runq = some s.cpu }
      → solo (release_runq s')
        ≡ returned tt (record s' {
          uths = record (s'.uths) { ut_no_preempt_count = s.ut_no_preempt_count };
          lwps = s.lwps;
          pmuts = s.pmuts;
        })
  unfolding release_runq
  solo-release_runq s' l c e p =
      solo-seq _ _ (solo-unlock runq_mtx s' s.pmuts held free)
      ∙ solo-nopreempt_off s t (record s' { pmuts = s.pmuts }) r here masks c e
      ∙ ap
          (λ ls. returned tt (record s' {
            uths = record (s'.uths) { ut_no_preempt_count = s.ut_no_preempt_count };
            lwps = ls;
            pmuts = s.pmuts;
          }))
          (ap (λ (ls : Lwps). record ls { masked = s.masked }) l)
    where
      held : s'.pmuts ≡ record (s.pmuts) { of_runq = some s'.cpu }
      held = p ∙ ap (λ (c : LwpId). record (s.pmuts) { of_runq = some c }) (sym e)

      here : s'.ut_curthr s'.cpu ≡ some t
      here = ap (λ (ls : Lwps). ls.ut_curthr s'.cpu) l ∙ ap s.ut_curthr e ∙ r.here

      masks : s'.masked ≡ update s.masked s'.cpu true
      masks = ap (λ (ls : Lwps). ls.masked) l ∙ ap (λ (c : LwpId). update s.masked c true) (sym e)

  -- A running thread wakes a thread in UT_WAIT that is on no queue and has a legal priority,
  -- while `runq_mtx` is free. The woken thread is in UT_RUNNABLE and last on the run queue of its
  -- priority, `runq_size` is one more, and nothing else has changed.
  pub solo-wake :
      (u : Tid) (prio : ℕ) (xs : List ℕ)
      → s.ut_state u ≡ ut_wait
      → CanAdd s u prio xs
      → solo (uthread_wake u s) ≡ returned tt (runq_added u prio xs (set_state u ut_runnable s))
  unfolding uthread_wake wake_waiting bind
  solo-wake u prio xs w c = rw w (
      solo-hold_runq _
      ∙ rw w (
          solo-seq _ _ (
            solo-runq_enqueue u prio xs _
              (record { prio = c.prio; small = c.small; free = c.free; holds = c.holds }))
          ∙ solo-release_runq _ refl refl refl refl))

  pub solo-wake_other :
      (u : Tid) (v : UthreadState)
      → s.ut_state u ≡ v
      → is_state v ut_no_state ≡ false
      → is_state v ut_wait ≡ false
      → solo (uthread_wake u s) ≡ returned tt s
  unfolding uthread_wake bind
  solo-wake_other u v e there w =
      rw (e, there) (solo-hold_runq _ ∙ rw (e, w) (solo-release_runq _ refl refl refl refl))
