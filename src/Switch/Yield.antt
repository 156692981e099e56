-- ===== src/Switch/Yield.antt =====
-- Proofs about `uthread_yield`.
use multi_process_threading.Base.{
  Bool, if◌then◌else◌, ℕ, ◌≡◌, ◌∙◌, refl, ap, true, false, none, some, List, arith, ltb,
  update_self,
}
use multi_process_threading.State.{State, Tid, ut_zombie, ut_runnable}
use multi_process_threading.Cmd.{Run, done, bind, curthr, is_masked}
use multi_process_threading.Cmd.Solo.{returned, left, solo, solo-seq, bind-done}
use multi_process_threading.Sched.{is_state, set_state}
use multi_process_threading.Sched.Preempt.{
  IsRunning, masked_in, solo-nopreempt_on, solo-nopreempt_off,
}
use multi_process_threading.Sched.Wake.{CanAdd, runq_added, uthread_runq_enqueue_lem}
use multi_process_threading.Switch.{
  set_curlwp, enqueue_on, save_on_runq, leave_thread, unlock_pmut, lwp_leave, uthread_switch,
  after_switch, after_yield, uthread_yield,
}
use multi_process_threading.Switch.Laws.{
  IsMasked, Asks, Parks, Leaves, Leaves-bind, Leaves-after, saved-Parks, leaving, leaving-Asks,
  solo-switch, vacant,
}

module _ (s : State) (t : Tid) (p : ℕ) (xs : List ℕ) where
  -- A living thread that asked for it is runnable, at the end of the run queue of its priority.
  save_on_runq_lem :
      is_state (s.ut_state t) ut_zombie ≡ false
      → CanAdd s t p xs
      → save_on_runq true t s ≡ done tt (runq_added t p xs (set_state t ut_runnable s))
  unfolding save_on_runq bind
  save_on_runq_lem alive c = rw alive (
      uthread_runq_enqueue_lem t p xs (set_state t ut_runnable s)
        (record { prio = c.prio; small = c.small; free = c.free; holds = c.holds }))

  enqueue_on-none : enqueue_on none t s ≡ done tt s
  unfolding enqueue_on
  enqueue_on-none = λ i. done tt s

  unlock_pmut-none : unlock_pmut none s ≡ done tt s
  unfolding unlock_pmut
  unlock_pmut-none = λ i. done tt s

module _ (s : State) (t : Tid) (p : ℕ) (xs : List ℕ)
    (alive : is_state (s.ut_state t) ut_zombie ≡ false) (c : CanAdd s t p xs) where
  leave-saves :
      Asks s none true none
      → ltb 0 (s.ut_no_preempt_count t) ≡ true
      → leave_thread (some t) s ≡ done tt (runq_added t p xs (set_state t ut_runnable s))
  unfolding leave_thread bind
  leave-saves a n =
      rw (n, a.queue)
        (bind-done _ (enqueue_on-none s t p xs) ∙ rw a.saveonrq (save_on_runq_lem s t p xs alive c))

  lwp_leave-saves :
      Asks s none true none
      → IsMasked s t
      → lwp_leave s ≡ done tt (vacant (runq_added t p xs (set_state t ut_runnable s)))
  unfolding lwp_leave bind
  lwp_leave-saves a i =
      rw i.here
        (bind-done _ (leave-saves a i.nested) ∙ rw a.pmut (bind-done _ (unlock_pmut-none _ t p xs)))

-- `t` made runnable behind `xs`, on a vacant LWP that holds `runq_mtx`.
abbrev pub saved : Tid → ℕ → List ℕ → State → State
saved t p xs s = vacant (record (runq_added t p xs (set_state t ut_runnable s)) {
  pmuts = record (s.pmuts) { of_runq = some s.cpu };
})

-- A thread that wants to run again, off the LWP, and not yet on a run queue.
abbrev pub yielding : State → State
yielding s = leaving s none true none

-- It is put on one, and no other LWP comes in before the LWP is vacant.
abbrev pub saving : Tid → ℕ → List ℕ → State → Run (Unit {0})
saving t p xs s = done tt (vacant (runq_added t p xs (set_state t ut_runnable (yielding s))))

module _ (s : State) (t : Tid) (p : ℕ) (xs : List ℕ)
    (alive : is_state (s.ut_state t) ut_zombie ≡ false) (c : CanAdd s t p xs) where
  switch-saves :
      IsMasked s t
      → s.pmuts.of_runq ≡ none
      → Leaves (solo (uthread_switch none true none s)) (yielding s) (saving t p xs s) after_switch
  switch-saves i free = record {
    leaves =
        solo-switch s t i free none true none
        ∙ ap
            (λ (u : Bool).
              left
                (set_curlwp none (if u then false else true) none
                  (record s { pmuts = record (s.pmuts) { of_runq = some s.cpu } }))
                after_switch)
            alive;
    does =
        lwp_leave-saves (yielding s) t p xs alive
          (record { prio = c.prio; small = c.small; free = c.free; holds = c.holds })
          (leaving-Asks s none true none)
          (record { here = i.here; masked = i.masked; nested = i.nested });
  }

module _ (s : State) (t : Tid) (r : IsRunning s t)
    (alive : is_state (s.ut_state t) ut_zombie ≡ false) where
  -- A running thread that is no zombie, is on no queue and has a legal priority yields, while
  -- `runq_mtx` is free. It leaves the LWP, and only then is it runnable behind the others of its
  -- priority.
  pub yield-Leaves :
      (p : ℕ) (xs : List ℕ)
      → CanAdd s t p xs
      → s.pmuts.of_runq ≡ none
      → Leaves
          (solo (uthread_yield s))
          (yielding (masked_in s t))
          (saving t p xs (masked_in s t))
          (λ s'. bind (after_switch s') (λ _. after_yield))
  unfolding uthread_yield bind curthr is_masked
  yield-Leaves p xs c free = Leaves-after (solo-seq _ _ (solo-nopreempt_on s t r)) (
      rw (update_self, r.here, c.free)
        (Leaves-bind _ _ (
          switch-saves (masked_in s t) t p xs alive
            (record { prio = c.prio; small = c.small; free = c.free; holds = c.holds })
            (record {
              here = r.here;
              masked = update_self s.masked s.cpu true;
              nested = ground arith;
            })
            free)))

  pub yield-Parks :
      (p : ℕ) (xs : List ℕ)
      → CanAdd s t p xs
      → s.pmuts.of_runq ≡ none
      → Parks
          (solo (uthread_yield s))
          (saved t p xs (masked_in s t))
          (λ s'. bind (after_switch s') (λ _. after_yield))
  yield-Parks p xs c free = saved-Parks _ none true none (yield-Leaves p xs c free)

  -- Run again, it returns with everything as the others have left it.
  pub yield-resume : solo (bind (after_switch (masked_in s t)) (λ _. after_yield)) ≡ returned tt s
  unfolding after_switch after_yield bind curthr is_masked
  yield-resume = rw (r.here, alive, update_self) (solo-nopreempt_off s t _ r r.here refl refl refl)
