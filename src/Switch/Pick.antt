-- ===== src/Switch/Pick.antt =====
-- Proofs about the LWP's search for a thread, and about parking.
use multi_process_threading.Base.{
  ℕ, zero, suc, ◌+◌, ◌-◌, ◌≤◌, ◌<◌, ◌≡◌, ◌∙◌, refl, subst, true, false, none, some, List, [], ◌∷◌,
  arith, ◌==◌, Bool-cases, inl, inr,
}
use multi_process_threading.State.{State, Tid, Pmuts, runq_table, runq_mtx, ut_on_cpu, uth_maxprio}
use multi_process_threading.Cmd.{bind, panicked}
use multi_process_threading.Cmd.Solo.{
  returned, aborted, solo, solo-seq, solo-lock, solo-unlock, solo-done, solo-failed,
}
use multi_process_threading.Queue.{write_queue, set_linked}
use multi_process_threading.Queue.Laws.{queue, solo-utqueue_empty, solo-utqueue_dequeue_cons}
use multi_process_threading.Sched.{set_state, set_runq_size}
use multi_process_threading.Switch.{
  set_curthr, set_parked, find_thread, runs, waits, park_test, lwp_park, run_thread, lwp_look,
  lwp_unpark,
}

-- No thread is on a run queue from `p` up to `n`.
abbrev pub EmptyFrom : State → ℕ → ℕ → Type 0
EmptyFrom s p n = (q : ℕ) → p ≤ q → q < n → s.queues.runqs q ≡ queue []

-- `t`, taken off the run queue of `p`, which then holds `ts`.
abbrev pub dispatched : Tid → ℕ → List ℕ → State → State
dispatched t p ts s =
    set_runq_size (s.runq_size - 1) (set_linked t false (write_queue (runq_table p) (queue ts) s))

module _ (s : State) where
  find-none : (n : ℕ) → EmptyFrom s 0 n → solo (find_thread n s) ≡ returned none s
  unfolding find_thread bind
  find-none zero e = solo-done none s
  find-none (suc n) e =
      solo-seq _ _ (solo-utqueue_empty (runq_table n) s [] (e n (omega arith) (omega arith)))
      ∙ find-none n (λ q h k. e q h (omega arith))

  find-at :
      (n : ℕ) (t : Tid) (ts : List ℕ)
      → s.queues.runqs n ≡ queue (t ∷ ts)
      → solo (find_thread (suc n) s) ≡ returned (some t) (dispatched t n ts s)
  unfolding find_thread bind
  find-at n t ts h =
      solo-seq _ _ (solo-utqueue_empty (runq_table n) s (t ∷ ts) h)
      ∙ (solo-seq _ _ (solo-utqueue_dequeue_cons (runq_table n) s t ts h) ∙ solo-done (some t) _)

  pub find-some :
      (n p : ℕ) (t : Tid) (ts : List ℕ)
      → p < n
      → s.queues.runqs p ≡ queue (t ∷ ts)
      → EmptyFrom s (p + 1) n
      → solo (find_thread n s) ≡ returned (some t) (dispatched t p ts s)
  unfolding find_thread bind
  find-some zero p t ts lt h e = elim lt [ ]
  find-some (suc n) p t ts lt h e = elim (Bool-cases (p == n)) [
    | inl at ↦
        let same : p ≡ n = ground arith in
        subst (λ k. solo (find_thread (suc k) s) ≡ returned (some t) (dispatched t p ts s)) same
          (find-at p t ts h)
    | inr past ↦
        solo-seq _ _ (solo-utqueue_empty (runq_table n) s [] (e n (ground arith) (omega arith)))
        ∙ find-some n p t ts (ground arith) h (λ q k l. e q k (omega arith))
  ]

-- `t` on the LWP: it runs, and `runq_mtx` is free.
abbrev pub running_state : Tid → Pmuts → State → State
running_state t ps s = record (set_state t ut_on_cpu (set_curthr (some t) s)) { pmuts = ps }

module _ (s : State) (ps : Pmuts) (held : s.pmuts ≡ record ps { of_runq = some s.cpu })
    (free : ps.of_runq ≡ none) where
  -- An LWP that holds `runq_mtx` looks for a thread; the run queue of priority `p`, at most 7, is
  -- not empty, and those of better priorities are. With a bound of one round or more, it takes
  -- the oldest thread of priority `p`, which is then on no queue and in UT_ON_CPU, `runq_size` is
  -- less by one, and `runq_mtx` is free.
  pub look-highest :
      (fuel p : ℕ) (t : Tid) (ts : List ℕ)
      → p ≤ uth_maxprio
      → s.queues.runqs p ≡ queue (t ∷ ts)
      → EmptyFrom s (p + 1) (suc uth_maxprio)
      → solo (lwp_look (suc fuel) s) ≡ returned (runs t) (running_state t ps (dispatched t p ts s))
  unfolding lwp_look bind run_thread
  look-highest fuel p t ts le h e =
      solo-seq _ _ (find-some s (suc uth_maxprio) p t ts (omega arith) h e)
      ∙ (solo-seq _ _ (solo-unlock runq_mtx _ ps held free) ∙ solo-done (runs t) _)

  park_test-empty : s.runq_size ≡ 0 → solo (park_test s) ≡ returned false (record s { pmuts = ps })
  unfolding park_test bind
  park_test-empty size =
      let empty : (s.runq_size == 0) ≡ true = ground arith in
      rw empty (solo-seq _ _ (solo-unlock runq_mtx s ps held free) ∙ solo-done false _)

  park_test-full :
      (s.runq_size == 0) ≡ false
      → solo (park_test s) ≡ returned true (set_parked (s.lwp_parked_cnt - 1) s)
  unfolding park_test bind
  park_test-full size = rw size (solo-done true _)

module _ (s : State) (ps : Pmuts) (held : s.pmuts ≡ record ps { of_runq = some s.cpu })
    (free : ps.of_runq ≡ none) where
  lwp_park-waits :
      s.runq_size ≡ 0
      → s.ut_curthr s.cpu ≡ none
      → ((s.lwp_parked_cnt + 1) == s.lwp_cnt) ≡ false
      → solo (lwp_park s)
        ≡ returned false (record (set_parked (s.lwp_parked_cnt + 1) s) { pmuts = ps })
  unfolding lwp_park bind
  lwp_park-waits size vacant more =
      rw (vacant, more) (park_test-empty (set_parked (s.lwp_parked_cnt + 1) s) ps held free size)

  -- An LWP without a thread that holds `runq_mtx` finds all run queues empty and `runq_size` 0,
  -- and is not the last LWP to park. It waits, counted as parked, and `runq_mtx` is free.
  pub look-waits :
      (fuel : ℕ)
      → EmptyFrom s 0 (suc uth_maxprio)
      → s.runq_size ≡ 0
      → s.ut_curthr s.cpu ≡ none
      → ((s.lwp_parked_cnt + 1) == s.lwp_cnt) ≡ false
      → solo (lwp_look (suc fuel) s)
        ≡ returned waits (record (set_parked (s.lwp_parked_cnt + 1) s) { pmuts = ps })
  unfolding lwp_look bind
  look-waits fuel e size vacant more =
      solo-seq _ _ (find-none s (suc uth_maxprio) e)
      ∙ (solo-seq _ _ (lwp_park-waits size vacant more) ∙ solo-done waits _)

  -- An LWP without a thread finds all run queues empty, and all other LWPs are parked: it panics.
  pub look-panics :
      (fuel : ℕ)
      → EmptyFrom s 0 (suc uth_maxprio)
      → s.ut_curthr s.cpu ≡ none
      → ((s.lwp_parked_cnt + 1) == s.lwp_cnt) ≡ true
      → solo (lwp_look (suc fuel) s) ≡ aborted panicked
  unfolding lwp_look bind lwp_park
  look-panics fuel e vacant all =
      solo-seq _ _ (find-none s (suc uth_maxprio) e) ∙ rw (vacant, all) (solo-failed panicked)

module _ (s : State) (free : s.pmuts.of_runq ≡ none) where
  -- A parked LWP that wakes to an empty run queue waits again, and nothing has changed.
  pub unpark-waits : s.runq_size ≡ 0 → solo (lwp_unpark s) ≡ returned waits s
  unfolding lwp_unpark bind
  unpark-waits size =
      solo-seq _ _ (solo-lock runq_mtx s free)
      ∙ (solo-seq _ _ (
            park_test-empty (record s { pmuts = record (s.pmuts) { of_runq = some s.cpu } }) s.pmuts
              refl free size)
          ∙ solo-done waits s)

  -- A parked LWP wakes while `runq_mtx` is free, `runq_size` is not 0, and `p`, at most 7, is the
  -- best priority with a runnable thread. It is counted as parked no more, and runs the oldest
  -- thread of that priority, with `runq_mtx` free.
  pub unpark-runs :
      (p : ℕ) (t : Tid) (ts : List ℕ)
      → (s.runq_size == 0) ≡ false
      → p ≤ uth_maxprio
      → s.queues.runqs p ≡ queue (t ∷ ts)
      → EmptyFrom s (p + 1) (suc uth_maxprio)
      → solo (lwp_unpark s)
        ≡ returned
            (runs t)
            (running_state t s.pmuts (dispatched t p ts (set_parked (s.lwp_parked_cnt - 1) s)))
  unfolding lwp_unpark bind
  unpark-runs p t ts size le h e =
      solo-seq _ _ (solo-lock runq_mtx s free)
      ∙ (solo-seq _ _ (
            park_test-full (record s { pmuts = record (s.pmuts) { of_runq = some s.cpu } }) s.pmuts
              refl free size)
          ∙ look-highest
              (set_parked (s.lwp_parked_cnt - 1)
                (record s { pmuts = record (s.pmuts) { of_runq = some s.cpu } }))
              s.pmuts refl free 1 p t ts le h e)
