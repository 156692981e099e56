-- ===== src/Thread/Alloc/Create.antt =====
-- Proofs about `uthread_alloc` and `uthread_create`.
use multi_process_threading.Base.{
  ℕ, ◌≤◌, ◌≡◌, ◌∙◌, refl, sym, ap, Bool, true, false, Option, none, some, List, arith, ◌==◌, update,
  update_self, Bool-cases, inl, inr,
}
use multi_process_threading.State.{
  State, Tid, uthreads_mtx, ut_waiter, UthreadState, ut_no_state, ut_transition, ut_runnable,
  uth_maxprio,
}
use multi_process_threading.State.Int.{ℤ, pos, negsuc}
use multi_process_threading.State.Fifo.{empty_queue}
use multi_process_threading.Cmd.{bind, ◌>>=◌, pure, may_tick, panicked}
use multi_process_threading.Cmd.Solo.{
  returned, aborted, solo, solo-seq, solo-done, solo-may_tick, solo-lock, solo-unlock, solo-failed,
}
use multi_process_threading.Queue.{write_queue, set_linked, utqueue_init}
use multi_process_threading.Queue.Laws.{queue}
use multi_process_threading.Sched.{
  is_state, set_state, set_prio, set_count, start_transition, uthread_startonrunq,
}
use multi_process_threading.Sched.Preempt.{
  IsRunning, masked_in, solo-nopreempt_on, solo-nopreempt_off,
}
use multi_process_threading.Sched.Wake.{
  runq_added, solo-runq_enqueue, solo-hold_runq, solo-release_runq, holding_runq,
}
use multi_process_threading.Prio.{Errno, success, eagain}
use multi_process_threading.Thread.Alloc.{
  find_free, start_of, set_prev_id, release_uthreads, claim, uthread_alloc, alloc_stack, set_stack,
  set_exit, reset_ut_pmut, setup_thread, create_at, uthread_create,
}
use multi_process_threading.Thread.Alloc.Free.{is_free, find_free-IsNextFree, start_of-small}

module _ (s : State) (t : Tid) (r : IsRunning s t) (free : s.pmuts.of_uthreads ≡ none) where
  abbrev searching : State
  searching = record (masked_in s t) { pmuts = record (s.pmuts) { of_uthreads = some s.cpu } }

  solo-release_uthreads :
      (f : Tid → UthreadState) (l : Option Tid)
      → solo (
          release_uthreads
            (record searching { uths = record (searching.uths) { ut_state = f }; prev_id = l }))
        ≡ returned tt (record s { uths = record (s.uths) { ut_state = f }; prev_id = l })
  unfolding release_uthreads
  solo-release_uthreads f l =
      solo-seq _ _ (solo-unlock uthreads_mtx _ s.pmuts refl free)
      ∙ solo-nopreempt_off s t _ r r.here refl refl refl

  -- A free slot is taken: it is in UT_TRANSITION, and the next search starts behind it.
  pub alloc-some :
      (i : Tid)
      → find_free (start_of s.prev_id) s.ut_state ≡ some i
      → solo (uthread_alloc s)
        ≡ returned (some i) (set_prev_id (some i) (set_state i ut_transition s))
  unfolding uthread_alloc claim bind
  alloc-some i e =
      solo-seq _ _ (solo-may_tick s)
      ∙ solo-seq _ _ (solo-nopreempt_on s t r)
      ∙ (solo-seq _ _ (solo-lock uthreads_mtx (masked_in s t) free)
          ∙ rw e (
              solo-seq _ _ (solo-release_uthreads (update s.ut_state i ut_transition) (some i))
              ∙ (solo-seq _ _ (solo-may_tick _) ∙ solo-done _ _)))

  -- No slot is free: nothing changes.
  pub alloc-none :
      find_free (start_of s.prev_id) s.ut_state ≡ none → solo (uthread_alloc s) ≡ returned none s
  unfolding uthread_alloc claim bind
  alloc-none e =
      solo-seq _ _ (solo-may_tick s)
      ∙ solo-seq _ _ (solo-nopreempt_on s t r)
      ∙ (solo-seq _ _ (solo-lock uthreads_mtx (masked_in s t) free)
          ∙ rw e (solo-seq _ _ (solo-release_uthreads s.ut_state s.prev_id) ∙ solo-done _ _))

solo-alloc_stack :
    (s : State) (t : Tid) → IsRunning s t → (b : Bool) → solo (alloc_stack b s) ≡ returned b s
unfolding alloc_stack
solo-alloc_stack s t r b =
    solo-seq _ _ (solo-nopreempt_on s t r)
    ∙ (solo-seq _ _ (solo-nopreempt_off s t (masked_in s t) r r.here refl refl refl)
        ∙ solo-done b s)

-- The slot `i` as `uthread_create` fills it, before its state and priority are set.
abbrev pub fresh : Tid → State → State
fresh i s = set_count i 1 (
    reset_ut_pmut i (
      write_queue (ut_waiter i) empty_queue
        (set_exit i 0 (set_prio i (negsuc 0) (set_linked i false s)))))

solo-setup_thread : (i : Tid) (s : State) → solo (setup_thread i s) ≡ returned tt (fresh i s)
unfolding solo setup_thread bind utqueue_init may_tick
solo-setup_thread i s = refl

module _ (s : State) (t : Tid) (r : IsRunning s t) (free : s.pmuts.of_runq ≡ none) (i : Tid) where
  -- A thread in UT_TRANSITION is made runnable, behind the others of its priority.
  pub startonrunq-transition :
      (p : ℕ) (xs : List ℕ)
      → s.ut_state i ≡ ut_transition
      → p ≤ uth_maxprio
      → s.linked i ≡ false
      → s.queues.runqs p ≡ queue xs
      → solo (uthread_startonrunq i (pos p) s)
        ≡ returned tt (runq_added i p xs (set_state i ut_runnable (set_prio i (pos p) s)))
  unfolding uthread_startonrunq start_transition bind
  startonrunq-transition p xs u small off holds =
      solo-hold_runq s t r free _
      ∙ rw u (
          solo-seq _ _ (
            solo-runq_enqueue i p xs
              (set_state i ut_runnable (set_prio i (pos p) (holding_runq s t r free)))
              (record {
                prio = update_self s.ut_prio i (pos p);
                small = small;
                free = off;
                holds = holds;
              }))
          ∙ solo-release_runq s t r free _ refl refl refl refl)

  -- A thread in any other state is a panic.
  pub startonrunq-panics :
      (prio : ℤ)
      → is_state (s.ut_state i) ut_transition ≡ false
      → solo (uthread_startonrunq i prio s) ≡ aborted panicked
  unfolding uthread_startonrunq start_transition bind
  startonrunq-panics prio u = solo-hold_runq s t r free _ ∙ rw u (solo-failed panicked)

-- The slot `i` taken by `uthread_alloc`.
abbrev pub taken_slot : Tid → State → State
taken_slot i s = set_prev_id (some i) (set_state i ut_transition s)

-- The slot `i` with its thread, runnable behind `xs` at priority `p`.
abbrev pub created : Tid → ℕ → List ℕ → State → State
created i p xs s =
    runq_added i p xs
      (set_state i ut_runnable (set_prio i (pos p) (fresh i (set_stack i true (taken_slot i s)))))

module _ (s : State) (t : Tid) (r : IsRunning s t) (free : s.pmuts.of_uthreads ≡ none)
    (prio : ℤ) where
  -- When the search finds no slot, `uthread_create` called by a running thread with
  -- `uthreads_mtx` free returns EAGAIN without an id and changes nothing.
  pub create-no_slot :
      (stack : Bool)
      → find_free (start_of s.prev_id) s.ut_state ≡ none
      → solo (uthread_create stack prio s) ≡ returned (eagain, none) s
  unfolding uthread_create create_at
  create-no_slot stack e = solo-seq _ _ (alloc-none s t r free e) ∙ solo-done _ s

  -- When the search finds a slot but there is no memory for a stack, `uthread_create` called by a
  -- running thread with `uthreads_mtx` free returns EAGAIN without an id, and leaves the slot in
  -- UT_TRANSITION, where no search finds it.
  pub create-no_stack :
      (i : Tid)
      → find_free (start_of s.prev_id) s.ut_state ≡ some i
      → solo (uthread_create false prio s)
        ≡ returned (eagain, none) (set_stack i false (taken_slot i s))
  unfolding uthread_create create_at bind
  create-no_stack i e =
      solo-seq _ _ (alloc-some s t r free i e)
      ∙ (solo-seq _ _ (solo-may_tick _)
          ∙ (solo-seq _ _ (
                solo-alloc_stack (taken_slot i s) t (record { here = r.here; nested = r.nested })
                  false)
              ∙ (solo-seq _ _ (solo-may_tick _)
                  ∙ (solo-seq _ _ (solo-may_tick _) ∙ solo-done _ _))))

module _ (s : State) (t : Tid) (r : IsRunning s t) (free : s.pmuts.of_uthreads ≡ none)
    (runq_free : s.pmuts.of_runq ≡ none) where
  not_self :
      (i : Tid)
      → find_free (start_of s.prev_id) s.ut_state ≡ some i
      → is_state (s.ut_state t) ut_no_state ≡ false
      → (i == t) ≡ false
  not_self i e alive = elim (Bool-cases (i == t)) [
    | inl at ↦
        let same : i ≡ t = ground arith in
        let (l, f, ns) = find_free-IsNextFree s.ut_state _ (start_of-small s.prev_id) i e in
        let both : true ≡ false = sym f ∙ ap (is_free s.ut_state) same ∙ alive in cc
    | inr off ↦ off
  ]

  with_stack :
      (i : Tid) (p : ℕ) (xs : List ℕ)
      → find_free (start_of s.prev_id) s.ut_state ≡ some i
      → is_state (s.ut_state t) ut_no_state ≡ false
      → p ≤ uth_maxprio
      → s.queues.runqs p ≡ queue xs
      → solo {A = Errno × Option Tid} (
          (setup_thread i >>= λ _.
          may_tick >>= λ _. uthread_startonrunq i (pos p) >>= λ _. pure (success, some i))
            (set_stack i true (taken_slot i s)))
        ≡ returned (success, some i) (created i p xs s)
  with_stack i p xs e alive small holds =
      solo-seq _ _ (solo-setup_thread i (set_stack i true (taken_slot i s)))
      ∙ (solo-seq _ _ (solo-may_tick _)
          ∙ (solo-seq _ _ (
                startonrunq-transition (fresh i (set_stack i true (taken_slot i s))) t
                  (record { here = r.here; nested = rw (not_self i e alive) r.nested }) runq_free i
                  p xs (update_self s.ut_state i ut_transition) small (update_self s.linked i false)
                  holds)
              ∙ solo-done _ _))

  -- A running thread, whose own slot is in use, creates a thread with a priority of at most 7,
  -- while the search finds a free slot, there is memory for the stack, and the posix mutexes are
  -- free. The call returns 0 and the slot's id. The slot has its stack, no exit value, no
  -- waiters, a free `ut_pmut` and a nesting count of 1, and the thread is runnable behind the
  -- others of its priority.
  pub create-some :
      (i : Tid) (p : ℕ) (xs : List ℕ)
      → find_free (start_of s.prev_id) s.ut_state ≡ some i
      → is_state (s.ut_state t) ut_no_state ≡ false
      → p ≤ uth_maxprio
      → s.queues.runqs p ≡ queue xs
      → solo (uthread_create true (pos p) s) ≡ returned (success, some i) (created i p xs s)
  unfolding uthread_create create_at bind
  create-some i p xs e alive small holds =
      solo-seq _ _ (alloc-some s t r free i e)
      ∙ (solo-seq _ _ (solo-may_tick _)
          ∙ (solo-seq _ _ (
                solo-alloc_stack (taken_slot i s) t (record { here = r.here; nested = r.nested })
                  true)
              ∙ (solo-seq _ _ (solo-may_tick _)
                  ∙ (solo-seq _ _ (solo-may_tick _) ∙ with_stack i p xs e alive small holds))))
