-- ===== src/Thread/Start/Laws.antt =====
-- Proofs about `uthread_start`.
use multi_process_threading.Base.{
  ℕ, zero, suc, ◌≤◌, ◌<◌, ◌≡◌, ◌∙◌, sym, refl, Bool, true, false, none, some, [], ◌∷◌, arith,
  update, ◌==◌, Bool-cases, inl, inr,
}
use multi_process_threading.State.{
  State, Tid, MtxId, CondId, UthreadState, ut_no_state, ut_transition, ut_on_cpu, ut_runnable,
  uth_maxprio,
}
use multi_process_threading.State.Int.{ℤ, pos}
use multi_process_threading.State.Fifo
use multi_process_threading.State.Fifo.{Utqueue, empty_queue}
use multi_process_threading.Cmd.{
  may_tick, bind, curthr, is_masked, set_mask, pthread_mutex_lock, pthread_mutex_unlock, take_from,
  give_back,
}
use multi_process_threading.Cmd.Solo.{returned, solo}
use multi_process_threading.Queue.{
  utqueue_init, utqueue_empty, utqueue_enqueue, utqueue_dequeue, take_oldest,
}
use multi_process_threading.Queue.Laws.{queue}
use multi_process_threading.Sched.{
  nesting_agrees, uthread_nopreempt_on, uthread_nopreempt_off, runq, lwp_release,
  uthread_runq_enqueue,
}
use multi_process_threading.Sched.Scheduled.{
  Scheduled, AreQueued, queued, is_runnable, AreQueued-state, AreQueued-link, AreQueued-prio,
  AreQueued-add,
}
use multi_process_threading.Sched.Taking.{AreQueued-take}
use multi_process_threading.Switch.{
  runs, lwp_switch, lwp_leave, leave_thread, unlock_pmut, lwp_look, find_thread, run_thread,
}
use multi_process_threading.Mtx.{uthread_mtx_init}
use multi_process_threading.Cond.{uthread_cond_init}
use multi_process_threading.Thread.Alloc.{
  first_free, start_of, find_free, release_uthreads, claim, uthread_alloc, alloc_stack,
}
use multi_process_threading.Thread.Reaper.{reaper_init}
use multi_process_threading.Thread.Start.{
  init_runqs, uthread_sched_init, first_thread, create_first_thr, uthread_start,
}

-- The process's memory before `main`: the static counters are 0, `PrevID` is -1, and the posix
-- mutexes are free.
abbrev pub booted : State → State
booted s = record s {
  runq_size = 0;
  lwp_parked_cnt = 0;
  prev_id = none;
  cpu = 0;
  pmuts = record {
    of_runq = none;
    of_uthreads = none;
    of_ut = λ _. none;
    of_mtx = λ _. none;
    of_cond = λ _. none;
  };
}

start_runs :
    (s : State) → (z : State) × (solo (uthread_start true true (booted s)) ≡ returned (runs 0) z)
unfolding solo bind uthread_start uthread_sched_init init_runqs set_mask utqueue_init reaper_init
    uthread_mtx_init uthread_cond_init create_first_thr is_masked first_thread alloc_stack
    uthread_nopreempt_on uthread_nopreempt_off nesting_agrees curthr uthread_runq_enqueue runq
    lwp_release utqueue_enqueue Fifo.enqueue uthread_alloc may_tick start_of find_free first_free
    claim release_uthreads pthread_mutex_lock pthread_mutex_unlock take_from give_back lwp_switch
    lwp_leave leave_thread unlock_pmut lwp_look find_thread utqueue_empty Fifo.is_consistent
    Fifo.is_empty utqueue_dequeue take_oldest Fifo.oldest Fifo.drop_oldest run_thread
start_runs s = (_, refl)

queued-empty : (k : ℕ) (q : ℕ → Utqueue) → ((p : ℕ) → p < k → q p ≡ empty_queue) → queued k q ≡ 0
unfolding queued
queued-empty zero q e = refl
queued-empty (suc k) q e =
    rw (e k (omega arith)) (omega (arith, queued-empty k q (λ p h. e p (omega arith))))

-- Nobody is runnable, and the run queues are empty.
AreQueued-empty :
    (q : ℕ → Utqueue) (f : Tid → UthreadState) (g : Tid → ℤ) (l : Tid → Bool)
    → ((p : ℕ) → p ≤ uth_maxprio → q p ≡ empty_queue)
    → ((t : Tid) → is_runnable (f t) ≡ false)
    → AreQueued q f g l 0
AreQueued-empty q f g l e idle = record {
  sized = λ p le. rw (e p le) refl;
  distinct = λ p le. rw (e p le) tt;
  on_queue = λ p le t. rw (e p le, idle t) refl;
  legal = λ t h. let both : true ≡ false = sym h ∙ idle t in absurd cc;
  linked = λ t h. let both : true ≡ false = sym h ∙ idle t in absurd cc;
  size = sym (queued-empty 8 q (λ p h. e p (omega arith)));
}

abbrev inits : (ℕ → Utqueue) → ℕ → Utqueue
inits f =
    update
      (update
        (update
          (update
            (update (update (update (update f 0 empty_queue) 1 empty_queue) 2 empty_queue) 3
              empty_queue)
            4 empty_queue)
          5 empty_queue)
        6 empty_queue)
      7 empty_queue

inits-empty : (f : ℕ → Utqueue) (p : ℕ) → p ≤ uth_maxprio → inits f p ≡ empty_queue
inits-empty f p le = ground arith

-- Threads 0 and 1 made runnable one after the other, and thread 0 taken.
module _ (f : ℕ → Utqueue) (g : Tid → ℤ) (l : Tid → Bool) where
  nobody :
      AreQueued
        (inits f)
        (update (λ _. ut_no_state) 0 ut_transition)
        (update g 0 (pos 7))
        (update l 0 false)
        0
  nobody =
      AreQueued-empty _ _ _ _ (inits-empty f)
        (λ t. elim (Bool-cases (0 == t)) [ inl at ↦ rw at refl | inr off ↦ rw off refl ])

  first :
      AreQueued
        (update (inits f) 7 (queue (0 ∷ [])))
        (update (update (λ _. ut_no_state) 0 ut_transition) 0 ut_runnable)
        (update g 0 (pos 7))
        (update (update l 0 false) 0 true)
        1
  first = AreQueued-add _ _ _ _ _ nobody 0 refl 7 (omega arith) refl

  second :
      AreQueued
        (update (update (inits f) 7 (queue (0 ∷ []))) 7 (queue (0 ∷ 1 ∷ [])))
        (update
          (update
            (update (update (λ _. ut_no_state) 0 ut_transition) 0 ut_runnable)
            1
            ut_transition)
          1
          ut_runnable)
        (update (update g 0 (pos 7)) 1 (pos 7))
        (update (update (update (update l 0 false) 0 true) 1 false) 1 true)
        2
  second =
      AreQueued-add _ _ _ _ _
        (AreQueued-link _ _ _ _ _
          (AreQueued-prio _ _ _ _ _ (AreQueued-state _ _ _ _ _ first 1 refl ut_transition refl) 1
            refl (pos 7))
          1 refl false)
        1 refl 7 (omega arith) refl

  taken :
      AreQueued
        (update
          (update (update (inits f) 7 (queue (0 ∷ []))) 7 (queue (0 ∷ 1 ∷ [])))
          7
          (queue (1 ∷ [])))
        (update
          (update
            (update
              (update (update (λ _. ut_no_state) 0 ut_transition) 0 ut_runnable)
              1
              ut_transition)
            1
            ut_runnable)
          0
          ut_on_cpu)
        (update (update g 0 (pos 7)) 1 (pos 7))
        (update (update (update (update (update l 0 false) 0 true) 1 false) 1 true) 0 false)
        1
  taken = AreQueued-take _ _ _ _ _ second 0 7 (omega arith) refl ut_on_cpu refl

-- What `uthread_start` leaves on the first LWP.
pub record IsStarted (z : State) : Type 0 where
  pub scheduled : Scheduled z
  pub first_runs : (z.ut_curthr 0 ≡ some 0) × (z.ut_state 0 ≡ ut_on_cpu)
  pub reaper_next :
      (z.reaper_thr_id ≡ 1)
      × (z.ut_state 1 ≡ ut_runnable)
      × (z.queues.runqs uth_maxprio ≡ queue (1 ∷ []))
  pub masked : (z.masked 0 ≡ true) × (z.ut_no_preempt_count 0 ≡ 1) × (z.ut_no_preempt_count 1 ≡ 1)
  pub free :
      (z.pmuts.of_runq ≡ none)
      × (z.pmuts.of_uthreads ≡ none)
      × ((m : MtxId) → z.pmuts.of_mtx m ≡ none)
      × ((c : CondId) → z.pmuts.of_cond c ≡ none)
  pub counts : (z.lwp_cnt ≡ 1) × (z.lwp_parked_cnt ≡ 0)

-- `uthread_start` at the memory of a new process, with memory for both stacks and while no other
-- LWP steps, runs thread 0 on the first LWP. Then the run queues have the right sizes and hold the
-- runnable threads, each once and linked, on the queue of its legal priority, and `runq_size` is
-- their number; the reaper is thread 1 and alone on the run queue of priority 7; SIGVTALRM is
-- masked and both threads have a nesting count of 1; `runq_mtx` and `uthreads_mtx` are free; one
-- LWP is counted and none is parked.
pub start-IsStarted :
    (s : State)
    → (z : State) × (solo (uthread_start true true (booted s)) ≡ returned (runs 0) z) × IsStarted z
unfolding start_runs Fifo.enqueue Fifo.drop_oldest
start-IsStarted s = (
  (start_runs s).0,
  (start_runs s).1,
  record {
    scheduled = taken s.queues.runqs s.ut_prio s.linked;
    first_runs = (refl, refl);
    reaper_next = (refl, refl, refl);
    masked = (refl, refl, refl);
    free = (refl, refl, λ m. ground arith, λ c. ground arith);
    counts = (refl, refl);
  },
)
