-- ===== src/Tests/Machine.antt =====
-- Machines with a handful of threads, for the tests.
use multi_process_threading.Base.{refl, true, false, none, some, [], ◌∷◌, update}
use multi_process_threading.State.{State, ut_no_state, ut_on_cpu, ut_runnable, ut_wait, ut_zombie}
use multi_process_threading.State.Int.{pos}
use multi_process_threading.State.Fifo.{empty_queue}
use multi_process_threading.Queue.Laws.{queue}
use multi_process_threading.Sched.Preempt.{IsRunning}

-- LWP 0 runs thread 1; the reaper, thread 0, waits for `reap_cond`. All priorities are 3.
abbrev pub machine : State
machine = record {
  uths = record {
    linked = update (λ _. false) 0 true;
    ut_stack = update (update (λ _. false) 0 true) 1 true;
    ut_state = update (update (λ _. ut_no_state) 0 ut_wait) 1 ut_on_cpu;
    ut_prio = λ _. pos 3;
    ut_exit = λ _. 0;
    ut_detached = λ _. false;
    ut_no_preempt_count = λ _. 0;
  };
  queues = record {
    runqs = λ _. empty_queue;
    waiters = λ _. empty_queue;
    reaps = empty_queue;
    mtx_waiters = λ _. empty_queue;
    cond_waiters = update (λ _. empty_queue) 0 (queue (0 ∷ []));
  };
  pmuts = record {
    of_runq = none;
    of_uthreads = none;
    of_ut = λ _. none;
    of_mtx = λ _. none;
    of_cond = λ _. none;
  };
  lwps = record {
    ut_curthr = update (λ _. none) 0 (some 1);
    queue = λ _. none;
    saveonrq = λ _. false;
    pmut = λ _. none;
    masked = λ _. false;
  };
  m_owner = λ _. none;
  runq_size = 0;
  lwp_cnt = 1;
  lwp_parked_cnt = 0;
  reaper_thr_id = 0;
  prev_id = some 1;
  cpu = 0;
}

pub machine-IsRunning : IsRunning machine 1
machine-IsRunning = record { here = refl; nested = refl }

-- Thread 2 waits too, on no queue yet.
abbrev pub one_waits : State
one_waits = record machine {
  uths = record (machine.uths) { ut_state = update machine.ut_state 2 ut_wait };
}

-- Threads 2 and 3 wait for mutex 5, which thread 1 owns.
abbrev pub mutex_waits : State
mutex_waits = record machine {
  uths = record (machine.uths) {
    ut_state = update (update machine.ut_state 2 ut_wait) 3 ut_wait;
    linked = update (update machine.linked 2 true) 3 true;
  };
  queues = record (machine.queues) {
    mtx_waiters = update machine.queues.mtx_waiters 5 (queue (2 ∷ 3 ∷ []));
  };
  m_owner = update machine.m_owner 5 (some 1);
}

-- Threads 2 and 3 wait for condition 4, with priorities 3 and 6.
abbrev pub cond_waits : State
cond_waits = record machine {
  uths = record (machine.uths) {
    ut_state = update (update machine.ut_state 2 ut_wait) 3 ut_wait;
    linked = update (update machine.linked 2 true) 3 true;
    ut_prio = update machine.ut_prio 3 (pos 6);
  };
  queues = record (machine.queues) {
    cond_waiters = update machine.queues.cond_waiters 4 (queue (2 ∷ 3 ∷ []));
  };
}

-- Threads 2 and 3 are runnable with priority 3.
abbrev pub two_runnable : State
two_runnable = record machine {
  uths = record (machine.uths) {
    ut_state = update (update machine.ut_state 2 ut_runnable) 3 ut_runnable;
    linked = update (update machine.linked 2 true) 3 true;
  };
  queues = record (machine.queues) { runqs = update machine.queues.runqs 3 (queue (2 ∷ 3 ∷ [])) };
  runq_size = 2;
}

-- Thread 2 has exited with 42, and nobody has joined it.
abbrev pub one_zombie : State
one_zombie = record machine {
  uths = record (machine.uths) {
    ut_state = update machine.ut_state 2 ut_zombie;
    ut_exit = update machine.ut_exit 2 42;
    ut_stack = update machine.ut_stack 2 true;
  };
}

-- LWP 0, in `lwp_switch` with `runq_mtx` and no thread.
abbrev pub vacant_machine : State
vacant_machine = record two_runnable {
  pmuts = record (machine.pmuts) { of_runq = some 0 };
  lwps = record (machine.lwps) { ut_curthr = λ _. none };
}
