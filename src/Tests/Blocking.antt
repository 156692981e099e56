-- ===== src/Tests/Blocking.antt =====
-- The theorems on mutexes and condition variables.
use multi_process_threading.Base.{◌≡◌, refl, false, some, [], ◌∷◌, arith}
use multi_process_threading.State.{
  State, m_pmut, c_pmut, m_waiters, uc_waiters, ut_wait, ut_runnable,
}
use multi_process_threading.Cmd.{bind}
use multi_process_threading.Cmd.Solo.{returned, solo}
use multi_process_threading.Sched.{set_state}
use multi_process_threading.Sched.Preempt.{IsRunning, masked_in}
use multi_process_threading.Sched.Wake.{runq_added}
use multi_process_threading.Switch.{after_switch}
use multi_process_threading.Switch.Laws.{Leaves, leaving, queued, releasing}
use multi_process_threading.Mtx.{set_owner, after_wait, uthread_mtx_lock, uthread_mtx_unlock}
use multi_process_threading.Mtx.Block.{asleep, lock-Leaves}
use multi_process_threading.Mtx.Unlock.{handed, unlock-hand_over}
use multi_process_threading.Cond.{cond_awake, uthread_cond_wait, uthread_cond_broadcast}
use multi_process_threading.Cond.Wakes.{Ready}
use multi_process_threading.Cond.Broadcast.{IsAwake, broadcast-IsAwake}
use multi_process_threading.Cond.Wait.{mutex_given, entered, wait-hands_over, awake-locks}
use multi_process_threading.Tests.Machine.{machine, machine-IsRunning, mutex_waits, cond_waits}

at_mutex : IsRunning mutex_waits 1
at_mutex = record { here = refl; nested = refl }

at_cond : IsRunning cond_waits 1
at_cond = record { here = refl; nested = refl }

-- Thread 1, off LWP 0, which holds `m_pmut`.
abbrev locker : State
locker = asleep mutex_waits 1 5

lock-Leaves_example :
    Leaves
      (solo (uthread_mtx_lock 5 mutex_waits))
      (leaving locker (some (m_waiters 5)) false (some (m_pmut 5)))
      (releasing (queued locker 1 (m_waiters 5) (m_pmut 5) (2 ∷ 3 ∷ []) mutex_waits.pmuts))
      (λ s'. bind (after_switch s') (λ _. after_wait 5))
lock-Leaves_example = lock-Leaves mutex_waits 1 5 at_mutex refl 1 refl (2 ∷ 3 ∷ []) refl refl refl

unlock-hand_over_example :
    solo (uthread_mtx_unlock 5 mutex_waits)
    ≡ returned tt (
        runq_added 2 3 []
          (set_state 2 ut_runnable (handed mutex_waits 1 5 at_mutex refl 2 (3 ∷ []) mutex_waits)))
unlock-hand_over_example =
    unlock-hand_over mutex_waits 1 5 at_mutex refl 2 3 (3 ∷ []) [] refl
      (record { prio = refl; small = omega arith; free = refl; holds = refl }) refl refl

all-Ready : Ready cond_waits 1 4 (2 ∷ 3 ∷ [])
all-Ready = record {
  running = at_cond;
  free = refl;
  holds = refl;
  waiting = (
    record { waits = refl; prio = refl; small = omega arith },
    (record { waits = refl; prio = refl; small = omega arith }, tt),
  );
  distinct = (refl, (refl, tt));
  sized = λ p. refl;
}

broadcast-IsAwake_example :
    (z : State) × (solo (uthread_cond_broadcast 4 cond_waits) ≡ returned tt z)
    × IsAwake 4 (2 ∷ 3 ∷ []) cond_waits z
broadcast-IsAwake_example = broadcast-IsAwake cond_waits 1 4 (2 ∷ 3 ∷ []) all-Ready refl

-- Thread 1 has given the mutex to thread 2, and its LWP holds `pmut`.
abbrev waits_now : State
waits_now =
    set_state 1 ut_wait
      (mutex_given (entered mutex_waits 1 4 5 at_mutex refl refl) 5 2 3 (3 ∷ []) [])

wait-hands_over_example :
    Leaves
      (solo (uthread_cond_wait 4 5 mutex_waits))
      (leaving waits_now (some (uc_waiters 4)) false (some (c_pmut 4)))
      (releasing (queued waits_now 1 (uc_waiters 4) (c_pmut 4) [] mutex_waits.pmuts))
      (λ s'. bind (after_switch s') (λ _. cond_awake 5))
wait-hands_over_example =
    wait-hands_over mutex_waits 1 4 5 at_mutex refl refl [] refl refl 2 3 (3 ∷ []) [] refl refl refl
      refl (record { prio = refl; small = omega arith; free = refl; holds = refl })

awake-locks_example :
    solo (bind (after_switch (masked_in machine 1)) (λ _. cond_awake 5))
    ≡ returned tt (set_owner 5 (some 1) machine)
awake-locks_example = awake-locks machine 1 5 machine-IsRunning refl refl refl refl
