-- ===== src/Tests/Programs.antt =====
-- Programs of two LWPs, run step by step.
use multi_process_threading.Base.{
  zero, suc, ◌≡◌, ◌<◌, refl, true, Option, none, some, List, [], ◌∷◌,
}
use multi_process_threading.State.{
  State, LwpId, PmutId, runq_mtx, uthreads_mtx, ut_pmut, m_pmut, c_pmut, get_pmut,
}
use multi_process_threading.State.Fifo
use multi_process_threading.Cmd.{
  bind, curthr, is_masked, set_mask, pthread_mutex_lock, pthread_mutex_unlock, take_from, give_back,
}
use multi_process_threading.Queue.{utqueue_empty}
use multi_process_threading.Sched.{nesting_agrees, uthread_nopreempt_on, uthread_nopreempt_off}
use multi_process_threading.Mtx.{uthread_mtx_unlock}
use multi_process_threading.Cond.{uthread_cond_wait}
use multi_process_threading.Switch.{
  lwp_switch, lwp_leave, leave_thread, unlock_pmut, lwp_look, find_thread, lwp_park, park_test,
}
use multi_process_threading.Thread.Start.{lwp_start}
use multi_process_threading.Discipline.{is_tracked, IsOwned}
use multi_process_threading.System.{
  Code, asks, Prog, returns, waits_for, exec, enter, thread, lwp, Doing, ready, absent, System,
  step, step_at, settle, settle_thread, settle_lwp, goes,
}
use multi_process_threading.System.Exclusion.{
  IsBegun, new_thread, IsIdle, not_made, starts, enters, Steps, stop, go_on, Others, nothing,
  another, IsKept, steps-exclude, steps-IsOwned, parked-lt-lwps,
}
use multi_process_threading.System.Order.{CanGo, steps-release, steps-CanGo}
use multi_process_threading.Cmd.Solo.{returned, solo}
use multi_process_threading.Switch.{runs}
use multi_process_threading.Thread.Start.{uthread_start}
use multi_process_threading.Thread.Start.Laws.{booted, IsStarted, start-IsStarted}
use multi_process_threading.System.Launch.{places, launch}
use multi_process_threading.Tests.Machine.{machine}

-- LWP 0 is about to enter thread 1, which waits for condition 4 with mutex 5; LWP 1 has just been
-- made, and there is no other.
abbrev program : Prog
program = waits_for 4 5 (returns 0)

spots : LwpId → Doing
spots zero = ready (thread (enter program))
spots (suc zero) = ready (lwp lwp_start)
spots (suc (suc l)) = absent

spots-IsIdle : (l : LwpId) → IsIdle (spots l)
unfolding spots
spots-IsIdle zero = enters (enter program) (new_thread program refl) refl
spots-IsIdle (suc zero) = starts refl
spots-IsIdle (suc (suc l)) = not_made refl

abbrev begun : System
begun = record {
  mem = record machine {
    uths = record (machine.uths) { ut_no_preempt_count = λ _. 1 };
    lwps = record (machine.lwps) { masked = λ _. true };
  };
  at = spots;
  saved = λ _. enter program;
}

begun-free : (m : PmutId) → is_tracked m ≡ true → get_pmut begun.mem.pmuts m ≡ none
begun-free runq_mtx k = refl
begun-free uthreads_mtx k = refl
begun-free (ut_pmut t) k = absurd cc
begun-free (m_pmut m) k = refl
begun-free (c_pmut c) k = refl

begun-IsBegun : IsBegun begun
begun-IsBegun = record {
  idle = spots-IsIdle;
  new = λ t. new_thread program refl;
  free = begun-free;
}

-- The steps of LWPs in this order.
turns : List LwpId → System → Option System
turns [] σ = some σ
turns (l ∷ ls) σ = elim (step l σ) [ none ↦ none | some τ ↦ turns ls τ ]

-- Thread 1 has taken `pmut` of condition 4, and asks for `m_pmut`.
abbrev asking : Option System
asking = turns (0 ∷ 0 ∷ 0 ∷ []) begun

abbrev holder : Option System → Option LwpId
holder none = none
holder (some σ) = get_pmut σ.mem.pmuts (c_pmut 4)

asking-holder : holder asking ≡ some 0
unfolding turns spots step step_at settle settle_thread enter exec bind uthread_cond_wait
    uthread_mtx_unlock uthread_nopreempt_off uthread_nopreempt_on nesting_agrees is_masked curthr
    set_mask pthread_mutex_lock take_from
asking-holder = refl

-- From there LWP 1 starts, finds no thread, and parks.
reach_asking : (τ : System) × Steps begun τ
unfolding turns spots step step_at settle settle_thread enter exec bind uthread_cond_wait
    uthread_mtx_unlock uthread_nopreempt_off uthread_nopreempt_on nesting_agrees is_masked curthr
    set_mask pthread_mutex_lock take_from
reach_asking = (_, go_on 0 (go_on 0 (go_on 0 stop (goes refl)) (goes refl)) (goes refl))

reach_parked : (υ : System) × Others 0 reach_asking.0 υ
unfolding reach_asking spots step step_at settle settle_lwp lwp_start bind is_masked set_mask
    pthread_mutex_lock take_from lwp_switch lwp_leave leave_thread unlock_pmut lwp_look find_thread
    utqueue_empty lwp_park park_test pthread_mutex_unlock give_back Fifo.is_consistent Fifo.is_empty
reach_parked = (_, another 1 (another 1 nothing refl (goes refl)) refl (goes refl))

steps-exclude_example : IsKept 0 (c_pmut 4) reach_asking.0 reach_parked.0
unfolding reach_asking
steps-exclude_example =
    steps-exclude begun-IsBegun reach_asking.1 0 (c_pmut 4) refl refl reach_parked.1

-- The same, as steps of the program.
reach_idle : (τ : System) × Steps begun τ
unfolding reach_asking spots step step_at settle settle_lwp lwp_start bind is_masked set_mask
    pthread_mutex_lock take_from lwp_switch lwp_leave leave_thread unlock_pmut lwp_look find_thread
    utqueue_empty lwp_park park_test pthread_mutex_unlock give_back Fifo.is_consistent Fifo.is_empty
reach_idle = (_, go_on 1 (go_on 1 (go_on 1 reach_asking.1 (goes refl)) (goes refl)) (goes refl))

steps-release_example : ¬ (get_pmut reach_idle.0.mem.pmuts runq_mtx ≡ some 1)
unfolding reach_idle
steps-release_example = steps-release begun-IsBegun reach_idle.1 1 runq_mtx tt refl

asked : (c : Code) × (reach_asking.0.at 0 ≡ asks (m_pmut 5) c)
unfolding reach_asking
asked = (_, refl)

steps-CanGo_example : (h : LwpId) × CanGo reach_asking.0 h
steps-CanGo_example = steps-CanGo begun-IsBegun reach_asking.1 0 (m_pmut 5) asked.0 refl asked.1

-- The program from its start: LWP 1 is made, and asks for `runq_mtx`.
reach_made : (τ : System) × Steps (launch machine program 9 9) τ
unfolding launch places step step_at settle settle_lwp lwp_start bind set_mask is_masked
    pthread_mutex_lock
reach_made = (_, go_on 1 stop (goes refl))

parked-lt-lwps_example : reach_made.0.mem.lwp_parked_cnt < reach_made.0.mem.lwp_cnt
parked-lt-lwps_example = parked-lt-lwps machine program 9 9 reach_made.1

start-IsStarted_example :
    (z : State) × (solo (uthread_start true true (booted machine)) ≡ returned (runs 0) z)
    × IsStarted z
start-IsStarted_example = start-IsStarted machine

steps-IsOwned_example : IsOwned reach_idle.0.mem
unfolding reach_idle
steps-IsOwned_example = steps-IsOwned begun-IsBegun (λ m e. refl) reach_idle.1
