-- ===== src/Tests/Scheduling.antt =====
-- The theorems on preemption, waking, priorities and the choice of a thread.
use multi_process_threading.Base.{ℕ, ◌≡◌, ◌≤◌, refl, false, none, some, [], ◌∷◌, arith, ◌==◌}
use multi_process_threading.State.{State}
use multi_process_threading.State.Int.{pos}
use multi_process_threading.Cmd.{bind, pure}
use multi_process_threading.Cmd.Solo.{returned, solo}
use multi_process_threading.Sched.{uthread_nopreempt_off}
use multi_process_threading.Sched.Preempt.{IsRunning, masked_in, solo-nopreempt_off}
use multi_process_threading.Switch.{after_switch, after_yield}
use multi_process_threading.Switch.Laws.{Leaves}
use multi_process_threading.Switch.Pick.{EmptyFrom}
use multi_process_threading.Switch.Yield.{yielding, saving}
use multi_process_threading.Prio.{success, clock_interrupt, uthread_setprio}
use multi_process_threading.Prio.Laws.{CanMove, moved, setprio-yields}
use multi_process_threading.Prio.Clock.{interrupt_rest, IsOpen, interrupted, interrupt-Leaves}
use multi_process_threading.Tests.Machine.{machine, machine-IsRunning, one_waits, two_runnable}

here : IsRunning one_waits 1
here = record { here = refl; nested = refl }

here2 : IsRunning two_runnable 1
here2 = record { here = refl; nested = refl }

solo-nopreempt_off_example :
    solo (uthread_nopreempt_off (masked_in machine 1)) ≡ returned tt machine
solo-nopreempt_off_example =
    solo-nopreempt_off machine 1 (masked_in machine 1) machine-IsRunning refl refl refl refl

none_above : EmptyFrom two_runnable 4 8
none_above q l h = ground arith

-- Two LWPs, of which one has found nothing to run.
abbrev idle : ℕ → State
idle n = record machine {
  pmuts = record (machine.pmuts) { of_runq = some 0 };
  lwps = record (machine.lwps) { ut_curthr = λ _. none };
  lwp_cnt = n;
}

-- The LWP parked, and two threads have come since.
abbrev woken_lwp : State
woken_lwp = record two_runnable {
  lwps = record (machine.lwps) { ut_curthr = λ _. none };
  lwp_parked_cnt = 1;
  lwp_cnt = 2;
}

can_move : (p : ℕ) → (3 == p) ≡ false → p ≤ 7 → CanMove two_runnable 3 3 p (2 ∷ 3 ∷ []) []
can_move p ne le = record {
  inside = omega arith;
  runnable = refl;
  prio = refl;
  linked = refl;
  old = omega arith;
  new = le;
  other = ne;
  on_old = refl;
  member = refl;
  on_new = ground arith;
}

setprio-yields_example :
    Leaves
      (solo (uthread_setprio (pos 3) (pos 5) two_runnable))
      (yielding (masked_in (moved 3 3 5 (2 ∷ 3 ∷ []) [] two_runnable) 1))
      (saving 1 3 (2 ∷ []) (masked_in (moved 3 3 5 (2 ∷ 3 ∷ []) [] two_runnable) 1))
      (λ s'. bind (bind (after_switch s') (λ _. after_yield)) (λ _. pure success))
    × (solo (
          bind
            (bind (after_switch (masked_in two_runnable 1)) (λ _. after_yield))
            (λ _. pure success))
        ≡ returned success two_runnable)
setprio-yields_example =
    setprio-yields two_runnable 1 here2 refl 3 3 5 (2 ∷ 3 ∷ []) [] (can_move 5 refl (omega arith))
      refl 3 (2 ∷ []) refl refl
      (record { prio = refl; small = omega arith; free = refl; holds = refl }) two_runnable here2
      refl

two_runnable-IsOpen : IsOpen two_runnable 1
two_runnable-IsOpen = record { here = refl; on = refl; none_off = refl; unmasked = refl }

interrupt-Leaves_example :
    Leaves
      (solo (clock_interrupt two_runnable))
      (yielding (masked_in (interrupted two_runnable 1) 1))
      (saving 1 3 (2 ∷ 3 ∷ []) (masked_in (interrupted two_runnable 1) 1))
      interrupt_rest
    × (solo (interrupt_rest (masked_in (interrupted two_runnable 1) 1)) ≡ returned tt two_runnable)
interrupt-Leaves_example =
    interrupt-Leaves two_runnable 1 3 (2 ∷ 3 ∷ []) two_runnable-IsOpen
      (record { prio = refl; small = omega arith; free = refl; holds = refl }) refl two_runnable
      two_runnable-IsOpen
