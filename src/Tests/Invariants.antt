-- ===== src/Tests/Invariants.antt =====
-- The invariant at concrete machines, and the theorems that keep it.
use multi_process_threading.Base.{
  ℕ, ◌≡◌, ◌⊎◌, refl, sym, ap, true, false, some, [], ◌∷◌, arith, ◌==◌, has, if◌then◌else◌, ◌≤◌, ◌∙◌,
  subst, Distinct, Bool-cases, inl, inr,
}
use multi_process_threading.State.{State, Tid, ut_wait, uth_maxprio}
use multi_process_threading.State.Int.{pos}
use multi_process_threading.Cmd.{Run}
use multi_process_threading.Cmd.Solo.{returned, solo}
use multi_process_threading.Queue.Laws.{queue}
use multi_process_threading.Sched.{is_state, uthread_wake}
use multi_process_threading.Sched.Scheduled.{queued, is_runnable, Scheduled}
use multi_process_threading.Switch.Laws.{Parks}
use multi_process_threading.Mtx.{uthread_mtx_lock, uthread_mtx_unlock}
use multi_process_threading.Cond.{uthread_cond_signal}
use multi_process_threading.Prio.{success, uthread_setprio}
use multi_process_threading.Thread.Alloc.{first_free, find_free, start_of, uthread_create}
use multi_process_threading.Thread.Life.Exit.{CanExit}
use multi_process_threading.Invariant.Wake.{IsIdle, wake-Scheduled, create-Scheduled}
use multi_process_threading.Invariant.Turn.{Turns, yield-Turns}
use multi_process_threading.Invariant.Choice.{Runs, Idles, look-Scheduled}
use multi_process_threading.Invariant.Blocking.{
  IsWaiter, unlock-Scheduled, signal-Scheduled, lock-Scheduled, setprio-Scheduled,
}
use multi_process_threading.Invariant.Life.{Exits, exit-Scheduled}
use multi_process_threading.Tests.Machine.{
  machine, machine-IsRunning, one_waits, mutex_waits, cond_waits, two_runnable, vacant_machine,
}

-- No thread of `s` is runnable, and no run queue holds one.
idle-Scheduled :
    (s : State)
    → s.queues.runqs ≡ (λ _. queue [])
    → ((t : Tid) → is_runnable (s.ut_state t) ≡ false)
    → s.runq_size ≡ 0
    → Scheduled s
unfolding queued
idle-Scheduled s e o n = record {
  sized = λ p le. ap (λ f. f p) e ∙ ap (λ f. queue (f p).tq_waiters) (sym e);
  distinct = λ p le. subst (λ f. Distinct (f p).tq_waiters) (sym e) tt;
  on_queue = λ p le t. ap (λ f. has t (f p).tq_waiters) e ∙ rw (o t) refl;
  legal = λ t h. absurd (let both : true ≡ false = sym h ∙ o t in cc);
  linked = λ t h. absurd (let both : true ≡ false = sym h ∙ o t in cc);
  size = n ∙ ap (queued 8) (sym e);
}

one_waits-Scheduled : Scheduled one_waits
one_waits-Scheduled = idle-Scheduled one_waits refl (λ t. ground arith) refl

machine-Scheduled : Scheduled machine
machine-Scheduled = idle-Scheduled machine refl (λ t. ground arith) refl

mutex_waits-Scheduled : Scheduled mutex_waits
mutex_waits-Scheduled = idle-Scheduled mutex_waits refl (λ t. ground arith) refl

cond_waits-Scheduled : Scheduled cond_waits
cond_waits-Scheduled = idle-Scheduled cond_waits refl (λ t. ground arith) refl

two_runnable-Scheduled : Scheduled two_runnable
unfolding queued
two_runnable-Scheduled = record {
  sized = λ p le. ground arith;
  distinct = λ p le. elim (Bool-cases (3 == p)) [
    | inl at ↦ rw at (refl, (refl, tt))
    | inr off ↦ rw off tt
  ];
  on_queue = λ p le t. ground arith;
  legal = λ t h. (3, omega arith, refl);
  linked = λ t h. ground arith;
  size = refl;
}

wake-Scheduled_example :
    (z : State) × (solo (uthread_wake 2 one_waits) ≡ returned tt z)
    × Scheduled z
    × (is_state (z.ut_state 2) ut_wait ≡ false)
wake-Scheduled_example =
    wake-Scheduled one_waits 1 (record { here = refl; nested = refl }) refl one_waits-Scheduled 2
      refl (λ _. record { level = 3; legal = omega arith; prio = refl; off = refl })

ready : IsIdle two_runnable 1
ready = record { level = 3; legal = omega arith; prio = refl; off = refl }

yield-Turns_example :
    Turns two_runnable 1
      (record { here = refl; nested = refl })
      refl
      two_runnable-Scheduled
      refl
      ready
yield-Turns_example =
    yield-Turns two_runnable 1 (record { here = refl; nested = refl }) refl two_runnable-Scheduled
      refl ready

slot_is_free : find_free (start_of machine.prev_id) machine.ut_state ≡ some 2
unfolding find_free first_free start_of
slot_is_free = refl

create-Scheduled_example :
    (z : State) × (solo (uthread_create true (pos 5) machine) ≡ returned (success, some 2) z)
    × Scheduled z
create-Scheduled_example =
    create-Scheduled machine 1 machine-IsRunning refl machine-Scheduled 2 5 refl slot_is_free refl
      (omega arith)

vacant-Scheduled : Scheduled vacant_machine
vacant-Scheduled = record {
  sized = two_runnable-Scheduled.sized;
  distinct = two_runnable-Scheduled.distinct;
  on_queue = two_runnable-Scheduled.on_queue;
  legal = two_runnable-Scheduled.legal;
  linked = two_runnable-Scheduled.linked;
  size = two_runnable-Scheduled.size;
}

look-Scheduled_example :
    Runs vacant_machine vacant-Scheduled two_runnable.pmuts refl refl refl 0
    ⊎ Idles vacant_machine vacant-Scheduled two_runnable.pmuts refl refl refl 0
look-Scheduled_example =
    look-Scheduled vacant_machine vacant-Scheduled two_runnable.pmuts refl refl refl 0

waiter :
    (s : State) (u : Tid) (p : ℕ)
    → p ≤ uth_maxprio
    → s.ut_prio u ≡ pos p
    → s.ut_state u ≡ ut_wait
    → IsWaiter s u
waiter s u p le e w = record { level = p; legal = le; prio = e; waits = w }

mutex_waiters : (u : Tid) → has u (2 ∷ 3 ∷ []) ≡ true → IsWaiter mutex_waits u
mutex_waiters u h = waiter mutex_waits u 3 (omega arith) refl (ground arith)

cond_waiters : (u : Tid) → has u (2 ∷ 3 ∷ []) ≡ true → IsWaiter cond_waits u
cond_waiters u h =
    waiter cond_waits u (if u == 3 then 6 else 3) (ground arith) (ground arith) (ground arith)

unlock-Scheduled_example :
    (z : State) × (solo (uthread_mtx_unlock 5 mutex_waits) ≡ returned tt z)
    × Scheduled z
    × (z.m_owner 5 ≡ some 2)
unlock-Scheduled_example =
    unlock-Scheduled mutex_waits 1 (record { here = refl; nested = refl }) refl
      mutex_waits-Scheduled 5 (2 ∷ 3 ∷ []) refl refl mutex_waiters

signal-Scheduled_example :
    (z : State) × (solo (uthread_cond_signal 4 cond_waits) ≡ returned tt z) × Scheduled z
signal-Scheduled_example =
    signal-Scheduled cond_waits 1 (record { here = refl; nested = refl }) refl cond_waits-Scheduled
      4 (2 ∷ 3 ∷ []) refl refl cond_waiters

lock-Scheduled_example :
    (z : State) × (k : State → Run (Unit {0})) × Parks (solo (uthread_mtx_lock 5 mutex_waits)) z k
    × Scheduled z
    × (z.ut_state 1 ≡ ut_wait)
lock-Scheduled_example =
    lock-Scheduled mutex_waits 1 (record { here = refl; nested = refl }) refl mutex_waits-Scheduled
      5 1 (2 ∷ 3 ∷ []) refl refl refl refl refl

setprio-Scheduled_example :
    (z : State) × (solo (uthread_setprio (pos 3) (pos 1) two_runnable) ≡ returned success z)
    × Scheduled z
    × (z.ut_prio 3 ≡ pos 1)
setprio-Scheduled_example =
    setprio-Scheduled two_runnable 1 (record { here = refl; nested = refl }) refl
      two_runnable-Scheduled 3 1 (omega arith) refl (omega arith) refl refl refl

exiting : CanExit machine 1
exiting = record { owner = refl; mtx_waiters = refl; mtx_pmut = refl; pmut = refl; runq = refl }

exit-Scheduled_example :
    Exits machine 1 machine-IsRunning exiting 7 machine-Scheduled refl (Unit {0})
exit-Scheduled_example =
    exit-Scheduled machine 1 machine-IsRunning exiting 7 machine-Scheduled refl [] refl refl
      (λ u h. absurd cc)
