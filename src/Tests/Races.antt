-- ===== src/Tests/Races.antt =====
-- Concrete runs of calls that meet on two LWPs, or where one LWP keeps a posix mutex.
use multi_process_threading.Base.{true, ◌≡◌, refl, Bool, some, [], update, arith}
use multi_process_threading.State.{State, Tid, ut_wait, ut_on_cpu}
use multi_process_threading.State.Int.{pos}
use multi_process_threading.Cmd.{assert_failed, mutex_error, unlocked}
use multi_process_threading.Cmd.Solo.{aborted, returned, solo}
use multi_process_threading.Cmd.Reach.{Reaches}
use multi_process_threading.Sched.Preempt.{IsRunning, masked_in}
use multi_process_threading.Switch.Laws.{Parks}
use multi_process_threading.Thread.Alloc.{first_free, start_of, find_free, uthread_alloc}
use multi_process_threading.Thread.Alloc.Race.{claimed_in, reads, between, alloc_twice}
use multi_process_threading.Thread.Life.{reap_mtx}
use multi_process_threading.Thread.Join.{uthread_join, uthread_detach}
use multi_process_threading.Prio.{success}
use multi_process_threading.Thread.Join.Zombie.{CanReap, reaped}
use multi_process_threading.Thread.Join.Twice.{joiner, joined, join-twice}
use multi_process_threading.Thread.Join.Holding.{waiting, resuming, detach-Parks}
use multi_process_threading.Tests.Machine.{machine, one_zombie}

-- Thread 1 on LWP 0 and thread 5 on LWP 1, both about to call `uthread_alloc`; slots 2 and 3 are
-- the next free ones.
abbrev two_callers : State
two_callers = record machine {
  uths = record (machine.uths) { ut_state = update machine.ut_state 5 ut_on_cpu };
  lwps = record (machine.lwps) { ut_curthr = update machine.ut_curthr 1 (some 5) };
}

two_callers-IsRunning : IsRunning two_callers 1
two_callers-IsRunning = record { here = refl; nested = refl }

found_first : find_free (start_of two_callers.prev_id) two_callers.ut_state ≡ some 2
unfolding find_free start_of first_free
found_first = refl

abbrev second_caller : State
second_caller = between two_callers 1 2 two_callers-IsRunning refl found_first 1 5 3 refl refl

alloc_twice_example :
    Reaches (uthread_alloc two_callers) (unlocked (claimed_in two_callers 1 2) reads)
    × Reaches (uthread_alloc second_caller) (unlocked (claimed_in second_caller 5 3) reads)
    × ((w : State) × (solo (reads (record (claimed_in second_caller 5 3) { cpu = 0 }))
          ≡ returned (some 3) w))
    × ((w : State) × (solo (reads (claimed_in second_caller 5 3)) ≡ returned (some 3) w))
unfolding find_free start_of first_free
alloc_twice_example =
    alloc_twice two_callers 1 2 two_callers-IsRunning refl found_first 1 5 3 refl refl
      (record { here = refl; nested = refl }) refl

-- Thread 2 is a zombie, and the reaper, thread 0, has `reap_mtx`.
abbrev reaper_works : State
reaper_works = record one_zombie { m_owner = update one_zombie.m_owner reap_mtx (some 0) }

works-IsRunning : IsRunning reaper_works 1
works-IsRunning = record { here = refl; nested = refl }

abbrev stuck : State
stuck = waiting reaper_works 1 works-IsRunning 2 (omega arith) refl []

detach-Parks_example :
    Parks
      (solo (uthread_detach (pos 2) reaper_works))
      stuck
      (resuming reaper_works 1 works-IsRunning 2 (omega arith) refl)
    × (stuck.ut_state 1 ≡ ut_wait)
    × (stuck.pmuts.of_ut 2 ≡ some 0)
    × ((v : State) (u : Tid) (wanted : Bool)
        → IsRunning v u
        → v.pmuts.of_ut 2 ≡ some v.cpu
        → solo (uthread_join (pos 2) wanted v) ≡ aborted mutex_error)
detach-Parks_example =
    detach-Parks reaper_works 1 works-IsRunning 2 (omega arith) refl 0 [] refl refl refl refl refl
      refl refl refl

-- Thread 2 is a zombie, thread 1 on LWP 0 joins it, and its first joiner is thread 4 on LWP 1.
abbrev two_joiners : State
two_joiners = record one_zombie {
  uths = record (one_zombie.uths) { ut_state = update one_zombie.ut_state 4 ut_on_cpu };
  lwps = record (one_zombie.lwps) { ut_curthr = update one_zombie.ut_curthr 1 (some 4) };
}

joiners-IsRunning : IsRunning two_joiners 1
joiners-IsRunning = record { here = refl; nested = refl }

joiners-CanReap : CanReap two_joiners 1 2 [] 0 [] 3 []
joiners-CanReap = record {
  inside = omega arith;
  zombie = refl;
  off = refl;
  reaps = refl;
  not_self = refl;
  not_reaper = refl;
  sleeps = refl;
  can_add = record { prio = refl; small = omega arith; free = refl; holds = refl };
  asleep = refl;
  mtx_waiters = refl;
  of_runq = refl;
  of_cond = refl;
  of_mtx = refl;
  of_ut = refl;
}

join-twice_example :
    (solo (uthread_join (pos 2) true two_joiners)
      ≡ returned
          (success, some 42)
          (reaped two_joiners 1 joiners-IsRunning 2 [] 0 [] 3 [] joiners-CanReap refl refl refl))
    × (solo (
          joiner 2 true (
            masked_in
              (joined two_joiners 1 joiners-IsRunning 2 [] 0 [] 3 [] joiners-CanReap refl refl refl
                1)
              4))
        ≡ aborted assert_failed)
join-twice_example =
    join-twice two_joiners 1 joiners-IsRunning 2 [] 0 [] 3 [] joiners-CanReap refl refl refl 1 4
      true true (record { here = refl; nested = refl }) refl
