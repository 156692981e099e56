-- ===== src/Tests/Threads.antt =====
-- The theorems on the life of a thread.
use multi_process_threading.Base.{
  ◌≡◌, ◌<◌, refl, true, false, none, some, [], ◌∷◌, arith, update, if◌then◌else◌,
}
use multi_process_threading.State.{
  State, ut_no_state, ut_on_cpu, ut_wait, ut_zombie, ut_runnable, ut_pmut, uth_max_uthreads,
}
use multi_process_threading.State.Int.{pos, negsuc}
use multi_process_threading.Cmd.{bind, pthread_mutex_lock}
use multi_process_threading.Cmd.Solo.{returned, ended, solo}
use multi_process_threading.Queue.Laws.{queue}
use multi_process_threading.Sched.Preempt.{IsRunning}
use multi_process_threading.Sched.Wake.{CanAdd}
use multi_process_threading.Prio.{index_of, success, einval, eagain}
use multi_process_threading.Thread.Alloc.{
  first_free, find_free, start_of, set_stack, set_detached, uthread_create,
}
use multi_process_threading.Thread.Alloc.Free.{IsNextFree, find_free-IsNextFree}
use multi_process_threading.Thread.Alloc.Create.{taken_slot, created, create-no_stack, create-some}
use multi_process_threading.Thread.Life.{uthread_exit}
use multi_process_threading.Thread.Life.Detached.{CanVanish, exposed, exit-exposed}
use multi_process_threading.Cmd.Reach.{Reaches, AsksFor}
use multi_process_threading.Thread.Life.{reap_mtx}
use multi_process_threading.Cmd.{Run}
use multi_process_threading.State.{runq_mtx}
use multi_process_threading.Thread.Life.Exit.{CanExit, exit-wakes, last, let_go, after_exit}
use multi_process_threading.Thread.Join.{finish_join, uthread_join, uthread_detach}
use multi_process_threading.Thread.Join.Laws.{join-refused, joining, join-Leaves}
use multi_process_threading.Thread.Join.Zombie.{CanReap, reaped, join-zombie, detach-zombie_thread}
use multi_process_threading.Thread.Reaper.{all_gone, reaper_round}
use multi_process_threading.Thread.Reaper.Laws.{AllDead, IsReaped, reaper_round-IsReaped}
use multi_process_threading.Switch.{after_switch}
use multi_process_threading.Switch.Laws.{Leaves, leaving, releasing, released}
use multi_process_threading.Tests.Machine.{machine, machine-IsRunning, one_zombie}

-- All slots are in use.
abbrev full : State
full = record machine { uths = record (machine.uths) { ut_state = λ _. ut_runnable } }

slot_2 : find_free (start_of machine.prev_id) machine.ut_state ≡ some 2
unfolding find_free first_free start_of
slot_2 = refl

no_slot : find_free (start_of full.prev_id) full.ut_state ≡ none
unfolding find_free first_free start_of
no_slot = refl

starts : start_of (some 1) < uth_max_uthreads
unfolding start_of
starts = omega arith

find_free-IsNextFree_example : IsNextFree machine.ut_state (start_of (some 1)) 2
find_free-IsNextFree_example =
    find_free-IsNextFree machine.ut_state (start_of (some 1)) starts 2 slot_2

create-no_stack_example :
    solo (uthread_create false (pos 3) machine)
    ≡ returned (eagain, none) (set_stack 2 false (taken_slot 2 machine))
create-no_stack_example = create-no_stack machine 1 machine-IsRunning refl (pos 3) 2 slot_2

create-some_example :
    solo (uthread_create true (pos 3) machine) ≡ returned (success, some 2) (created 2 3 [] machine)
create-some_example =
    create-some machine 1 machine-IsRunning refl refl 2 3 [] slot_2 refl (omega arith) refl

-- Thread 2 is runnable and lives.
abbrev one_lives : State
one_lives = record machine {
  uths = record (machine.uths) { ut_state = update machine.ut_state 2 ut_runnable };
}

at_lives : IsRunning one_lives 1
at_lives = record { here = refl; nested = refl }

negative : index_of (negsuc 0) ≡ none
unfolding index_of
negative = refl

-- The same, detached.
abbrev one_detached : State
one_detached = set_detached 2 true one_lives

join-refused_example :
    (solo (uthread_join (pos 2) true one_detached) ≡ returned (einval, none) one_detached)
    × (solo (uthread_detach (pos 2) one_detached) ≡ returned einval one_detached)
join-refused_example =
    join-refused one_detached 1 (record { here = refl; nested = refl }) 2 refl (omega arith) [] true
      refl refl

join-Leaves_example :
    Leaves
      (solo (uthread_join (pos 2) true one_lives))
      (leaving (joining one_lives 1 at_lives 2 refl) none false (some (ut_pmut 2)))
      (releasing (released (joining one_lives 1 at_lives 2 refl) (ut_pmut 2) one_lives.pmuts))
      (λ s'.
        bind
          (bind (after_switch s') (λ _. pthread_mutex_lock (ut_pmut 2)))
          (λ _. finish_join 2 true))
join-Leaves_example =
    join-Leaves one_lives 1 at_lives 2 refl (omega arith) true refl refl refl refl refl

can_reap : CanReap one_zombie 1 2 [] 0 [] 3 []
can_reap = record {
  inside = omega arith;
  zombie = refl;
  off = refl;
  reaps = refl;
  not_self = refl;
  not_reaper = refl;
  sleeps = refl;
  can_add = record { prio = refl; small = omega arith; free = refl; holds = refl };
  asleep = refl;
  mtx_waiters = refl;
  of_runq = refl;
  of_cond = refl;
  of_mtx = refl;
  of_ut = refl;
}

at_zombie : IsRunning one_zombie 1
at_zombie = record { here = refl; nested = refl }

join-zombie_example :
    solo (uthread_join (pos 2) true one_zombie)
    ≡ returned
        (success, some 42)
        (reaped one_zombie 1 at_zombie 2 [] 0 [] 3 [] can_reap refl refl refl)
join-zombie_example = join-zombie one_zombie 1 at_zombie 2 [] 0 [] 3 [] can_reap refl refl refl true

detach-zombie_thread_example :
    solo (uthread_detach (pos 2) one_zombie)
    ≡ returned success (reaped one_zombie 1 at_zombie 2 [] 0 [] 3 [] can_reap refl refl refl)
detach-zombie_thread_example =
    detach-zombie_thread one_zombie 1 at_zombie 2 [] 0 [] 3 [] can_reap refl refl refl

may_exit : CanExit machine 1
may_exit = record { owner = refl; mtx_waiters = refl; mtx_pmut = refl; pmut = refl; runq = refl }

-- Thread 2 waits for thread 1 to exit.
abbrev one_joins : State
one_joins = record machine {
  uths = record (machine.uths) {
    ut_state = update machine.ut_state 2 ut_wait;
    linked = update machine.linked 2 true;
  };
  queues = record (machine.queues) { waiters = update machine.queues.waiters 1 (queue (2 ∷ [])) };
}

at_joins : IsRunning one_joins 1
at_joins = record { here = refl; nested = refl }

joins_exit : CanExit one_joins 1
joins_exit = record { owner = refl; mtx_waiters = refl; mtx_pmut = refl; pmut = refl; runq = refl }

can_wake : CanAdd (let_go 1 2 [] one_joins) 2 3 []
can_wake = record { prio = refl; small = omega arith; free = refl; holds = refl }

abbrev last_of_one : State
last_of_one = last one_joins 1 at_joins joins_exit 7 2 3 [] [] refl refl can_wake

exit-wakes_example :
    Leaves
      (solo (uthread_exit {A = Unit {0}} 7 one_joins))
      (leaving last_of_one none false (some (ut_pmut 1)))
      (releasing (released last_of_one (ut_pmut 1) one_joins.pmuts))
      after_exit
exit-wakes_example =
    exit-wakes one_joins 1 at_joins joins_exit 7 2 3 [] [] refl refl can_wake refl refl

-- The reaper, thread 0, runs; thread 2 is the last other thread, and a zombie.
abbrev reaping_machine : State
reaping_machine = record machine {
  uths = record (machine.uths) {
    ut_state = update (update (λ _. ut_no_state) 0 ut_on_cpu) 2 ut_zombie;
    linked = update (λ _. false) 2 true;
  };
  queues = record (machine.queues) { reaps = queue (2 ∷ []) };
  lwps = record (machine.lwps) { ut_curthr = update (λ _. none) 0 (some 0) };
}

only_zombie : AllDead reaping_machine (2 ∷ [])
only_zombie u h = (ground arith, refl)

reaper_round-IsReaped_example :
    (z : State) × (solo (reaper_round 1 reaping_machine)
      ≡ (if all_gone uth_max_uthreads 0 z.ut_state then ended z else returned tt z))
    × IsReaped (2 ∷ []) reaping_machine z
reaper_round-IsReaped_example =
    reaper_round-IsReaped reaping_machine 0 (record { here = refl; nested = refl }) 2 [] refl
      (refl, tt) only_zombie 0

-- Thread 1 runs detached.
abbrev vanishing : State
vanishing = set_detached 1 true machine

at_vanishing : IsRunning vanishing 1
at_vanishing = record { here = refl; nested = refl }

may_vanish : CanVanish vanishing 1 [] 0 [] 3 []
may_vanish = record {
  detached = refl;
  off = refl;
  reaps = refl;
  not_reaper = refl;
  sleeps = refl;
  asleep = refl;
  level = refl;
  legal = omega arith;
  holds = refl;
  owner = refl;
  mtx_waiters = refl;
  of_runq = refl;
  of_cond = refl;
  of_mtx = refl;
  of_ut = refl;
}

abbrev vanished : State
vanished = exposed vanishing 1 at_vanishing 7 [] 0 [] 3 [] may_vanish

exit-exposed_example :
    (x : Run (Unit {0})) × Reaches (uthread_exit {A = Unit {0}} 7 vanishing) x
    × AsksFor runq_mtx vanished x
    × (vanished.ut_curthr 0 ≡ some 1)
    × (vanished.pmuts.of_ut 1 ≡ none)
    × (vanished.queues.reaps ≡ queue (1 ∷ []))
    × (vanished.m_owner reap_mtx ≡ none)
exit-exposed_example = exit-exposed vanishing 1 at_vanishing 7 [] 0 [] 3 [] may_vanish
