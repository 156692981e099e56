-- ===== src/Invariant/Turn.antt =====
-- Proofs about a whole turn: `uthread_yield` up to the next thread, through `lwp_switch`.
use multi_process_threading.Base.{
  ◌≡◌, ◌∙◌, ◌⊎◌, inl, inr, refl, sym, ap, true, false, none, update_self, Bool-cases, ◌==◌,
}
use multi_process_threading.State.{State, Tid, ut_on_cpu, ut_runnable}
use multi_process_threading.State.Int.{ltz}
use multi_process_threading.Cmd.{Run, bind}
use multi_process_threading.Cmd.Solo.{returned, left, solo, solo-seq}
use multi_process_threading.Sched.Preempt.{IsRunning, masked_in}
use multi_process_threading.Sched.Scheduled.{is_runnable, Scheduled, AreQueued-add}
use multi_process_threading.Switch.{
  runs, lwp_leave, lwp_look, lwp_switch, after_switch, after_yield, uthread_yield,
}
use multi_process_threading.Switch.Laws.{Parks}
use multi_process_threading.Switch.Yield.{saved, yield-Parks}
use multi_process_threading.Invariant.Wake.{IsIdle}
use multi_process_threading.Invariant.Choice.{Runs, Idles, look-Scheduled}

solo-lwp_switch :
    (b z : State) → solo (lwp_leave b) ≡ returned tt z → solo (lwp_switch b) ≡ solo (lwp_look 2 z)
unfolding lwp_switch
solo-lwp_switch b z e = solo-seq _ _ e

module _ (s : State) (t : Tid) (r : IsRunning s t) (free : s.pmuts.of_runq ≡ none) (a : Scheduled s)
    (on : s.ut_state t ≡ ut_on_cpu) (i : IsIdle s t) where
  abbrev behind : State
  behind = saved t i.level (s.queues.runqs i.level).tq_waiters (masked_in s t)

  behind-Scheduled : Scheduled behind
  behind-Scheduled = AreQueued-add _ _ _ _ _ a t (ap is_runnable on) i.level i.legal i.prio

  leaves : Parks (solo (uthread_yield s)) behind (λ s'. bind (after_switch s') (λ _. after_yield))
  leaves =
      yield-Parks s t r (rw on refl) i.level (s.queues.runqs i.level).tq_waiters
        (record { prio = i.prio; small = i.legal; free = i.off; holds = a.sized i.level i.legal })
        free

  -- The thread `u` that the LWP runs next, and the state `z` then.
  abbrev pub Turns : Type 0
  Turns =
      (b : State) × (k : State → Run (Unit {0})) × (u : Tid) × (z : State) × (solo (uthread_yield s)
        ≡ left b k)
      × (solo (lwp_switch b) ≡ returned (runs u) z)
      × Scheduled z
      × (z.ut_state u ≡ ut_on_cpu)
      × (ltz (s.ut_prio u) (s.ut_prio t) ≡ false)
      × ((w : Tid) → is_runnable (s.ut_state w) ≡ true → ltz (s.ut_prio u) (s.ut_prio w) ≡ false)

  turn :
      Runs behind behind-Scheduled s.pmuts refl free (update_self s.ut_curthr s.cpu none) 1
        ⊎ Idles behind behind-Scheduled s.pmuts refl free (update_self s.ut_curthr s.cpu none) 1
      → Turns
  turn (inl (u, z, e, sch, runs_u, was, best)) = (
    leaves.before,
    _,
    u,
    z,
    leaves.leaves,
    solo-lwp_switch leaves.before behind leaves.settles ∙ e,
    sch,
    runs_u,
    best t (ap is_runnable (update_self s.ut_state t ut_runnable)),
    λ w h. best w (elim (Bool-cases (t == w)) [ inl at ↦ rw at refl | inr off ↦ rw off h ]),
  )
  turn (inr (nobody, e)) =
      let both : true ≡ false =
        ap is_runnable (sym (update_self s.ut_state t ut_runnable)) ∙ nobody t in
      absurd cc

  -- A running thread in UT_ON_CPU, on no queue and of a legal priority, yields while `runq_mtx`
  -- is free and the run queues have the right sizes and hold the runnable threads, each once and
  -- linked, on the queue of its legal priority, and `runq_size` is their number. It leaves the
  -- LWP, and `lwp_switch` there neither parks nor fails: it runs a thread, which is in UT_ON_CPU
  -- then, and to which neither the yielding thread nor any that was runnable has a better
  -- priority; and the invariant holds again.
  pub yield-Turns : Turns
  yield-Turns = turn (
      look-Scheduled behind behind-Scheduled s.pmuts refl free (update_self s.ut_curthr s.cpu none)
        1)
