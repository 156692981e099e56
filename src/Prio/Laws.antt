-- ===== src/Prio/Laws.antt =====
-- Proofs about `uthread_setprio`.
use multi_process_threading.Base.{
  Option, some, none, ◌<◌, lt→ltb, ltb, ℕ, ◌≤◌, ◌≡◌, ◌∙◌, refl, ap, true, false, ◌||◌, none, List,
  [], ◌∷◌, ◌++◌, arith, ◌==◌, has, erase, update, update_self,
}
use multi_process_threading.State.{
  uth_max_uthreads, State, Tid, runq_table, ut_zombie, ut_runnable, uth_maxprio,
}
use multi_process_threading.State.Int.{ℤ, pos, ltz, eqz, is_neg}
use multi_process_threading.Cmd.{Cmd, may_tick, ◌>>◌, Run, Cmd, bind, curthr, pure}
use multi_process_threading.Cmd.Solo.{returned, solo, solo-seq, solo-done, bind-bind}
use multi_process_threading.Queue.{write_queue, set_linked}
use multi_process_threading.Queue.Laws.{queue, solo-utqueue_enqueue, solo-utqueue_remove}
use multi_process_threading.Sched.{is_state, set_prio, uthread_runq_requeue, release_runq}
use multi_process_threading.Sched.Preempt.{IsRunning, masked_in}
use multi_process_threading.Sched.Wake.{
  CanAdd, solo-runq, solo-hold_runq, solo-release_runq, holding_runq,
}
use multi_process_threading.Switch.Laws.{Leaves, Leaves-bind, Leaves-after}
use multi_process_threading.Switch.{after_switch, after_yield, uthread_yield}
use multi_process_threading.Switch.Yield.{yielding, saving, yield-Leaves, yield-resume}
use multi_process_threading.Prio.{
  Errno, success, einval, esrch, index_of, is_inactive, requeue_if, yield_if, change_prio,
  setprio_thread, uthread_setprio,
}

-- `uthread_setprio` returns EINVAL for a priority outside 0 to 7, and ESRCH for a legal priority
-- and an id outside the array; nothing changes.
pub setprio-range :
    (s : State) (id prio : ℤ)
    → ((ltz (pos uth_maxprio) prio || is_neg prio) ≡ true
        → solo (uthread_setprio id prio s) ≡ returned einval s)
      × ((ltz (pos uth_maxprio) prio || is_neg prio) ≡ false
          → index_of id ≡ none
          → solo (uthread_setprio id prio s) ≡ returned esrch s)
unfolding uthread_setprio
setprio-range s id prio = (
  λ bad. rw bad (solo-done einval s),
  λ fine none_there. rw (fine, none_there) (solo-done esrch s),
)

pub index_of-inside : (thr : Tid) → thr < uth_max_uthreads → index_of (pos thr) ≡ some thr
unfolding index_of
index_of-inside thr inside = rw (lt→ltb thr uth_max_uthreads inside) refl

setprio-at :
    (s : State) (thr : Tid) (p : ℕ)
    → thr < uth_max_uthreads
    → p ≤ uth_maxprio
    → uthread_setprio (pos thr) (pos p) s ≡ setprio_thread thr (pos p) s
unfolding uthread_setprio
setprio-at s thr p inside legal = rw not_above (
    ap
      (λ (o : Option Tid).
        elim o as (λ _. Cmd Errno) [ none ↦ pure esrch | some t ↦ setprio_thread t (pos p) ] s)
      (index_of-inside thr inside))
  where
    not_above : ltb uth_maxprio p ≡ false
    not_above = ground arith

module _ (s : State) (t : Tid) (r : IsRunning s t) (free : s.pmuts.of_runq ≡ none) (thr : Tid)
    (prio : ℤ) where
  setprio-inactive :
      is_inactive (s.ut_state thr) ≡ true → solo (setprio_thread thr prio s) ≡ returned einval s
  unfolding setprio_thread bind
  setprio-inactive e =
      solo-hold_runq s t r free _
      ∙ rw e
          (solo-seq _ _ (solo-release_runq s t r free _ refl refl refl refl) ∙ solo-done einval s)

  setprio-same :
      is_inactive (s.ut_state thr) ≡ false
      → eqz (s.ut_prio thr) prio ≡ true
      → solo (setprio_thread thr prio s) ≡ returned success s
  unfolding setprio_thread bind
  setprio-same e same =
      solo-hold_runq s t r free _
      ∙ rw (e, same)
          (solo-seq _ _ (solo-release_runq s t r free _ refl refl refl refl) ∙ solo-done success s)

-- `thr` taken off the run queue of `p0` and put at the end of that of `p1`.
abbrev pub moved : Tid → ℕ → ℕ → List ℕ → List ℕ → State → State
moved thr p0 p1 xs ys s = set_linked thr true (
    write_queue (runq_table p1) (queue (ys ++ thr ∷ [])) (
      set_linked thr false
        (write_queue (runq_table p0) (queue (erase thr xs)) (set_prio thr (pos p1) s))))

tick-passes :
    {A B : Type 0} (c : Cmd A) (f : A → Cmd B) (s : State)
    → solo (bind (bind (may_tick s) (λ _. c)) f) ≡ solo (bind (c s) f)
unfolding solo bind may_tick
tick-passes c f s = refl

-- `thr` is on the run queue of `p0`, which holds `xs`; that of another priority `p1` holds `ys`.
pub record CanMove (s : State) (thr : Tid) (p0 p1 : ℕ) (xs ys : List ℕ) : Type 0 where
  pub inside : thr < uth_max_uthreads
  pub runnable : s.ut_state thr ≡ ut_runnable
  pub prio : s.ut_prio thr ≡ pos p0
  pub linked : s.linked thr ≡ true
  pub old : p0 ≤ uth_maxprio
  pub new : p1 ≤ uth_maxprio
  pub other : eqz (pos p0) (pos p1) ≡ false
  pub on_old : s.queues.runqs p0 ≡ queue xs
  pub member : has thr xs ≡ true
  pub on_new : s.queues.runqs p1 ≡ queue ys

-- Another index keeps its value.
kept :
    {A : Type 0} (f : ℕ → A) (i j : ℕ) (a : A) → eqz (pos i) (pos j) ≡ false → update f i a j ≡ f j
kept f i j a e = ground arith

module _ (s : State) (thr : Tid) (p0 p1 : ℕ) (xs ys : List ℕ) (c : CanMove s thr p0 p1 xs ys) where
  abbrev given : State
  given = set_prio thr (pos p1) s

  abbrev taken : State
  taken = set_linked thr false (write_queue (runq_table p0) (queue (erase thr xs)) given)

  other_queue : update s.queues.runqs p0 (queue (erase thr xs)) p1 ≡ queue ys
  other_queue = kept s.queues.runqs p0 p1 _ c.other ∙ c.on_new

  solo-runq_requeue :
      solo (uthread_runq_requeue thr (pos p0) given) ≡ returned tt (moved thr p0 p1 xs ys s)
  unfolding uthread_runq_requeue bind
  solo-runq_requeue =
      solo-seq _ _ (solo-runq thr p0 xs given c.old)
      ∙ (solo-seq _ _ (solo-utqueue_remove (runq_table p0) given thr xs c.on_old c.linked c.member)
          ∙ rw (update_self s.ut_prio thr (pos p1)) (
              solo-seq _ _ (solo-runq thr p1 ys taken c.new)
              ∙ solo-utqueue_enqueue (runq_table p1) taken thr ys other_queue
                  (update_self s.linked thr false)))

module _ (s : State) (t : Tid) (r : IsRunning s t) (free : s.pmuts.of_runq ≡ none) (thr : Tid)
    (p0 p1 : ℕ) (xs ys : List ℕ) (c : CanMove s thr p0 p1 xs ys) (ahead : (thr == t) ≡ false) where
  abbrev locked : State
  locked = holding_runq s t r free

  locked-CanMove : CanMove locked thr p0 p1 xs ys
  locked-CanMove = record {
    inside = c.inside;
    runnable = c.runnable;
    prio = c.prio;
    linked = c.linked;
    old = c.old;
    new = c.new;
    other = c.other;
    on_old = c.on_old;
    member = c.member;
    on_new = c.on_new;
  }

  abbrev unlocked_again : State
  unlocked_again = moved thr p0 p1 xs ys s

  change-moves :
      ltz (s.ut_prio t) (pos p1) ≡ false
      → solo (change_prio thr (pos p1) locked) ≡ returned success (moved thr p0 p1 xs ys s)
  unfolding change_prio requeue_if yield_if bind curthr
  change-moves better =
      rw (c.runnable, c.prio)
        (solo-seq _ _ (solo-runq_requeue locked thr p0 p1 xs ys locked-CanMove)
          ∙ rw (r.here, c.runnable, ahead, better)
              (solo-seq _ _
                  (solo-release_runq s t r free (moved thr p0 p1 xs ys locked) refl refl refl refl)
                ∙ solo-done success unlocked_again))

  -- A running thread gives another one, which is on the run queue of its priority, a different
  -- legal priority that is no better than the caller's own, while `runq_mtx` is free. The call
  -- returns 0; the thread is off its old run queue and last on that of the new priority, and
  -- nothing else has changed.
  pub setprio-moves :
      ltz (s.ut_prio t) (pos p1) ≡ false
      → solo (uthread_setprio (pos thr) (pos p1) s) ≡ returned success (moved thr p0 p1 xs ys s)
  unfolding setprio_thread bind
  setprio-moves better =
      ap solo (setprio-at s thr p1 c.inside c.new)
      ∙ (solo-hold_runq s t r free _ ∙ rw (c.runnable, c.prio, c.other) (change-moves better))

  change-yields :
      ltz (s.ut_prio t) (pos p1) ≡ true
      → solo (change_prio thr (pos p1) locked)
        ≡ solo (bind (uthread_yield (moved thr p0 p1 xs ys s)) (λ _. pure success))
  unfolding change_prio requeue_if yield_if bind curthr
  change-yields worse =
      rw (c.runnable, c.prio)
        (solo-seq _ _ (solo-runq_requeue locked thr p0 p1 xs ys locked-CanMove)
          ∙ rw (r.here, c.runnable, ahead, worse)
              (ap solo (
                  bind-bind (release_runq (moved thr p0 p1 xs ys locked))
                    (λ _. may_tick >> uthread_yield) (λ _. pure success))
                ∙ solo-seq _ _ (
                    solo-release_runq s t r free (moved thr p0 p1 xs ys locked) refl refl refl refl)
                ∙ tick-passes uthread_yield (λ _. pure success) (moved thr p0 p1 xs ys s)))

  -- What is left of the call while the caller is off the LWP.
  abbrev pub yields_back : State → Run Errno
  yields_back s' = bind (bind (after_switch s') (λ _. after_yield)) (λ _. pure success)

  -- A running thread that is no zombie, on no queue and of a legal priority gives another one,
  -- which is on the run queue of its priority, a different legal priority that is better than the
  -- caller's own, while `runq_mtx` is free. The other thread is off its old run queue and last on
  -- that of the new priority when the caller leaves the LWP, on no queue yet. `lwp_leave` then
  -- makes the caller runnable, behind the others of its own priority, without a pause. If the
  -- caller, no zombie, is run again from a state that is some `v` with preemption off once more,
  -- the call returns 0 in `v` while no other LWP steps.
  pub setprio-yields :
      (p : ℕ) (zs : List ℕ)
      → ltz (s.ut_prio t) (pos p1) ≡ true
      → is_state (s.ut_state t) ut_zombie ≡ false
      → CanAdd (moved thr p0 p1 xs ys s) t p zs
      → (v : State) → IsRunning v t
      → is_state (v.ut_state t) ut_zombie ≡ false
      → Leaves
          (solo (uthread_setprio (pos thr) (pos p1) s))
          (yielding (masked_in (moved thr p0 p1 xs ys s) t))
          (saving t p zs (masked_in (moved thr p0 p1 xs ys s) t))
          yields_back
        × (solo (yields_back (masked_in v t)) ≡ returned success v)
  unfolding setprio_thread bind
  setprio-yields p zs worse alive can v again lives = (
    Leaves-after
        (ap solo (setprio-at s thr p1 c.inside c.new)
          ∙ (solo-hold_runq s t r free _ ∙ rw (c.runnable, c.prio, c.other) (change-yields worse)))
        (Leaves-bind _ _ (
          yield-Leaves (moved thr p0 p1 xs ys s) t (record { here = r.here; nested = r.nested })
            alive p zs can free)),
    solo-seq _ _ (yield-resume v t again lives) ∙ solo-done success v,
  )
