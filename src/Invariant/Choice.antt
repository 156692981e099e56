-- ===== src/Invariant/Choice.antt =====
-- Proofs about `lwp_switch`, from the search for a thread on, under the invariant.
use multi_process_threading.Base.{
  ℕ, zero, suc, ◌+◌, ◌-◌, ◌≤◌, ◌<◌, ◌≡◌, ◌∙◌, ◌⊎◌, inl, inr, refl, sym, ap, subst, true, false,
  ◌&&◌, none, some, List, [], ◌∷◌, arith, ◌==◌, ltb, has, erase, length, update, update_self,
  if◌then◌else◌, Bool-cases, ==-self,
}
use multi_process_threading.State.{State, Tid, Pmuts, ut_on_cpu, uth_maxprio}
use multi_process_threading.State.Int.{pos, ltz, eqz}
use multi_process_threading.State.Fifo.{Utqueue}
use multi_process_threading.Cmd.{panicked}
use multi_process_threading.Cmd.Solo.{returned, aborted, solo}
use multi_process_threading.Queue.Laws.{queue}
use multi_process_threading.Sched.Taking.{AreQueued-take}
use multi_process_threading.Sched.Scheduled.{queued, is_runnable, AreQueued, Scheduled}
use multi_process_threading.Switch.{runs, waits, set_parked, lwp_look}
use multi_process_threading.Switch.Pick.{
  EmptyFrom, dispatched, running_state, look-highest, look-waits, look-panics,
}

-- The best priority below `k` with a thread, if there is one.
data Best (s : State) (k : ℕ) : Type 0 where
  nobody : EmptyFrom s 0 k → Best s k
  found :
      (p : ℕ) (t : Tid) (ts : List ℕ)
      → p < k
      → s.queues.runqs p ≡ queue (t ∷ ts)
      → EmptyFrom s (p + 1) k
      → Best s k

module _ (s : State) (a : Scheduled s) where
  EmptyFrom-suc : (p k : ℕ) → EmptyFrom s p k → s.queues.runqs k ≡ queue [] → EmptyFrom s p (suc k)
  EmptyFrom-suc p k e f q l lt = elim (Bool-cases (k == q)) [
    | inl at ↦ let same : k ≡ q = ground arith in subst (λ j. s.queues.runqs j ≡ queue []) same f
    | inr off ↦ e q l (ground arith)
  ]

  grow :
      (k : ℕ)
      → k ≤ uth_maxprio
      → Best s k
      → (xs : List ℕ) → (s.queues.runqs k).tq_waiters ≡ xs
      → Best s (suc k)
  grow k h b (t ∷ ts) e =
      found k t ts (omega arith) (a.sized k h ∙ ap queue e)
        (λ q l lt. absurd (omega (arith, l, lt)))
  grow k h (nobody f) [] e = nobody (EmptyFrom-suc 0 k f (a.sized k h ∙ ap queue e))
  grow k h (found p t ts lt g f) [] e =
      found p t ts (omega arith) g (EmptyFrom-suc (p + 1) k f (a.sized k h ∙ ap queue e))

  best : (k : ℕ) → k ≤ suc uth_maxprio → Best s k
  best zero h = nobody (λ q l lt. absurd (omega (arith, lt)))
  best (suc k) h = grow k (omega arith) (best k (omega arith)) (s.queues.runqs k).tq_waiters refl

  -- A runnable thread stands on the queue of its priority, which is thus not empty.
  not_empty :
      (u : Tid) (p : ℕ)
      → is_runnable (s.ut_state u) ≡ true
      → p ≤ uth_maxprio
      → s.ut_prio u ≡ pos p
      → s.queues.runqs p ≡ queue []
      → ⊥
  not_empty u p run le e f =
      let there : has u (s.queues.runqs p).tq_waiters ≡ true =
        a.on_queue p le u ∙ rw (run, e) (==-self p) in
      let both : true ≡ false = sym there ∙ ap (λ (x : Utqueue). has u x.tq_waiters) f in cc

  none_better :
      (p : ℕ)
      → EmptyFrom s (p + 1) (suc uth_maxprio)
      → (u : Tid) → is_runnable (s.ut_state u) ≡ true
      → ltz (pos p) (s.ut_prio u) ≡ false
  none_better p e u run =
      let (p', le, q) = a.legal u run in
      rw q (elim (Bool-cases (ltb p p')) [
        | inl above ↦ absurd (not_empty u p' run le q (e p' (ground arith) (omega (arith, le))))
        | inr off ↦ off
      ])

  none_runnable : EmptyFrom s 0 (suc uth_maxprio) → (u : Tid) → is_runnable (s.ut_state u) ≡ false
  none_runnable e u = elim (Bool-cases (is_runnable (s.ut_state u))) [
    | inl run ↦
        let (p', le, q) = a.legal u run in
        absurd (not_empty u p' run le q (e p' (omega arith) (omega (arith, le))))
    | inr off ↦ off
  ]

  queued-none : (k : ℕ) → EmptyFrom s 0 k → queued k s.queues.runqs ≡ 0
  unfolding queued
  queued-none zero e = refl
  queued-none (suc k) e = omega (
    arith,
    ap (λ (x : Utqueue). length x.tq_waiters) (e k (omega arith) (omega arith)),
    queued-none k (λ q l lt. e q l (omega (arith, lt))),
  )

  module _ (ps : Pmuts) (held : s.pmuts ≡ record ps { of_runq = some s.cpu })
      (free : ps.of_runq ≡ none) (vacant : s.ut_curthr s.cpu ≡ none) (fuel : ℕ) where
    -- A thread is found.
    abbrev pub Runs : Type 0
    Runs =
        (t : Tid) × (z : State) × (solo (lwp_look (suc fuel) s) ≡ returned (runs t) z)
        × Scheduled z
        × (z.ut_state t ≡ ut_on_cpu)
        × (is_runnable (s.ut_state t) ≡ true)
        × ((u : Tid) → is_runnable (s.ut_state u) ≡ true → ltz (s.ut_prio t) (s.ut_prio u) ≡ false)

    -- No thread is there: the LWP waits, unless all others do.
    abbrev pub Idles : Type 0
    Idles =
        ((u : Tid) → is_runnable (s.ut_state u) ≡ false)
        × (solo (lwp_look (suc fuel) s) ≡ (
            if (s.lwp_parked_cnt + 1) == s.lwp_cnt
            then aborted panicked
            else returned waits (record (set_parked (s.lwp_parked_cnt + 1) s) { pmuts = ps })))

    taken :
        (p : ℕ) (t : Tid) (ts : List ℕ)
        → p ≤ uth_maxprio
        → s.queues.runqs p ≡ queue (t ∷ ts)
        → EmptyFrom s (p + 1) (suc uth_maxprio)
        → Runs
    taken p t ts le e f = (
      t,
      running_state t ps (dispatched t p ts s),
      look-highest s ps held free fuel p t ts le e f,
      subst
          (λ xs.
            AreQueued (update s.queues.runqs p (queue xs)) (update s.ut_state t ut_on_cpu) s.ut_prio
              (update s.linked t false) (s.runq_size - 1))
          (ap (λ (x : Utqueue). erase t x.tq_waiters) e ∙ rw (==-self t) refl)
          (AreQueued-take _ _ _ _ _ a t p le member ut_on_cpu refl),
      update_self s.ut_state t ut_on_cpu,
      run,
      λ u h. rw level (none_better p f u h),
    )
      where
        member : has t (s.queues.runqs p).tq_waiters ≡ true
        member = ap (λ (x : Utqueue). has t x.tq_waiters) e ∙ rw (==-self t) refl

        on_p : (is_runnable (s.ut_state t) && eqz (s.ut_prio t) (pos p)) ≡ true
        on_p = sym (a.on_queue p le t) ∙ member

        run : is_runnable (s.ut_state t) ≡ true
        run = ground (arith, on_p)

        level : s.ut_prio t ≡ pos p
        level =
            let (p', le', q) = a.legal t run in
            let hit : eqz (pos p') (pos p) ≡ true =
              ap (λ z. eqz z (pos p)) (sym q) ∙ ground (arith, on_p) in
            let same : p' ≡ p = ground arith in q ∙ ap pos same

    -- An LWP without a thread looks for one with `runq_mtx` held, where the run queues have the
    -- right sizes and hold the runnable threads, each once and linked, on the queue of its
    -- legal priority, and `runq_size` is their number. With a bound of one round or more,
    -- either it runs a thread that was runnable, no runnable thread having a better priority,
    -- and the invariant holds again; or no thread is runnable, and it waits with `runq_mtx`
    -- free, or panics if all other LWPs are parked.
    pub look-Scheduled : Runs ⊎ Idles
    look-Scheduled = go (best (suc uth_maxprio) (omega arith))
      where
        idles : EmptyFrom s 0 (suc uth_maxprio) → Idles
        idles e = (
          none_runnable e,
          elim (Bool-cases ((s.lwp_parked_cnt + 1) == s.lwp_cnt)) [
            | inl all ↦ rw all (look-panics s ps held free fuel e vacant all)
            | inr more ↦
                rw more (look-waits s ps held free fuel e (a.size ∙ queued-none 8 e) vacant more)
          ],
        )

        go : Best s (suc uth_maxprio) → Runs ⊎ Idles
        go (nobody e) = inr (idles e)
        go (found p t ts lt e f) = inl (taken p t ts (omega (arith, lt)) e f)
