-- ===== src/Cond/Broadcast.antt =====
-- Proofs about `uthread_cond_broadcast`.
use multi_process_threading.Base.{
  ℕ, ◌+◌, ◌<◌, ◌≡◌, ◌∙◌, refl, ap, sym, true, none, some, List, [], ◌∷◌, ◌++◌, arith, ◌==◌, length,
  has, update, if◌then◌else◌, Bool-cases, inl, inr,
}
use mathlib.Core.List.{append_assoc, append-nil}
use multi_process_threading.State.{State, Tid, LwpId, Lwps, put_pmut, CondId, c_pmut, ut_runnable}
use multi_process_threading.State.Fifo.{Utqueue}
use multi_process_threading.Cmd.{bind}
use multi_process_threading.Cmd.Solo.{returned, solo, solo-seq, solo-lock, solo-unlock}
use multi_process_threading.Queue.Laws.{queue}
use multi_process_threading.Sched.Preempt.{
  masked_in, IsRunning-masked_in, solo-nopreempt_on, solo-nopreempt_off,
}
use multi_process_threading.Cond.{uthread_cond_broadcast}
use multi_process_threading.Cond.Signal.{woken}
use multi_process_threading.Cond.Wakes.{
  prio_of, wake_each, with_prio, Ready, solo-wake_all, Ready-woken,
}

-- `z` is `s` with the waiters `us` of `c` awake: the queue is empty, each of them is runnable and
-- stands at the end of the run queue of its priority, in the order of `us`, and nothing else that a
-- thread can see has changed.
pub record IsAwake (c : CondId) (us : List ℕ) (s z : State) : Type 0 where
  pub emptied : z.queues.cond_waiters c ≡ queue []
  pub ordered :
      (p : ℕ) → z.queues.runqs p ≡ queue ((s.queues.runqs p).tq_waiters ++ with_prio s.ut_prio p us)
  pub states : (u : Tid) → z.ut_state u ≡ (if has u us then ut_runnable else s.ut_state u)
  pub size : z.runq_size ≡ s.runq_size + length us
  pub prios : z.ut_prio ≡ s.ut_prio
  pub counts : z.ut_no_preempt_count ≡ s.ut_no_preempt_count
  pub lwps : z.lwps ≡ s.lwps
  pub pmuts : z.pmuts ≡ s.pmuts
  pub owners : z.m_owner ≡ s.m_owner
  pub cpu : z.cpu ≡ s.cpu

at_nil : (u : Utqueue) → u ≡ queue u.tq_waiters → u ≡ queue (u.tq_waiters ++ [])
at_nil u e = e ∙ ap queue (sym (append-nil u.tq_waiters))

module _ (t : Tid) (c : CondId) where
  at_cons :
      (s : State) (u : Tid) (us : List ℕ) (p : ℕ)
      → (update s.queues.runqs
            (prio_of (s.ut_prio u))
            (queue ((s.queues.runqs (prio_of (s.ut_prio u))).tq_waiters ++ u ∷ []))
            p).tq_waiters
          ++ with_prio s.ut_prio p us
        ≡ (s.queues.runqs p).tq_waiters ++ with_prio s.ut_prio p (u ∷ us)
  unfolding with_prio
  at_cons s u us p = elim (Bool-cases (prio_of (s.ut_prio u) == p)) [
    | inl e ↦
        let same : prio_of (s.ut_prio u) ≡ p = ground arith in
        rw e (
          append_assoc (s.queues.runqs (prio_of (s.ut_prio u))).tq_waiters (u ∷ [])
            (with_prio s.ut_prio p us)
          ∙ ap (λ (q : ℕ). (s.queues.runqs q).tq_waiters ++ u ∷ with_prio s.ut_prio p us) same)
    | inr e ↦ rw e
  ]

  abbrev first_woken : State → Tid → List ℕ → State
  first_woken s u us =
      woken c u us (prio_of (s.ut_prio u)) (s.queues.runqs (prio_of (s.ut_prio u))).tq_waiters s

  IsAwake-cons :
      (s z : State) (u : Tid) (us : List ℕ)
      → IsAwake c us (first_woken s u us) z
      → IsAwake c (u ∷ us) s z
  IsAwake-cons s z u us i = record {
    emptied = i.emptied;
    ordered = λ p. i.ordered p ∙ ap queue (at_cons s u us p);
    states = λ w. ground (arith, i.states w);
    size = omega (arith, i.size);
    prios = i.prios;
    counts = i.counts;
    lwps = i.lwps;
    pmuts = i.pmuts;
    owners = i.owners;
    cpu = i.cpu;
  }

  IsAwake-wake_each : (us : List ℕ) (s : State) → Ready s t c us → IsAwake c us s (wake_each c us s)
  unfolding wake_each with_prio
  IsAwake-wake_each [] s a = record {
    emptied = a.holds;
    ordered = λ p. at_nil _ (a.sized p);
    states = λ u. refl;
    size = omega arith;
    prios = refl;
    counts = refl;
    lwps = refl;
    pmuts = refl;
    owners = refl;
    cpu = refl;
  }
  IsAwake-wake_each (u ∷ us) s a =
      IsAwake-cons s _ u us (IsAwake-wake_each us _ (Ready-woken t c s u us a))

module _ (s : State) (t : Tid) (c : CondId) (us : List ℕ) (a : Ready s t c us)
    (p : s.pmuts.of_cond c ≡ none) where
  abbrev entered : State
  entered = record (masked_in s t) {
    pmuts = record (s.pmuts) { of_cond = update s.pmuts.of_cond c (some s.cpu) };
  }

  entered-Ready : Ready entered t c us
  entered-Ready = record {
    running = record { here = a.running.here; nested = (IsRunning-masked_in s t a.running).nested };
    free = a.free;
    holds = a.holds;
    waiting = a.waiting;
    distinct = a.distinct;
    sized = a.sized;
  }

  abbrev last : State
  last = wake_each c us entered

  after_all : IsAwake c us entered last
  after_all = IsAwake-wake_each t c us entered entered-Ready

  enough : length us < (s.queues.cond_waiters c).tq_size + 1
  enough = omega (arith, ap (λ (u : Utqueue). u.tq_size) a.holds)

  held : last.pmuts ≡ put_pmut s.pmuts (c_pmut c) (some last.cpu)
  held =
      after_all.pmuts ∙ ap (λ (l : LwpId). put_pmut s.pmuts (c_pmut c) (some l)) (sym after_all.cpu)

  here : last.ut_curthr last.cpu ≡ some t
  here =
      ap (λ (ls : Lwps). ls.ut_curthr last.cpu) after_all.lwps
      ∙ ap s.ut_curthr after_all.cpu
      ∙ a.running.here

  masks : last.masked ≡ update s.masked last.cpu true
  masks =
      ap (λ (ls : Lwps). ls.masked) after_all.lwps
      ∙ ap (λ (l : LwpId). update s.masked l true) (sym after_all.cpu)

  -- A running thread broadcasts to distinct waiters, all in UT_WAIT with legal priorities, while
  -- the run queues have the right sizes and `runq_mtx` and `pmut` are free. The broadcast
  -- returns. The condition's queue is then empty, each waiter is runnable, every run queue has
  -- the waiters of its priority appended in their order, `runq_size` has grown by their number,
  -- and priorities, mask, counts, owners and posix mutexes are as before.
  pub broadcast-IsAwake :
      (z : State) × (solo (uthread_cond_broadcast c s) ≡ returned tt z) × IsAwake c us s z
  unfolding uthread_cond_broadcast bind
  broadcast-IsAwake = (
    record last {
      uths = record (last.uths) { ut_no_preempt_count = s.ut_no_preempt_count };
      lwps = record (last.lwps) { masked = s.masked };
      pmuts = s.pmuts;
    },
    solo-seq _ _ (solo-nopreempt_on s t a.running)
        ∙ (solo-seq _ _ (solo-lock (c_pmut c) _ p)
            ∙ (solo-seq _ _ (solo-wake_all t c _ us entered enough entered-Ready)
                ∙ (solo-seq _ _ (solo-unlock (c_pmut c) last s.pmuts held p)
                    ∙ solo-nopreempt_off s t (record last { pmuts = s.pmuts }) a.running here masks
                        after_all.counts after_all.cpu))),
    record {
      emptied = after_all.emptied;
      ordered = after_all.ordered;
      states = after_all.states;
      size = after_all.size;
      prios = after_all.prios;
      counts = refl;
      lwps = ap (λ (ls : Lwps). record ls { masked = s.masked }) after_all.lwps;
      pmuts = refl;
      owners = after_all.owners;
      cpu = after_all.cpu;
    },
  )
