-- ===== src/Prio/Clock.antt =====
-- Proofs about `clock_interrupt`.
use multi_process_threading.Base.{
  ℕ, ◌≡◌, refl, ap, ◌∙◌, true, false, none, some, List, arith, ◌==◌, update, update-restore,
  ==-self,
}
use multi_process_threading.State.{State, Tid, ut_on_cpu, ut_zombie}
use multi_process_threading.Cmd.{
  Run, Cmd, ◌>>=◌, ◌>>◌, gets, modify, assert, bind, curthr, is_masked, set_mask,
}
use multi_process_threading.Cmd.Solo.{returned, solo, solo-seq}
use multi_process_threading.Sched.{is_state, set_count}
use multi_process_threading.Sched.Preempt.{IsRunning, masked_in}
use multi_process_threading.Sched.Wake.{CanAdd}
use multi_process_threading.Switch.{after_switch, after_yield}
use multi_process_threading.Switch.Laws.{Leaves, Leaves-bind, Leaves-after}
use multi_process_threading.Switch.Yield.{yield-Leaves, yielding, saving, yield-resume}
use multi_process_threading.Prio.{clock_interrupt}

-- The rest of the handler, after `uthread_yield`.
unfoldable pub after_interrupt : Cmd (Unit {0})
after_interrupt = do
  t ← curthr
  n ← gets (λ s. s.ut_no_preempt_count t)
  assert (n == 1)
  masked ← is_masked
  assert masked
  modify (set_count t 0)
  set_mask false

-- The handler's own state: the signal masked, and preemption off once.
abbrev pub interrupted : State → Tid → State
interrupted s t =
    set_count t 1 (record s { lwps = record (s.lwps) { masked = update s.masked s.cpu true } })

-- What is left of the handler while the thread is off the LWP.
abbrev pub interrupt_rest : State → Run (Unit {0})
interrupt_rest s' = bind (bind (after_switch s') (λ _. after_yield)) (λ _. after_interrupt)

-- Thread `t` runs in UT_ON_CPU with preemption on.
pub record IsOpen (s : State) (t : Tid) : Type 0 where
  pub here : s.ut_curthr s.cpu ≡ some t
  pub on : s.ut_state t ≡ ut_on_cpu
  pub none_off : (s.ut_no_preempt_count t) ≡ 0
  pub unmasked : s.masked s.cpu ≡ false

module _ (s : State) (t : Tid) (o : IsOpen s t) where
  running : IsRunning (interrupted s t) t
  running = record { here = o.here; nested = ground arith }

  -- Once `uthread_yield` has returned in the handler, where the mask and the count are as the
  -- handler set them, its assertions hold and it returns with mask and count as they were before
  -- the interrupt.
  interrupt-ends : solo (after_interrupt (interrupted s t)) ≡ returned tt s
  unfolding after_interrupt bind curthr is_masked set_mask solo
  interrupt-ends =
      rw (o.here, ==-self t, ==-self s.cpu)
        (λ i. returned tt (record s {
          uths = record (s.uths) {
            ut_no_preempt_count = update-restore s.ut_no_preempt_count t 1 0 o.none_off i;
          };
          lwps = record (s.lwps) { masked = update-restore s.masked s.cpu true false o.unmasked i };
        }))

  interrupt-resume : solo (interrupt_rest (masked_in (interrupted s t) t)) ≡ returned tt s
  interrupt-resume =
      solo-seq _ _ (yield-resume (interrupted s t) t running (ap (λ u. is_state u ut_zombie) o.on))
      ∙ interrupt-ends

-- The clock interrupt comes to a thread in UT_ON_CPU with preemption on, the signal unmasked, on no
-- queue and of a legal priority, while `runq_mtx` is free. The thread leaves the LWP, on no queue
-- yet and with a nesting count of 2. `lwp_leave` then makes it runnable, behind the others of its
-- priority, without a pause. If it is run again in UT_ON_CPU, on any LWP, with that count and the
-- signal masked, the handler returns while no other LWP steps: no assertion fails, the count is 0,
-- the signal is unmasked, and nothing else has changed.
pub interrupt-Leaves :
    (s : State) (t : Tid) (p : ℕ) (xs : List ℕ)
    → IsOpen s t
    → CanAdd s t p xs
    → s.pmuts.of_runq ≡ none
    → (v : State) → IsOpen v t
    → Leaves
        (solo (clock_interrupt s))
        (yielding (masked_in (interrupted s t) t))
        (saving t p xs (masked_in (interrupted s t) t))
        interrupt_rest
      × (solo (interrupt_rest (masked_in (interrupted v t) t)) ≡ returned tt v)
unfolding clock_interrupt bind curthr is_masked set_mask after_interrupt
interrupt-Leaves s t p xs o c free v again = (
  Leaves-after (rw (o.here, o.on, test) refl) (
      Leaves-bind _ _ (
        yield-Leaves (interrupted s t) t (running s t o) (ap (λ u. is_state u ut_zombie) o.on) p xs
          (record { prio = c.prio; small = c.small; free = c.free; holds = c.holds }) free)),
  interrupt-resume v t again,
)
  where
    test : (s.ut_no_preempt_count t == 0) ≡ true
    test = rw (o.none_off) refl
