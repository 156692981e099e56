-- ===== src/Switch/Release.antt =====
-- Proofs about `uthread_switch` of a thread that is put on no queue.
use multi_process_threading.Base.{◌≡◌, ◌∙◌, ap, true, false, none, some, Option, ltb}
use multi_process_threading.State.{State, Tid, Pmuts, PmutId, get_pmut, put_pmut}
use multi_process_threading.Cmd.{done, bind}
use multi_process_threading.Cmd.Solo.{bind-done, solo}
use multi_process_threading.Switch.{
  enqueue_on, leave_thread, lwp_leave, uthread_switch, after_switch,
}
use multi_process_threading.Switch.Laws.{
  IsMasked, Asks, is_runq, with_runq, without_runq, save_on_runq-false, Leaves, leaving,
  leaving-Asks, releasing, released, unlock-releasing, switch-leaves,
}

nowhere : (s : State) (t : Tid) → enqueue_on none t s ≡ done tt s
unfolding enqueue_on
nowhere s t = λ i. done tt s

leave-nowhere :
    (s : State) (t : Tid) (m : Option PmutId)
    → Asks s none false m
    → ltb 0 (s.ut_no_preempt_count t) ≡ true
    → leave_thread (some t) s ≡ done tt s
unfolding leave_thread bind
leave-nowhere s t m a n =
    rw (n, a.queue) (bind-done _ (nowhere s t) ∙ rw a.saveonrq (save_on_runq-false s t))

lwp_leave-releasing :
    (s : State) (t : Tid) (m : PmutId) (p : Pmuts)
    → Asks s none false (some m)
    → IsMasked s t
    → s.pmuts ≡ put_pmut p m (some s.cpu)
    → get_pmut p m ≡ none
    → lwp_leave s ≡ releasing (record s { pmuts = p })
unfolding lwp_leave bind
lwp_leave-releasing s t m p a i held free = rw i.here (
    bind-done _ (leave-nowhere s t (some m) a i.nested)
    ∙ rw a.pmut (unlock-releasing s m p held free))

-- The thread is off the LWP, which holds `m` until then, and releases it; the thread is on no queue
-- that it was not on before.
pub switch-releases :
    (s : State) (t : Tid) (m : PmutId) (p : Pmuts)
    → IsMasked s t
    → s.pmuts.of_runq ≡ none
    → is_runq m ≡ false
    → s.pmuts ≡ put_pmut p m (some s.cpu)
    → get_pmut p m ≡ none
    → Leaves
        (solo (uthread_switch none false (some m) s))
        (leaving s none false (some m))
        (releasing (released s m p))
        after_switch
switch-releases s t m p i free other held got = record {
  leaves = switch-leaves s t i free none (some m);
  does =
      lwp_leave-releasing (leaving s none false (some m)) t m (record p { of_runq = some s.cpu })
        (leaving-Asks s none false (some m))
        (record { here = i.here; masked = i.masked; nested = i.nested })
        (ap (λ (ps : Pmuts). record ps { of_runq = some s.cpu }) held ∙ with_runq p m s.cpu)
        (without_runq p m s.cpu other got);
}
