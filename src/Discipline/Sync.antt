-- ===== src/Discipline/Sync.antt =====
-- The calls of uthread_cond.c, `uthread_setprio` and the clock interrupt keep the lock discipline.
-- lock discipline.
use multi_process_threading.Base.{
  ℕ, zero, suc, refl, arith, Bool, true, false, Option, none, some, List, [], ◌∷◌,
}
use multi_process_threading.State.{Tid, MtxId, CondId, PmutId, runq_mtx, c_pmut, uc_waiters}
use multi_process_threading.State.Int.{ℤ, eqz}
use multi_process_threading.Cmd.{pure}
use multi_process_threading.Cond.{
  cond_sleep, cond_awake, uthread_cond_wait, wake_all, uthread_cond_broadcast, wake_if_some,
  uthread_cond_signal,
}
use multi_process_threading.Prio.{
  esrch, is_inactive, requeue_if, yield_if, change_prio, setprio_thread, index_of, uthread_setprio,
  clock_interrupt,
}
use multi_process_threading.Discipline.{Op}
use multi_process_threading.Discipline.Possession.{AreBelow}
use multi_process_threading.Discipline.Rules.{
  Op-may_tick, Op-gets, Op-deref, Op-assert, Op-if, Op-pure, Op-fail, Op-own, ◌⨾◌,
}
use multi_process_threading.Discipline.Locking.{Op-lock, Op-unlock}
use multi_process_threading.Discipline.Sched.{
  Op-curthr, Op-is_masked, Op-set_mask, Op-nopreempt_on, Op-nopreempt_off, Op-wake, Op-release_runq,
  Op-runq_requeue,
}
use multi_process_threading.Discipline.Queues.{Op-utqueue_empty, Op-utqueue_dequeue}
use multi_process_threading.Discipline.Switch.{Op-switch, Op-yield}
use multi_process_threading.Discipline.Locks.{
  Joins-some, not-runq_some, one-In, Op-mtx_lock, Op-mtx_unlock,
}

pub Op-wake_if_some :
    {ls : List PmutId} → AreBelow 3 ls → (t : Option Tid) → Op ls (λ _. ls) (wake_if_some t)
unfolding wake_if_some
Op-wake_if_some b none = Op-pure
Op-wake_if_some b (some t) = Op-wake b t

module _ (c : CondId) where
  Op-cond_sleep : Op (c_pmut c ∷ []) (λ _. []) (cond_sleep c)
  unfolding cond_sleep
  Op-cond_sleep = Op-curthr ⨾ λ _. Op-own (λ s. refl) ⨾ λ _.
      Op-switch (c_pmut c ∷ []) (some (uc_waiters c)) (some (c_pmut c))
        (λ s h q e. Joins-some s (uc_waiters c) q (h.0, tt) e)
        (λ x e. not-runq_some (c_pmut c) x refl e) (λ x i. one-In (c_pmut c) x i) (omega arith, tt)
        false

  Op-cond_awake : (m : MtxId) → Op [] (λ _. []) (cond_awake m)
  unfolding cond_awake
  Op-cond_awake m = Op-nopreempt_off ⨾ λ _. Op-may_tick ⨾ λ _. Op-mtx_lock m ⨾ λ _.
      Op-may_tick ⨾ λ _.
      Op-nopreempt_on ⨾ λ _. Op-curthr ⨾ λ _. Op-gets ⨾ λ _. Op-assert _ ⨾ λ _. Op-nopreempt_off

  pub Op-cond_wait : (m : MtxId) → Op [] (λ _. []) (uthread_cond_wait c m)
  unfolding uthread_cond_wait
  Op-cond_wait m = Op-nopreempt_on ⨾ λ _. Op-lock (c_pmut c) [] refl tt ⨾ λ _.
      Op-mtx_unlock m (omega arith, tt) (omega arith, tt) ⨾ λ _.
      Op-cond_sleep ⨾ λ _. Op-cond_awake m

  Op-wake_all : (n : ℕ) → Op (c_pmut c ∷ []) (λ _. c_pmut c ∷ []) (wake_all n c)
  unfolding wake_all
  Op-wake_all zero = Op-fail
  Op-wake_all (suc n) = Op-utqueue_empty _ ⨾ λ _. Op-if _ Op-pure (
      Op-utqueue_dequeue _ (λ s h. h.has.0) ⨾ λ t.
      Op-deref t ⨾ λ u. Op-wake (omega arith, tt) u ⨾ λ _. Op-wake_all n)

  pub Op-cond_broadcast : Op [] (λ _. []) (uthread_cond_broadcast c)
  unfolding uthread_cond_broadcast
  Op-cond_broadcast = Op-nopreempt_on ⨾ λ _. Op-lock (c_pmut c) [] refl tt ⨾ λ _.
      Op-gets ⨾ λ _. Op-wake_all _ ⨾ λ _. Op-unlock _ _ ⨾ λ _. Op-nopreempt_off

  pub Op-cond_signal : Op [] (λ _. []) (uthread_cond_signal c)
  unfolding uthread_cond_signal
  Op-cond_signal = Op-nopreempt_on ⨾ λ _. Op-lock (c_pmut c) [] refl tt ⨾ λ _.
      Op-utqueue_dequeue _ (λ s h. h.has.0) ⨾ λ t.
      Op-wake_if_some (omega arith, tt) t ⨾ λ _. Op-unlock _ _ ⨾ λ _. Op-nopreempt_off

Op-yield_if : (b : Bool) → Op (runq_mtx ∷ []) (λ _. []) (yield_if b)
unfolding yield_if
Op-yield_if b = Op-if b (Op-release_runq ⨾ λ _. Op-may_tick ⨾ λ _. Op-yield) Op-release_runq

Op-requeue_if :
    (b : Bool) (t : Tid) (p : ℤ) → Op (runq_mtx ∷ []) (λ _. runq_mtx ∷ []) (requeue_if b t p)
unfolding requeue_if
Op-requeue_if b t p = Op-if b (Op-runq_requeue t p) Op-pure

Op-change_prio : (t : Tid) (p : ℤ) → Op (runq_mtx ∷ []) (λ _. []) (change_prio t p)
unfolding change_prio
Op-change_prio t p = Op-gets ⨾ λ old. Op-own (λ s. refl) ⨾ λ _. Op-gets ⨾ λ _.
    Op-requeue_if _ t old ⨾ λ _.
    Op-curthr ⨾ λ _. Op-gets ⨾ λ _. Op-gets ⨾ λ _. Op-yield_if _ ⨾ λ _. Op-pure

Op-setprio_thread : (t : Tid) (p : ℤ) → Op [] (λ _. []) (setprio_thread t p)
unfolding setprio_thread
Op-setprio_thread t p = Op-nopreempt_on ⨾ λ _. Op-lock runq_mtx [] refl tt ⨾ λ _. Op-gets ⨾ λ u.
    Op-gets ⨾ λ old.
    Op-if (is_inactive u) (Op-release_runq ⨾ λ _. Op-pure)
      (Op-if (eqz old p) (Op-release_runq ⨾ λ _. Op-pure) (Op-change_prio t p))

Op-index :
    (o : Option Tid) (p : ℤ)
    → Op [] (λ _. []) (elim o [ none ↦ pure esrch | some thr ↦ setprio_thread thr p ])
Op-index none p = Op-pure
Op-index (some t) p = Op-setprio_thread t p

pub Op-setprio : (id p : ℤ) → Op [] (λ _. []) (uthread_setprio id p)
unfolding uthread_setprio
Op-setprio id p = Op-if _ Op-pure (Op-index (index_of id) p)

pub Op-clock_interrupt : Op [] (λ _. []) clock_interrupt
unfolding clock_interrupt
Op-clock_interrupt = Op-set_mask true ⨾ λ _. Op-curthr ⨾ λ _. Op-gets ⨾ λ _. Op-assert _ ⨾ λ _.
    Op-gets ⨾ λ _. Op-assert _ ⨾ λ _. Op-own (λ s. refl) ⨾ λ _. Op-yield ⨾ λ _. Op-curthr ⨾ λ _.
    Op-gets ⨾ λ _. Op-assert _ ⨾ λ _.
    Op-is_masked ⨾ λ _. Op-assert _ ⨾ λ _. Op-own (λ s. refl) ⨾ λ _. Op-set_mask false
