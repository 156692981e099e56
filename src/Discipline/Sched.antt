-- ===== src/Discipline/Sched.antt =====
-- The calls of uthread_queue.c and uthread_sched.c keep the lock discipline.
use multi_process_threading.Base.{ℕ, refl, Bool, true, false, List, ◌∷◌, ltb, Bool-cases, inl, inr}
use multi_process_threading.State.{
  State, Tid, PmutId, runq_mtx, QueueId, runq_table, UthreadState, uth_maxprio,
}
use multi_process_threading.State.Int.{ℤ, pos, negsuc}
use multi_process_threading.Cmd.{Cmd, bind, ◌>>=◌, modify, curthr, is_masked, set_mask}
use multi_process_threading.Sched.{
  set_runq_size, nesting_agrees, uthread_nopreempt_on, uthread_nopreempt_off, runq, lwp_release,
  uthread_runq_enqueue, uthread_runq_requeue, release_runq, wake_waiting, uthread_wake,
  start_transition, uthread_startonrunq,
}
use multi_process_threading.Discipline.{Op}
use multi_process_threading.Discipline.Writes.{Respects-mask}
use multi_process_threading.Discipline.Parts.{Respects-runqs}
use multi_process_threading.Discipline.Possession.{AreBelow}
use multi_process_threading.Discipline.Rules.{
  Op-gets, Op-deref, Op-assert, Op-if, Op-pure, Op-fail, Op-modify, Op-own, ◌⨾◌,
}
use multi_process_threading.Discipline.Queues.{Op-utqueue_enqueue, Op-utqueue_remove}
use multi_process_threading.Discipline.Locking.{Op-lock, Op-unlock}

module _ {ls : List PmutId} where
  pub Op-curthr : Op ls (λ _. ls) curthr
  unfolding curthr
  Op-curthr = record { at = λ s h. (Op-deref (s.ut_curthr s.cpu)).at s h }

  pub Op-is_masked : Op ls (λ _. ls) is_masked
  unfolding is_masked
  Op-is_masked = Op-gets

  pub Op-set_mask : (b : Bool) → Op ls (λ _. ls) (set_mask b)
  unfolding set_mask
  Op-set_mask b = Op-modify ls _ (λ s h. Respects-mask s b) (λ s. refl)

  Op-nesting_agrees : (b : Bool) → Op ls (λ _. ls) (nesting_agrees b)
  unfolding nesting_agrees
  Op-nesting_agrees false = Op-pure
  Op-nesting_agrees true = Op-curthr ⨾ λ _. Op-gets ⨾ λ _. Op-pure

  pub Op-nopreempt_on : Op ls (λ _. ls) uthread_nopreempt_on
  unfolding uthread_nopreempt_on
  Op-nopreempt_on = Op-is_masked ⨾ λ _. Op-nesting_agrees _ ⨾ λ _. Op-assert _ ⨾ λ _.
      Op-set_mask true ⨾ λ _. Op-curthr ⨾ λ _. Op-own (λ s. refl) ⨾ λ _. Op-gets ⨾ λ _. Op-assert _

  pub Op-nopreempt_off : Op ls (λ _. ls) uthread_nopreempt_off
  unfolding uthread_nopreempt_off
  Op-nopreempt_off = Op-is_masked ⨾ λ _. Op-assert _ ⨾ λ _. Op-curthr ⨾ λ _. Op-gets ⨾ λ _.
      Op-assert _ ⨾ λ _. Op-own (λ s. refl) ⨾ λ _. Op-if _ (Op-set_mask false) Op-pure

  -- A run queue, or no such index.
  Op-runq :
      {A : Type 0} {ms : A → List PmutId} (p : ℤ) (f : QueueId → Cmd A)
      → ((n : ℕ) → Op ls ms (f (runq_table n)))
      → Op ls ms (runq p >>= f)
  unfolding runq bind
  Op-runq (negsuc n) f k = Op-fail
  Op-runq (pos n) f k = elim (Bool-cases (ltb uth_maxprio n)) [
    | inl e ↦ rw e Op-fail
    | inr e ↦ rw e (k n)
  ]

-- `runq_mtx` is held.
module _ {ls : List PmutId} where
  pub Op-runq_size :
      (n : State → ℕ)
      → Op (runq_mtx ∷ ls) (λ _. runq_mtx ∷ ls) (modify (λ s. set_runq_size (n s) s))
  Op-runq_size n = Op-modify _ _ (λ s h. Respects-runqs s _ _ _ _ h.has.0 (λ x. x)) (λ s. refl)

  Op-lwp_release : Op (runq_mtx ∷ ls) (λ _. runq_mtx ∷ ls) lwp_release
  unfolding lwp_release
  Op-lwp_release = Op-pure

  pub Op-runq_enqueue : (t : Tid) → Op (runq_mtx ∷ ls) (λ _. runq_mtx ∷ ls) (uthread_runq_enqueue t)
  unfolding uthread_runq_enqueue
  Op-runq_enqueue t = Op-gets ⨾ λ p. Op-runq p _ λ n.
      Op-utqueue_enqueue _ (λ s h. h.has.0) (λ s h. tt) t ⨾ λ _.
      Op-runq_size _ ⨾ λ _. Op-gets ⨾ λ _. Op-if _ Op-lwp_release Op-pure

  pub Op-runq_requeue :
      (t : Tid) (p : ℤ) → Op (runq_mtx ∷ ls) (λ _. runq_mtx ∷ ls) (uthread_runq_requeue t p)
  unfolding uthread_runq_requeue
  Op-runq_requeue t p = Op-runq p _ λ n. Op-utqueue_remove _ (λ s h. h.has.0) (λ s u. tt) t ⨾ λ _.
      Op-gets ⨾ λ r. Op-runq r _ λ k. Op-utqueue_enqueue _ (λ s h. h.has.0) (λ s h. tt) t

  pub Op-release_runq : Op (runq_mtx ∷ ls) (λ _. ls) release_runq
  unfolding release_runq
  Op-release_runq = Op-unlock _ _ ⨾ λ _. Op-nopreempt_off

  Op-wake_waiting : (t : Tid) → Op (runq_mtx ∷ ls) (λ _. ls) (wake_waiting t)
  unfolding wake_waiting
  Op-wake_waiting t = Op-own (λ s. refl) ⨾ λ _. Op-runq_enqueue t ⨾ λ _. Op-release_runq

  pub Op-wake : AreBelow 3 ls → (t : Tid) → Op ls (λ _. ls) (uthread_wake t)
  unfolding uthread_wake
  Op-wake b t = Op-gets ⨾ λ _. Op-assert _ ⨾ λ _. Op-nopreempt_on ⨾ λ _.
      Op-lock runq_mtx ls refl b ⨾ λ _. Op-gets ⨾ λ _. Op-if _ (Op-wake_waiting t) Op-release_runq

  Op-start_transition :
      (t : Tid) (u : UthreadState) → Op (runq_mtx ∷ ls) (λ _. runq_mtx ∷ ls) (start_transition t u)
  unfolding start_transition
  Op-start_transition t u = Op-if _ (Op-own (λ s. refl) ⨾ λ _. Op-runq_enqueue t) Op-fail

  pub Op-startonrunq : AreBelow 3 ls → (t : Tid) (p : ℤ) → Op ls (λ _. ls) (uthread_startonrunq t p)
  unfolding uthread_startonrunq
  Op-startonrunq b t p = Op-nopreempt_on ⨾ λ _. Op-lock runq_mtx ls refl b ⨾ λ _.
      Op-own (λ s. refl) ⨾ λ _. Op-gets ⨾ λ u. Op-start_transition t u ⨾ λ _. Op-release_runq
