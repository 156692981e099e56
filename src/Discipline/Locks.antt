-- ===== src/Discipline/Locks.antt =====
-- The calls of uthread_mtx.c keep the lock discipline.
use multi_process_threading.Base.{
  ◌≢◌, ◌∙◌, sym, if◌then◌else◌, is_none, ◌≡◌, refl, ap, inl, inr, arith, subst, Bool, true, false,
  Option, none, some, List, [], ◌∷◌,
}
use multi_process_threading.State.{ut_wait, State, Tid, MtxId, PmutId, m_pmut, QueueId, m_waiters}
use multi_process_threading.Cmd.{bind, modify}
use multi_process_threading.Sched.{set_state}
use multi_process_threading.Mtx.{
  set_owner, own, after_wait, wait_for, uthread_mtx_lock, uthread_mtx_trylock, free_mtx, hand_over,
  uthread_mtx_unlock,
}
use multi_process_threading.Discipline.{In, Adds, Held, Keeps, Guards, Op, is_runq_mtx}
use multi_process_threading.Discipline.Writes.{Respects-owner, Respects-uths}
use multi_process_threading.Discipline.Reads.{Reads-curthr, read}
use multi_process_threading.Discipline.Queues.{Found, Taken, empty-Keeps, dequeue-Keeps}
use multi_process_threading.Discipline.Possession.{AreBelow, Held-same}
use multi_process_threading.Discipline.Rules.{
  Keeps-after, Keeps-bind, Op-gets, Op-deref, Op-assert, Op-if, Op-pure, Op-modify, ◌⨾◌,
}
use multi_process_threading.Discipline.Locking.{Op-lock, Op-unlock}
use multi_process_threading.Discipline.Sched.{Op-curthr, Op-nopreempt_on, Op-nopreempt_off, Op-wake}
use multi_process_threading.Discipline.Switch.{switch-Keeps}

pub Joins-some :
    (s : State) (q q' : QueueId)
    → Guards q s × Adds q s
    → some q ≡ some q'
    → Guards q' s × Adds q' s
Joins-some s q q' g e = let same : q ≡ q' = cc in subst (λ x. Guards x s × Adds x s) same g

pub not-runq_some :
    (m m' : PmutId) → is_runq_mtx m ≡ false → some m ≡ some m' → is_runq_mtx m' ≡ false
not-runq_some m m' n e = let same : m ≡ m' = cc in subst (λ x. is_runq_mtx x ≡ false) same n

pub one-In : (m x : PmutId) → In x (m ∷ []) → some m ≡ some x
one-In m x (inl e) = ap some e
one-In m x (inr i) = absurd i

module _ (m : MtxId) where
  Op-owner_some :
      {ls : List PmutId} (t : Tid)
      → Op (m_pmut m ∷ ls) (λ _. m_pmut m ∷ ls) (modify (set_owner m (some t)))
  Op-owner_some t =
      Op-modify _ _
        (λ s h.
          Respects-owner s m (some t) h.has.0 (λ k e. let both : some t ≡ none = e in absurd cc))
        (λ s. refl)

  Op-mtx_own : {ls : List PmutId} → Op (m_pmut m ∷ ls) (λ _. ls) (own m)
  unfolding own
  Op-mtx_own = Op-curthr ⨾ λ t. Op-owner_some t ⨾ λ _. Op-unlock _ _ ⨾ λ _. Op-nopreempt_off

  Op-after_wait : Op [] (λ _. []) (after_wait m)
  unfolding after_wait
  Op-after_wait = Op-curthr ⨾ λ _. Op-gets ⨾ λ _. Op-assert _ ⨾ λ _. Op-nopreempt_off

  -- The mutex has an owner from the test on until the caller is on its queue.
  wait_for-Keeps :
      (s : State)
      → Held (m_pmut m ∷ []) s
      → s.m_owner m ≢ none
      → Keeps (λ _. Held []) s (wait_for m s)
  unfolding wait_for bind
  wait_for-Keeps s h owned = read _ _ Reads-curthr λ t.
      Keeps-after _ s (set_state t ut_wait s) _ (Respects-uths s _ _) (
        Keeps-bind (λ _. Held []) (λ _. Held []) _ (λ _ z x. Op-after_wait.at z x) _ _
          (switch-Keeps (m_pmut m ∷ []) (some (m_waiters m)) (some (m_pmut m))
            (λ owner. owner m ≢ none) (λ s h p q e. Joins-some s (m_waiters m) q (h.0, p) e)
            (λ x e. not-runq_some (m_pmut m) x refl e) (λ x i. one-In (m_pmut m) x i)
            (λ s s' h l p e. p (sym (ap (λ x. x.1) (l.same (m_pmut m) refl h.0)) ∙ e))
            (omega arith, tt) false (set_state t ut_wait s)
            (Held-same (m_pmut m ∷ []) s _ (λ m k x. x) (λ m k x. x) h) owned))

  locked-Keeps :
      (s : State)
      → Held (m_pmut m ∷ []) s
      → (o : Option Tid) → s.m_owner m ≡ o
      → Keeps (λ _. Held []) s ((if is_none o then own m else wait_for m) s)
  locked-Keeps s h none e = Op-mtx_own.at s h
  locked-Keeps s h (some t) e =
      wait_for-Keeps s h (λ n. let both : some t ≡ none = sym e ∙ n in absurd cc)

  pub Op-mtx_lock : Op [] (λ _. []) (uthread_mtx_lock m)
  unfolding uthread_mtx_lock bind
  Op-mtx_lock = Op-nopreempt_on ⨾ λ _. Op-lock (m_pmut m) [] refl tt ⨾ λ _. record {
    at = λ s h. locked-Keeps s h (s.m_owner m) refl;
  }

  pub Op-mtx_trylock : Op [] (λ _. []) (uthread_mtx_trylock m)
  unfolding uthread_mtx_trylock
  Op-mtx_trylock = Op-nopreempt_on ⨾ λ _. Op-lock (m_pmut m) [] refl tt ⨾ λ _. Op-gets ⨾ λ _.
      Op-if _ (Op-mtx_own ⨾ λ _. Op-pure) (Op-unlock _ _ ⨾ λ _. Op-nopreempt_off ⨾ λ _. Op-pure)

  -- Under mutexes of a lower rank.
  module _ {ls : List PmutId} (b2 : AreBelow 2 ls) (b3 : AreBelow 3 ls) where
    set-Held :
        (s : State) (o : Option Tid)
        → Held (m_pmut m ∷ ls) s
        → Held (m_pmut m ∷ ls) (set_owner m o s)
    set-Held s o h = Held-same (m_pmut m ∷ ls) s _ (λ m k x. x) (λ m k x. x) h

    -- Nobody waits, or there is a next owner.
    given-Keeps :
        (e : Bool) (s : State)
        → Found (m_pmut m ∷ ls) (m_waiters m) e s
        → Keeps (λ _. Held ls) s ((if e then free_mtx m else hand_over m) s)
    unfolding free_mtx hand_over bind
    given-Keeps true s x =
        Keeps-after _ s (set_owner m none s) _ (Respects-owner s m none x.0.has.0 (λ k e. x.1 refl))
          ((Op-unlock (m_pmut m) ls).at (set_owner m none s) (set-Held s none x.0))
    given-Keeps false s x =
        Keeps-bind (Taken (m_pmut m ∷ ls) (m_waiters m)) (λ _. Held ls) _
          (λ o z y.
            Keeps-after _ z (set_owner m o z) _ (Respects-owner z m o y.0.has.0 (λ k e. y.1 e)) (
              (Op-unlock (m_pmut m) ls ⨾ λ _. Op-deref o ⨾ λ u. Op-wake b3 u).at (set_owner m o z)
                (set-Held z o y.0)))
          s _ (dequeue-Keeps (m_waiters m) s x.0 x.0.has.0)

    pub Op-mtx_unlock : Op ls (λ _. ls) (uthread_mtx_unlock m)
    unfolding uthread_mtx_unlock
    Op-mtx_unlock = Op-nopreempt_on ⨾ λ _. Op-lock (m_pmut m) ls refl b2 ⨾ λ _. record {
      at = λ s h.
          Keeps-bind (Found (m_pmut m ∷ ls) (m_waiters m)) (λ _. Held ls) _
            (λ e z x.
              Keeps-bind (λ _. Held ls) (λ _. Held ls) _ (λ _ y k. Op-nopreempt_off.at y k) z _
                (given-Keeps e z x))
            s _ (empty-Keeps (m_waiters m) s h);
    }
