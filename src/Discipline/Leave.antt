-- ===== src/Discipline/Leave.antt =====
-- `lwp_leave` keeps the lock discipline.
use multi_process_threading.Base.{
  ◌≡◌, refl, sym, ap, ◌∙◌, Bool, true, false, Option, none, some, List, [], ◌∷◌, ltb, Bool-cases,
  inl, inr,
}
use multi_process_threading.State.{get_pmut, State, Tid, PmutId, runq_mtx, QueueId, Lwps}
use multi_process_threading.Cmd.{pthread_mutex_unlock, bind, ◌>>=◌, modify}
use multi_process_threading.Switch.{
  set_curlwp, set_curthr, enqueue_on, save_on_runq, leave_thread, unlock_pmut, lwp_leave,
}
use multi_process_threading.Discipline.{Adds, In, Held, Guards, Op, Handed, Keeps, is_runq_mtx}
use multi_process_threading.Discipline.Locking.{given}
use multi_process_threading.Discipline.Rules.{
  Op-gets, Op-if, Op-pure, Op-own, Op-curlwp, Op-set_curthr, ◌⨾◌, Keeps-failed, Keeps-bind,
}
use multi_process_threading.Discipline.Queues.{enqueue-Keeps}
use multi_process_threading.Discipline.Sched.{Op-runq_enqueue}
use multi_process_threading.Discipline.Keys.{leave-IsQuiet, Keeps-quiet, Keys, Handed-Keys}

enqueue_on-Keeps :
    (t : Tid) (s : State) {ls : List PmutId}
    → Held ls s
    → (q : Option QueueId) → ((q' : QueueId) → q ≡ some q' → Guards q' s × Adds q' s)
    → Keeps (λ _. Held ls) s (enqueue_on q t s)
unfolding enqueue_on
enqueue_on-Keeps t s {ls} h none g = (Op-pure {ls = ls}).at s h
enqueue_on-Keeps t s h (some q) g = enqueue-Keeps q s h (g q refl).0 (g q refl).1 t

module _ {ls : List PmutId} where
  Op-save_on_runq :
      (b : Bool) (t : Tid) → Op (runq_mtx ∷ ls) (λ _. runq_mtx ∷ ls) (save_on_runq b t)
  unfolding save_on_runq
  Op-save_on_runq b t = Op-gets ⨾ λ _. Op-if _ (Op-own (λ s. refl) ⨾ λ _. Op-runq_enqueue t) Op-pure

  leave-Keeps :
      (t : Option Tid) (s : State)
      → Held (runq_mtx ∷ ls) s
      → Handed s
      → Keeps (λ _. Held (runq_mtx ∷ ls)) s (leave_thread t s)
  unfolding leave_thread bind
  leave-Keeps none s k h = (Op-pure {ls = runq_mtx ∷ ls}).at s k
  leave-Keeps (some t) s k h = elim (Bool-cases (ltb 0 (s.ut_no_preempt_count t))) [
    | inl ok ↦ rw ok (
        Keeps-bind (λ _. Held (runq_mtx ∷ ls)) (λ _. Held (runq_mtx ∷ ls)) _
          (λ a z x. (Op-gets {f = λ s. s.lwps.saveonrq s.cpu} ⨾ λ b. Op-save_on_runq b t).at z x) s
          _ (enqueue_on-Keeps t s k (s.lwps.queue s.cpu) h.queue))
    | inr bad ↦ rw bad (Keeps-failed (λ _. Held (runq_mtx ∷ ls)) s _)
  ]

  -- The mutex that the thread has left, if any, is all that is held besides `runq_mtx`.
  unlock_pmut-Keeps :
      (m : Option PmutId)
      → ((m' : PmutId) → m ≡ some m' → is_runq_mtx m' ≡ false)
      → ((x : PmutId) → In x ls → m ≡ some x)
      → (z : State) → Held (runq_mtx ∷ ls) z
      → Keeps (λ _. Held (runq_mtx ∷ [])) z (unlock_pmut m z)
  unfolding unlock_pmut pthread_mutex_unlock
  unlock_pmut-Keeps none e l z h = (Op-pure {ls = runq_mtx ∷ []}).at z (record {
    has = (h.has.0, refl, tt, tt);
    only = λ x k y. elim (h.only x k y) [
      | inl same ↦ inl same
      | inr i ↦ let both : none ≡ some x = l x i in absurd cc
    ];
  })
  unlock_pmut-Keeps (some m) e l z h =
      given m (runq_mtx ∷ []) z (get_pmut z.pmuts m) refl
        ((λ same. let both : true ≡ false = sym (ap is_runq_mtx same) ∙ e m refl in absurd cc), tt)
        (h.has.0, refl, tt, tt)
        (λ x k y. elim (h.only x k y) [
          | inl same ↦ inr (inl same)
          | inr i ↦ let same : m ≡ x = cc (l x i) in inl same
        ])

Op-clear :
    Op
      (runq_mtx ∷ [])
      (λ _. runq_mtx ∷ [])
      (modify (set_curlwp none false none) >>= λ _. modify (set_curthr none))
Op-clear = Op-curlwp none false none ⨾ λ _. Op-set_curthr none

pub lwp_leave-Keeps : (s : State) → Handed s → Keeps (λ _. Held (runq_mtx ∷ [])) s (lwp_leave s)
unfolding lwp_leave bind
lwp_leave-Keeps s h =
    let y : Keys s = Handed-Keys s h (s.lwps.pmut s.cpu) refl in
    Keeps-bind _ (λ _. Held (runq_mtx ∷ [])) _
      (λ a z x.
        let same : z.lwps.pmut z.cpu ≡ s.lwps.pmut s.cpu =
          ap (λ (l : Lwps). l.pmut z.cpu) x.1 ∙ ap s.lwps.pmut x.2 in
        Keeps-bind (λ _. Held (runq_mtx ∷ [])) (λ _. Held (runq_mtx ∷ [])) _
          (λ b w u. Op-clear.at w u) z _
          (unlock_pmut-Keeps (z.lwps.pmut z.cpu) (λ m e. h.pmut m (sym same ∙ e))
            (λ v i. same ∙ y.left v i) z x.0))
      s _
      (Keeps-quiet (λ _. Held (runq_mtx ∷ y.pmut)) s _ (leave-Keeps (s.ut_curthr s.cpu) s y.held h)
        (leave-IsQuiet (s.ut_curthr s.cpu) s))
