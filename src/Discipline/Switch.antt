-- ===== src/Discipline/Switch.antt =====
-- The calls that give the processor up keep the lock discipline.
use multi_process_threading.Base.{
  ◌≡◌, refl, sym, ◌∙◌, Bool, true, false, Option, none, some, List, [], ◌∷◌, if◌then◌else◌, inl,
  inr, update_self,
}
use multi_process_threading.State.{
  State, Tid, MtxId, LwpId, get_pmut, PmutId, runq_mtx, QueueId, runq_table, ut_waiter, reap_queue,
  m_waiters, uc_waiters, Lwps, ut_zombie,
}
use multi_process_threading.Cmd.{take_from, pthread_mutex_lock, bind, ◌>>=◌, modify}
use multi_process_threading.Sched.{is_state}
use multi_process_threading.Switch.{
  set_curlwp, setcontext_lwp, after_switch, uthread_switch, after_yield, uthread_yield,
}
use multi_process_threading.Discipline.{Adds, Left, Held, In, Has, Guards, Op, Keeps, is_runq_mtx}
use multi_process_threading.Discipline.Writes.{Respects-refl, Respects-curlwp}
use multi_process_threading.Discipline.Pmuts.{Respects-pmut}
use multi_process_threading.Discipline.Reads.{
  Reads-gets, Reads-assert, Reads-curthr, Reads-is_masked, read,
}
use multi_process_threading.Discipline.Possession.{AreBelow, Held-takes, Held-Ranked, Held-left}
use multi_process_threading.Discipline.Rules.{
  Keeps-bind, Op-gets, Op-assert, Op-if, Op-pure, Op-fail, ◌⨾◌,
}
use multi_process_threading.Discipline.Locking.{not_other}
use multi_process_threading.Discipline.Sched.{
  Op-curthr, Op-is_masked, Op-nopreempt_on, Op-nopreempt_off,
}

Op-after_switch : Op [] (λ _. []) after_switch
unfolding after_switch
Op-after_switch = Op-curthr ⨾ λ _. Op-gets ⨾ λ _. Op-if _ Op-fail Op-pure

Op-after_yield : Op [] (λ _. []) after_yield
unfolding after_yield
Op-after_yield = Op-is_masked ⨾ λ _. Op-assert _ ⨾ λ _. Op-nopreempt_off

Guards-lwps : (q : QueueId) (s : State) (l : Lwps) → Guards q s → Guards q (record s { lwps = l })
Guards-lwps (runq_table p) s l g = g
Guards-lwps (ut_waiter t) s l g = g
Guards-lwps reap_queue s l g = g
Guards-lwps (m_waiters m) s l g = g
Guards-lwps (uc_waiters c) s l g = g

Adds-lwps : (q : QueueId) (s : State) (l : Lwps) → Adds q s → Adds q (record s { lwps = l })
Adds-lwps (runq_table p) s l g = g
Adds-lwps (ut_waiter t) s l g = g
Adds-lwps reap_queue s l g = g
Adds-lwps (m_waiters m) s l g = g
Adds-lwps (uc_waiters c) s l g = g

-- The thread's parameters, the mutexes that go with them, what is known of the owners, and the
-- switch.
module _ (ls : List PmutId) (q : Option QueueId) (m : Option PmutId)
    (P : (MtxId → Option Tid) → Type 0)
    (g : (s : State)
      → Has ls s
      → P s.m_owner
      → (q' : QueueId) → q ≡ some q'
      → Guards q' s × Adds q' s)
    (other : (m' : PmutId) → m ≡ some m' → is_runq_mtx m' ≡ false)
    (rest : (x : PmutId) → In x ls → m ≡ some x)
    (stable : (s s' : State) → Has ls s → Left s s' → P s.m_owner → P s'.m_owner) where
  leaves-Keeps :
      (b : Bool) (s : State)
      → Held (runq_mtx ∷ ls) s
      → P s.m_owner
      → Keeps
          (λ _. Held [])
          s
          ((modify (set_curlwp q b m) >>= λ _. setcontext_lwp >>= λ _. after_switch) s)
  unfolding setcontext_lwp bind Keeps
  leaves-Keeps b s h p = (
    Respects-curlwp s q b m,
    record {
      runq = h.has.0;
      only = λ x k e. elim (h.only x k e) [
        | inl same ↦ inl same
        | inr i ↦ inr (update_self s.lwps.pmut s.cpu m ∙ rest x i)
      ];
      queue = λ q' e.
          let y : Guards q' s × Adds q' s =
            g s h.has.3 p q' (sym (update_self s.lwps.queue s.cpu q) ∙ e) in
          (Guards-lwps q' s _ y.0, Adds-lwps q' s _ y.1);
      pmut = λ m' e. other m' (sym (update_self s.lwps.pmut s.cpu m) ∙ e);
    },
    λ s' n. Op-after_switch.at s' (record { has = tt; only = n }),
  )

  taken-Keeps :
      (s : State) (o : Option LwpId)
      → get_pmut s.pmuts runq_mtx ≡ o
      → Held ls s
      → P s.m_owner
      → Keeps (λ _ z. Held (runq_mtx ∷ ls) z × P z.m_owner) s (take_from o runq_mtx s)
  unfolding Keeps take_from
  taken-Keeps s none e h p = (
    Respects-pmut s runq_mtx (some s.cpu) (not_other s)
        (λ l x ne. let both : none ≡ some l = sym e ∙ x in absurd cc),
    (Held-takes runq_mtx ls s e refl h, p),
  )
  taken-Keeps s (some l) e h p = tt

  lock-Keeps :
      AreBelow 3 ls
      → (s : State) → Held ls s
      → P s.m_owner
      → Keeps (λ _ z. Held (runq_mtx ∷ ls) z × P z.m_owner) s (pthread_mutex_lock runq_mtx s)
  unfolding Keeps pthread_mutex_lock
  lock-Keeps r s h p = (
    Respects-refl s,
    Held-Ranked runq_mtx ls s r h,
    λ s' l.
        taken-Keeps s' (get_pmut s'.pmuts runq_mtx) refl (Held-left ls s s' l h)
          (stable s s' h.has l p),
  )

  pub switch-Keeps :
      AreBelow 3 ls
      → (b : Bool) (s : State) → Held ls s
      → P s.m_owner
      → Keeps (λ _. Held []) s (uthread_switch q b m s)
  unfolding uthread_switch
  switch-Keeps r b s h p = read _ _ Reads-is_masked λ _. read _ _ (Reads-assert _) λ _.
      read _ _ Reads-curthr λ _. read _ _ Reads-gets λ _. read _ _ (Reads-assert _) λ _.
        Keeps-bind (λ _ z. Held (runq_mtx ∷ ls) z × P z.m_owner) (λ _. Held []) _
          (λ _ z x. read _ _ Reads-curthr λ _.
            read _ _ Reads-gets
              λ u. leaves-Keeps (if is_state u ut_zombie then false else b) z x.0 x.1)
          s _ (lock-Keeps r s h p)

-- A queue that is not that of a mutex's waiters, or none.
pub Op-switch :
    (ls : List PmutId) (q : Option QueueId) (m : Option PmutId)
    → ((s : State) → Has ls s → (q' : QueueId) → q ≡ some q' → Guards q' s × Adds q' s)
    → ((m' : PmutId) → m ≡ some m' → is_runq_mtx m' ≡ false)
    → ((x : PmutId) → In x ls → m ≡ some x)
    → AreBelow 3 ls
    → (b : Bool) → Op ls (λ _. []) (uthread_switch q b m)
Op-switch ls q m g other rest r b = record {
  at = λ s h.
      switch-Keeps ls q m (λ _. Unit {0}) (λ s h p. g s h) other rest (λ s s' h l p. tt) r b s h tt;
}

pub Op-yield : Op [] (λ _. []) uthread_yield
unfolding uthread_yield
Op-yield = Op-nopreempt_on ⨾ λ _. Op-is_masked ⨾ λ _. Op-assert _ ⨾ λ _. Op-curthr ⨾ λ _.
    Op-gets ⨾ λ _. Op-assert _ ⨾ λ _.
    Op-switch [] none none (λ s h q e. absurd cc) (λ m e. absurd cc) (λ x i. absurd i) tt true
    ⨾ λ _. Op-after_yield
