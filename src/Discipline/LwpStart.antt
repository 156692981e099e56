-- ===== src/Discipline/LwpStart.antt =====
-- `lwp_start` keeps the lock discipline.
use multi_process_threading.Base.{
  ◌≡◌, refl, sym, ap, ◌∙◌, true, false, Option, none, some, [], ◌∷◌, update, ==-self, arith, ◌+◌,
  Bool-cases, inl, inr,
}
use multi_process_threading.State.{State, LwpId, runq_mtx, get_pmut}
use multi_process_threading.Cmd.{
  assert, ◌>>◌, bind, take_from, pthread_mutex_lock, is_masked, set_mask,
}
use multi_process_threading.Switch.{set_curthr, set_curlwp, lwp_switch}
use multi_process_threading.Thread.Start.{lwp_start}
use multi_process_threading.Discipline.{Respects, Held, Only, Handed, Left, Keeps, own_vars}
use multi_process_threading.Discipline.Writes.{
  Respects-refl, Respects-trans, Respects-mask, Respects-curthr, Respects-curlwp,
}
use multi_process_threading.Discipline.Pmuts.{Respects-pmut}
use multi_process_threading.Discipline.Parts.{Respects-runqs}
use multi_process_threading.Discipline.Possession.{Held-takes, Held-left, Held-Ranked}
use multi_process_threading.Discipline.Locking.{not_other}
use multi_process_threading.Discipline.Rules.{Keeps-after, Keeps-failed, Keeps-bind}
use multi_process_threading.Discipline.Dispatch.{lwp_switch-Keeps}

-- `runq_mtx` alone held, and the LWP's own variables as they were.
abbrev Ready : State → State → Type 0
Ready s z = Held (runq_mtx ∷ []) z × (own_vars z.cpu z ≡ own_vars s.cpu s)

taken-Ready :
    (s s' : State) (o : Option LwpId)
    → Left s s'
    → get_pmut s'.pmuts runq_mtx ≡ o
    → Held [] s
    → Keeps (λ _. Ready s) s' (take_from o runq_mtx s')
unfolding Keeps take_from
taken-Ready s s' none l e n = (
  Respects-pmut s' runq_mtx (some s'.cpu) (not_other s')
      (λ h x ne. let both : none ≡ some h = sym e ∙ x in absurd cc),
  (
    Held-takes runq_mtx [] s' e refl (Held-left [] s s' l n),
    ap (λ c. own_vars c s') l.cpu ∙ l.mine,
  ),
)
taken-Ready s s' (some h) l e n = tt

lock-Ready : (s : State) → Held [] s → Keeps (λ _. Ready s) s (pthread_mutex_lock runq_mtx s)
unfolding Keeps pthread_mutex_lock
lock-Ready s n = (
  Respects-refl s,
  Held-Ranked runq_mtx [] s tt n,
  λ s' l. taken-Ready s s' (get_pmut s'.pmuts runq_mtx) l refl n,
)

module _ (s : State) where
  -- The variables of a new LWP.
  abbrev fresh : State
  fresh = set_curlwp none false none (
      set_curthr none (record s { lwps = record (s.lwps) { masked = update s.masked s.cpu true } }))

  fresh-Respects : Respects s fresh
  fresh-Respects =
      Respects-trans (Respects-mask s true)
        (Respects-trans (Respects-curthr _ none) (Respects-curlwp _ none false none))

  own-fresh : own_vars s.cpu fresh ≡ (none, none, false, none, true)
  own-fresh = rw (==-self s.cpu) refl

  counted : (z : State) → Ready fresh z → Handed (record z { lwp_cnt = z.lwp_cnt + 1 })
  counted z x =
      let mine : own_vars z.cpu z ≡ (none, none, false, none, true) = x.1 ∙ own-fresh in
      record {
        runq = x.0.has.0;
        only = λ m k y. elim (x.0.only m k y) [ inl e ↦ inl e | inr i ↦ absurd i ];
        queue = λ q e. let both : none ≡ some q = sym (ap (λ o. o.1) mine) ∙ e in absurd cc;
        pmut = λ m e. let both : none ≡ some m = sym (ap (λ o. o.3) mine) ∙ e in absurd cc;
      }

  switches :
      (z : State)
      → Ready fresh z
      → Keeps
          (λ _. Held [])
          z
          ((assert (z.masked z.cpu) >> lwp_switch) (record z { lwp_cnt = z.lwp_cnt + 1 }))
  unfolding bind
  switches z x = elim (Bool-cases (z.masked z.cpu)) [
    | inl ok ↦ rw ok (
        Keeps-after _ z (record z { lwp_cnt = z.lwp_cnt + 1 }) _
          (Respects-runqs z z.queues.runqs z.runq_size z.lwp_parked_cnt (z.lwp_cnt + 1) x.0.has.0
            (λ h. omega arith))
          (lwp_switch-Keeps (record z { lwp_cnt = z.lwp_cnt + 1 }) (counted z x)))
    | inr bad ↦ rw bad (Keeps-failed _ z _)
  ]

  pub lwp_start-Keeps : Only [] s → Keeps (λ _. Held []) s (lwp_start s)
  unfolding lwp_start bind set_mask is_masked
  lwp_start-Keeps n = Keeps-after _ s fresh _ fresh-Respects (
      Keeps-bind (λ _. Ready fresh) _ _ (λ a z x. switches z x) fresh _
        (lock-Ready fresh (record { has = tt; only = n })))
