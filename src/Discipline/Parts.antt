-- ===== src/Discipline/Parts.antt =====
-- What the writes of guarded parts of the state respect.
use multi_process_threading.Base.{
  none, [], ℕ, ◌<◌, ◌≡◌, refl, sym, ap, ◌∙◌, subst, true, false, Option, some, ◌==◌, arith, ==-self,
  Bool-cases, inl, inr,
}
use multi_process_threading.State.{
  State, Tid, MtxId, CondId, PmutId, LwpId, runq_mtx, uthreads_mtx, ut_pmut, m_pmut, c_pmut,
  m_waiters, uc_waiters, get_pmut,
}
use multi_process_threading.State.Fifo.{Utqueue}
use multi_process_threading.Queue.{write_queue}
use multi_process_threading.Mtx.{set_owner}
use multi_process_threading.Thread.Alloc.{set_prev_id}
use multi_process_threading.Discipline.{IsOwned, guarded, is_tracked, Holds, Respects}

-- Another LWP cannot hold what this one holds.
not-other :
    (s : State) (m : PmutId) (h : LwpId)
    → Holds m s
    → get_pmut s.pmuts m ≡ some h
    → (h == s.cpu) ≡ false
    → ⊥
not-other s m h mine e ne =
    let same : s.cpu ≡ h = cc (mine, e) in
    let self : (s.cpu == s.cpu) ≡ false = ap (λ x. x == s.cpu) same ∙ ne in
    let both : true ≡ false = sym (==-self s.cpu) ∙ self in absurd cc

-- Only what `m0`, held by this LWP, guards is written.
module _ (s : State) where
  pub Respects-runqs :
      (q : ℕ → Utqueue) (n k c : ℕ)
      → Holds runq_mtx s
      → (s.lwp_parked_cnt < s.lwp_cnt → k < c)
      → Respects s (record s {
        queues = record (s.queues) { runqs = q };
        runq_size = n;
        lwp_parked_cnt = k;
        lwp_cnt = c;
      })
  Respects-runqs q n k c mine room = record {
    cpu = refl;
    kept = go;
    gave = λ m h e ne. e;
    private = λ l ne. refl;
    owned = λ h. h;
    room = room;
  }
    where
      go :
          (m : PmutId) (h : LwpId)
          → is_tracked m ≡ true
          → get_pmut s.pmuts m ≡ some h
          → (h == s.cpu) ≡ false
          → (get_pmut s.pmuts m ≡ some h)
            × (guarded m (record s {
              queues = record (s.queues) { runqs = q };
              runq_size = n;
              lwp_parked_cnt = k;
              lwp_cnt = c;
            })
                ≡ guarded m s)
      go runq_mtx h _ e ne = absurd (not-other s runq_mtx h mine e ne)
      go uthreads_mtx h _ e ne = (e, refl)
      go (ut_pmut t) h _ e ne = (e, refl)
      go (m_pmut m) h _ e ne = (e, refl)
      go (c_pmut c) h _ e ne = (e, refl)

  pub Respects-ids : (i : Option Tid) → Holds uthreads_mtx s → Respects s (set_prev_id i s)
  Respects-ids i mine = record {
    cpu = refl;
    kept = go;
    gave = λ m h e ne. e;
    private = λ l ne. refl;
    owned = λ h. h;
    room = λ h. h;
  }
    where
      go :
          (m : PmutId) (h : LwpId)
          → is_tracked m ≡ true
          → get_pmut s.pmuts m ≡ some h
          → (h == s.cpu) ≡ false
          → (get_pmut s.pmuts m ≡ some h) × (guarded m (set_prev_id i s) ≡ guarded m s)
      go uthreads_mtx h _ e ne = absurd (not-other s uthreads_mtx h mine e ne)
      go runq_mtx h _ e ne = (e, refl)
      go (ut_pmut t) h _ e ne = (e, refl)
      go (m_pmut m) h _ e ne = (e, refl)
      go (c_pmut c) h _ e ne = (e, refl)

  pub Respects-mtx :
      (m0 : MtxId) (u : Utqueue) (o : Option Tid)
      → Holds (m_pmut m0) s
      → ((s.m_owner m0 ≡ none → (s.queues.mtx_waiters m0).tq_waiters ≡ [])
          → o ≡ none
          → u.tq_waiters ≡ [])
      → Respects s (set_owner m0 o (write_queue (m_waiters m0) u s))
  Respects-mtx m0 u o mine k = record {
    cpu = refl;
    kept = go;
    gave = λ m h e ne. e;
    private = λ l ne. refl;
    owned = owns;
    room = λ h. h;
  }
    where
      owns : IsOwned s → IsOwned (set_owner m0 o (write_queue (m_waiters m0) u s))
      owns h m e = elim (Bool-cases (m0 == m)) [
        | inl at ↦ rw at (k (h m0) (rw at at e))
        | inr off ↦ rw off (h m (rw off at e))
      ]

      go :
          (m : PmutId) (h : LwpId)
          → is_tracked m ≡ true
          → get_pmut s.pmuts m ≡ some h
          → (h == s.cpu) ≡ false
          → (get_pmut s.pmuts m ≡ some h)
            × (guarded m (set_owner m0 o (write_queue (m_waiters m0) u s)) ≡ guarded m s)
      go (m_pmut m) h _ e ne = elim (Bool-cases (m0 == m)) [
        | inl at ↦
            let same : m0 ≡ m = ground arith in
            absurd (
              not-other s (m_pmut m0) h mine (subst (λ x. s.pmuts.of_mtx x ≡ some h) (sym same) e)
                ne)
        | inr off ↦ (e, rw off refl)
      ]
      go runq_mtx h _ e ne = (e, refl)
      go uthreads_mtx h _ e ne = (e, refl)
      go (ut_pmut t) h _ e ne = (e, refl)
      go (c_pmut c) h _ e ne = (e, refl)

  pub Respects-cond :
      (c0 : CondId) (u : Utqueue)
      → Holds (c_pmut c0) s
      → Respects s (write_queue (uc_waiters c0) u s)
  Respects-cond c0 u mine = record {
    cpu = refl;
    kept = go;
    gave = λ m h e ne. e;
    private = λ l ne. refl;
    owned = λ h. h;
    room = λ h. h;
  }
    where
      go :
          (m : PmutId) (h : LwpId)
          → is_tracked m ≡ true
          → get_pmut s.pmuts m ≡ some h
          → (h == s.cpu) ≡ false
          → (get_pmut s.pmuts m ≡ some h)
            × (guarded m (write_queue (uc_waiters c0) u s) ≡ guarded m s)
      go (c_pmut m) h _ e ne = elim (Bool-cases (c0 == m)) [
        | inl at ↦
            let same : c0 ≡ m = ground arith in
            absurd (
              not-other s (c_pmut c0) h mine (subst (λ x. s.pmuts.of_cond x ≡ some h) (sym same) e)
                ne)
        | inr off ↦ (e, rw off refl)
      ]
      go runq_mtx h _ e ne = (e, refl)
      go uthreads_mtx h _ e ne = (e, refl)
      go (ut_pmut t) h _ e ne = (e, refl)
      go (m_pmut c) h _ e ne = (e, refl)
