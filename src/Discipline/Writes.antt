-- ===== src/Discipline/Writes.antt =====
-- What a single write of an LWP respects.
use multi_process_threading.Base.{
  none, [], Option, ℕ, ◌<◌, ◌≡◌, refl, sym, ap, ◌∙◌, subst, Bool, false, Option, ◌==◌, arith, Bool,
  update, update-same,
}
use multi_process_threading.State.{
  Tid, State, Tid, Uthreads, Lwps, MtxId, PmutId, Pmuts, LwpId, runq_mtx, uthreads_mtx, ut_pmut,
  m_pmut, c_pmut, QueueId, runq_table, ut_waiter, reap_queue, m_waiters, uc_waiters, get_pmut,
}
use multi_process_threading.State.Fifo.{Utqueue}
use multi_process_threading.Queue.{write_queue}
use multi_process_threading.Switch.{set_curlwp, set_curthr}
use multi_process_threading.Mtx.{set_owner}
use multi_process_threading.Discipline.{Shrinks, own_vars, guarded, Holds, Respects, Guards}
use multi_process_threading.Discipline.Parts.{Respects-runqs, Respects-mtx, Respects-cond}

pub Respects-refl : (s : State) → Respects s s
Respects-refl s = record {
  cpu = refl;
  kept = λ m h k e ne. (e, refl);
  gave = λ m h e ne. e;
  private = λ l ne. refl;
  owned = λ h. h;
  room = λ h. h;
}

pub Respects-trans : {a b c : State} → Respects a b → Respects b c → Respects a c
Respects-trans {a} x y = record {
  cpu = y.cpu ∙ x.cpu;
  kept = λ m h k e ne.
      let (e1, g1) = x.kept m h k e ne in
      let (e2, g2) = y.kept m h k e1 (ap (λ c. h == c) x.cpu ∙ ne) in (e2, g2 ∙ g1);
  gave = λ m h e ne. x.gave m h (y.gave m h e (ap (λ c. h == c) x.cpu ∙ ne)) ne;
  private = λ l ne. y.private l (ap (λ c. l == c) x.cpu ∙ ne) ∙ x.private l ne;
  owned = λ h. y.owned (x.owned h);
  room = λ h. y.room (x.room h);
}

-- Nothing that a mutex guards is written.
Respects-plain :
    (s z : State)
    → z.cpu ≡ s.cpu
    → z.pmuts ≡ s.pmuts
    → ((m : PmutId) → guarded m z ≡ guarded m s)
    → ((l : LwpId) → (l == s.cpu) ≡ false → own_vars l z ≡ own_vars l s)
    → Respects s z
Respects-plain s z c p g o = record {
  cpu = c;
  kept = λ m h k e ne. (ap (λ (q : Pmuts). get_pmut q m) p ∙ e, g m);
  gave = λ m h e ne. sym (ap (λ (q : Pmuts). get_pmut q m) p) ∙ e;
  private = o;
  owned = λ h m e.
      ap (λ (x : Utqueue × Option Tid). x.0.tq_waiters) (g (m_pmut m))
      ∙ h m (sym (ap (λ (x : Utqueue × Option Tid). x.1) (g (m_pmut m))) ∙ e);
  room =
      subst (λ (x : (ℕ → Utqueue) × ℕ × ℕ × ℕ). s.lwp_parked_cnt < s.lwp_cnt → x.2 < x.3)
        (sym (g runq_mtx)) (λ h. h);
}

pub Respects-queue :
    (s : State) (q : QueueId) (u : Utqueue)
    → Guards q s
    → Shrinks q s u
    → Respects s (write_queue q u s)
Respects-queue s (runq_table p) u g k = Respects-runqs s _ _ _ _ g (λ h. h)
Respects-queue s (ut_waiter t) u g k = Respects-plain s _ refl refl waiters (λ l ne. refl)
  where
    waiters : (m : PmutId) → guarded m (write_queue (ut_waiter t) u s) ≡ guarded m s
    waiters runq_mtx = refl
    waiters uthreads_mtx = refl
    waiters (ut_pmut x) = refl
    waiters (m_pmut x) = refl
    waiters (c_pmut x) = refl
Respects-queue s reap_queue u g k = Respects-plain s _ refl refl reaps (λ l ne. refl)
  where
    reaps : (m : PmutId) → guarded m (write_queue reap_queue u s) ≡ guarded m s
    reaps runq_mtx = refl
    reaps uthreads_mtx = refl
    reaps (ut_pmut x) = refl
    reaps (m_pmut x) = refl
    reaps (c_pmut x) = refl
Respects-queue s (m_waiters m) u g k =
    subst (λ o. Respects s (record (write_queue (m_waiters m) u s) { m_owner = o }))
      (update-same s.m_owner m) (Respects-mtx s m u (s.m_owner m) g (λ h e. k e (h e)))
Respects-queue s (uc_waiters c) u g k = Respects-cond s c u g

-- No mutex of these guards the threads.
pub Respects-uths :
    (s : State) (u : Uthreads) (t : Tid) → Respects s (record s { uths = u; reaper_thr_id = t })
Respects-uths s u t = Respects-plain s _ refl refl own_threads (λ l ne. refl)
  where
    own_threads : (m : PmutId) → guarded m (record s { uths = u; reaper_thr_id = t }) ≡ guarded m s
    own_threads runq_mtx = refl
    own_threads uthreads_mtx = refl
    own_threads (ut_pmut x) = refl
    own_threads (m_pmut x) = refl
    own_threads (c_pmut x) = refl

-- An LWP writes its own variables.
Respects-lwps :
    (s : State) (l : Lwps)
    → ((c : LwpId) → (c == s.cpu) ≡ false → own_vars c (record s { lwps = l }) ≡ own_vars c s)
    → Respects s (record s { lwps = l })
Respects-lwps s l e = Respects-plain s _ refl refl at_lwps e
  where
    at_lwps : (m : PmutId) → guarded m (record s { lwps = l }) ≡ guarded m s
    at_lwps runq_mtx = refl
    at_lwps uthreads_mtx = refl
    at_lwps (ut_pmut x) = refl
    at_lwps (m_pmut x) = refl
    at_lwps (c_pmut x) = refl

-- Two numbers that differ, in the other order.
==-swap : (a b : ℕ) → (a == b) ≡ false → (b == a) ≡ false
==-swap a b h = ground arith

pub Respects-curlwp :
    (s : State) (q : Option QueueId) (b : Bool) (m : Option PmutId)
    → Respects s (set_curlwp q b m s)
Respects-curlwp s q b m = Respects-lwps s _ (λ c ne. rw (==-swap c s.cpu ne) refl)

pub Respects-curthr : (s : State) (t : Option Tid) → Respects s (set_curthr t s)
Respects-curthr s t = Respects-lwps s _ (λ c ne. rw (==-swap c s.cpu ne) refl)

pub Respects-mask :
    (s : State) (b : Bool)
    → Respects s (record s { lwps = record (s.lwps) { masked = update s.masked s.cpu b } })
Respects-mask s b = Respects-lwps s _ (λ c ne. rw (==-swap c s.cpu ne) refl)

pub Respects-owner :
    (s : State) (m : MtxId) (o : Option Tid)
    → Holds (m_pmut m) s
    → ((s.m_owner m ≡ none → (s.queues.mtx_waiters m).tq_waiters ≡ [])
        → o ≡ none
        → (s.queues.mtx_waiters m).tq_waiters ≡ [])
    → Respects s (set_owner m o s)
Respects-owner s m o g k =
    subst
      (λ q.
        Respects s (record (set_owner m o s) { queues = record (s.queues) { mtx_waiters = q } }))
      (update-same s.queues.mtx_waiters m) (Respects-mtx s m (s.queues.mtx_waiters m) o g k)
