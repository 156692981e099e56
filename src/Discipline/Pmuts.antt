-- ===== src/Discipline/Pmuts.antt =====
-- What taking, giving back and initialising a posix mutex respects.
use multi_process_threading.Base.{
  ℕ, ◌⊎◌, ◌≡◌, ◌≢◌, refl, sym, ap, ◌∙◌, subst, true, false, Option, none, some, ◌==◌, arith, update,
  Bool-cases, inl, inr,
}
use multi_process_threading.State.{
  State, Tid, PmutId, Pmuts, LwpId, runq_mtx, uthreads_mtx, ut_pmut, m_pmut, c_pmut, get_pmut,
  put_pmut,
}
use multi_process_threading.Thread.Alloc.{reset_ut_pmut}
use multi_process_threading.Discipline.{guarded, is_tracked, Respects}

apart {ℓ} : {A : Type ℓ} (f : ℕ → A) (i j : ℕ) (a : A) → (i ≡ j → ⊥) → update f i a j ≡ f j
apart f i j a ne = elim (Bool-cases (i == j)) [
  | inl at ↦ absurd (ne (ground arith))
  | inr off ↦ rw off refl
]

-- A mutex that is free, or this LWP's own, is taken or given back.
pub get-put_other :
    (p : Pmuts) (m x : PmutId) (o : Option LwpId)
    → m ≢ x
    → get_pmut (put_pmut p m o) x ≡ get_pmut p x
get-put_other p runq_mtx runq_mtx o ne = absurd (ne refl)
get-put_other p uthreads_mtx uthreads_mtx o ne = absurd (ne refl)
get-put_other p (ut_pmut a) (ut_pmut b) o ne = apart p.of_ut a b o (λ e. ne (ap ut_pmut e))
get-put_other p (m_pmut a) (m_pmut b) o ne = apart p.of_mtx a b o (λ e. ne (ap m_pmut e))
get-put_other p (c_pmut a) (c_pmut b) o ne = apart p.of_cond a b o (λ e. ne (ap c_pmut e))
get-put_other p runq_mtx _ o ne = refl
get-put_other p uthreads_mtx _ o ne = refl
get-put_other p (ut_pmut a) _ o ne = refl
get-put_other p (m_pmut a) _ o ne = refl
get-put_other p (c_pmut a) _ o ne = refl

put-apart :
    (f : ℕ → Option LwpId) (i j : ℕ) (o : Option LwpId) (h : LwpId)
    → update f i o j ≡ some h
    → (f j ≡ some h) ⊎ ((i ≡ j) × (o ≡ some h))
put-apart f i j o h e = elim (Bool-cases (i == j)) [
  | inl at ↦ inr (ground arith, rw at at e)
  | inr off ↦ inl (rw off at e)
]

put-same : {A B : Type 0} (f : ℕ → PmutId) (i j : ℕ) → A ⊎ ((i ≡ j) × B) → A ⊎ ((f i ≡ f j) × B)
put-same f i j (inl a) = inl a
put-same f i j (inr (e, b)) = inr (ap f e, b)

pub put-get :
    (p : Pmuts) (m x : PmutId) (o : Option LwpId) (h : LwpId)
    → get_pmut (put_pmut p m o) x ≡ some h
    → (get_pmut p x ≡ some h) ⊎ ((m ≡ x) × (o ≡ some h))
put-get p runq_mtx runq_mtx o h e = inr (refl, e)
put-get p uthreads_mtx uthreads_mtx o h e = inr (refl, e)
put-get p (ut_pmut a) (ut_pmut b) o h e = put-same ut_pmut a b (put-apart p.of_ut a b o h e)
put-get p (m_pmut a) (m_pmut b) o h e = put-same m_pmut a b (put-apart p.of_mtx a b o h e)
put-get p (c_pmut a) (c_pmut b) o h e = put-same c_pmut a b (put-apart p.of_cond a b o h e)
put-get p runq_mtx _ o h e = inl e
put-get p uthreads_mtx _ o h e = inl e
put-get p (ut_pmut a) _ o h e = inl e
put-get p (m_pmut a) _ o h e = inl e
put-get p (c_pmut a) _ o h e = inl e

pub Respects-pmut :
    (s : State) (m : PmutId) (o : Option LwpId)
    → ((h : LwpId) → o ≡ some h → (h == s.cpu) ≡ false → ⊥)
    → ((h : LwpId) → get_pmut s.pmuts m ≡ some h → (h == s.cpu) ≡ false → ⊥)
    → Respects s (record s { pmuts = put_pmut s.pmuts m o })
Respects-pmut s m o own mine = record {
  cpu = refl;
  kept = λ x h _ e ne. (
    get-put_other s.pmuts m x o
          (λ same. mine h (subst (λ y. get_pmut s.pmuts y ≡ some h) (sym same) e) ne)
        ∙ e,
    untouched x,
  );
  gave = λ x h e ne. elim (put-get s.pmuts m x o h e) [ inl y ↦ y | inr y ↦ absurd (own h y.1 ne) ];
  private = λ l ne. refl;
  owned = λ h. h;
  room = λ h. h;
}
  where
    untouched : (x : PmutId) → guarded x (record s { pmuts = put_pmut s.pmuts m o }) ≡ guarded x s
    untouched runq_mtx = refl
    untouched uthreads_mtx = refl
    untouched (ut_pmut t) = refl
    untouched (m_pmut t) = refl
    untouched (c_pmut t) = refl

-- `ut_pmut` made anew.
pub Respects-reset : (s : State) (t : Tid) → Respects s (reset_ut_pmut t s)
Respects-reset s t = record {
  cpu = refl;
  kept = go;
  gave = back;
  private = λ l ne. refl;
  owned = λ h. h;
  room = λ h. h;
}
  where
    go :
        (m : PmutId) (h : LwpId)
        → is_tracked m ≡ true
        → get_pmut s.pmuts m ≡ some h
        → (h == s.cpu) ≡ false
        → (get_pmut (reset_ut_pmut t s).pmuts m ≡ some h)
          × (guarded m (reset_ut_pmut t s) ≡ guarded m s)
    go (ut_pmut u) h k e ne = absurd cc
    go runq_mtx h _ e ne = (e, refl)
    go uthreads_mtx h _ e ne = (e, refl)
    go (m_pmut m) h _ e ne = (e, refl)
    go (c_pmut c) h _ e ne = (e, refl)

    back :
        (m : PmutId) (h : LwpId)
        → get_pmut (reset_ut_pmut t s).pmuts m ≡ some h
        → (h == s.cpu) ≡ false
        → get_pmut s.pmuts m ≡ some h
    back m h e ne = elim (put-get s.pmuts (ut_pmut t) m none h e) [
      | inl x ↦ x
      | inr x ↦ let both : none ≡ some h = x.1 in absurd cc
    ]
