-- ===== src/System/Kept.antt =====
-- What an LWP has still to do is not disturbed by the steps of others.
use multi_process_threading.Base.{ℕ, ◌≡◌, refl, sym, ◌∙◌, subst, false, ◌==◌, arith}
use multi_process_threading.State.{
  State, LwpId, PmutId, runq_mtx, uthreads_mtx, ut_pmut, m_pmut, c_pmut,
}
use multi_process_threading.Discipline.{guarded, Respects, Left, own_vars}
use multi_process_threading.System.{
  thread, lwp, Doing, asks, ready, exposed, user, parked, absent, here,
}
use multi_process_threading.System.Guarded.{IsGuarded}

pub guarded-here : (m : PmutId) (l : LwpId) (s : State) → guarded m (here l s) ≡ guarded m s
guarded-here runq_mtx l s = refl
guarded-here uthreads_mtx l s = refl
guarded-here (ut_pmut t) l s = refl
guarded-here (m_pmut x) l s = refl
guarded-here (c_pmut x) l s = refl

-- What a step of LWP `l` leaves to another LWP.
module _ (l c : LwpId) (s z : State) (r : Respects (here l s) z) (ne : (c == l) ≡ false) where
  step-Left : Left (here c s) (here c z)
  step-Left = record {
    cpu = refl;
    holds = λ m k h. (r.kept m c k h ne).0;
    only = λ m h. r.gave m c h ne;
    same = λ m k h.
        guarded-here m c z ∙ (r.kept m c k h ne).1 ∙ guarded-here m l s ∙ sym (guarded-here m c s);
    mine = r.private c ne;
  }

  Left-trans : (a b d : State) → Left a b → Left b d → Left a d
  Left-trans a b d x y = record {
    cpu = y.cpu ∙ x.cpu;
    holds = λ m k h. y.holds m k (x.holds m k h);
    only = λ m h. x.only m (y.only m h);
    same = λ m k h. y.same m k (x.holds m k h) ∙ x.same m k h;
    mine = subst (λ i. own_vars i d ≡ own_vars i b) x.cpu y.mine ∙ x.mine;
  }

  pub IsGuarded-other : (d : Doing) → IsGuarded c s d → IsGuarded c z d
  IsGuarded-other (asks x (thread k)) g =
      (λ m t h. g.0 m t (step-Left.only m h), λ s' y. g.1 s' (Left-trans _ _ _ step-Left y))
  IsGuarded-other (asks x (lwp k)) g =
      (λ m t h. g.0 m t (step-Left.only m h), λ s' y. g.1 s' (Left-trans _ _ _ step-Left y))
  IsGuarded-other (ready (thread k)) g = λ s' y. g s' (Left-trans _ _ _ step-Left y)
  IsGuarded-other (ready (lwp k)) g = λ s' y. g s' (Left-trans _ _ _ step-Left y)
  IsGuarded-other (exposed k) g = (λ m t h. g.0 m t (step-Left.only m h), g.1)
  IsGuarded-other (user p) g = λ m t h. g m t (step-Left.only m h)
  IsGuarded-other parked g = λ m t h. g m t (step-Left.only m h)
  IsGuarded-other absent g = λ m t h. g m t (step-Left.only m h)

pub ==-sym : (a b : ℕ) → (a == b) ≡ false → (b == a) ≡ false
==-sym a b h = ground arith
