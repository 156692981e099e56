-- ===== src/Discipline/Keys.antt =====
-- What an LWP holds that a thread has left, and that leaving the thread pauses nowhere.
use multi_process_threading.Base.{
  ◌≡◌, refl, sym, ap, ◌∙◌, true, false, Option, none, some, List, [], ◌∷◌, ◌==◌, Bool-cases, inl,
  inr, ◌⊎◌, subst, arith,
}
use multi_process_threading.State.{LwpId, get_pmut, State, Tid, PmutId, runq_mtx, QueueId}
use multi_process_threading.Cmd.{
  Run, bind, switching, preemptible, done, failed, locking, unlocked, exiting,
}
use multi_process_threading.Sched.{uthread_runq_enqueue, runq, lwp_release}
use multi_process_threading.Queue.{utqueue_enqueue}
use multi_process_threading.Switch.{enqueue_on, save_on_runq, leave_thread}
use multi_process_threading.Discipline.{is_tracked, In, Holds, Held, Handed, Keeps, is_runq_mtx}

-- No pause, and the LWPs' own data as before.
pub IsQuiet : {A : Type 0} → State → Run A → Type 0
IsQuiet s (done a z) = (z.lwps ≡ s.lwps) × (z.cpu ≡ s.cpu)
IsQuiet s (failed f) = Unit {0}
IsQuiet s (locking m z k) = ⊥
IsQuiet s (unlocked z k) = ⊥
IsQuiet s (switching z k) = ⊥
IsQuiet s (preemptible z k) = ⊥
IsQuiet s (exiting z) = ⊥

module _ (t : Tid) (s : State) where
  enqueue-IsQuiet : (q : QueueId) → IsQuiet s (utqueue_enqueue q t s)
  unfolding IsQuiet utqueue_enqueue bind
  enqueue-IsQuiet q = ground arith

  runq_enqueue-IsQuiet : IsQuiet s (uthread_runq_enqueue t s)
  unfolding IsQuiet uthread_runq_enqueue utqueue_enqueue runq lwp_release bind
  runq_enqueue-IsQuiet = ground arith

pub leave-IsQuiet : (t : Option Tid) (s : State) → IsQuiet s (leave_thread t s)
unfolding IsQuiet leave_thread enqueue_on save_on_runq uthread_runq_enqueue utqueue_enqueue runq
    lwp_release bind
leave-IsQuiet none s = (refl, refl)
leave-IsQuiet (some t) s = ground arith

pub Keeps-quiet :
    {A : Type 0} (Q : A → State → Type 0) (s : State) (r : Run A)
    → Keeps Q s r
    → IsQuiet s r
    → Keeps (λ a z. Q a z × (z.lwps ≡ s.lwps) × (z.cpu ≡ s.cpu)) s r
unfolding Keeps IsQuiet
Keeps-quiet Q s (done a z) k e = (k.0, (k.1, e.0, e.1))
Keeps-quiet Q s (failed f) k e = tt
Keeps-quiet Q s (locking m z g) k e = absurd e
Keeps-quiet Q s (unlocked z g) k e = absurd e
Keeps-quiet Q s (switching z g) k e = absurd e
Keeps-quiet Q s (preemptible z g) k e = absurd e
Keeps-quiet Q s (exiting z) k e = absurd e

-- What an LWP holds that a thread has left: `runq_mtx`, and perhaps the mutex that it is to
-- release.
pub record Keys (s : State) : Type 0 where
  pub pmut : List PmutId
  pub held : Held (runq_mtx ∷ pmut) s
  pub left : (x : PmutId) → In x pmut → s.lwps.pmut s.cpu ≡ some x

Holds-cases :
    (m : PmutId) (s : State) (o : Option LwpId)
    → get_pmut s.pmuts m ≡ o
    → Holds m s ⊎ (Holds m s → ⊥)
Holds-cases m s none e = inr (λ x. let both : none ≡ some s.cpu = sym e ∙ x in absurd cc)
Holds-cases m s (some l) e = elim (Bool-cases (l == s.cpu)) [
  | inl mine ↦ let same : l ≡ s.cpu = ground arith in inl (e ∙ ap some same)
  | inr off ↦ inr (λ x. let both : some l ≡ some s.cpu = sym e ∙ x in ground arith)
]

module _ (s : State) (h : Handed s) where
  no-Keys :
      ((x : PmutId) → is_tracked x ≡ true → Holds x s → s.lwps.pmut s.cpu ≡ some x → ⊥) → Keys s
  no-Keys f = record {
    pmut = [];
    held = record {
      has = (h.runq, refl, tt, tt);
      only = λ x k e. elim (h.only x k e) [ inl y ↦ inl y | inr y ↦ absurd (f x k e y) ];
    };
    left = λ x i. absurd i;
  }

  one-Keys : (m : PmutId) → s.lwps.pmut s.cpu ≡ some m → is_tracked m ≡ true → Holds m s → Keys s
  one-Keys m e k y = record {
    pmut = m ∷ [];
    held = record {
      has = (
        h.runq,
        refl,
        (
          λ same.
              let both : true ≡ false = sym (ap is_runq_mtx (sym same)) ∙ h.pmut m e in absurd cc,
          tt,
        ),
        (y, k, tt, tt),
      );
      only = λ x t u. elim (h.only x t u) [
        | inl z ↦ inl z
        | inr z ↦ let same : m ≡ x = cc (sym e ∙ z) in inr (inl same)
      ];
    };
    left = λ x i. elim i [ inl same ↦ e ∙ ap some same | inr j ↦ absurd j ];
  }

  some-Keys : (m : PmutId) → s.lwps.pmut s.cpu ≡ some m → Keys s
  some-Keys m e = elim (Bool-cases (is_tracked m)) [
    | inl k ↦ elim (Holds-cases m s (get_pmut s.pmuts m) refl) [
      | inl y ↦ one-Keys m e k y
      | inr f ↦
          no-Keys (λ x t u z.
            let same : m ≡ x = cc (sym e ∙ z) in f (subst (λ i. Holds i s) (sym same) u))
    ]
    | inr n ↦ no-Keys (λ x t u z.
        let same : m ≡ x = cc (sym e ∙ z) in
        let both : true ≡ false = sym t ∙ ap is_tracked (sym same) ∙ n in absurd cc)
  ]

  pub Handed-Keys : (o : Option PmutId) → s.lwps.pmut s.cpu ≡ o → Keys s
  Handed-Keys none e = no-Keys (λ x t u z. let both : none ≡ some x = sym e ∙ z in absurd cc)
  Handed-Keys (some m) e = some-Keys m e
