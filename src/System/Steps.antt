-- ===== src/System/Steps.antt =====
-- Every step of the program keeps the lock discipline.
use multi_process_threading.Base.{
  ◌≡◌, refl, sym, ap, ◌∙◌, subst, [], false, Option, none, some, ◌==◌, arith, update, update_self,
  Bool-cases, inl, inr,
}
use multi_process_threading.State.{State, Tid, LwpId, PmutId, get_pmut}
use multi_process_threading.Cmd.{
  Run, Cmd, done, locking, unlocked, switching, preemptible, exiting, failed, pure, ◌>>◌,
}
use multi_process_threading.Switch.{Next, runs, waits, lwp_switch, lwp_unpark}
use multi_process_threading.Prio.{clock_interrupt}
use multi_process_threading.Discipline.{Only, Ranked, Respects, Handed, Left, Keeps}
use multi_process_threading.Discipline.Writes.{Respects-refl}
use multi_process_threading.Discipline.Rules.{Keeps-after}
use multi_process_threading.Discipline.Dispatch.{lwp_switch-Keeps, Op-lwp_unpark}
use multi_process_threading.System.{
  Prog, exec, enter, Code, thread, lwp, Doing, asks, ready, exposed, user, parked, absent, System,
  here, becomes, settle_lwp, save_context, settle_thread, settle, is_others, step_at, step, tick_at,
  tick, Step, goes, ticks, makes,
}
use multi_process_threading.System.Guarded.{
  IsFree, Op-exec, Op-enter, Op-tick, Op-interrupted, Ends, Follows, IsGuarded, AreGuarded,
}
use multi_process_threading.System.Kept.{IsGuarded-other, ==-sym}

-- One step: what it does to the memory, to its LWP and to the contexts. The other LWPs stand still.
pub record Stays (l : LwpId) (σ τ : System) : Type 0 where
  pub respects : Respects (here l σ.mem) τ.mem
  pub doing : IsGuarded l τ.mem (τ.at l)
  pub contexts : (t : Tid) (s' : State) → Only [] s' → Ends s' (τ.saved t s')
  pub others : (c : LwpId) → (l == c) ≡ false → τ.at c ≡ σ.at c

here_self : (l : LwpId) (z : State) → z.cpu ≡ l → here l z ≡ z
here_self l z e = λ i. record z { cpu = sym e i }

module _ {A : Type 0} (l : LwpId) (z : State) (e : z.cpu ≡ l) (k : Cmd A) where
  Follows-Left : ((s' : State) → Left z s' → Ends s' (k s')) → Follows l z k
  Follows-Left f = λ s' x. f s' (subst (λ y. Left y s') (here_self l z e) x)

module _ (l : LwpId) (z : State) (e : z.cpu ≡ l) where
  Only-here : Only [] z → Only [] (here l z)
  Only-here n m t y = n m t (y ∙ ap some (sym e))

  Ranked-here : (x : PmutId) → Ranked x z → Ranked x (here l z)
  Ranked-here x n m t y = n m t (y ∙ ap some (sym e))

becomes-Stays :
    (l : LwpId) (σ : System) (z : State) (d : Doing)
    → Respects (here l σ.mem) z
    → IsGuarded l z d
    → ((t : Tid) (s' : State) → Only [] s' → Ends s' (σ.saved t s'))
    → Stays l σ (becomes σ l z d)
becomes-Stays l σ z d r g c = record {
  respects = r;
  doing = subst (λ x. IsGuarded l z x) (sym (update_self σ.at l d)) g;
  contexts = c;
  others = λ x ne. rw ne refl;
}

module _ (l : LwpId) (σ : System)
    (c : (t : Tid) (s' : State) → Only [] s' → Ends s' (σ.saved t s')) where
  settle_lwp-Stays :
      (r : Run Next) {τ : System} → Ends (here l σ.mem) r → settle_lwp l σ r ≡ some τ → Stays l σ τ
  unfolding settle_lwp Keeps
  settle_lwp-Stays (done (runs t) z) k e = subst (Stays l σ) (cc) (
      becomes-Stays l σ z (ready (thread (σ.saved t))) k.0
        (Follows-Left l z k.0.cpu (σ.saved t) (λ s' x. c t s' (λ m y h. k.1.only m y (x.only m h))))
        c)
  settle_lwp-Stays (done waits z) k e =
      subst (Stays l σ) (cc) (becomes-Stays l σ z parked k.0 (Only-here l z k.0.cpu k.1.only) c)
  settle_lwp-Stays (locking m z f) k e = subst (Stays l σ) (cc) (
      becomes-Stays l σ z (asks m (lwp f)) k.0
        (Ranked-here l z k.0.cpu m k.1, Follows-Left l z k.0.cpu f k.2) c)
  settle_lwp-Stays (unlocked z f) k e =
      subst (Stays l σ) (cc)
        (becomes-Stays l σ z (ready (lwp f)) k.0 (Follows-Left l z k.0.cpu f k.1) c)
  settle_lwp-Stays (switching z f) k e = absurd cc
  settle_lwp-Stays (preemptible z f) k e = absurd cc
  settle_lwp-Stays (exiting z) k e = absurd cc
  settle_lwp-Stays (failed f) k e = absurd cc

  saved-Ends :
      (t : Tid) (f : Cmd Prog)
      → ((s' : State) → Only [] s' → Ends s' (f s'))
      → (u : Tid) (s' : State) → Only [] s'
      → Ends s' (update σ.saved t f u s')
  saved-Ends t f g u s' n = elim (Bool-cases (t == u)) [
    | inl at ↦ rw at (g s' n)
    | inr off ↦ rw off (c u s' n)
  ]

module _ (l : LwpId) (σ : System)
    (c : (t : Tid) (s' : State) → Only [] s' → Ends s' (σ.saved t s')) where
  save_context-Stays :
      (o : Option Tid) (z : State) (f : Cmd Prog) {τ : System}
      → Respects (here l σ.mem) z
      → Handed z
      → ((s' : State) → Only [] s' → Ends s' (f s'))
      → save_context l σ o z f ≡ some τ
      → Stays l σ τ
  unfolding save_context
  save_context-Stays none z f r h g e = absurd cc
  save_context-Stays (some t) z f {τ} r h g e = record {
    respects = x.respects;
    doing = x.doing;
    contexts = x.contexts;
    others = x.others;
  }
    where
      x : Stays l (record σ { saved = update σ.saved t f }) τ
      x =
          settle_lwp-Stays l (record σ { saved = update σ.saved t f }) (saved-Ends l σ c t f g) _
            (Keeps-after _ (here l σ.mem) z (lwp_switch z) r (lwp_switch-Keeps z h)) e

  settle_thread-Stays :
      (r : Run Prog) {τ : System}
      → Ends (here l σ.mem) r
      → settle_thread l σ r ≡ some τ
      → Stays l σ τ
  unfolding settle_thread Keeps
  settle_thread-Stays (done p z) k e =
      subst (Stays l σ) (cc) (becomes-Stays l σ z (user p) k.0 (Only-here l z k.0.cpu k.1.only) c)
  settle_thread-Stays (locking m z f) k e = subst (Stays l σ) (cc) (
      becomes-Stays l σ z (asks m (thread f)) k.0
        (Ranked-here l z k.0.cpu m k.1, Follows-Left l z k.0.cpu f k.2) c)
  settle_thread-Stays (unlocked z f) k e =
      subst (Stays l σ) (cc)
        (becomes-Stays l σ z (ready (thread f)) k.0 (Follows-Left l z k.0.cpu f k.1) c)
  settle_thread-Stays (switching z f) k e = save_context-Stays (z.ut_curthr z.cpu) z f k.0 k.1 k.2 e
  settle_thread-Stays (preemptible z f) k e =
      subst (Stays l σ) (cc)
        (becomes-Stays l σ z (exposed f) k.0 (Only-here l z k.0.cpu k.1, k.2) c)
  settle_thread-Stays (exiting z) k e = absurd cc
  settle_thread-Stays (failed f) k e = absurd cc

  Left-refl : (s : State) → Left s s
  Left-refl s = record {
    cpu = refl;
    holds = λ m k h. h;
    only = λ m h. h;
    same = λ m k h. refl;
    mine = refl;
  }

  settle-Stays :
      (d : Code) {τ : System} → IsGuarded l σ.mem (ready d) → settle l σ d ≡ some τ → Stays l σ τ
  unfolding settle
  settle-Stays (thread k) g e =
      settle_thread-Stays (k (here l σ.mem)) (g (here l σ.mem) (Left-refl (here l σ.mem))) e
  settle-Stays (lwp k) g e =
      settle_lwp-Stays l σ c (k (here l σ.mem)) (g (here l σ.mem) (Left-refl (here l σ.mem))) e

  asked-ready : (m : PmutId) (d : Code) → IsGuarded l σ.mem (asks m d) → IsGuarded l σ.mem (ready d)
  asked-ready m (thread k) g = g.1
  asked-ready m (lwp k) g = g.1

  free-Follows : {A : Type 0} (k : Cmd A) → IsFree k → Only [] (here l σ.mem) → Follows l σ.mem k
  free-Follows k o n = λ s' x. o.at s' (record { has = tt; only = λ m t y. n m t (x.only m y) })

  step_at-Stays :
      (d : Doing) {τ : System} → IsGuarded l σ.mem d → step_at l σ d ≡ some τ → Stays l σ τ
  unfolding step_at
  step_at-Stays (asks m d) g e = elim (Bool-cases (is_others l (get_pmut σ.mem.pmuts m))) [
    | inl busy ↦ absurd (cc (rw busy at e))
    | inr free ↦ settle-Stays d (asked-ready m d g) (rw free at e)
  ]
  step_at-Stays (ready d) g e = settle-Stays d g e
  step_at-Stays (exposed k) g e =
      settle-Stays (thread k) (λ s' x. g.1 s' (λ m t y. g.0 m t (x.only m y))) e
  step_at-Stays (user p) g e =
      settle-Stays (thread (exec p)) (free-Follows (exec p) (Op-exec p) g) e
  step_at-Stays parked g e =
      settle-Stays (lwp lwp_unpark) (free-Follows lwp_unpark Op-lwp_unpark g) e
  step_at-Stays absent g e = absurd cc

  tick_at-Stays :
      (d : Doing) {τ : System} → IsGuarded l σ.mem d → tick_at l σ d ≡ some τ → Stays l σ τ
  unfolding tick_at
  tick_at-Stays (user p) g e = elim (Bool-cases (σ.mem.masked l)) [
    | inl off ↦ absurd (cc (rw off at e))
    | inr on ↦
        settle-Stays (thread (clock_interrupt >> pure p))
          (free-Follows (clock_interrupt >> pure p) (Op-tick p) g) (rw on at e)
  ]
  tick_at-Stays (exposed k) g e = elim (Bool-cases (σ.mem.masked l)) [
    | inl off ↦ absurd (cc (rw off at e))
    | inr on ↦
        settle-Stays (thread (clock_interrupt >> (λ s. preemptible s k)))
          (free-Follows (clock_interrupt >> (λ s. preemptible s k)) (Op-interrupted k g.1) g.0)
          (rw on at e)
  ]
  tick_at-Stays (asks m d) g e = absurd cc
  tick_at-Stays (ready d) g e = absurd cc
  tick_at-Stays parked g e = absurd cc
  tick_at-Stays absent g e = absurd cc

module _ (l : LwpId) (σ : System) (a : AreGuarded σ) where
  pub Stays-AreGuarded : (τ : System) → Stays l σ τ → AreGuarded τ
  Stays-AreGuarded τ x = record {
    doing = λ c. elim (Bool-cases (l == c)) [
      | inl at ↦
          let same : l ≡ c = ground arith in subst (λ i. IsGuarded i τ.mem (τ.at i)) same x.doing
      | inr off ↦
          subst (IsGuarded c τ.mem) (sym (x.others c off))
            (IsGuarded-other l c σ.mem τ.mem x.respects (==-sym l c off) (σ.at c) (a.doing c))
    ];
    contexts = x.contexts;
  }

  pub Step-Stays : (τ : System) → Step l σ τ → Stays l σ τ
  unfolding step tick
  Step-Stays τ (goes e) = step_at-Stays l σ a.contexts (σ.at l) (a.doing l) e
  Step-Stays τ (ticks e) = tick_at-Stays l σ a.contexts (σ.at l) (a.doing l) e
  Step-Stays _ (makes t p) = record {
    respects = Respects-refl (here l σ.mem);
    doing = a.doing l;
    contexts =
        saved-Ends l σ a.contexts t (enter p)
          (λ s' n. (Op-enter p).at s' (record { has = tt; only = n }));
    others = λ c ne. refl;
  }
