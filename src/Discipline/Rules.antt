-- ===== src/Discipline/Rules.antt =====
-- Rules by which a `do` block keeps the lock discipline, one for each way to build a command.
use multi_process_threading.Base.{
  ◌≡◌, refl, sym, ap, ◌∙◌, subst, Bool, true, false, Option, none, some, List, [], if◌then◌else◌,
}
use multi_process_threading.State.{State, Tid, Pmuts, PmutId, QueueId, get_pmut}
use multi_process_threading.Cmd.{
  Run, Cmd, done, locking, unlocked, switching, preemptible, exiting, failed, Fault, pure, ◌>>=◌,
  bind, gets, modify, assert, deref, fail, may_tick,
}
use multi_process_threading.Switch.{set_curlwp, set_curthr}
use multi_process_threading.Discipline.{Respects, Only, Held, Keeps, Op}
use multi_process_threading.Discipline.Possession.{Held-same}
use multi_process_threading.Discipline.Writes.{
  Respects-refl, Respects-trans, Respects-uths, Respects-curlwp, Respects-curthr,
}

module _ {A : Type 0} where
  pub Keeps-after :
      (ms : A → State → Type 0) (s z : State) (r : Run A)
      → Respects s z
      → Keeps ms z r
      → Keeps ms s r
  unfolding Keeps
  Keeps-after ms s z (done a x) p k = (Respects-trans p k.0, k.1)
  Keeps-after ms s z (locking m x f) p k = (Respects-trans p k.0, k.1, k.2)
  Keeps-after ms s z (unlocked x f) p k = (Respects-trans p k.0, k.1)
  Keeps-after ms s z (switching x f) p k = (Respects-trans p k.0, k.1, k.2)
  Keeps-after ms s z (preemptible x f) p k = (Respects-trans p k.0, k.1, k.2)
  Keeps-after ms s z (exiting x) p k = Respects-trans p k
  Keeps-after ms s z (failed f) p k = tt

  pub Keeps-map :
      (P Q : A → State → Type 0)
      → ((a : A) (z : State) → P a z → Q a z)
      → (s : State) (r : Run A) → Keeps P s r
      → Keeps Q s r
  unfolding Keeps
  Keeps-map P Q f s (done a x) k = (k.0, f a x k.1)
  Keeps-map P Q f s (locking m x g) k = (k.0, k.1, λ s' l. Keeps-map P Q f s' (g s') (k.2 s' l))
  Keeps-map P Q f s (unlocked x g) k = (k.0, λ s' l. Keeps-map P Q f s' (g s') (k.1 s' l))
  Keeps-map P Q f s (switching x g) k = (k.0, k.1, λ s' n. Keeps-map P Q f s' (g s') (k.2 s' n))
  Keeps-map P Q f s (preemptible x g) k = (k.0, k.1, λ s' n. Keeps-map P Q f s' (g s') (k.2 s' n))
  Keeps-map P Q f s (exiting x) k = k
  Keeps-map P Q f s (failed e) k = tt

  pub Op-pure : {ls : List PmutId} {a : A} → Op ls (λ _. ls) (pure a)
  unfolding Keeps
  Op-pure = record { at = λ s h. (Respects-refl s, h) }

  pub Keeps-failed : (Q : A → State → Type 0) (s : State) (e : Fault) → Keeps Q s (failed e)
  unfolding Keeps
  Keeps-failed Q s e = tt

  pub Op-return : (ms : A → List PmutId) (a : A) → Op (ms a) ms (pure a)
  unfolding Keeps
  Op-return ms a = record { at = λ s h. (Respects-refl s, h) }

  pub Op-fail : {ls : List PmutId} {ms : A → List PmutId} {e : Fault} → Op ls ms (fail e)
  unfolding Keeps
  Op-fail = record { at = λ s h. tt }

  pub Op-gets : {ls : List PmutId} {f : State → A} → Op ls (λ _. ls) (gets f)
  unfolding Keeps
  Op-gets = record { at = λ s h. (Respects-refl s, h) }

  -- A point where the clock interrupt may come: no tracked mutex is held there.
  pub Op-preemptible :
      {ms : A → List PmutId} {k : Cmd A}
      → ((s' : State) → Only [] s' → Keeps (λ a z. Held (ms a) z) s' (k s'))
      → Op [] ms (λ s. preemptible s k)
  unfolding Keeps
  Op-preemptible f = record { at = λ s h. (Respects-refl s, h.only, f) }

  pub Op-deref : {ls : List PmutId} (o : Option A) → Op ls (λ _. ls) (deref o)
  Op-deref none = Op-fail
  Op-deref (some a) = Op-pure

  pub Op-if :
      {ls : List PmutId} {ms : A → List PmutId} (b : Bool) {c d : Cmd A}
      → Op ls ms c
      → Op ls ms d
      → Op ls ms (if b then c else d)
  Op-if true x y = x
  Op-if false x y = y

pub Op-may_tick : Op [] (λ _. []) may_tick
unfolding may_tick
Op-may_tick =
    Op-preemptible λ s' n. (Op-pure {ls = []} {a = tt}).at s' (record { has = tt; only = n })

pub Op-assert : {ls : List PmutId} (b : Bool) → Op ls (λ _. ls) (assert b)
Op-assert true = Op-pure
Op-assert false = Op-fail

module _ {A B : Type 0} where
  pub Keeps-bind :
      (ks : A → State → Type 0) (ms : B → State → Type 0) (f : A → Cmd B)
      → ((a : A) (z : State) → ks a z → Keeps ms z (f a z))
      → (s : State) (r : Run A) → Keeps ks s r
      → Keeps ms s (bind r f)
  unfolding Keeps bind
  Keeps-bind ks ms f n s (done a z) k = Keeps-after ms s z (f a z) k.0 (n a z k.1)
  Keeps-bind ks ms f n s (locking m z g) k =
      (k.0, k.1, λ s' l. Keeps-bind ks ms f n s' (g s') (k.2 s' l))
  Keeps-bind ks ms f n s (unlocked z g) k = (k.0, λ s' l. Keeps-bind ks ms f n s' (g s') (k.1 s' l))
  Keeps-bind ks ms f n s (switching z g) k =
      (k.0, k.1, λ s' x. Keeps-bind ks ms f n s' (g s') (k.2 s' x))
  Keeps-bind ks ms f n s (preemptible z g) k =
      (k.0, k.1, λ s' x. Keeps-bind ks ms f n s' (g s') (k.2 s' x))
  Keeps-bind ks ms f n s (exiting z) k = k
  Keeps-bind ks ms f n s (failed e) k = tt

  Op-bind :
      {ls : List PmutId} {ks : A → List PmutId} {ms : B → List PmutId} {c : Cmd A} {f : A → Cmd B}
      → Op ls ks c
      → ((a : A) → Op (ks a) ms (f a))
      → Op ls ms (c >>= f)
  Op-bind {ks = ks} {ms} {c} {f} x y = record {
    at = λ s h.
        Keeps-bind (λ a. Held (ks a)) (λ b. Held (ms b)) f (λ a z g. (y a).at z g) s (c s)
          (x.at s h);
  }

module _ {A B : Type 0} where
  infixr 3 ◌⨾◌
  pub ◌⨾◌ :
      {ls : List PmutId} {ks : A → List PmutId} {ms : B → List PmutId} {c : Cmd A} {f : A → Cmd B}
      → Op ls ks c
      → ((a : A) → Op (ks a) ms (f a))
      → Op ls ms (c >>= f)
  x ⨾ y = Op-bind x y

-- A write that leaves the posix mutexes alone.
pub Op-modify :
    (ls : List PmutId) (f : State → State)
    → ((s : State) → Held ls s → Respects s (f s))
    → ((s : State) → (f s).pmuts ≡ s.pmuts)
    → Op ls (λ _. ls) (modify f)
unfolding Keeps
Op-modify ls f p e = record {
  at = λ s h.
      let r : Respects s (f s) = p s h in
      (
        r,
        Held-same ls s (f s)
            (λ m k x. ap (λ (q : Pmuts). get_pmut q m) (e s) ∙ x ∙ ap some (sym r.cpu))
            (λ m k x. sym (ap (λ (q : Pmuts). get_pmut q m) (e s)) ∙ x ∙ ap some r.cpu) h,
      );
}

-- A write to threads.
pub Op-own :
    {ls : List PmutId} {f : State → State}
    → ((s : State) → f s ≡ record s { uths = (f s).uths; reaper_thr_id = (f s).reaper_thr_id })
    → Op ls (λ _. ls) (modify f)
Op-own {ls} {f} e =
    Op-modify ls f (λ s h. subst (Respects s) (sym (e s)) (Respects-uths s _ _))
      (λ s. ap (λ (z : State). z.pmuts) (e s))

-- A write to the LWP's own variables.
pub Op-curlwp :
    {ls : List PmutId} (q : Option QueueId) (b : Bool) (m : Option PmutId)
    → Op ls (λ _. ls) (modify (set_curlwp q b m))
Op-curlwp q b m = Op-modify _ _ (λ s h. Respects-curlwp s q b m) (λ s. refl)

pub Op-set_curthr : {ls : List PmutId} (t : Option Tid) → Op ls (λ _. ls) (modify (set_curthr t))
Op-set_curthr t = Op-modify _ _ (λ s h. Respects-curthr s t) (λ s. refl)
