-- ===== src/Cmd/Solo.antt =====
-- A command run by one LWP while the others stand still: every lock is granted at once, or refused.
use multi_process_threading.Base.{
  ◌≡◌, refl, sym, ap, ◌∙◌, Option, none, some, ==-self, update_self, update-restore,
}
use multi_process_threading.State.{
  State, LwpId, Pmuts, PmutId, runq_mtx, uthreads_mtx, ut_pmut, m_pmut, c_pmut, get_pmut, put_pmut,
}
use multi_process_threading.Cmd.{
  Run, Cmd, done, locking, unlocked, switching, preemptible, may_tick, exiting, failed, Fault, bind,
  take_from, give_back, pthread_mutex_lock, pthread_mutex_unlock,
}

-- `left s k` is a thread off the LWP, with `k` for its saved context.
pub data Outcome (A : Type 0) : Type 0 where
  returned : A → State → Outcome A
  left : State → (State → Run A) → Outcome A
  ended : State → Outcome A
  aborted : Fault → Outcome A

unfoldable pub solo : {A : Type 0} → Run A → Outcome A
solo (done a s) = returned a s
solo (locking m s k) = solo (k s)
solo (unlocked s k) = solo (k s)
solo (switching s k) = left s k
solo (preemptible s k) = solo (k s)
solo (exiting s) = ended s
solo (failed e) = aborted e

module _ {A B : Type 0} where
  unfoldable pub and_then : Outcome A → (A → Cmd B) → Outcome B
  and_then (returned a s) f = solo (f a s)
  and_then (left s k) f = left s (λ s'. bind (k s') f)
  and_then (ended s) f = ended s
  and_then (aborted e) f = aborted e

  pub solo-bind : (r : Run A) (f : A → Cmd B) → solo (bind r f) ≡ and_then (solo r) f
  unfolding solo and_then bind
  solo-bind (done a s) f = refl
  solo-bind (locking m s k) f = solo-bind (k s) f
  solo-bind (unlocked s k) f = solo-bind (k s) f
  solo-bind (switching s k) f = refl
  solo-bind (preemptible s k) f = solo-bind (k s) f
  solo-bind (exiting s) f = refl
  solo-bind (failed e) f = refl

  -- A command that returns hands its value and state to what follows.
  pub solo-seq :
      (r : Run A) (f : A → Cmd B) {a : A} {s : State}
      → solo r ≡ returned a s
      → solo (bind r f) ≡ solo (f a s)
  unfolding and_then
  solo-seq r f e = rw (solo-bind r f, e)

-- A posix mutex that nobody holds is taken.
pub solo-lock :
    (m : PmutId) (s : State)
    → get_pmut s.pmuts m ≡ none
    → solo (pthread_mutex_lock m s)
      ≡ returned tt (record s { pmuts = put_pmut s.pmuts m (some s.cpu) })
unfolding solo pthread_mutex_lock take_from
solo-lock m s e = ap (λ o. solo (take_from o m s)) e

pub get-put_pmut : (p : Pmuts) (m : PmutId) (o : Option LwpId) → get_pmut (put_pmut p m o) m ≡ o
get-put_pmut p runq_mtx o = refl
get-put_pmut p uthreads_mtx o = refl
get-put_pmut p (ut_pmut t) o = update_self p.of_ut t o
get-put_pmut p (m_pmut m) o = update_self p.of_mtx m o
get-put_pmut p (c_pmut c) o = update_self p.of_cond c o

put-put_pmut :
    (p : Pmuts) (m : PmutId) (o : Option LwpId)
    → get_pmut p m ≡ none
    → put_pmut (put_pmut p m o) m none ≡ p
put-put_pmut p runq_mtx o e = λ i. record p { of_runq = sym e i }
put-put_pmut p uthreads_mtx o e = λ i. record p { of_uthreads = sym e i }
put-put_pmut p (ut_pmut t) o e = λ i. record p { of_ut = update-restore p.of_ut t o none e i }
put-put_pmut p (m_pmut m) o e = λ i. record p { of_mtx = update-restore p.of_mtx m o none e i }
put-put_pmut p (c_pmut c) o e = λ i. record p { of_cond = update-restore p.of_cond c o none e i }

-- A mutex that was free before this LWP took it is released, and nothing else changes.
pub pthread_mutex_unlock_lem :
    (m : PmutId) (s : State) (p : Pmuts)
    → s.pmuts ≡ put_pmut p m (some s.cpu)
    → get_pmut p m ≡ none
    → pthread_mutex_unlock m s ≡ unlocked (record s { pmuts = p }) (done tt)
unfolding pthread_mutex_unlock give_back
pthread_mutex_unlock_lem m s p e free =
    ap (λ o. give_back o m s) held
    ∙ rw (==-self s.cpu) (ap (λ q. unlocked (record s { pmuts = q }) (done tt)) freed)
  where
    held : get_pmut s.pmuts m ≡ some s.cpu
    held = ap (λ q. get_pmut q m) e ∙ get-put_pmut p m (some s.cpu)

    freed : put_pmut s.pmuts m none ≡ p
    freed = ap (λ q. put_pmut q m none) e ∙ put-put_pmut p m (some s.cpu) free

pub solo-unlock :
    (m : PmutId) (s : State) (p : Pmuts)
    → s.pmuts ≡ put_pmut p m (some s.cpu)
    → get_pmut p m ≡ none
    → solo (pthread_mutex_unlock m s) ≡ returned tt (record s { pmuts = p })
unfolding solo
solo-unlock m s p e free = ap solo (pthread_mutex_unlock_lem m s p e free)

-- A command that leaves the LWP takes with it what follows.
pub solo-left :
    {A B : Type 0} (r : Run A) (f : A → Cmd B) {s : State} {k : State → Run A}
    → solo r ≡ left s k
    → solo (bind r f) ≡ left s (λ s'. bind (k s') f)
unfolding and_then
solo-left r f e = rw (solo-bind r f, e)

pub solo-done : {A : Type 0} (a : A) (s : State) → solo (done a s) ≡ returned a s
unfolding solo
solo-done a s = refl

-- A command that does not pause hands its value and state on at once.
pub bind-done :
    {A B : Type 0} {r : Run A} (f : A → Cmd B) {a : A} {s : State} → r ≡ done a s → bind r f ≡ f a s
unfolding bind
bind-done f e = ap (λ r. bind r f) e

-- The interrupt does not come.
pub solo-may_tick : (s : State) → solo (may_tick s) ≡ returned tt s
unfolding solo may_tick
solo-may_tick s = refl

pub solo-failed : {A : Type 0} (e : Fault) → solo {A = A} (failed e) ≡ aborted e
unfolding solo
solo-failed e = refl

pub bind-bind :
    {A B C : Type 0} (r : Run A) (f : A → Cmd B) (g : B → Cmd C)
    → bind (bind r f) g ≡ bind r (λ a s. bind (f a s) g)
unfolding bind
bind-bind (done a s) f g = refl
bind-bind (locking m s k) f g = λ i. locking m s (λ s'. bind-bind (k s') f g i)
bind-bind (unlocked s k) f g = λ i. unlocked s (λ s'. bind-bind (k s') f g i)
bind-bind (switching s k) f g = λ i. switching s (λ s'. bind-bind (k s') f g i)
bind-bind (preemptible s k) f g = λ i. preemptible s (λ s'. bind-bind (k s') f g i)
bind-bind (exiting s) f g = refl
bind-bind (failed e) f g = refl
