-- ===== src/Cmd/Reach.antt =====
-- The points that a command comes to while the other LWPs stand still.
use multi_process_threading.Base.{◌≡◌, ap, subst}
use multi_process_threading.State.{State, PmutId}
use multi_process_threading.Cmd.{
  Run, Cmd, done, locking, unlocked, switching, preemptible, exiting, failed, bind,
}
use multi_process_threading.Cmd.Solo.{Outcome, returned, left, ended, aborted, solo}

module _ {A : Type 0} where
  -- From the first point the command comes to the second.
  pub data Reaches : Run A → Run A → Type 0 where
    here : {r : Run A} → Reaches r r
    granted :
        {m : PmutId} {s : State} {k : State → Run A} {r : Run A}
        → Reaches (k s) r
        → Reaches (locking m s k) r
    goes_on :
        {s : State} {k : State → Run A} {r : Run A} → Reaches (k s) r → Reaches (unlocked s k) r
    undisturbed :
        {s : State} {k : State → Run A} {r : Run A} → Reaches (k s) r → Reaches (preemptible s k) r

  run_of : Outcome A → Run A
  run_of (returned a s) = done a s
  run_of (left s k) = switching s k
  run_of (ended s) = exiting s
  run_of (aborted f) = failed f

  pub returned-Reaches :
      (r : Run A) {a : A} {s : State} → solo r ≡ returned a s → Reaches r (done a s)
  unfolding solo run_of
  returned-Reaches (done b z) e = subst (Reaches (done b z)) (ap run_of e) here
  returned-Reaches (locking m z k) e = granted (returned-Reaches (k z) e)
  returned-Reaches (unlocked z k) e = goes_on (returned-Reaches (k z) e)
  returned-Reaches (switching z k) e = absurd cc
  returned-Reaches (preemptible z k) e = undisturbed (returned-Reaches (k z) e)
  returned-Reaches (exiting z) e = absurd cc
  returned-Reaches (failed f) e = absurd cc

  pub Reaches-trans : {r r' r'' : Run A} → Reaches r r' → Reaches r' r'' → Reaches r r''
  Reaches-trans here y = y
  Reaches-trans (granted x) y = granted (Reaches-trans x y)
  Reaches-trans (goes_on x) y = goes_on (Reaches-trans x y)
  Reaches-trans (undisturbed x) y = undisturbed (Reaches-trans x y)

module _ {A B : Type 0} where
  pub Reaches-bind : {r r' : Run A} (f : A → Cmd B) → Reaches r r' → Reaches (bind r f) (bind r' f)
  unfolding bind
  Reaches-bind f here = here
  Reaches-bind f (granted x) = granted (Reaches-bind f x)
  Reaches-bind f (goes_on x) = goes_on (Reaches-bind f x)
  Reaches-bind f (undisturbed x) = undisturbed (Reaches-bind f x)

  -- A command that returns is passed by.
  pub Reaches-seq :
      (r : Run A) (f : A → Cmd B) {a : A} {s : State} {r' : Run B}
      → solo r ≡ returned a s
      → Reaches (f a s) r'
      → Reaches (bind r f) r'
  unfolding bind
  Reaches-seq r f e x = Reaches-trans (Reaches-bind f (returned-Reaches r e)) x

-- The command asks for the mutex `m`, in the state `z`.
unfoldable pub AsksFor : {A : Type 0} → PmutId → State → Run A → Type 0
AsksFor m z (locking m' s k) = (m' ≡ m) × (s ≡ z)
AsksFor m z (done a s) = ⊥
AsksFor m z (unlocked s k) = ⊥
AsksFor m z (switching s k) = ⊥
AsksFor m z (preemptible s k) = ⊥
AsksFor m z (exiting s) = ⊥
AsksFor m z (failed f) = ⊥

pub AsksFor-bind :
    {A B : Type 0} (m : PmutId) (z : State) (r : Run A) (f : A → Cmd B)
    → AsksFor m z r
    → AsksFor m z (bind r f)
unfolding AsksFor bind
AsksFor-bind m z (locking m' s k) f x = x
AsksFor-bind m z (done a s) f x = absurd x
AsksFor-bind m z (unlocked s k) f x = absurd x
AsksFor-bind m z (switching s k) f x = absurd x
AsksFor-bind m z (preemptible s k) f x = absurd x
AsksFor-bind m z (exiting s) f x = absurd x
AsksFor-bind m z (failed e) f x = absurd x
