-- ===== src/Discipline/Reads.antt =====
-- Commands that only read: they fail, or leave the state as it is.
use multi_process_threading.Base.{◌≡◌, refl, sym, subst, Bool, true, false, Option, none, some}
use multi_process_threading.State.{State}
use multi_process_threading.Cmd.{Run, Cmd, done, bind, assert, deref, curthr, is_masked}
use multi_process_threading.Discipline.{Keeps}
use multi_process_threading.Discipline.Writes.{Respects-refl}
use multi_process_threading.Discipline.Rules.{Keeps-bind}

pub record Reads {A : Type 0} (s : State) (r : Run A) : Type 0 where
  pub same : Keeps (λ _ z. z ≡ s) s r

module _ {A : Type 0} where
  pub Reads-gets : {s : State} {a : A} → Reads s (done a s)
  unfolding Keeps
  Reads-gets {s} = record { same = (Respects-refl s, refl) }

  pub Reads-deref : {s : State} (o : Option A) → Reads s (deref o s)
  unfolding Keeps
  Reads-deref none = record { same = tt }
  Reads-deref {s} (some a) = record { same = (Respects-refl s, refl) }

module _ {s : State} where
  pub Reads-assert : (b : Bool) → Reads s (assert b s)
  unfolding Keeps
  Reads-assert true = record { same = (Respects-refl s, refl) }
  Reads-assert false = record { same = tt }

  pub Reads-curthr : Reads s (curthr s)
  unfolding curthr
  Reads-curthr = Reads-deref (s.ut_curthr s.cpu)

  pub Reads-is_masked : Reads s (is_masked s)
  unfolding is_masked
  Reads-is_masked = Reads-gets

-- What comes after such a command starts in the same state.
module _ {A B : Type 0} where
  pub read :
      {s : State} {r : Run A} (Q : B → State → Type 0) (f : A → Cmd B)
      → Reads s r
      → ((a : A) → Keeps Q s (f a s))
      → Keeps Q s (bind r f)
  read {s} {r} Q f x k =
      Keeps-bind (λ _ z. z ≡ s) Q f (λ a z e. subst (λ y. Keeps Q y (f a y)) (sym e) (k a)) s r
        x.same
