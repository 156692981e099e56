-- ===== src/System/Exclusion.antt =====
-- What the lock discipline gives the whole program: while an LWP holds a posix mutex, no other LWP
-- writes what the mutex guards; and the count of parked LWPs stays below that of the LWPs.
use multi_process_threading.Base.{
  ℕ, zero, suc, arith, ltb, Bool-cases, ◌<◌, ◌≡◌, inl, inr, refl, sym, ◌∙◌, subst, true, false,
  none, some, [], ◌==◌,
}
use multi_process_threading.State.{
  State, Tid, LwpId, PmutId, runq_mtx, uthreads_mtx, ut_pmut, m_pmut, c_pmut, get_pmut,
}
use multi_process_threading.Cmd.{Cmd}
use multi_process_threading.Thread.Start.{lwp_start}
use multi_process_threading.Discipline.{IsOwned, Only, guarded, is_tracked, own_vars}
use multi_process_threading.Discipline.LwpStart.{lwp_start-Keeps}
use multi_process_threading.System.{
  Prog, enter, enter_reaper, thread, lwp, Doing, ready, absent, System, here, Step,
}
use multi_process_threading.Thread.Start.Laws.{IsStarted, start-IsStarted}
use multi_process_threading.System.Launch.{uth_lwps, places, contexts, launch}
use multi_process_threading.System.Guarded.{Op-enter, Op-enter_reaper, IsGuarded, AreGuarded, Ends}
use multi_process_threading.System.Kept.{guarded-here}
use multi_process_threading.System.Steps.{Stays, Step-Stays, Stays-AreGuarded}
use multi_process_threading.System.Kept.{==-sym}

-- A context that no thread has run in: that of a program's thread, or of the reaper.
pub data IsNew : Cmd Prog → Type 0 where
  new_thread : (p : Prog) {k : Cmd Prog} → k ≡ enter p → IsNew k
  new_reaper : (turns rounds : ℕ) {k : Cmd Prog} → k ≡ enter_reaper turns rounds → IsNew k

-- An LWP that `pthread_create` has just made, one about to enter its first thread, or none.
pub data IsIdle : Doing → Type 0 where
  not_made : {d : Doing} → d ≡ absent → IsIdle d
  starts : {d : Doing} → d ≡ ready (lwp lwp_start) → IsIdle d
  enters : (k : Cmd Prog) {d : Doing} → IsNew k → d ≡ ready (thread k) → IsIdle d

-- A program that has made no step yet, while the posix mutexes are free.
pub record IsBegun (σ : System) : Type 0 where
  pub idle : (l : LwpId) → IsIdle (σ.at l)
  pub new : (t : Tid) → IsNew (σ.saved t)
  pub free : (m : PmutId) → is_tracked m ≡ true → get_pmut σ.mem.pmuts m ≡ none

new-Ends : (k : Cmd Prog) → IsNew k → (s : State) → Only [] s → Ends s (k s)
new-Ends k (new_thread p e) s h =
    subst (λ (c : Cmd Prog). Ends s (c s)) (sym e)
      ((Op-enter p).at s (record { has = tt; only = h }))
new-Ends k (new_reaper w n e) s h =
    subst (λ (c : Cmd Prog). Ends s (c s)) (sym e)
      ((Op-enter_reaper w n).at s (record { has = tt; only = h }))

idle-IsGuarded :
    (l : LwpId) (m : State) (d : Doing) → Only [] (here l m) → IsIdle d → IsGuarded l m d
idle-IsGuarded l m d f (not_made e) = subst (IsGuarded l m) (sym e) f
idle-IsGuarded l m d f (starts e) =
    subst (IsGuarded l m) (sym e) (λ s' x. lwp_start-Keeps s' (λ y t h. f y t (x.only y h)))
idle-IsGuarded l m d f (enters k n e) =
    subst (IsGuarded l m) (sym e) (λ s' x. new-Ends k n s' (λ y t h. f y t (x.only y h)))

pub begun-AreGuarded : (σ : System) → IsBegun σ → AreGuarded σ
begun-AreGuarded σ b = record {
  doing = λ l.
      idle-IsGuarded l σ.mem (σ.at l)
        (λ m t h. let both : none ≡ some l = sym (b.free m t) ∙ h in absurd cc) (b.idle l);
  contexts = λ t s' n. new-Ends (σ.saved t) (b.new t) s' n;
}

places-IsIdle : (p : Prog) (l : LwpId) → IsIdle (places p l)
unfolding places
places-IsIdle p zero = enters (enter p) (new_thread p refl) refl
places-IsIdle p (suc l) = elim (Bool-cases (ltb (suc l) uth_lwps)) [
  | inl made ↦ rw made (starts refl)
  | inr more ↦ rw more (not_made refl)
]

contexts-IsNew : (p : Prog) (turns rounds : ℕ) (t : Tid) → IsNew (contexts p turns rounds t)
unfolding contexts
contexts-IsNew p w n zero = new_thread p refl
contexts-IsNew p w n (suc t) = new_reaper w n refl

started-free :
    {z : State} → IsStarted z → (m : PmutId) → is_tracked m ≡ true → get_pmut z.pmuts m ≡ none
started-free i runq_mtx k = i.free.0
started-free i uthreads_mtx k = i.free.1
started-free i (ut_pmut t) k = absurd cc
started-free i (m_pmut m) k = i.free.2 m
started-free i (c_pmut c) k = i.free.3 c

launch-IsBegun : (s : State) (p : Prog) (turns rounds : ℕ) → IsBegun (launch s p turns rounds)
unfolding launch
launch-IsBegun s p w n = record {
  idle = places-IsIdle p;
  new = contexts-IsNew p w n;
  free = started-free (start-IsStarted s).2;
}

-- Steps of any LWPs, in any order.
pub data Steps (σ : System) : System → Type 0 where
  stop : Steps σ σ
  go_on : {τ υ : System} (l : LwpId) → Steps σ τ → Step l τ υ → Steps σ υ

-- Steps of LWPs other than `h`.
pub data Others (h : LwpId) (σ : System) : System → Type 0 where
  nothing : Others h σ σ
  another : {τ υ : System} (l : LwpId) → Others h σ τ → (l == h) ≡ false → Step l τ υ → Others h σ υ

pub Steps-AreGuarded : {σ τ : System} → AreGuarded σ → Steps σ τ → AreGuarded τ
Steps-AreGuarded a stop = a
Steps-AreGuarded a (go_on {τ} {υ} l r st) =
    let b : AreGuarded τ = Steps-AreGuarded a r in Stays-AreGuarded l τ b υ (Step-Stays l τ b υ st)

-- What `h` finds as it left it.
pub record IsKept (h : LwpId) (m : PmutId) (σ τ : System) : Type 0 where
  pub held : get_pmut τ.mem.pmuts m ≡ some h
  pub part : guarded m τ.mem ≡ guarded m σ.mem

module _ (h : LwpId) {σ : System} (a : AreGuarded σ) where
  others-AreGuarded : {τ : System} → Others h σ τ → AreGuarded τ
  others-AreGuarded nothing = a
  others-AreGuarded (another {τ} {υ} l r ne st) =
      let b : AreGuarded τ = others-AreGuarded r in Stays-AreGuarded l τ b υ (Step-Stays l τ b υ st)

  others-IsKept :
      (m : PmutId) {τ : System}
      → is_tracked m ≡ true
      → get_pmut σ.mem.pmuts m ≡ some h
      → Others h σ τ
      → IsKept h m σ τ
  others-IsKept m k e nothing = record { held = e; part = refl }
  others-IsKept m k e (another {τ} {υ} l r ne st) =
      let x : IsKept h m σ τ = others-IsKept m k e r in
      let b : AreGuarded τ = others-AreGuarded r in
      let y : Stays l τ υ = Step-Stays l τ b υ st in
      let (e', g) = y.respects.kept m h k x.held (==-sym l h ne) in
      record { held = e'; part = g ∙ guarded-here m l τ.mem ∙ x.part }

  others-own : {τ : System} → Others h σ τ → own_vars h τ.mem ≡ own_vars h σ.mem
  others-own nothing = refl
  others-own (another {τ} {υ} l r ne st) =
      let y : Stays l τ υ = Step-Stays l τ (others-AreGuarded r) υ st in
      y.respects.private h (==-sym l h ne) ∙ others-own r

module _ {σ τ : System} (b : IsBegun σ) (r : Steps σ τ) where
  -- A program that has made no step yet, with all posix mutexes but the `ut_pmut`s free, comes,
  -- by any steps of its LWPs in any order, to a state where an LWP holds `runq_mtx`,
  -- `uthreads_mtx`, the `m_pmut` of a mutex or the `pmut` of a condition. Whatever steps the
  -- other LWPs make from there, it still holds it, and what that mutex guards is as it left it:
  -- the run queues, `runq_size` and the LWP counts; `PrevID`; the waiters and the owner of the
  -- mutex; the waiters of the condition.
  pub steps-exclude :
      (h : LwpId) (m : PmutId) {υ : System}
      → is_tracked m ≡ true
      → get_pmut τ.mem.pmuts m ≡ some h
      → Others h τ υ
      → IsKept h m τ υ
  steps-exclude h m k e o = others-IsKept h (Steps-AreGuarded (begun-AreGuarded σ b) r) m k e o

  -- A program that has made no step yet, with all posix mutexes but the `ut_pmut`s free, comes,
  -- by any steps of its LWPs in any order, to some state. From there the steps of other LWPs
  -- leave an LWP's own variables as they are: its `ut_curthr`, what the last `uthread_switch`
  -- left in its `curlwp`, and its signal mask.
  pub steps-private : (h : LwpId) {υ : System} → Others h τ υ → own_vars h υ.mem ≡ own_vars h τ.mem
  steps-private h o = others-own h (Steps-AreGuarded (begun-AreGuarded σ b) r) o

module _ {σ : System} (a : AreGuarded σ) where
  kept-IsOwned : {τ : System} → Steps σ τ → IsOwned σ.mem → IsOwned τ.mem
  kept-IsOwned stop o = o
  kept-IsOwned (go_on {τ} {υ} l r st) o =
      (Step-Stays l τ (Steps-AreGuarded a r) υ st).respects.owned (kept-IsOwned r o)

-- A program that has made no step yet, with all posix mutexes but the `ut_pmut`s free, starts where
-- nobody waits for a mutex without an owner. After any steps of its LWPs in any order it is still
-- so that a mutex without an owner has no waiters.
pub steps-IsOwned : {σ τ : System} → IsBegun σ → IsOwned σ.mem → Steps σ τ → IsOwned τ.mem
steps-IsOwned b o r = kept-IsOwned (begun-AreGuarded _ b) r o

steps_room :
    {σ τ : System}
    → AreGuarded σ
    → Steps σ τ
    → σ.mem.lwp_parked_cnt < σ.mem.lwp_cnt
    → τ.mem.lwp_parked_cnt < τ.mem.lwp_cnt
steps_room a stop h = h
steps_room a (go_on {τ} {υ} l r st) h =
    (Step-Stays l τ (Steps-AreGuarded a r) υ st).respects.room (steps_room a r h)

-- In every state that a program reaches from the end of `uthread_start` on, with its eight LWPs and
-- with any steps in any order, fewer LWPs are counted as parked than there are.
pub parked-lt-lwps :
    (s : State) (p : Prog) (turns rounds : ℕ) {τ : System}
    → Steps (launch s p turns rounds) τ
    → τ.mem.lwp_parked_cnt < τ.mem.lwp_cnt
unfolding launch
parked-lt-lwps s p w n r =
    let (c, k) = (start-IsStarted s).2.counts in
    steps_room (begun-AreGuarded _ (launch-IsBegun s p w n)) r (omega (arith, c, k))
