-- ===== src/System/Order.antt =====
-- What the order of the posix mutexes gives the whole program: an LWP that is in no call of the
-- library holds none of those that are tracked, and LWPs that wait for them are never all that
-- there are.
use multi_process_threading.Base.{
  ℕ, zero, suc, ◌+◌, ◌<◌, ◌≤◌, ◌≡◌, ◌⊎◌, inl, inr, refl, subst, true, Option, none, some, arith,
}
use multi_process_threading.State.{
  State, LwpId, PmutId, runq_mtx, uthreads_mtx, ut_pmut, m_pmut, c_pmut, get_pmut,
}
use multi_process_threading.Discipline.{is_tracked, rank}
use multi_process_threading.System.{
  Code, thread, lwp, Doing, asks, ready, exposed, user, parked, absent, System,
}
use multi_process_threading.System.Guarded.{IsGuarded, AreGuarded}
use multi_process_threading.System.Exclusion.{IsBegun, begun-AreGuarded, Steps, Steps-AreGuarded}

-- An LWP that runs a thread's own code, is where the clock interrupt may come inside a call, waits
-- for a thread, or has not been made.
abbrev pub IsOutside : Doing → Type 0
IsOutside (exposed k) = Unit {0}
IsOutside (user p) = Unit {0}
IsOutside parked = Unit {0}
IsOutside absent = Unit {0}
IsOutside _ = ⊥

-- The LWP waits for no posix mutex: it may go on, or asks for one that is free.
abbrev pub CanGo : System → LwpId → Type 0
CanGo σ l =
    ((c : Code) × (σ.at l ≡ ready c))
    ⊎ ((m : PmutId) × (c : Code) × (σ.at l ≡ asks m c) × (get_pmut σ.mem.pmuts m ≡ none))

rank-tracked : (m : PmutId) → 0 < rank m → is_tracked m ≡ true
rank-tracked runq_mtx h = refl
rank-tracked uthreads_mtx h = refl
rank-tracked (m_pmut m) h = refl
rank-tracked (c_pmut c) h = refl
rank-tracked (ut_pmut t) h = absurd (omega (arith, h))

rank_le : (m : PmutId) → rank m ≤ 3
rank_le runq_mtx = omega arith
rank_le uthreads_mtx = omega arith
rank_le (m_pmut m) = omega arith
rank_le (c_pmut c) = omega arith
rank_le (ut_pmut t) = omega arith

outside-Only :
    (l : LwpId) (s : State) (d : Doing)
    → IsGuarded l s d
    → IsOutside d
    → (m : PmutId) → is_tracked m ≡ true
    → get_pmut s.pmuts m ≡ some l
    → ⊥
outside-Only l s (exposed c) g o m k e = g.0 m k e
outside-Only l s (user p) g o m k e = g m k e
outside-Only l s parked g o m k e = g m k e
outside-Only l s absent g o m k e = g m k e
outside-Only l s (asks x c) g o m k e = absurd o
outside-Only l s (ready c) g o m k e = absurd o

asks-lt :
    (l : LwpId) (s : State) (x : PmutId) (c : Code)
    → IsGuarded l s (asks x c)
    → (m : PmutId) → is_tracked m ≡ true
    → get_pmut s.pmuts m ≡ some l
    → rank m < rank x
asks-lt l s x (thread k) g m t e = g.0 m t e
asks-lt l s x (lwp k) g m t e = g.0 m t e

module _ (σ : System) (a : AreGuarded σ) where
  -- The holder of a mutex goes on, or asks for one of a higher rank.
  holder-CanGo :
      (m : PmutId)
      → is_tracked m ≡ true
      → ((h : LwpId) (x : PmutId) (c : Code)
          → rank m < rank x
          → σ.at h ≡ asks x c
          → (l : LwpId) × CanGo σ l)
      → (h : LwpId) → get_pmut σ.mem.pmuts m ≡ some h
      → (d : Doing) → σ.at h ≡ d
      → (l : LwpId) × CanGo σ l
  holder-CanGo m k again h f (ready c) e = (h, inl (c, e))
  holder-CanGo m k again h f (asks x c) e =
      again h x c (asks-lt h σ.mem x c (subst (IsGuarded h σ.mem) e (a.doing h)) m k f) e
  holder-CanGo m k again h f (exposed c) e =
      absurd (outside-Only h σ.mem (exposed c) (subst (IsGuarded h σ.mem) e (a.doing h)) tt m k f)
  holder-CanGo m k again h f (user p) e =
      absurd (outside-Only h σ.mem (user p) (subst (IsGuarded h σ.mem) e (a.doing h)) tt m k f)
  holder-CanGo m k again h f parked e =
      absurd (outside-Only h σ.mem parked (subst (IsGuarded h σ.mem) e (a.doing h)) tt m k f)
  holder-CanGo m k again h f absent e =
      absurd (outside-Only h σ.mem absent (subst (IsGuarded h σ.mem) e (a.doing h)) tt m k f)

  asker-CanGo :
      (l : LwpId) (m : PmutId) (c : Code)
      → is_tracked m ≡ true
      → ((h : LwpId) (x : PmutId) (c : Code)
          → rank m < rank x
          → σ.at h ≡ asks x c
          → (l : LwpId) × CanGo σ l)
      → σ.at l ≡ asks m c
      → (o : Option LwpId) → get_pmut σ.mem.pmuts m ≡ o
      → (h : LwpId) × CanGo σ h
  asker-CanGo l m c k again e none f = (l, inr (m, c, e, f))
  asker-CanGo l m c k again e (some h) f = holder-CanGo m k again h f (σ.at h) refl

  -- From one that waits to the holder, to what that one waits for, with rising ranks.
  waits-CanGo :
      (n : ℕ) (l : LwpId) (m : PmutId) (c : Code)
      → 4 ≤ n + rank m
      → is_tracked m ≡ true
      → σ.at l ≡ asks m c
      → (h : LwpId) × CanGo σ h
  waits-CanGo zero l m c b k e = absurd (omega (arith, b, rank_le m))
  waits-CanGo (suc n) l m c b k e =
      asker-CanGo l m c k
        (λ h x d lt at.
          waits-CanGo n h x d (omega (arith, b, lt)) (rank-tracked x (omega (arith, lt))) at)
        e (get_pmut σ.mem.pmuts m) refl

module _ {σ τ : System} (b : IsBegun σ) (r : Steps σ τ) where
  -- A program that has made no step yet, with all posix mutexes but the `ut_pmut`s free, comes,
  -- by any steps of its LWPs in any order, to a state where an LWP runs a thread's own code, is
  -- at a point of a call where the clock interrupt may come, waits in `lwp_park` for a thread, or
  -- has not been made. Then it holds none of these: `runq_mtx`, `uthreads_mtx`, the `m_pmut` of a
  -- mutex, the `pmut` of a condition.
  pub steps-release :
      (l : LwpId) (m : PmutId)
      → IsOutside (τ.at l)
      → is_tracked m ≡ true
      → ¬ (get_pmut τ.mem.pmuts m ≡ some l)
  steps-release l m o k e =
      outside-Only l τ.mem (τ.at l) ((Steps-AreGuarded (begun-AreGuarded σ b) r).doing l) o m k e

  -- A program that has made no step yet, with all posix mutexes but the `ut_pmut`s free, comes,
  -- by any steps of its LWPs in any order, to a state where an LWP asks for `runq_mtx`,
  -- `uthreads_mtx`, the `m_pmut` of a mutex or the `pmut` of a condition. Then there is an LWP
  -- that waits for no posix mutex: it may go on, or asks for one that is free.
  pub steps-CanGo :
      (l : LwpId) (m : PmutId) (c : Code)
      → is_tracked m ≡ true
      → τ.at l ≡ asks m c
      → (h : LwpId) × CanGo τ h
  steps-CanGo l m c k e =
      waits-CanGo τ (Steps-AreGuarded (begun-AreGuarded σ b) r) 4 l m c (omega arith) k e
