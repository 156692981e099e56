-- ===== src/Sched/Scheduled.antt =====
-- The run queue's invariant: the run queues hold the threads in UT_RUNNABLE, each on the queue of its
-- priority, once.
use multi_process_threading.Base.{
  ℕ, zero, suc, ◌+◌, ◌≤◌, ◌<◌, ◌≡◌, ◌∙◌, inl, inr, refl, sym, ap, Bool, true, false, ◌&&◌, [], ◌∷◌,
  ◌++◌, arith, ◌==◌, length, length-append, has, has-append, Distinct, Distinct-snoc, update,
  Bool-cases, ==-self, subst,
}
use multi_process_threading.State.{State, Tid, UthreadState, ut_runnable, uth_maxprio}
use multi_process_threading.State.Int.{ℤ, pos, eqz}
use multi_process_threading.State.Fifo.{Utqueue}
use multi_process_threading.Queue.Laws.{queue}
use multi_process_threading.Sched.{is_state}

-- The threads on the first `k` run queues.
unfoldable pub queued : ℕ → (ℕ → Utqueue) → ℕ
queued zero q = 0
queued (suc k) q = length (q k).tq_waiters + queued k q

abbrev pub is_runnable : UthreadState → Bool
is_runnable u = is_state u ut_runnable

pub record AreQueued (q : ℕ → Utqueue) (f : Tid → UthreadState) (g : Tid → ℤ) (l : Tid → Bool)
    (n : ℕ) : Type 0 where
  pub sized : (p : ℕ) → p ≤ uth_maxprio → q p ≡ queue (q p).tq_waiters
  pub distinct : (p : ℕ) → p ≤ uth_maxprio → Distinct (q p).tq_waiters
  pub on_queue :
      (p : ℕ)
      → p ≤ uth_maxprio
      → (t : Tid) → has t (q p).tq_waiters ≡ (is_runnable (f t) && eqz (g t) (pos p))
  pub legal : (t : Tid) → is_runnable (f t) ≡ true → (p : ℕ) × (p ≤ uth_maxprio) × (g t ≡ pos p)
  pub linked : (t : Tid) → is_runnable (f t) ≡ true → l t ≡ true
  pub size : n ≡ queued (suc uth_maxprio) q

abbrev pub Scheduled : State → Type 0
Scheduled s = AreQueued s.queues.runqs s.ut_state s.ut_prio s.linked s.runq_size

queued-above :
    (k : ℕ) (q : ℕ → Utqueue) (p : ℕ) (u : Utqueue) → k ≤ p → queued k (update q p u) ≡ queued k q
unfolding queued
queued-above zero q p u h = refl
queued-above (suc k) q p u h = ground (arith, queued-above k q p u)

pub queued-update :
    (q : ℕ → Utqueue) (p : ℕ) (u : Utqueue) (k : ℕ)
    → p < k
    → length (q p).tq_waiters + queued k (update q p u) ≡ length u.tq_waiters + queued k q
unfolding queued
queued-update q p u zero h = absurd (omega (arith, h))
queued-update q p u (suc k) h = elim (Bool-cases (p == k)) [
  | inl at ↦
      let same : p ≡ k = ground arith in
      subst
        (λ j.
          length (q p).tq_waiters + (length (update q p u j).tq_waiters + queued j (update q p u))
          ≡ length u.tq_waiters + (length (q j).tq_waiters + queued j q))
        same (rw (==-self p) (omega (arith, queued-above p q p u (omega arith))))
  | inr off ↦ rw off (omega (arith, queued-update q p u k (ground arith)))
]

module _ (q : ℕ → Utqueue) (f : Tid → UthreadState) (g : Tid → ℤ) (l : Tid → Bool) (n : ℕ)
    (a : AreQueued q f g l n) (t : Tid) where
  module _ (out : is_runnable (f t) ≡ false) where
    runnable-update :
        (v : UthreadState)
        → is_runnable v ≡ false
        → (w : Tid) → is_runnable (update f t v w) ≡ is_runnable (f w)
    runnable-update v o w = elim (Bool-cases (t == w)) [
      | inl at ↦
          let same : t ≡ w = ground arith in rw at (o ∙ sym out ∙ ap (λ x. is_runnable (f x)) same)
      | inr off ↦ rw off refl
    ]

    -- A thread that is not runnable may change in any way but become runnable.
    pub AreQueued-state :
        (v : UthreadState) → is_runnable v ≡ false → AreQueued q (update f t v) g l n
    AreQueued-state v o = record {
      sized = a.sized;
      distinct = a.distinct;
      on_queue = λ p le w.
          a.on_queue p le w ∙ ap (λ b. b && eqz (g w) (pos p)) (sym (runnable-update v o w));
      legal = λ w h. a.legal w (sym (runnable-update v o w) ∙ h);
      linked = λ w h. a.linked w (sym (runnable-update v o w) ∙ h);
      size = a.size;
    }

    pub AreQueued-link : (b : Bool) → AreQueued q f g (update l t b) n
    AreQueued-link b = record {
      sized = a.sized;
      distinct = a.distinct;
      on_queue = a.on_queue;
      legal = a.legal;
      linked = λ w h. elim (Bool-cases (t == w)) [
        | inl at ↦
            let same : t ≡ w = ground arith in
            let both : true ≡ false = sym h ∙ ap (λ x. is_runnable (f x)) (sym same) ∙ out in
            absurd cc
        | inr off ↦ rw off (a.linked w h)
      ];
      size = a.size;
    }

    pub AreQueued-prio : (z : ℤ) → AreQueued q f (update g t z) l n
    AreQueued-prio z = record {
      sized = a.sized;
      distinct = a.distinct;
      on_queue = λ p le w. elim (Bool-cases (t == w)) [
        | inl at ↦
            let same : t ≡ w = ground arith in
            let idle : is_runnable (f w) ≡ false = ap (λ x. is_runnable (f x)) (sym same) ∙ out in
            a.on_queue p le w ∙ rw idle refl
        | inr off ↦ rw off (a.on_queue p le w)
      ];
      legal = λ w h. elim (Bool-cases (t == w)) [
        | inl at ↦
            let same : t ≡ w = ground arith in
            let both : true ≡ false = sym h ∙ ap (λ x. is_runnable (f x)) (sym same) ∙ out in
            absurd cc
        | inr off ↦ rw off (a.legal w h)
      ];
      linked = a.linked;
      size = a.size;
    }

    module _ (p : ℕ) (le : p ≤ uth_maxprio) (e : g t ≡ pos p) where
      added : ℕ → Utqueue
      added = update q p (queue ((q p).tq_waiters ++ t ∷ []))

      added_self : (r : ℕ) → r ≤ uth_maxprio → has t (added r).tq_waiters ≡ eqz (g t) (pos r)
      unfolding added
      added_self r k = elim (Bool-cases (p == r)) [
        | inl at ↦ rw at (
            has-append t (q p).tq_waiters (t ∷ [])
            ∙ ground arith
            ∙ sym (ap (λ z. eqz z (pos r)) e ∙ at))
        | inr off ↦ rw off (a.on_queue r k t ∙ rw out (sym (ap (λ z. eqz z (pos r)) e ∙ off)))
      ]

      added-other :
          (r : ℕ) (w : Tid) → (t == w) ≡ false → has w (added r).tq_waiters ≡ has w (q r).tq_waiters
      unfolding added
      added-other r w ne = elim (Bool-cases (p == r)) [
        | inl at ↦
            let same : p ≡ r = ground arith in
            rw at (
              ground (arith, has-append w (q p).tq_waiters (t ∷ []))
              ∙ ap (λ j. has w (q j).tq_waiters) same)
        | inr off ↦ rw off refl
      ]

      -- It becomes runnable, at the end of the run queue of its priority.
      pub AreQueued-add :
          AreQueued
            (update q p (queue ((q p).tq_waiters ++ t ∷ [])))
            (update f t ut_runnable)
            g
            (update l t true)
            (n + 1)
      unfolding added
      AreQueued-add = record {
        sized = λ r k. elim (Bool-cases (p == r)) [
          | inl at ↦ rw at refl
          | inr off ↦ rw off (a.sized r k)
        ];
        distinct = λ r k. elim (Bool-cases (p == r)) [
          | inl at ↦
              rw at (
                Distinct-snoc (q p).tq_waiters t (a.distinct p le)
                  (a.on_queue p le t ∙ rw out refl))
          | inr off ↦ rw off (a.distinct r k)
        ];
        on_queue = λ r k w. elim (Bool-cases (t == w)) [
          | inl at ↦
              let same : t ≡ w = ground arith in
              rw at
                (subst (λ x. has x (added r).tq_waiters ≡ eqz (g x) (pos r)) same (added_self r k))
          | inr off ↦ rw off (added-other r w off ∙ a.on_queue r k w)
        ];
        legal = λ w h. elim (Bool-cases (t == w)) [
          | inl at ↦ let same : t ≡ w = ground arith in (p, le, ap g (sym same) ∙ e)
          | inr off ↦ a.legal w (rw off at h)
        ];
        linked = λ w h. elim (Bool-cases (t == w)) [
          | inl at ↦ rw at refl
          | inr off ↦ rw off (a.linked w (rw off at h))
        ];
        size = omega (
          arith,
          a.size,
          length-append {0} (q p).tq_waiters (t ∷ []),
          queued-update q p (queue ((q p).tq_waiters ++ t ∷ [])) 8 (omega arith),
        );
      }
