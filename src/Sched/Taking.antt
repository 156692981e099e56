-- ===== src/Sched/Taking.antt =====
-- Proofs about a thread that leaves its run queue, under the invariant.
use multi_process_threading.Base.{
  ℕ, ◌-◌, ◌≤◌, ◌≡◌, ◌∙◌, inl, inr, refl, sym, ap, Bool, true, false, ◌&&◌, arith, ◌==◌, has,
  Distinct-erase, erase, length-erase, has-erase_self, has-erase_ne, update, Bool-cases, subst,
}
use multi_process_threading.State.{Tid, UthreadState, uth_maxprio}
use multi_process_threading.State.Int.{ℤ, pos, eqz}
use multi_process_threading.State.Fifo.{Utqueue}
use multi_process_threading.Queue.Laws.{queue}
use multi_process_threading.Sched.Scheduled.{queued-update, is_runnable, AreQueued}

module _ (q : ℕ → Utqueue) (f : Tid → UthreadState) (g : Tid → ℤ) (l : Tid → Bool) (n : ℕ)
    (a : AreQueued q f g l n) (t : Tid) where
  module _ (p : ℕ) (le : p ≤ uth_maxprio) (m : has t (q p).tq_waiters ≡ true) where
    on_p : (is_runnable (f t) && eqz (g t) (pos p)) ≡ true
    on_p = sym (a.on_queue p le t) ∙ m

    elsewhere : (r : ℕ) → r ≤ uth_maxprio → (p == r) ≡ false → has t (q r).tq_waiters ≡ false
    elsewhere r k ne =
        let (p', le', e') = a.legal t (ground (arith, on_p)) in
        let same : eqz (pos p') (pos p) ≡ true =
          ap (λ z. eqz z (pos p)) (sym e') ∙ ground (arith, on_p) in
        a.on_queue r k t ∙ rw e' (ground (arith, Bool-cases (is_runnable (f t))))

    rest : ℕ → Utqueue
    rest = update q p (queue (erase t (q p).tq_waiters))

    rest_self : (r : ℕ) → r ≤ uth_maxprio → has t (rest r).tq_waiters ≡ false
    unfolding rest
    rest_self r k = elim (Bool-cases (p == r)) [
      | inl at ↦ rw at (has-erase_self t (q p).tq_waiters (a.distinct p le))
      | inr off ↦ rw off (elsewhere r k off)
    ]

    rest-other :
        (r : ℕ) (w : Tid) → (t == w) ≡ false → has w (rest r).tq_waiters ≡ has w (q r).tq_waiters
    unfolding rest
    rest-other r w ne = elim (Bool-cases (p == r)) [
      | inl at ↦
          let same : p ≡ r = ground arith in
          rw at (
            has-erase_ne w t (q p).tq_waiters (ground arith)
            ∙ ap (λ j. has w (q j).tq_waiters) same)
      | inr off ↦ rw off refl
    ]

    -- A thread leaves its run queue, and is runnable no more.
    pub AreQueued-take :
        (v : UthreadState)
        → is_runnable v ≡ false
        → AreQueued
            (update q p (queue (erase t (q p).tq_waiters)))
            (update f t v)
            g
            (update l t false)
            (n - 1)
    unfolding rest
    AreQueued-take v o = record {
      sized = λ r k. elim (Bool-cases (p == r)) [
        | inl at ↦ rw at refl
        | inr off ↦ rw off (a.sized r k)
      ];
      distinct = λ r k. elim (Bool-cases (p == r)) [
        | inl at ↦ rw at (Distinct-erase t (q p).tq_waiters (a.distinct p le))
        | inr off ↦ rw off (a.distinct r k)
      ];
      on_queue = λ r k w. elim (Bool-cases (t == w)) [
        | inl at ↦
            let same : t ≡ w = ground arith in
            rw (at, o) (subst (λ x. has x (rest r).tq_waiters ≡ false) same (rest_self r k))
        | inr off ↦ rw off (rest-other r w off ∙ a.on_queue r k w)
      ];
      legal = λ w h. a.legal w (before w h).0;
      linked = λ w h. rw (before w h).1 (a.linked w (before w h).0);
      size = omega (
        arith,
        a.size,
        length-erase t (q p).tq_waiters m,
        queued-update q p (queue (erase t (q p).tq_waiters)) 8 (omega arith),
      );
    }
      where
        before :
            (w : Tid)
            → is_runnable (update f t v w) ≡ true
            → (is_runnable (f w) ≡ true) × ((t == w) ≡ false)
        before w h = elim (Bool-cases (t == w)) [
          | inl at ↦ let both : true ≡ false = sym (rw at at h) ∙ o in absurd cc
          | inr off ↦ (rw off at h, off)
        ]
