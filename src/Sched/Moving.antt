-- ===== src/Sched/Moving.antt =====
-- Proofs about a change of priority under the run queue's invariant.
use multi_process_threading.Base.{
  ℕ, ◌+◌, ◌-◌, ◌≤◌, ◌≡◌, refl, ap, Bool, true, false, List, [], ◌∷◌, ◌++◌, arith, length, has,
  erase, update, update_self, update-restore, subst,
}
use multi_process_threading.State.{Tid, UthreadState, ut_runnable, ut_wait, uth_maxprio}
use multi_process_threading.State.Int.{ℤ, pos}
use multi_process_threading.State.Fifo.{Utqueue}
use multi_process_threading.Queue.Laws.{queue}
use multi_process_threading.Sched.Taking.{AreQueued-take}
use multi_process_threading.Sched.Scheduled.{
  queued, queued-update, is_runnable, AreQueued, AreQueued-prio, AreQueued-add,
}

module _ (q : ℕ → Utqueue) (f : Tid → UthreadState) (g : Tid → ℤ) (l : Tid → Bool) (n : ℕ)
    (a : AreQueued q f g l n) (t : Tid) (p0 p1 : ℕ) (le0 : p0 ≤ uth_maxprio)
    (le1 : p1 ≤ uth_maxprio) (m : has t (q p0).tq_waiters ≡ true) (run : f t ≡ ut_runnable) where
  abbrev pub left_out : ℕ → Utqueue
  left_out = update q p0 (queue (erase t (q p0).tq_waiters))

  some_queued : length (q p0).tq_waiters ≤ queued 8 q
  some_queued = omega (arith, queued-update q p0 (queue []) 8 (omega arith))

  one_queued : 1 ≤ length (q p0).tq_waiters
  one_queued = at_least (q p0).tq_waiters m
    where
      at_least : (xs : List ℕ) → has t xs ≡ true → 1 ≤ length xs
      at_least [] h = absurd cc
      at_least (x ∷ xs) h = omega arith

  taken_out : AreQueued left_out (update f t ut_wait) g (update l t false) (n - 1)
  taken_out = AreQueued-take q f g l n a t p0 le0 m ut_wait refl

  idle : is_runnable (update f t ut_wait t) ≡ false
  idle = ap is_runnable (update_self f t ut_wait)

  put_back :
      AreQueued
        (update left_out p1 (queue ((left_out p1).tq_waiters ++ t ∷ [])))
        (update (update f t ut_wait) t ut_runnable)
        (update g t (pos p1))
        (update (update l t false) t true)
        (n - 1 + 1)
  put_back =
      AreQueued-add _ _ _ _ _ (AreQueued-prio _ _ _ _ _ taken_out t idle (pos p1)) t idle p1 le1
        (update_self g t (pos p1))

  -- A runnable thread leaves its queue for the end of that of its new priority.
  pub AreQueued-move :
      AreQueued
        (update left_out p1 (queue ((left_out p1).tq_waiters ++ t ∷ [])))
        f
        (update g t (pos p1))
        (update (update l t false) t true)
        n
  AreQueued-move =
      subst
        (λ k.
          AreQueued (update left_out p1 (queue ((left_out p1).tq_waiters ++ t ∷ []))) f
            (update g t (pos p1)) (update (update l t false) t true) k)
        (omega (arith, a.size, some_queued, one_queued))
        (subst
          (λ (h : Tid → UthreadState).
            AreQueued (update left_out p1 (queue ((left_out p1).tq_waiters ++ t ∷ []))) h
              (update g t (pos p1)) (update (update l t false) t true) (n - 1 + 1))
          (update-restore f t ut_wait ut_runnable run) put_back)
