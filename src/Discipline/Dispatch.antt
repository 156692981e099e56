-- ===== src/Discipline/Dispatch.antt =====
-- How an LWP looks for a thread and parks, in keeping with the lock discipline.
use multi_process_threading.Base.{
  ℕ, zero, suc, ◌+◌, refl, Bool, true, false, Option, none, some, List, [], ◌∷◌, ◌==◌,
  if◌then◌else◌, Bool-cases, inl, inr, arith, is_none,
}
use multi_process_threading.State.{State, Tid, PmutId, runq_mtx}
use multi_process_threading.Cmd.{pure, Cmd, bind, ◌>>=◌}
use multi_process_threading.Switch.{
  Next, waits, set_parked, find_thread, park_test, lwp_park, run_thread, lwp_look, lwp_switch,
  lwp_unpark,
}
use multi_process_threading.Discipline.{Held, Op, Handed, Keeps}
use multi_process_threading.Discipline.Parts.{Respects-runqs}
use multi_process_threading.Discipline.Locking.{Op-lock, Op-unlock}
use multi_process_threading.Discipline.Rules.{
  Op-gets, Op-if, Op-pure, Op-return, Op-fail, Op-modify, Op-own, Op-set_curthr, ◌⨾◌, Keeps-after,
  Keeps-failed, Keeps-bind,
}
use multi_process_threading.Discipline.Queues.{Op-utqueue_empty, Op-utqueue_dequeue}
use multi_process_threading.Discipline.Sched.{Op-runq_size}
use multi_process_threading.Discipline.Leave.{lwp_leave-Keeps}

Op-find : (n : ℕ) → Op (runq_mtx ∷ []) (λ _. runq_mtx ∷ []) (find_thread n)
unfolding find_thread
Op-find zero = Op-pure
Op-find (suc n) = Op-utqueue_empty _ ⨾ λ _.
    Op-if _ (Op-find n) (Op-utqueue_dequeue _ (λ s h. h.has.0) ⨾ λ t. Op-runq_size _ ⨾ λ _. Op-pure)

abbrev still : Bool → List PmutId
still true = runq_mtx ∷ []
still false = []

Op-park_test : Op (runq_mtx ∷ []) still park_test
unfolding park_test
Op-park_test = Op-gets ⨾ λ n. Op-if _ (Op-unlock runq_mtx [] ⨾ λ _. Op-return still false) (
    Op-modify (runq_mtx ∷ []) _ (λ s h. Respects-runqs s _ _ _ _ h.has.0 (λ x. omega arith))
      (λ s. refl)
    ⨾ λ _. Op-return still true)

-- The count of parked LWPs grows only where it stays below `lwp_cnt`.
lwp_park-Keeps : (s : State) → Held (runq_mtx ∷ []) s → Keeps (λ b. Held (still b)) s (lwp_park s)
unfolding lwp_park bind
lwp_park-Keeps s h = elim (Bool-cases (is_none (s.ut_curthr s.cpu))) [
  | inl ok ↦ rw ok (elim (Bool-cases ((s.lwp_parked_cnt + 1) == s.lwp_cnt)) [
    | inl stuck ↦ rw stuck (Keeps-failed _ s _)
    | inr more ↦ rw more (
        Keeps-after _ s _ _
          (Respects-runqs s s.queues.runqs s.runq_size (s.lwp_parked_cnt + 1) s.lwp_cnt h.has.0
            (λ x. ground arith))
          (Op-park_test.at (set_parked (s.lwp_parked_cnt + 1) s)
            (record { has = h.has; only = h.only })))
  ])
  | inr bad ↦ rw bad (Keeps-failed _ s _)
]

Op-lwp_park : Op (runq_mtx ∷ []) still lwp_park
Op-lwp_park = record { at = lwp_park-Keeps }

Op-run_thread : (t : Tid) → Op (runq_mtx ∷ []) (λ _. []) (run_thread t)
unfolding run_thread
Op-run_thread t =
    Op-set_curthr (some t) ⨾ λ _. Op-own (λ s. refl) ⨾ λ _. Op-unlock runq_mtx [] ⨾ λ _. Op-pure

-- From `lwp_park`: with `runq_mtx` held, or waiting without it.
Op-go :
    (b : Bool) {c : Cmd Next}
    → Op (runq_mtx ∷ []) (λ _. []) c
    → Op (still b) (λ _. []) (if b then c else pure waits)
Op-go true x = x
Op-go false x = Op-pure

Op-found :
    (t : Option Tid) {c : Cmd Next}
    → Op (runq_mtx ∷ []) (λ _. []) c
    → Op
        (runq_mtx ∷ [])
        (λ _. [])
        (elim t [ some t ↦ run_thread t | none ↦ lwp_park >>= λ go. if go then c else pure waits ])
Op-found none x = Op-lwp_park ⨾ λ b. Op-go b x
Op-found (some t) x = Op-run_thread t

Op-look : (n : ℕ) → Op (runq_mtx ∷ []) (λ _. []) (lwp_look n)
unfolding lwp_look
Op-look zero = Op-fail
Op-look (suc n) = Op-find _ ⨾ λ t. Op-found t (Op-look n)

-- The LWP, from where a thread has left it, and from its wait for one.
pub lwp_switch-Keeps : (s : State) → Handed s → Keeps (λ _. Held []) s (lwp_switch s)
unfolding lwp_switch
lwp_switch-Keeps s h =
    Keeps-bind (λ _. Held (runq_mtx ∷ [])) _ _ (λ a z x. (Op-look 2).at z x) s _
      (lwp_leave-Keeps s h)

pub Op-lwp_unpark : Op [] (λ _. []) lwp_unpark
unfolding lwp_unpark
Op-lwp_unpark = Op-lock runq_mtx [] refl tt ⨾ λ _. Op-park_test ⨾ λ b. Op-go b (Op-look 2)
