-- ===== src/Discipline/Queues.antt =====
-- The calls of uthread_queue.c keep the lock discipline, where what guards the queue is held.
use multi_process_threading.Base.{
  ℕ, ◌≡◌, refl, Bool, true, false, Option, none, some, List, [], ◌∷◌, ◌==◌, Bool-cases, inl, inr,
}
use multi_process_threading.State.{
  State, Tid, PmutId, QueueId, runq_table, ut_waiter, reap_queue, m_waiters, uc_waiters,
}
use multi_process_threading.State.Fifo
use multi_process_threading.State.Fifo.{Utqueue, empty_queue}
use multi_process_threading.Cmd.{bind}
use multi_process_threading.Queue.{
  queue_of, set_linked, write_queue, utqueue_init, utqueue_empty, utqueue_enqueue, take_oldest,
  utqueue_dequeue, utqueue_remove,
}
use multi_process_threading.Discipline.{Held, Guards, Adds, Shrinks, Respects, Keeps, Op}
use multi_process_threading.Discipline.Writes.{
  Respects-refl, Respects-trans, Respects-queue, Respects-uths,
}
use multi_process_threading.Discipline.Possession.{Held-same}
use multi_process_threading.Discipline.Rules.{
  Op-gets, Op-assert, Op-pure, Op-modify, ◌⨾◌, Keeps-map,
}

adds-Shrinks :
    (q : QueueId) (s : State) (t : ℕ) → Adds q s → Shrinks q s (Fifo.enqueue (queue_of q s) t)
adds-Shrinks (m_waiters m) s t a = λ e n. absurd (a e)
adds-Shrinks (runq_table p) s t a = tt
adds-Shrinks (ut_waiter x) s t a = tt
adds-Shrinks reap_queue s t a = tt
adds-Shrinks (uc_waiters c) s t a = tt

drop-nil : (u : Utqueue) → u.tq_waiters ≡ [] → (Fifo.drop_oldest u).tq_waiters ≡ []
unfolding Fifo.drop_oldest
drop-nil u e = rw e refl

drop-Shrinks : (q : QueueId) (s : State) → Shrinks q s (Fifo.drop_oldest (queue_of q s))
drop-Shrinks (m_waiters m) s = λ e n. drop-nil (s.queues.mtx_waiters m) n
drop-Shrinks (runq_table p) s = tt
drop-Shrinks (ut_waiter t) s = tt
drop-Shrinks reap_queue s = tt
drop-Shrinks (uc_waiters c) s = tt

agrees-nil : (xs : List ℕ) (b : Bool) → Fifo.list_agrees xs b ≡ true → b ≡ true → xs ≡ []
unfolding Fifo.list_agrees
agrees-nil [] b a e = refl
agrees-nil (x ∷ xs) true a e = let both : false ≡ true = a in absurd cc
agrees-nil (x ∷ xs) false a e = let both : false ≡ true = e in absurd cc

empty-nil : (u : Utqueue) → Fifo.is_consistent u ≡ true → Fifo.is_empty u ≡ true → u.tq_waiters ≡ []
unfolding Fifo.is_consistent Fifo.is_empty
empty-nil u c e = agrees-nil u.tq_waiters (u.tq_size == 0) c e

-- What is found empty has no waiters.
abbrev pub Found : List PmutId → QueueId → Bool → State → Type 0
Found ls q b z = Held ls z × (b ≡ true → (queue_of q z).tq_waiters ≡ [])

-- NULL comes only of an empty queue.
abbrev pub Taken : List PmutId → QueueId → Option Tid → State → Type 0
Taken ls q o z = Held ls z × (o ≡ none → (queue_of q z).tq_waiters ≡ [])

module _ {ls : List PmutId} where
  pub Op-utqueue_empty : (q : QueueId) → Op ls (λ _. ls) (utqueue_empty q)
  unfolding utqueue_empty
  Op-utqueue_empty q = Op-gets ⨾ λ _. Op-assert _ ⨾ λ _. Op-pure

  pub Op-utqueue_init :
      (q : QueueId)
      → ((s : State) → Held ls s → Guards q s)
      → ((s : State) → Shrinks q s empty_queue)
      → Op ls (λ _. ls) (utqueue_init q)
  unfolding utqueue_init
  Op-utqueue_init q g k =
      Op-modify ls _ (λ s h. Respects-queue s q empty_queue (g s h) (k s)) (λ s. refl)

  pub empty-Keeps : (q : QueueId) (s : State) → Held ls s → Keeps (Found ls q) s (utqueue_empty q s)
  unfolding utqueue_empty bind Keeps
  empty-Keeps q s h = elim (Bool-cases (Fifo.is_consistent (queue_of q s))) [
    | inl ok ↦ rw ok (Respects-refl s, (h, λ e. empty-nil (queue_of q s) ok e))
    | inr bad ↦ rw bad tt
  ]

  module _ (q : QueueId) (s : State) (h : Held ls s) (g : Guards q s) where
    written :
        (t : Tid) (b : Bool) (u : Utqueue)
        → Shrinks q s u
        → Respects s (set_linked t b (write_queue q u s))
    written t b u k =
        Respects-trans (Respects-queue s q u g k) (Respects-uths (write_queue q u s) _ _)

    pub enqueue-Keeps : Adds q s → (t : Tid) → Keeps (λ _. Held ls) s (utqueue_enqueue q t s)
    unfolding utqueue_enqueue bind Keeps
    enqueue-Keeps a t = elim (Bool-cases (s.linked t)) [
      | inl on ↦ rw on tt
      | inr off ↦ rw off (
        written t true (Fifo.enqueue (queue_of q s) t) (adds-Shrinks q s t a),
        Held-same ls s _ (λ m k x. x) (λ m k x. x) h,
      )
    ]

    remove-Keeps :
        ((u : Utqueue) → Shrinks q s u) → (t : Tid) → Keeps (λ _. Held ls) s (utqueue_remove q t s)
    unfolding utqueue_remove bind Keeps
    remove-Keeps k t = elim (Bool-cases (s.linked t)) [
      | inl on ↦ rw on (
        written t false (Fifo.remove (queue_of q s) t) (k _),
        Held-same ls s _ (λ m k x. x) (λ m k x. x) h,
      )
      | inr off ↦ rw off tt
    ]

    take-Keeps :
        (o : Option Tid) → Fifo.oldest (queue_of q s) ≡ o → Keeps (Taken ls q) s (take_oldest q s)
    unfolding take_oldest bind Keeps
    take-Keeps none e = rw e tt
    take-Keeps (some t) e = rw e (
      written t false (Fifo.drop_oldest (queue_of q s)) (drop-Shrinks q s),
      (
        Held-same ls s _ (λ m k x. x) (λ m k x. x) h,
        λ n. let both : some t ≡ none = n in absurd cc,
      ),
    )

    pub dequeue-Keeps : Keeps (Taken ls q) s (utqueue_dequeue q s)
    unfolding utqueue_dequeue utqueue_empty bind Keeps
    dequeue-Keeps = elim (Bool-cases (Fifo.is_consistent (queue_of q s))) [
      | inl ok ↦ rw ok (elim (Bool-cases (Fifo.is_empty (queue_of q s))) [
        | inl e ↦ rw e (Respects-refl s, (h, λ n. empty-nil (queue_of q s) ok e))
        | inr ne ↦ rw ne (take-Keeps (Fifo.oldest (queue_of q s)) refl)
      ])
      | inr bad ↦ rw bad tt
    ]

  module _ (q : QueueId) (g : (s : State) → Held ls s → Guards q s) where
    pub Op-utqueue_enqueue :
        ((s : State) → Held ls s → Adds q s) → (t : Tid) → Op ls (λ _. ls) (utqueue_enqueue q t)
    Op-utqueue_enqueue a t = record { at = λ s h. enqueue-Keeps q s h (g s h) (a s h) t }

    pub Op-utqueue_remove :
        ((s : State) (u : Utqueue) → Shrinks q s u)
        → (t : Tid) → Op ls (λ _. ls) (utqueue_remove q t)
    Op-utqueue_remove k t = record { at = λ s h. remove-Keeps q s h (g s h) (k s) t }

    pub Op-utqueue_dequeue : Op ls (λ _. ls) (utqueue_dequeue q)
    Op-utqueue_dequeue = record {
      at = λ s h.
          Keeps-map (Taken ls q) (λ _. Held ls) (λ a z x. x.0) s _ (dequeue-Keeps q s h (g s h));
    }
