-- ===== src/Queue/Laws.antt =====
-- What the queue commands do to a queue whose size is right.
use multi_process_threading.Base.{
  ℕ, ◌≡◌, ap, ◌∙◌, Bool, true, false, none, some, List, [], ◌∷◌, ◌++◌, arith, length, length-append,
  erase, length-erase, has,
}
use multi_process_threading.State.{State, Tid, QueueId}
use multi_process_threading.State.Fifo
use multi_process_threading.State.Fifo.{Utqueue, list_agrees}
use multi_process_threading.Cmd.{done, bind}
use multi_process_threading.Cmd.Solo.{returned, aborted, solo, solo-seq}
use multi_process_threading.Cmd.{assert_failed}
use multi_process_threading.Queue.{
  queue_of, write_queue, set_linked, take_oldest, utqueue_empty, utqueue_enqueue, utqueue_dequeue,
  utqueue_remove,
}

-- The threads `xs`, oldest first, and their number.
abbrev pub queue : List ℕ → Utqueue
queue xs = record { tq_waiters = xs; tq_size = length xs }

abbrev pub is_nil : List ℕ → Bool
is_nil [] = true
is_nil (_ ∷ _) = false

abbrev pub IsSized : Utqueue → Type 0
IsSized u = u.tq_size ≡ length u.tq_waiters

module _ (q : QueueId) (s : State) where
  pub solo-utqueue_empty :
      (xs : List ℕ) → queue_of q s ≡ queue xs → solo (utqueue_empty q s) ≡ returned (is_nil xs) s
  unfolding solo utqueue_empty bind Fifo.is_consistent Fifo.is_empty list_agrees
  solo-utqueue_empty [] e = rw e
  solo-utqueue_empty (x ∷ xs) e = rw e (ground arith)

  pub utqueue_enqueue_lem :
      (t : Tid) (xs : List ℕ)
      → queue_of q s ≡ queue xs
      → s.linked t ≡ false
      → utqueue_enqueue q t s ≡ done tt (set_linked t true (write_queue q (queue (xs ++ t ∷ [])) s))
  unfolding utqueue_enqueue bind Fifo.enqueue
  utqueue_enqueue_lem t xs e free =
      rw (free, e)
        (ap
          (λ n. done tt (
            set_linked t true
              (write_queue q (record { tq_waiters = xs ++ t ∷ []; tq_size = n }) s)))
          (omega (arith, length-append {0} xs (t ∷ []))))

  pub solo-utqueue_enqueue :
      (t : Tid) (xs : List ℕ)
      → queue_of q s ≡ queue xs
      → s.linked t ≡ false
      → solo (utqueue_enqueue q t s)
        ≡ returned tt (set_linked t true (write_queue q (queue (xs ++ t ∷ [])) s))
  unfolding solo
  solo-utqueue_enqueue t xs e free = ap solo (utqueue_enqueue_lem t xs e free)

  -- A thread that is on a queue cannot be put on another.
  pub solo-utqueue_enqueue_linked :
      (t : Tid) → s.linked t ≡ true → solo (utqueue_enqueue q t s) ≡ aborted assert_failed
  unfolding solo utqueue_enqueue bind
  solo-utqueue_enqueue_linked t e = rw e

  pub solo-utqueue_dequeue_nil :
      queue_of q s ≡ queue [] → solo (utqueue_dequeue q s) ≡ returned none s
  unfolding utqueue_dequeue solo
  solo-utqueue_dequeue_nil e = solo-seq _ _ (solo-utqueue_empty [] e)

  solo-take_oldest :
      (t : Tid) (xs : List ℕ)
      → queue_of q s ≡ queue (t ∷ xs)
      → solo (take_oldest q s) ≡ returned (some t) (set_linked t false (write_queue q (queue xs) s))
  unfolding bind solo take_oldest Fifo.oldest Fifo.drop_oldest
  solo-take_oldest t xs e = rw e (
      ap
        (λ n.
          returned (some t)
            (set_linked t false (write_queue q (record { tq_waiters = xs; tq_size = n }) s)))
        (omega arith))

  pub solo-utqueue_dequeue_cons :
      (t : Tid) (xs : List ℕ)
      → queue_of q s ≡ queue (t ∷ xs)
      → solo (utqueue_dequeue q s)
        ≡ returned (some t) (set_linked t false (write_queue q (queue xs) s))
  unfolding utqueue_dequeue
  solo-utqueue_dequeue_cons t xs e =
      solo-seq _ _ (solo-utqueue_empty (t ∷ xs) e) ∙ solo-take_oldest t xs e

  pub solo-utqueue_remove :
      (t : Tid) (xs : List ℕ)
      → queue_of q s ≡ queue xs
      → s.linked t ≡ true
      → has t xs ≡ true
      → solo (utqueue_remove q t s)
        ≡ returned tt (set_linked t false (write_queue q (queue (erase t xs)) s))
  unfolding solo utqueue_remove bind Fifo.remove
  solo-utqueue_remove t xs e linked m =
      rw (linked, e)
        (ap
          (λ n. returned tt (
            set_linked t false (write_queue q (record { tq_waiters = erase t xs; tq_size = n }) s)))
          (omega (arith, length-erase t xs m)))
