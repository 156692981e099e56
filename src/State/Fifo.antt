-- ===== src/State/Fifo.antt =====
-- uthread_queue.c with a list in the place of the links: what the rest of the library sees of a
-- queue. `Link.Refine` relates the two.
use multi_process_threading.Base.{
  ℕ, ◌+◌, ◌-◌, Bool, Option, none, some, List, [], ◌∷◌, ◌++◌, not, ◌==◌, erase,
}

-- `struct utqueue`, its threads oldest first
pub record Utqueue : Type 0 where
  pub tq_waiters : List ℕ
  pub tq_size : ℕ

abbrev pub empty_queue : Utqueue
empty_queue = record { tq_waiters = []; tq_size = 0 }

unfoldable pub is_empty : Utqueue → Bool
is_empty q = q.tq_size == 0

unfoldable pub enqueue : Utqueue → ℕ → Utqueue
enqueue q thr = record { tq_waiters = q.tq_waiters ++ thr ∷ []; tq_size = q.tq_size + 1 }

-- Whether `b` is the emptiness of a list.
unfoldable pub list_agrees : List ℕ → Bool → Bool
list_agrees [] b = b
list_agrees (_ ∷ _) b = not b

-- What `utqueue_empty` asserts: the list is empty just when the size is 0.
unfoldable pub is_consistent : Utqueue → Bool
unfolding list_agrees
is_consistent q = list_agrees q.tq_waiters (q.tq_size == 0)

unfoldable pub remove : Utqueue → ℕ → Utqueue
remove q thr = record { tq_waiters = erase thr q.tq_waiters; tq_size = q.tq_size - 1 }

-- `list_item` of the last link: the oldest thread.
unfoldable pub oldest : Utqueue → Option ℕ
oldest q = elim q.tq_waiters [ [] ↦ none | x ∷ _ ↦ some x ]

-- The queue without its oldest thread.
unfoldable pub drop_oldest : Utqueue → Utqueue
drop_oldest q = record {
  tq_waiters = elim q.tq_waiters [ [] ↦ [] | _ ∷ xs ↦ xs ];
  tq_size = q.tq_size - 1;
}
