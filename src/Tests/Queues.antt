-- ===== src/Tests/Queues.antt =====
-- The queue theorems at a queue of two threads.
use multi_process_threading.Base.{◌≡◌, refl, [], ◌∷◌, arith, update}
use multi_process_threading.State.Fifo
use multi_process_threading.State.Fifo.{Utqueue, empty_queue}
use multi_process_threading.Queue.Laws.{queue}
use multi_process_threading.Link.{Memory, ok, utqueue_enqueue, utqueue_dequeue, utqueue_remove}
use multi_process_threading.Link.Chain.{IsRing, IsUnlinked}
use multi_process_threading.Link.Refine.{
  Represents, enqueue-Represents, dequeue-Represents, remove-Represents,
}
use multi_process_threading.Link.Frame.{Apart}

-- The queue at 10 holds 1 and 2, the queue at 20 holds 5.
abbrev two : Memory
two = record {
  links = record {
    l_next = update (update (update (update (update (λ _. 0) 1 10) 2 1) 10 2) 5 20) 20 5;
    l_prev = update (update (update (update (update (λ _. 0) 10 1) 1 2) 2 10) 20 5) 5 20;
  };
  tq_size = update (update (λ _. 0) 10 2) 20 1;
}

two-IsRing : IsRing two.links 10 (1 ∷ 2 ∷ [])
two-IsRing = record {
  chain = (refl, refl, (refl, refl, (refl, refl)));
  distinct = (refl, (refl, (refl, tt)));
  valid = refl;
}

other-IsRing : IsRing two.links 20 (5 ∷ [])
other-IsRing = record {
  chain = (refl, refl, (refl, refl));
  distinct = (refl, (refl, tt));
  valid = refl;
}

two-Represents : Represents two 10 (queue (1 ∷ 2 ∷ []))
two-Represents = record { ring = two-IsRing; size = refl; sized = refl }

enqueue-Represents_example :
    (m' : Memory) × (utqueue_enqueue 10 3 two ≡ ok m')
    × Represents m' 10 (Fifo.enqueue (queue (1 ∷ 2 ∷ [])) 3)
enqueue-Represents_example =
    enqueue-Represents two 10 (queue (1 ∷ 2 ∷ [])) two-Represents 3 (refl, refl) refl

dequeue-Represents_example :
    (m' : Memory) × (utqueue_dequeue 10 two ≡ ok (Fifo.oldest (queue (1 ∷ 2 ∷ [])), m'))
    × Represents m' 10 (Fifo.drop_oldest (queue (1 ∷ 2 ∷ [])))
    × IsUnlinked m'.links 1
dequeue-Represents_example =
    dequeue-Represents two 10 (queue (1 ∷ 2 ∷ [])) two-Represents 1 (2 ∷ []) refl

remove-Represents_example :
    (m' : Memory) × (utqueue_remove 10 2 two ≡ ok m')
    × Represents m' 10 (Fifo.remove (queue (1 ∷ 2 ∷ [])) 2)
    × IsUnlinked m'.links 2
remove-Represents_example = remove-Represents two 10 (queue (1 ∷ 2 ∷ [])) two-Represents 2 refl

Apart-insert : Apart (3 ∷ 10 ∷ 1 ∷ 2 ∷ []) (20 ∷ 5 ∷ [])
Apart-insert p h = ground arith

Apart-remove : Apart (10 ∷ 1 ∷ 2 ∷ []) (20 ∷ 5 ∷ [])
Apart-remove p h = ground arith
