-- ===== src/Queue.antt =====
-- uthread_queue.c as commands on the queues of the state. A NULL queue never reaches these: every
-- caller passes the address of a field.
pub mod Laws
use multi_process_threading.Base.{
  ℕ, Bool, true, false, not, Option, none, some, if◌then◌else◌, update,
}
use multi_process_threading.State.{State, Tid, QueueId, get_queue, put_queue}
use multi_process_threading.State.Fifo
use multi_process_threading.State.Fifo.{Utqueue, empty_queue}
use multi_process_threading.Cmd.{Cmd, pure, ◌>>=◌, ◌>>◌, bind, gets, modify, assert, deref}

abbrev pub queue_of : QueueId → State → Utqueue
queue_of q s = get_queue s.queues q

abbrev pub write_queue : QueueId → Utqueue → State → State
write_queue q u s = record s { queues = put_queue s.queues q u }

abbrev pub set_linked : Tid → Bool → State → State
set_linked t b s = record s { uths = record (s.uths) { linked = update s.linked t b } }

unfoldable pub utqueue_init : QueueId → Cmd (Unit {0})
utqueue_init q = modify (write_queue q empty_queue)

unfoldable pub utqueue_empty : QueueId → Cmd Bool
utqueue_empty q = do u ← gets (queue_of q); assert (Fifo.is_consistent u); pure (Fifo.is_empty u)

unfoldable pub utqueue_enqueue : QueueId → Tid → Cmd (Unit {0})
utqueue_enqueue q thr = do
  linked ← gets (λ s. s.linked thr)
  assert (not linked)
  modify (λ s. set_linked thr true (write_queue q (Fifo.enqueue (queue_of q s) thr) s))

-- `list_item`, `list_remove` and the decrement.
unfoldable pub take_oldest : QueueId → Cmd (Option Tid)
take_oldest q = do
  u ← gets (queue_of q)
  thr ← deref (Fifo.oldest u)
  modify (λ s. set_linked thr false (write_queue q (Fifo.drop_oldest u) s))
  pure (some thr)

unfoldable pub utqueue_dequeue : QueueId → Cmd (Option Tid)
utqueue_dequeue q = do empty ← utqueue_empty q; if empty then pure none else take_oldest q

unfoldable pub utqueue_remove : QueueId → Tid → Cmd (Unit {0})
utqueue_remove q thr = do
  linked ← gets (λ s. s.linked thr)
  assert linked
  modify (λ s. set_linked thr false (write_queue q (Fifo.remove (queue_of q s) thr) s))
