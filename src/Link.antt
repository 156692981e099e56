-- ===== src/Link.antt =====
-- list.h: the circular doubly linked list on a heap of links, and uthread_queue.c over it. A
-- pointer is a number, 0 is NULL; `list_item` between a thread and its `ut_link` is the identity.
pub mod Chain
pub mod Insert
pub mod Remove
pub mod Refine
pub mod Frame
use multi_process_threading.Base.{
  ℕ, ◌+◌, ◌-◌, Bool, true, false, ◌&&◌, ◌||◌, Option, none, some, ◌==◌, if◌then◌else◌, update,
}

abbrev pub Ptr : Type 0
Ptr = ℕ

abbrev pub null : Ptr
null = 0

-- `struct list`, the type of heads and of links, at each address
pub record Links : Type 0 where
  pub l_next : Ptr → Ptr
  pub l_prev : Ptr → Ptr

abbrev pub set_next : Ptr → Ptr → Links → Links
set_next p q h = record h { l_next = update h.l_next p q }

abbrev pub set_prev : Ptr → Ptr → Links → Links
set_prev p q h = record h { l_prev = update h.l_prev p q }

unfoldable pub list_init : Ptr → Links → Links
list_init list h = set_next list list (set_prev list list h)

unfoldable pub list_empty : Ptr → Links → Bool
list_empty list h = h.l_next list == list

-- The macro's four assignments, in its order.
unfoldable pub list_insert_before : (old new : Ptr) → Links → Links
list_insert_before old new h =
    let h1 = set_next new old h in
    let h2 = set_prev new (h1.l_prev old) h1 in
    let h3 = set_next (h2.l_prev old) new h2 in set_prev old new h3

unfoldable pub list_insert_head : (list link : Ptr) → Links → Links
list_insert_head list link h = list_insert_before (h.l_next list) link h

unfoldable pub list_remove : (link : Ptr) → Links → Links
list_remove ll h =
    let prev = h.l_prev ll in
    let next = h.l_next ll in
    let h1 = set_next prev next h in
    let h2 = set_prev next prev h1 in set_next ll null (set_prev ll null h2)

-- What an operation gives: a new memory and a value, or a failed `assert`.
pub data Result (A : Type 0) : Type 0 where
  ok : A → Result A
  assert_failed : Result A

-- `struct utqueue`, at the address of its `tq_waiters`, beside the links.
pub record Memory : Type 0 where
  pub links : Links
  pub tq_size : Ptr → ℕ

unfoldable pub utqueue_init : Ptr → Memory → Result Memory
utqueue_init q m =
    if q == null
    then assert_failed
    else ok (record { links = list_init q m.links; tq_size = update m.tq_size q 0 })

unfoldable pub same : Bool → Bool → Bool
same true b = b
same false true = false
same false false = true

unfoldable pub utqueue_empty : Ptr → Memory → Result Bool
utqueue_empty q m =
    if q == null
    then assert_failed
    else (if same (list_empty q m.links) (m.tq_size q == 0)
        then ok (m.tq_size q == 0)
        else assert_failed)

unfoldable pub utqueue_enqueue : (q thr : Ptr) → Memory → Result Memory
utqueue_enqueue q thr m =
    if (m.links.l_next thr == null) && (m.links.l_prev thr == null)
    then ok (record {
      links = list_insert_head q thr m.links;
      tq_size = update m.tq_size q (m.tq_size q + 1);
    })
    else assert_failed

unfoldable pub dequeue_item : Ptr → Memory → Option Ptr × Memory
dequeue_item q m =
    let link = m.links.l_prev q in
    (
      some link,
      record { links = list_remove link m.links; tq_size = update m.tq_size q (m.tq_size q - 1) },
    )

unfoldable pub dequeue_if : Result Bool → Ptr → Memory → Result (Option Ptr × Memory)
dequeue_if assert_failed q m = assert_failed
dequeue_if (ok empty) q m = ok (if empty then (none, m) else dequeue_item q m)

unfoldable pub utqueue_dequeue : Ptr → Memory → Result (Option Ptr × Memory)
utqueue_dequeue q m = dequeue_if (utqueue_empty q m) q m

unfoldable pub utqueue_remove : (q thr : Ptr) → Memory → Result Memory
utqueue_remove q thr m =
    if (m.links.l_next thr == null) || (m.links.l_prev thr == null)
    then assert_failed
    else ok
        (record { links = list_remove thr m.links; tq_size = update m.tq_size q (m.tq_size q - 1) })
