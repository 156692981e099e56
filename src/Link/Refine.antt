-- ===== src/Link/Refine.antt =====
-- Proofs about uthread_queue.c over linked memory, against the queues of `State.Fifo`.
use multi_process_threading.Base.{
  ℕ, ◌+◌, ◌-◌, ◌≡◌, refl, ap, sym, subst, ◌∙◌, Bool, true, false, ◌||◌, none, List, [], ◌∷◌, ◌++◌,
  arith, ◌==◌, has, length, length-append, erase, update, update_self, Bool-cases, inl, inr,
}
use multi_process_threading.State.Fifo
use multi_process_threading.State.Fifo.{Utqueue, empty_queue}
use multi_process_threading.Link.{
  Ptr, null, Links, Memory, ok, assert_failed, list_init, list_insert_head, list_remove, list_empty,
  same, dequeue_item, dequeue_if, utqueue_init, utqueue_empty, utqueue_enqueue, utqueue_dequeue,
  utqueue_remove,
}
use multi_process_threading.Link.Chain.{
  next-has, prev-has, first, Chain-first, Chain-last, has-last, IsRing, IsUnlinked,
}
use multi_process_threading.Link.Insert.{list_init-IsRing, list_insert_head-IsRing}
use multi_process_threading.Link.Remove.{list_remove-IsRing}

-- The queue at `q` stands for `u`.
pub record Represents (m : Memory) (q : Ptr) (u : Utqueue) : Type 0 where
  pub ring : IsRing m.links q u.tq_waiters
  pub size : m.tq_size q ≡ u.tq_size
  pub sized : u.tq_size ≡ length u.tq_waiters

-- What is on no list is not on this one.
unlinked-not_has :
    (h : Links) (q p : Ptr) (xs : List Ptr)
    → IsRing h q xs
    → IsUnlinked h p
    → has p (q ∷ xs) ≡ false
unlinked-not_has h q p xs r u = elim (Bool-cases (has p (q ∷ xs))) [
  | inl e ↦ ground (arith, next-has h xs q q p r.chain, Chain-last h xs q q r.chain, has-last q xs)
  | inr e ↦ e
]

split_has :
    (a : ℕ) (xs : List ℕ)
    → has a xs ≡ true
    → (ys : List ℕ) × (zs : List ℕ) × (xs ≡ ys ++ a ∷ zs) × (erase a xs ≡ ys ++ zs)
split_has a [] h = absurd (cc)
split_has a (x ∷ xs) h = elim (Bool-cases (a == x)) [
  | inl e ↦ ([], xs, ground arith, rw e)
  | inr e ↦
      let (ys, zs, p, q) = split_has a xs (ground arith) in
      (x ∷ ys, zs, ap (λ (l : List ℕ). x ∷ l) p, rw e (ap (λ (l : List ℕ). x ∷ l) q))
]

same_self : (b : Bool) → same b b ≡ true
unfolding same
same_self true = refl
same_self false = refl

pub init-Represents :
    (m : Memory) (q : Ptr)
    → (q == null) ≡ false
    → (m' : Memory) × (utqueue_init q m ≡ ok m') × Represents m' q empty_queue
unfolding utqueue_init
init-Represents m q ne = (
  record { links = list_init q m.links; tq_size = update m.tq_size q 0 },
  rw ne,
  record { ring = list_init-IsRing m.links q ne; size = update_self m.tq_size q 0; sized = refl },
)

module _ (m : Memory) (q : Ptr) (u : Utqueue) (r : Represents m q u) where
  head_ne_null : (q == null) ≡ false
  head_ne_null = let v = r.ring.valid in ground arith

  list_empty-nil : (xs : List Ptr) → IsRing m.links q xs → list_empty q m.links ≡ (length xs == 0)
  unfolding list_empty
  list_empty-nil [] i = ground (arith, i.chain.1)
  list_empty-nil (x ∷ xs) i =
      ground (arith, Chain-last m.links (x ∷ xs) q q i.chain, has-last x xs, i.distinct.0)

  pub empty-Represents : utqueue_empty q m ≡ ok (Fifo.is_empty u)
  unfolding utqueue_empty same Fifo.is_empty
  empty-Represents =
      rw (head_ne_null, list_empty-nil u.tq_waiters r.ring, r.size, r.sized, same_self)

  -- At linked memory that represents a queue, `utqueue_enqueue` of a thread that is not NULL and
  -- whose link is NULL on both sides passes its assertion; the memory then represents the queue
  -- with the thread as its newest.
  pub enqueue-Represents :
      (thr : Ptr)
      → IsUnlinked m.links thr
      → (thr == null) ≡ false
      → (m' : Memory) × (utqueue_enqueue q thr m ≡ ok m') × Represents m' q (Fifo.enqueue u thr)
  unfolding utqueue_enqueue Fifo.enqueue
  enqueue-Represents thr free ne = (
    record {
      links = list_insert_head q thr m.links;
      tq_size = update m.tq_size q (m.tq_size q + 1);
    },
    rw (free.0, free.1),
    record {
      ring =
          list_insert_head-IsRing m.links q thr u.tq_waiters r.ring
            (unlinked-not_has m.links q thr u.tq_waiters r.ring free) ne;
      size = update_self m.tq_size q _ ∙ ap (λ n. n + 1) r.size;
      sized = omega (arith, r.sized, length-append {0} u.tq_waiters (thr ∷ []));
    },
  )

  pub enqueue-linked :
      (thr : Ptr) → (m.links.l_next thr == null) ≡ false → utqueue_enqueue q thr m ≡ assert_failed
  unfolding utqueue_enqueue
  enqueue-linked thr e = rw e

  -- The memory after `list_remove` of `thr` and the decrement.
  abbrev pub less : Ptr → Memory
  less thr = record {
    links = list_remove thr m.links;
    tq_size = update m.tq_size q (m.tq_size q - 1);
  }

  less-Represents :
      (thr : Ptr) (ys zs : List Ptr)
      → u.tq_waiters ≡ ys ++ thr ∷ zs
      → Represents (less thr) q (record { tq_waiters = ys ++ zs; tq_size = u.tq_size - 1 })
        × IsUnlinked (less thr).links thr
  less-Represents thr ys zs e =
      let (ring, free) =
        list_remove-IsRing m.links q thr ys zs (subst (IsRing m.links q) e r.ring) in
      (
        record {
          ring = ring;
          size = update_self m.tq_size q _ ∙ ap (λ n. n - 1) r.size;
          sized = omega (
            arith,
            r.sized,
            ap (length {A = Ptr}) e,
            length-append {0} ys (thr ∷ zs),
            length-append {0} ys zs,
          );
        },
        free,
      )

  -- At linked memory that represents a nonempty queue, `utqueue_dequeue` passes its assertion and
  -- returns the oldest thread; the memory then represents the queue without it, and its link is
  -- NULL on both sides.
  pub dequeue-Represents :
      (thr : Ptr) (xs : List Ptr)
      → u.tq_waiters ≡ thr ∷ xs
      → (m' : Memory) × (utqueue_dequeue q m ≡ ok (Fifo.oldest u, m'))
        × Represents m' q (Fifo.drop_oldest u)
        × IsUnlinked m'.links thr
  unfolding utqueue_dequeue dequeue_if dequeue_item Fifo.oldest Fifo.drop_oldest Fifo.is_empty
  dequeue-Represents thr xs e = (
    less thr,
    ap (λ b. dequeue_if b q m) empty-Represents ∙ rw (not_empty, oldest_link, e),
    subst (Represents (less thr) q)
        (λ i. record { tq_waiters = rest (sym e i); tq_size = u.tq_size - 1 })
        (less-Represents thr [] xs e).0,
    (less-Represents thr [] xs e).1,
  )
    where
      rest : List Ptr → List Ptr
      rest = elim [ [] ↦ [] | _ ∷ ys ↦ ys ]

      not_empty : (u.tq_size == 0) ≡ false
      not_empty = ground (arith, r.sized, ap (length {A = Ptr}) e)

      oldest_link : m.links.l_prev q ≡ thr
      oldest_link =
          Chain-first m.links u.tq_waiters q q r.ring.chain ∙ ap (λ (l : List Ptr). first l q) e

  pub dequeue-empty : u.tq_waiters ≡ [] → utqueue_dequeue q m ≡ ok (none, m)
  unfolding utqueue_dequeue dequeue_if Fifo.is_empty
  dequeue-empty e =
      let is_empty : (u.tq_size == 0) ≡ true = ground (arith, r.sized, ap (length {A = Ptr}) e) in
      ap (λ b. dequeue_if b q m) empty-Represents ∙ rw is_empty

  -- At linked memory that represents a queue, `utqueue_remove` of any of its threads passes its
  -- assertion; the memory then represents the queue without the thread, and the thread's link is
  -- NULL on both sides.
  pub remove-Represents :
      (thr : Ptr)
      → has thr u.tq_waiters ≡ true
      → (m' : Memory) × (utqueue_remove q thr m ≡ ok m')
        × Represents m' q (Fifo.remove u thr)
        × IsUnlinked m'.links thr
  unfolding utqueue_remove Fifo.remove
  remove-Represents thr h =
      let (ys, zs, e, l) = split_has thr u.tq_waiters h in
      let (stands, free) = less-Represents thr ys zs e in
      (
        less thr,
        rw linked,
        subst (Represents (less thr) q)
            (λ i. record { tq_waiters = sym l i; tq_size = u.tq_size - 1 }) stands,
        free,
      )
    where
      next_ok : (m.links.l_next thr == null) ≡ false
      next_ok = ground (arith, next-has m.links u.tq_waiters q q thr r.ring.chain, r.ring.valid)

      linked : (m.links.l_next thr == null || m.links.l_prev thr == null) ≡ false
      linked =
          ground (arith, next_ok, prev-has m.links u.tq_waiters q q thr r.ring.chain, r.ring.valid)
