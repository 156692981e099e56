-- ===== src/Link/Frame.antt =====
-- Proofs about list.h and queues that share no element.
use multi_process_threading.Base.{◌≡◌, true, false, List, ◌∷◌, arith, has}
use multi_process_threading.Link.{Ptr, Links, list_insert_before, list_insert_head, list_remove}
use multi_process_threading.Link.Chain.{
  next-has, prev-has, Chain-last, Chain-last_prev, Chain-frame, has-last, IsRing,
}

-- The links of another queue, which shares no element with a ring, stay as they are.
module _ (h g : Links) (q : Ptr) (ys : List Ptr) where
  IsRing-frame :
      IsRing h q ys
      → ((p : Ptr) → has p (q ∷ ys) ≡ true → g.l_prev p ≡ h.l_prev p)
      → ((p : Ptr) → has p (q ∷ ys) ≡ true → g.l_next p ≡ h.l_next p)
      → IsRing g q ys
  IsRing-frame r prevs nexts = record {
    chain = Chain-frame h g ys q q r.chain prevs (λ p i. nexts p (ground arith));
    distinct = r.distinct;
    valid = r.valid;
  }

abbrev pub Apart : List Ptr → List Ptr → Type 0
Apart xs ys = (p : Ptr) → has p ys ≡ true → has p xs ≡ false

module _ (h : Links) (q thr : Ptr) (xs : List Ptr) (r : IsRing h q xs) (q' : Ptr) (ys : List Ptr)
    (r' : IsRing h q' ys) where
  -- `list_insert_head` on one queue, of an element outside another queue that shares no element
  -- with it, leaves the other queue as it was.
  pub insert-frame : Apart (thr ∷ q ∷ xs) (q' ∷ ys) → IsRing (list_insert_head q thr h) q' ys
  unfolding list_insert_head list_insert_before
  insert-frame apart =
      IsRing-frame h _ q' ys r'
        (λ p i. ground (
          arith,
          apart p i,
          Chain-last h xs q q r.chain,
          Chain-last_prev h xs q q r.chain,
          has-last q xs,
        ))
        (λ p i. ground (
          arith,
          apart p i,
          Chain-last h xs q q r.chain,
          Chain-last_prev h xs q q r.chain,
          has-last q xs,
        ))

  -- `list_remove` of an element of one queue leaves another queue, which shares no element with
  -- it, as it was.
  pub remove-frame : has thr xs ≡ true → Apart (q ∷ xs) (q' ∷ ys) → IsRing (list_remove thr h) q' ys
  unfolding list_remove
  remove-frame m apart =
      IsRing-frame h _ q' ys r'
        (λ p i.
          ground (arith, apart p i, next-has h xs q q thr r.chain, prev-has h xs q q thr r.chain))
        (λ p i.
          ground (arith, apart p i, next-has h xs q q thr r.chain, prev-has h xs q q thr r.chain))
