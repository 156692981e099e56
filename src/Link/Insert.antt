-- ===== src/Link/Insert.antt =====
-- `list_init` and `list_insert_head` on rings.
use multi_process_threading.Base.{
  ◌≡◌, refl, false, List, [], ◌∷◌, ◌++◌, arith, ◌==◌, if◌then◌else◌, has, Distinct, has-append,
  Distinct-snoc,
}
use multi_process_threading.Link.{Ptr, null, Links, list_init, list_insert_before, list_insert_head}
use multi_process_threading.Link.Chain.{Chain, last, Chain-last, Chain-last_prev, has-last, IsRing}

pub list_init-IsRing : (h : Links) (q : Ptr) → (q == null) ≡ false → IsRing (list_init q h) q []
unfolding list_init
list_init-IsRing h q ne = record {
  chain = ground arith;
  distinct = (refl, tt);
  valid = ground arith;
}

-- A pointer written between the last link of a chain and its end.
Chain-snoc :
    (h g : Links) (xs : List Ptr) (a b new : Ptr)
    → Chain h a xs b
    → Distinct (a ∷ xs)
    → has new (a ∷ xs) ≡ false
    → (new == b) ≡ false
    → has b xs ≡ false
    → ((p : Ptr)
        → g.l_prev p ≡ (if p == last a xs then new else if p == new then b else h.l_prev p))
    → ((p : Ptr)
        → g.l_next p ≡ (if p == b then new else if p == new then last a xs else h.l_next p))
    → Chain g a (xs ++ new ∷ []) b
Chain-snoc h g [] a b new c d fresh ne out prevs nexts = (
  ground (arith, prevs a),
  ground (arith, nexts new),
  (ground (arith, prevs new), ground (arith, nexts b)),
)
Chain-snoc h g (x ∷ xs) a b new c d fresh ne out prevs nexts = (
  ground (arith, prevs a, has-last x xs),
  ground (arith, nexts x),
  Chain-snoc h g xs x b new c.2 d.1 (ground arith) ne (ground arith) prevs nexts,
)

-- `list_insert_head` puts an unlinked element behind the newest one.
pub list_insert_head-IsRing :
    (h : Links) (q new : Ptr) (xs : List Ptr)
    → IsRing h q xs
    → has new (q ∷ xs) ≡ false
    → (new == null) ≡ false
    → IsRing (list_insert_head q new h) q (xs ++ new ∷ [])
unfolding list_insert_head list_insert_before
list_insert_head-IsRing h q new xs r fresh ne = record {
  chain =
      Chain-snoc h _ xs q q new r.chain r.distinct fresh (ground arith) r.distinct.0
        (λ p.
          ground
            (arith, Chain-last h xs q q r.chain, Chain-last_prev h xs q q r.chain, has-last q xs))
        (λ p.
          ground
            (arith, Chain-last h xs q q r.chain, Chain-last_prev h xs q q r.chain, has-last q xs));
  distinct = (
    ground (arith, has-append q xs (new ∷ [])),
    Distinct-snoc xs new r.distinct.1 (ground arith),
  );
  valid = ground (arith, has-append null xs (new ∷ []));
}
