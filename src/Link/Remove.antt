-- ===== src/Link/Remove.antt =====
-- `list_remove` on rings.
use multi_process_threading.Base.{
  ◌≡◌, true, false, ◌||◌, List, [], ◌∷◌, ◌++◌, arith, ◌==◌, if◌then◌else◌, has, Distinct,
  has-append,
}
use multi_process_threading.Link.{Ptr, null, Links, list_remove}
use multi_process_threading.Link.Chain.{
  Chain, first, last, Chain-append, Chain-first, Chain-last, Chain-frame, has-last, IsRing,
  IsUnlinked,
}

has-first : (zs : List Ptr) (b : Ptr) → (has (first zs b) zs || (first zs b == b)) ≡ true
has-first [] b = ground arith
has-first (z ∷ zs) b = ground arith

-- What `list_remove` leaves in the two arrays when `z` stood between `v` and `w`.
record IsUnlink (h g : Links) (v z w : Ptr) : Type 0 where
  prevs : (p : Ptr) → g.l_prev p ≡ (if p == z then null else if p == v then w else h.l_prev p)
  nexts : (p : Ptr) → g.l_next p ≡ (if p == z then null else if p == w then v else h.l_next p)

module _ (h g : Links) (z b : Ptr) where
  -- The two parts of a chain, joined over the element taken out.
  Chain-join_nil :
      (zs : List Ptr) (a : Ptr)
      → IsUnlink h g a z (first zs b)
      → Chain h z zs b
      → Distinct (z ∷ zs)
      → (b == z) ≡ false
      → has b zs ≡ false
      → has a (z ∷ zs) ≡ false
      → Chain g a zs b
  Chain-join_nil [] a u c d ne out own = (ground (arith, u.prevs a), ground (arith, u.nexts b))
  Chain-join_nil (w ∷ zs) a u c d ne out own = (
    ground (arith, u.prevs a),
    ground (arith, u.nexts w),
    Chain-frame h g zs w b c.2 (λ p i. ground (arith, u.prevs p))
        (λ p i. ground (arith, u.nexts p)),
  )

  Chain-join :
      (ys zs : List Ptr) (a : Ptr)
      → IsUnlink h g (last a ys) z (first zs b)
      → Chain h a ys z
      → Chain h z zs b
      → Distinct (ys ++ z ∷ zs)
      → has b (ys ++ z ∷ zs) ≡ false
      → has a (ys ++ z ∷ zs) ≡ false
      → Chain g a (ys ++ zs) b
  Chain-join [] zs a u c e d out own = Chain-join_nil zs a u e d (ground arith) (ground arith) own
  Chain-join (y ∷ ys) zs a u c e d out own = (
    ground (arith, u.prevs a, has-last y ys, has-append a ys (z ∷ zs)),
    ground (arith, u.nexts y, has-first zs b, has-append y ys (z ∷ zs)),
    Chain-join ys zs y u c.2 e d.1 (ground arith) d.0,
  )

Distinct-drop : (z : Ptr) (ys zs : List Ptr) → Distinct (ys ++ z ∷ zs) → Distinct (ys ++ zs)
Distinct-drop z [] zs d = d.1
Distinct-drop z (y ∷ ys) zs d =
    (ground (arith, has-append y ys (z ∷ zs), has-append y ys zs), Distinct-drop z ys zs d.1)

-- `list_remove` takes out one element, wherever it stands, and leaves it unlinked.
pub list_remove-IsRing :
    (h : Links) (q z : Ptr) (ys zs : List Ptr)
    → IsRing h q (ys ++ z ∷ zs)
    → IsRing (list_remove z h) q (ys ++ zs) × IsUnlinked (list_remove z h) z
unfolding list_remove
list_remove-IsRing h q z ys zs r = (
  record {
    chain =
        Chain-join h (list_remove z h) z q ys zs q unlink front back r.distinct.1 r.distinct.0
          r.distinct.0;
    distinct = (
      ground (arith, has-append q ys (z ∷ zs), has-append q ys zs),
      Distinct-drop z ys zs r.distinct.1,
    );
    valid = ground (arith, has-append null ys (z ∷ zs), has-append null ys zs);
  },
  ground arith,
)
  where
    front : Chain h q ys z
    front = (Chain-append h ys q z q zs r.chain).0

    back : Chain h z zs q
    back = (Chain-append h ys q z q zs r.chain).1

    unlink : IsUnlink h (list_remove z h) (last q ys) z (first zs q)
    unlink = record {
      prevs = λ p. ground (arith, Chain-first h zs z q back, Chain-last h ys q z front);
      nexts = λ p. ground (arith, Chain-first h zs z q back, Chain-last h ys q z front);
    }
