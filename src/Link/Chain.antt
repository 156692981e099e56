-- ===== src/Link/Chain.antt =====
-- Chains of links, read against `l_prev`: from the head of a queue to its oldest element and on to
-- the newest.
use multi_process_threading.Base.{
  ◌≡◌, true, false, ◌||◌, List, [], ◌∷◌, ◌++◌, arith, ◌==◌, has, Distinct,
}
use multi_process_threading.Link.{Ptr, null, Links}

-- From `a` the `l_prev` pointers lead through `xs` to `b`, and the `l_next` pointers back.
abbrev pub Chain : Links → Ptr → List Ptr → Ptr → Type 0
Chain h a [] b = (h.l_prev a ≡ b) × (h.l_next b ≡ a)
Chain h a (x ∷ xs) b = (h.l_prev a ≡ x) × (h.l_next x ≡ a) × Chain h x xs b

-- The first pointer of a chain, and the last.
abbrev pub first : List Ptr → Ptr → Ptr
first [] b = b
first (x ∷ _) b = x

abbrev pub last : Ptr → List Ptr → Ptr
last a [] = a
last a (x ∷ xs) = last x xs

module _ (h : Links) where
  pub Chain-append :
      (ys : List Ptr) (a z b : Ptr) (zs : List Ptr)
      → Chain h a (ys ++ z ∷ zs) b
      → Chain h a ys z × Chain h z zs b
  Chain-append [] a z b zs c = ((c.0, c.1), c.2)
  Chain-append (y ∷ ys) a z b zs c =
      let (front, back) = Chain-append ys y z b zs c.2 in ((c.0, c.1, front), back)

  pub Chain-first : (xs : List Ptr) (a b : Ptr) → Chain h a xs b → h.l_prev a ≡ first xs b
  Chain-first [] a b c = c.0
  Chain-first (x ∷ xs) a b c = c.0

  pub Chain-last : (xs : List Ptr) (a b : Ptr) → Chain h a xs b → h.l_next b ≡ last a xs
  Chain-last [] a b c = c.1
  Chain-last (x ∷ xs) a b c = Chain-last xs x b c.2

  pub Chain-last_prev : (xs : List Ptr) (a b : Ptr) → Chain h a xs b → h.l_prev (last a xs) ≡ b
  Chain-last_prev [] a b c = c.0
  Chain-last_prev (x ∷ xs) a b c = Chain-last_prev xs x b c.2

  -- A chain survives a change that spares the pointers it is made of.
  pub Chain-frame :
      (g : Links) (xs : List Ptr) (a b : Ptr)
      → Chain h a xs b
      → ((p : Ptr) → has p (a ∷ xs) ≡ true → g.l_prev p ≡ h.l_prev p)
      → ((p : Ptr) → (has p xs || (p == b)) ≡ true → g.l_next p ≡ h.l_next p)
      → Chain g a xs b
  Chain-frame g [] a b c prevs nexts = (ground (arith, prevs a), ground (arith, nexts b))
  Chain-frame g (x ∷ xs) a b c prevs nexts = (
    ground (arith, prevs a),
    ground (arith, nexts x),
    Chain-frame g xs x b c.2 (λ p i. prevs p (ground arith)) (λ p i. nexts p (ground arith)),
  )

pub has-last : (a : Ptr) (xs : List Ptr) → (has (last a xs) (a ∷ xs)) ≡ true
has-last a [] = ground arith
has-last a (x ∷ xs) = ground (arith, has-last x xs)

-- A link of a chain points back into it.
pub next-has :
    (h : Links) (xs : List Ptr) (a b p : Ptr)
    → Chain h a xs b
    → has p xs ≡ true
    → has (h.l_next p) (a ∷ xs) ≡ true
next-has h [] a b p c m = cc
next-has h (x ∷ xs) a b p c m = ground (arith, next-has h xs x b p c.2)

pub prev-has :
    (h : Links) (xs : List Ptr) (a b p : Ptr)
    → Chain h a xs b
    → has p (a ∷ xs) ≡ true
    → (has (h.l_prev p) xs || (h.l_prev p == b)) ≡ true
prev-has h [] a b p c m = ground arith
prev-has h (x ∷ xs) a b p c m = ground (arith, prev-has h xs x b p c.2)

abbrev pub NonNull : List Ptr → Type 0
NonNull xs = has null xs ≡ false

-- The queue at `q` holds `xs`, oldest first.
pub record IsRing (h : Links) (q : Ptr) (xs : List Ptr) : Type 0 where
  pub chain : Chain h q xs q
  pub distinct : Distinct (q ∷ xs)
  pub valid : NonNull (q ∷ xs)

-- `l` is on no list.
abbrev pub IsUnlinked : Links → Ptr → Type 0
IsUnlinked h l = (h.l_next l ≡ null) × (h.l_prev l ≡ null)
