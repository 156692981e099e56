-- ===== src/Thread/Alloc/Free.antt =====
-- Proofs about the search for a slot in `uthread_alloc`.
use multi_process_threading.Base.{
  ℕ, zero, suc, ◌+◌, ◌-◌, ◌≤◌, ◌<◌, ◌≡◌, ◌∙◌, ◌⊎◌, inl, inr, refl, sym, ap, Bool, true, false,
  Option, none, some, arith, ltb, ◌==◌, subst, Bool-cases, Option-cases,
}
use multi_process_threading.State.{Tid, UthreadState, ut_no_state, uth_max_uthreads}
use multi_process_threading.Sched.{is_state}
use multi_process_threading.Thread.Alloc.{first_free, find_free, start_of}

module _ (u : Tid → UthreadState) where
  abbrev pub is_free : Tid → Bool
  is_free j = is_state (u j) ut_no_state

  -- No slot from `i` to `j` is free, `j` not counted.
  abbrev pub NoneFree : ℕ → ℕ → Type 0
  NoneFree i j = (k : ℕ) → i ≤ k → k < j → is_free k ≡ false

  NoneFree-empty : (i : ℕ) → NoneFree i i
  NoneFree-empty i k l h = absurd (omega (arith, l, h))

  NoneFree-step : (i j : ℕ) → is_free i ≡ false → NoneFree (i + 1) j → NoneFree i j
  NoneFree-step i j e f k l h = elim (Bool-cases (i == k)) [
    | inl at ↦ let same : i ≡ k = ground arith in ap is_free (sym same) ∙ e
    | inr past ↦ f k (ground arith) h
  ]

  first_free-here : (n i : ℕ) → is_free i ≡ true → first_free (suc n) i u ≡ some i
  unfolding first_free
  first_free-here n i e = rw e refl

  first_free-next : (n i : ℕ) → is_free i ≡ false → first_free (suc n) i u ≡ first_free n (i + 1) u
  unfolding first_free
  first_free-next n i e = rw e refl

  first_free-none : (n i : ℕ) → first_free n i u ≡ none → NoneFree i (i + n)
  unfolding first_free
  first_free-none zero i e k l h = absurd (omega (arith, l, h))
  first_free-none (suc n) i e k l h = elim (Bool-cases (is_free i)) [
    | inl hit ↦ let both : some i ≡ none = sym (first_free-here n i hit) ∙ e in cc
    | inr miss ↦
        NoneFree-step i (i + suc n) miss
          (λ k l h.
            first_free-none n (i + 1) (sym (first_free-next n i miss) ∙ e) k l (omega (arith, h)))
          k l h
  ]

  first_free-some :
      (n i j : ℕ)
      → first_free n i u ≡ some j
      → (i ≤ j) × (j < i + n) × (is_free j ≡ true) × NoneFree i j
  unfolding first_free
  first_free-some zero i j e = cc
  first_free-some (suc n) i j e = elim (Bool-cases (is_free i)) [
    | inl hit ↦
        let both : some i ≡ some j = sym (first_free-here n i hit) ∙ e in
        let same : i ≡ j = cc in
        subst (λ k. (i ≤ k) × (k < i + suc n) × (is_free k ≡ true) × NoneFree i k) same
          (omega arith, omega arith, hit, NoneFree-empty i)
    | inr miss ↦
        let (l, h, f, ns) = first_free-some n (i + 1) j (sym (first_free-next n i miss) ∙ e) in
        (omega (arith, l), omega (arith, h), f, NoneFree-step i j miss ns)
  ]

  -- The slot found, from `start` on and around the end of the array, is the first free one.
  abbrev pub IsNextFree : ℕ → Tid → Type 0
  IsNextFree start j =
      (j < uth_max_uthreads)
      × (is_free j ≡ true)
      × (((start ≤ j) × NoneFree start j)
          ⊎ ((j < start) × NoneFree start uth_max_uthreads × NoneFree 0 j))

  module _ (start : ℕ) (small : start < uth_max_uthreads) where
    found-first :
        (i : Tid)
        → first_free (uth_max_uthreads - start) start u ≡ some i
        → find_free start u ≡ some i
    unfolding find_free
    found-first i e =
        ap (λ (o : Option Tid). elim o [ some i ↦ some i | none ↦ first_free start 0 u ]) e

    found-second :
        first_free (uth_max_uthreads - start) start u ≡ none
        → find_free start u ≡ first_free start 0 u
    unfolding find_free
    found-second e =
        ap (λ (o : Option Tid). elim o [ some i ↦ some i | none ↦ first_free start 0 u ]) e

    to_the_end :
        first_free (uth_max_uthreads - start) start u ≡ none → NoneFree start uth_max_uthreads
    to_the_end e k l h =
        first_free-none (uth_max_uthreads - start) start e k l (omega (arith, h, small))

    -- From a start inside the array, the slot that the search finds is inside the array and in
    -- UT_NO_STATE, and no slot before it is, counted from the start and around the end of the
    -- array.
    pub find_free-IsNextFree : (j : Tid) → find_free start u ≡ some j → IsNextFree start j
    find_free-IsNextFree j e = elim (Option-cases (first_free (uth_max_uthreads - start) start u)) [
      | inl miss ↦
          let (l, h, f, ns) = first_free-some start 0 j (sym (found-second miss) ∙ e) in
          (omega (arith, h, small), f, inr (omega (arith, h), to_the_end miss, ns))
      | inr (i, hit) ↦
          let both : some i ≡ some j = sym (found-first i hit) ∙ e in
          let same : i ≡ j = cc in
          let (l, h, f, ns) = first_free-some _ start i hit in
          subst (λ k. IsNextFree start k) same (omega (arith, h, small), f, inl (l, ns))
    ]

    -- From a start inside the array, the search finds nothing only if no slot of the array is
    -- in UT_NO_STATE.
    pub find_free-NoneFree : find_free start u ≡ none → NoneFree 0 uth_max_uthreads
    find_free-NoneFree e k l h =
        elim (Option-cases (first_free (uth_max_uthreads - start) start u)) [
          | inl miss ↦ elim (Bool-cases (ltb k start)) [
            | inl before ↦ first_free-none start 0 (sym (found-second miss) ∙ e) k l (ground arith)
            | inr after ↦ to_the_end miss k (ground arith) h
          ]
          | inr (i, hit) ↦ let both : some i ≡ none = sym (found-first i hit) ∙ e in cc
        ]

pub start_of-small : (p : Option Tid) → start_of p < uth_max_uthreads
unfolding start_of
start_of-small none = omega arith
start_of-small (some i) = ground arith
