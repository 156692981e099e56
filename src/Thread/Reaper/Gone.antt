-- ===== src/Thread/Reaper/Gone.antt =====
-- Proofs about the reaper's test for the end of the program.
use multi_process_threading.Base.{
  ℕ, zero, suc, ◌<◌, ◌≡◌, inl, inr, refl, Bool, true, false, ◌&&◌, ◌||◌, arith, ◌==◌, Bool-cases,
  subst,
}
use multi_process_threading.State.{Tid, UthreadState, ut_no_state}
use multi_process_threading.Sched.{is_state}
use multi_process_threading.Thread.Reaper.{all_gone}

both-true : (a b : Bool) → (a && b) ≡ true → (a ≡ true) × (b ≡ true)
both-true true true e = (refl, refl)
both-true true false e = cc
both-true false b e = cc

-- The scan of the first `n` slots succeeds if, and only if, each of them but the reaper's is in
-- UT_NO_STATE.
pub all_gone-all :
    (n : ℕ) (reaper : Tid) (u : Tid → UthreadState)
    → (all_gone n reaper u ≡ true
        → (k : ℕ) → k < n
        → (k == reaper) ≡ false
        → is_state (u k) ut_no_state ≡ true)
      × (((k : ℕ) → k < n → (k == reaper) ≡ false → is_state (u k) ut_no_state ≡ true)
          → all_gone n reaper u ≡ true)
unfolding all_gone
all_gone-all n reaper u = (sound n, complete n)
  where
    sound :
        (n : ℕ)
        → all_gone n reaper u ≡ true
        → (k : ℕ) → k < n
        → (k == reaper) ≡ false
        → is_state (u k) ut_no_state ≡ true
    sound zero e k lt ne = absurd (omega (arith, lt))
    sound (suc n) e k lt ne = elim (Bool-cases (k == n)) [
      | inl at ↦
          let same : n ≡ k = ground arith in
          let here : (n == reaper || is_state (u n) ut_no_state) ≡ true = (both-true _ _ e).0 in
          subst (λ j. is_state (u j) ut_no_state ≡ true) same (ground arith)
      | inr off ↦ sound n (both-true _ _ e).1 k (ground arith) ne
    ]

    complete :
        (n : ℕ)
        → ((k : ℕ) → k < n → (k == reaper) ≡ false → is_state (u k) ut_no_state ≡ true)
        → all_gone n reaper u ≡ true
    complete zero f = refl
    complete (suc n) f = elim (Bool-cases (n == reaper)) [
      | inl at ↦ rw (at, complete n (λ k lt ne. f k (omega arith) ne)) refl
      | inr off ↦ rw (off, f n (omega arith) off, complete n (λ k lt ne. f k (omega arith) ne)) refl
    ]
