-- ===== src/Sched/Preempt.antt =====
-- Proofs about `uthread_nopreempt_on` and `uthread_nopreempt_off`.
use multi_process_threading.Base.{
  ℕ, zero, suc, ◌∙◌, ◌+◌, ◌≡◌, refl, Bool, true, false, some, arith, ltb, update, update_self,
  update-restore, update-same, ap, sym,
}
use multi_process_threading.State.{State, Tid}
use multi_process_threading.Cmd.{bind, curthr, is_masked, set_mask}
use multi_process_threading.Cmd.Solo.{returned, solo}
use multi_process_threading.Sched.{nesting_agrees, uthread_nopreempt_on, uthread_nopreempt_off}

-- Thread `t` runs on the LWP, and SIGVTALRM is masked just when it has asked for that.
pub record IsRunning (s : State) (t : Tid) : Type 0 where
  pub here : s.ut_curthr s.cpu ≡ some t
  pub nested : s.masked s.cpu ≡ ltb 0 (s.ut_no_preempt_count t)

abbrev pub count : State → Tid → ℕ
count s t = s.ut_no_preempt_count t

-- Preemption off, once more than in `s`.
abbrev pub masked_in : State → Tid → State
masked_in s t = record s {
  uths = record (s.uths) {
    ut_no_preempt_count = update s.ut_no_preempt_count t (s.ut_no_preempt_count t + 1);
  };
  lwps = record (s.lwps) { masked = update s.masked s.cpu true };
}

pub solo-nopreempt_on :
    (s : State) (t : Tid)
    → IsRunning s t
    → solo (uthread_nopreempt_on s) ≡ returned tt (masked_in s t)
unfolding solo uthread_nopreempt_on bind curthr is_masked set_mask nesting_agrees
solo-nopreempt_on s t r = ground arith

module _ (s : State) (t : Tid) (here : s.ut_curthr s.cpu ≡ some t)
    (masked : s.masked s.cpu ≡ true) where
  off_last :
      s.ut_no_preempt_count t ≡ 1
      → solo (uthread_nopreempt_off s)
        ≡ returned tt (record s {
          uths = record (s.uths) { ut_no_preempt_count = update s.ut_no_preempt_count t 0 };
          lwps = record (s.lwps) { masked = update s.masked s.cpu false };
        })
  unfolding solo uthread_nopreempt_off bind curthr is_masked set_mask
  off_last e = ground arith

  off_inner :
      (n : ℕ)
      → s.ut_no_preempt_count t ≡ suc (suc n)
      → solo (uthread_nopreempt_off s)
        ≡ returned tt (record s {
          uths = record (s.uths) { ut_no_preempt_count = update s.ut_no_preempt_count t (suc n) };
        })
  unfolding solo uthread_nopreempt_off bind curthr is_masked set_mask
  off_inner n e = ground arith

-- `uthread_nopreempt_off` undoes an earlier `uthread_nopreempt_on` of the same running thread on
-- the same LWP: in any state where masks and nesting counts are as that call left them, it puts
-- both back and changes nothing else.
pub solo-nopreempt_off :
    (s : State) (t : Tid) (s' : State)
    → IsRunning s t
    → s'.ut_curthr s'.cpu ≡ some t
    → s'.masked ≡ update s.masked s'.cpu true
    → s'.ut_no_preempt_count ≡ update s.ut_no_preempt_count t (s.ut_no_preempt_count t + 1)
    → s'.cpu ≡ s.cpu
    → solo (uthread_nopreempt_off s')
      ≡ returned tt (record s' {
        uths = record (s'.uths) { ut_no_preempt_count = s.ut_no_preempt_count };
        lwps = record (s'.lwps) { masked = s.masked };
      })
solo-nopreempt_off s t s' r here masks counts cpu = go (s.ut_no_preempt_count t) refl
  where
    is_set : s'.masked s'.cpu ≡ true
    is_set = ap (λ (f : ℕ → Bool). f s'.cpu) masks ∙ update_self s.masked s'.cpu true

    level : s'.ut_no_preempt_count t ≡ s.ut_no_preempt_count t + 1
    level = ap (λ (f : ℕ → ℕ). f t) counts ∙ update_self s.ut_no_preempt_count t _

    counts_back :
        (n : ℕ)
        → s.ut_no_preempt_count t ≡ n
        → update s'.ut_no_preempt_count t n ≡ s.ut_no_preempt_count
    counts_back n e =
        ap (λ (f : ℕ → ℕ). update f t n) counts ∙ update-restore s.ut_no_preempt_count t _ n e

    masks_at : (b : Bool) → s.masked s.cpu ≡ b → s.masked s'.cpu ≡ b
    masks_at b e = ap s.masked cpu ∙ e

    go :
        (n : ℕ)
        → s.ut_no_preempt_count t ≡ n
        → solo (uthread_nopreempt_off s')
          ≡ returned tt (record s' {
            uths = record (s'.uths) { ut_no_preempt_count = s.ut_no_preempt_count };
            lwps = record (s'.lwps) { masked = s.masked };
          })
    go zero e = off_last s' t here is_set (omega (arith, level)) ∙ λ i. returned tt (record s' {
      uths = record (s'.uths) { ut_no_preempt_count = counts_back 0 e i };
      lwps = record (s'.lwps) {
        masked =
            (ap (λ (f : ℕ → Bool). update f s'.cpu false) masks
                ∙ update-restore s.masked s'.cpu true false (masks_at false (ground arith)))
              i;
      };
    })
    go (suc n) e = off_inner s' t here is_set n (omega (arith, level)) ∙ λ i.
        returned tt (record s' {
          uths = record (s'.uths) { ut_no_preempt_count = counts_back (suc n) e i };
          lwps = record (s'.lwps) {
            masked =
                (masks
                    ∙ ap (update s.masked s'.cpu) (sym (masks_at true (ground arith)))
                    ∙ update-same s.masked s'.cpu)
                  i;
          };
        })

-- A nested call: the thread runs with preemption off.
pub IsRunning-masked_in : (s : State) (t : Tid) → IsRunning s t → IsRunning (masked_in s t) t
IsRunning-masked_in s t r = record { here = r.here; nested = ground arith }
