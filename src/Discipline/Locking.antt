-- ===== src/Discipline/Locking.antt =====
-- The rules of the lock discipline for posix mutexes.
use multi_process_threading.Base.{
  ◌≡◌, refl, sym, ap, ◌∙◌, true, false, Option, none, some, List, ◌∷◌, ◌==◌, Bool-cases, inl, inr,
  ◌⊎◌, arith,
}
use multi_process_threading.State.{State, Tid, LwpId, PmutId, ut_pmut, get_pmut}
use multi_process_threading.Cmd.{
  modify, take_from, give_back, pthread_mutex_lock, pthread_mutex_unlock,
}
use multi_process_threading.Thread.Alloc.{reset_ut_pmut}
use multi_process_threading.Discipline.{is_tracked, rank, Holds, Out, Has, Held, In, Keeps, Op}
use multi_process_threading.Discipline.Possession.{
  Held-left, Held-gives, Held-gets, Held-takes, untracked-Out, Held-Ranked, AreBelow,
}
use multi_process_threading.Discipline.Writes.{Respects-refl}
use multi_process_threading.Discipline.Pmuts.{Respects-pmut, Respects-reset}

pub not_other : (s : State) (h : LwpId) → some s.cpu ≡ some h → (h == s.cpu) ≡ false → ⊥
not_other s h e ne = ground arith

module _ (m : PmutId) (ls : List PmutId) where
  taken :
      (s : State) (o : Option LwpId)
      → get_pmut s.pmuts m ≡ o
      → is_tracked m ≡ true
      → Held ls s
      → Keeps (λ _. Held (m ∷ ls)) s (take_from o m s)
  unfolding Keeps take_from
  taken s none e k h = (
    Respects-pmut s m (some s.cpu) (not_other s)
        (λ l x ne. let both : none ≡ some l = sym e ∙ x in absurd cc),
    Held-takes m ls s e k h,
  )
  taken s (some l) e k h = tt

  -- It is of a higher rank than those held.
  pub Op-lock :
      is_tracked m ≡ true → AreBelow (rank m) ls → Op ls (λ _. m ∷ ls) (pthread_mutex_lock m)
  unfolding Keeps pthread_mutex_lock
  Op-lock k b = record {
    at = λ s h. (
      Respects-refl s,
      Held-Ranked m ls s b h,
      λ s' l. taken s' (get_pmut s'.pmuts m) refl k (Held-left ls s s' l h),
    );
  }

  taken_ut :
      (s : State) (o : Option LwpId)
      → get_pmut s.pmuts m ≡ o
      → is_tracked m ≡ false
      → Held ls s
      → Keeps (λ _. Held ls) s (take_from o m s)
  unfolding Keeps take_from
  taken_ut s none e k h = (
    Respects-pmut s m (some s.cpu) (not_other s)
        (λ l x ne. let both : none ≡ some l = sym e ∙ x in absurd cc),
    Held-gets m ls s k h,
  )
  taken_ut s (some l) e k h = tt

  pub Op-lock_ut :
      is_tracked m ≡ false → AreBelow (rank m) ls → Op ls (λ _. ls) (pthread_mutex_lock m)
  unfolding Keeps pthread_mutex_lock
  Op-lock_ut k b = record {
    at = λ s h. (
      Respects-refl s,
      Held-Ranked m ls s b h,
      λ s' l. taken_ut s' (get_pmut s'.pmuts m) refl k (Held-left ls s s' l h),
    );
  }

  pub given :
      (s : State) (o : Option LwpId)
      → get_pmut s.pmuts m ≡ o
      → Out m ls
      → Has ls s
      → ((x : PmutId) → is_tracked x ≡ true → Holds x s → (m ≡ x) ⊎ In x ls)
      → Keeps (λ _. Held ls) s (give_back o m s)
  unfolding Keeps give_back
  given s none e w h n = tt
  given s (some l) e w h n = elim (Bool-cases (l == s.cpu)) [
    | inl mine ↦
        let same : s.cpu ≡ l = ground arith in
        rw mine (
          Respects-pmut s m none (λ x y ne. absurd cc)
              (λ x y ne. not_other s x (ap some same ∙ sym e ∙ y) ne),
          λ s' lf. (Respects-refl s', Held-left ls _ s' lf (Held-gives m ls s w h n)),
        )
    | inr off ↦ rw off tt
  ]

  pub Op-unlock : Op (m ∷ ls) (λ _. ls) (pthread_mutex_unlock m)
  unfolding pthread_mutex_unlock
  Op-unlock = record { at = λ s h. given s (get_pmut s.pmuts m) refl h.has.2 h.has.3 h.only }

  pub Op-unlock_ut : is_tracked m ≡ false → Op ls (λ _. ls) (pthread_mutex_unlock m)
  unfolding pthread_mutex_unlock
  Op-unlock_ut k = record {
    at = λ s h.
        given s (get_pmut s.pmuts m) refl (untracked-Out m ls s k h.has) h.has
          (λ x t e. inr (h.only x t e));
  }

pub Op-reset : {ls : List PmutId} (t : Tid) → Op ls (λ _. ls) (modify (reset_ut_pmut t))
unfolding Keeps
Op-reset {ls} t = record {
  at = λ s h. (
    Respects-reset s t,
    Held-gives (ut_pmut t) ls s (untracked-Out (ut_pmut t) ls s refl h.has) h.has
        (λ x k e. inr (h.only x k e)),
  );
}
