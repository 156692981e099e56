-- ===== src/Thread/Reaper/Laws.antt =====
-- Proofs about `uthread_destroy` and the reaper's loops.
use multi_process_threading.Base.{
  ℕ, zero, suc, ◌+◌, ◌<◌, ◌≡◌, ◌∙◌, inl, inr, refl, sym, ap, Bool, true, false, none, List, [], ◌∷◌,
  arith, if◌then◌else◌, ◌==◌, length, has, Distinct, Bool-cases,
}
use multi_process_threading.State.{
  State, Tid, ut_pmut, ut_waiter, reap_queue, ut_no_state, ut_zombie, uth_max_uthreads,
}
use multi_process_threading.State.Fifo.{Utqueue, empty_queue}
use multi_process_threading.Cmd.{bind}
use multi_process_threading.Cmd.Solo.{
  returned, ended, solo, solo-seq, solo-done, solo-lock, solo-unlock,
}
use multi_process_threading.Queue.{write_queue, set_linked, utqueue_init}
use multi_process_threading.Queue.Laws.{queue, solo-utqueue_empty, solo-utqueue_dequeue_cons}
use multi_process_threading.Sched.{set_state}
use multi_process_threading.Sched.Preempt.{
  IsRunning, masked_in, solo-nopreempt_on, solo-nopreempt_off,
}
use multi_process_threading.Thread.Alloc.{set_stack, set_exit, set_detached, reset_ut_pmut}
use multi_process_threading.Thread.Reaper.{
  free_stack, uthread_destroy, await_reapable, reap_one, reap_all, all_gone, exit_if, reaper_round,
}

-- The slot of `t` as it is before `uthread_create` fills it.
abbrev pub destroyed : Tid → State → State
destroyed t s = set_state t ut_no_state (
    reset_ut_pmut t (
      write_queue (ut_waiter t) empty_queue
        (set_exit t 0 (set_detached t false (set_stack t false s)))))

module _ (s : State) (t : Tid) (r : IsRunning s t) where
  solo-free_stack : (u : Tid) → solo (free_stack u s) ≡ returned tt (set_stack u false s)
  unfolding free_stack bind
  solo-free_stack u =
      solo-seq _ _ (solo-nopreempt_on s t r)
      ∙ solo-nopreempt_off s t (set_stack u false (masked_in s t)) r r.here refl refl refl

  solo-uthread_destroy :
      (u : Tid)
      → s.ut_state u ≡ ut_zombie
      → solo (uthread_destroy u s) ≡ returned tt (destroyed u s)
  unfolding uthread_destroy bind utqueue_init
  solo-uthread_destroy u e = rw e (solo-seq _ _ (solo-free_stack u) ∙ solo-done tt _)

-- `u` off the reap queue, which then holds `us`, and its slot free.
abbrev pub reaped_one : Tid → List ℕ → State → State
reaped_one u us s = destroyed u (set_linked u false (write_queue reap_queue (queue us) s))

solo-reap_one :
    (s : State) (t : Tid)
    → IsRunning s t
    → (u : Tid) (us : List ℕ) → s.queues.reaps ≡ queue (u ∷ us)
    → s.ut_state u ≡ ut_zombie
    → s.pmuts.of_ut u ≡ none
    → solo (reap_one s) ≡ returned tt (reaped_one u us s)
unfolding reap_one bind
solo-reap_one s t r u us e z f =
    solo-seq _ _ (solo-utqueue_dequeue_cons reap_queue s u us e)
    ∙ rw z (
        solo-seq _ _ (solo-lock (ut_pmut u) off f)
        ∙ (solo-seq _ _ (solo-unlock (ut_pmut u) _ s.pmuts refl f)
            ∙ solo-uthread_destroy off t (record { here = r.here; nested = r.nested }) u z))
  where
    off : State
    off = set_linked u false (write_queue reap_queue (queue us) s)

-- Every slot of `us`, in order, off the reap queue and free.
unfoldable pub reap_each : List ℕ → State → State
reap_each [] s = s
reap_each (u ∷ us) s = reap_each us (reaped_one u us s)

-- `us` are zombies off their stacks: their posix mutexes are free.
abbrev pub AllDead : State → List ℕ → Type 0
AllDead s us = (u : Tid) → has u us ≡ true → (s.ut_state u ≡ ut_zombie) × (s.pmuts.of_ut u ≡ none)

module _ (t : Tid) where
  AllDead-reaped :
      (s : State) (u : Tid) (us : List ℕ)
      → has u us ≡ false
      → AllDead s (u ∷ us)
      → AllDead (reaped_one u us s) us
  AllDead-reaped s u us out d w h = elim (Bool-cases (u == w)) [
    | inl at ↦
        let same : u ≡ w = ground arith in
        let both : true ≡ false = sym h ∙ ap (λ x. has x us) (sym same) ∙ out in absurd cc
    | inr off ↦ rw off (d w (ground arith))
  ]

  solo-reap_all :
      (fuel : ℕ) (us : List ℕ) (s : State)
      → length us < fuel
      → IsRunning s t
      → s.queues.reaps ≡ queue us
      → Distinct us
      → AllDead s us
      → solo (reap_all fuel s) ≡ returned tt (reap_each us s)
  unfolding reap_all reap_each bind
  solo-reap_all zero us s lt r e ds d = elim lt [ ]
  solo-reap_all (suc fuel) [] s lt r e ds d =
      solo-seq _ _ (solo-utqueue_empty reap_queue s [] e) ∙ solo-done tt s
  solo-reap_all (suc fuel) (u ∷ us) s lt r e ds d =
      solo-seq _ _ (solo-utqueue_empty reap_queue s (u ∷ us) e)
      ∙ (solo-seq _ _ (solo-reap_one s t r u us e (d u (ground arith)).0 (d u (ground arith)).1)
          ∙ solo-reap_all fuel us _ (omega arith) (record { here = r.here; nested = r.nested }) refl
              ds.1 (AllDead-reaped s u us ds.0 d))

-- `z` is `s` without the zombies `us`: the reap queue is empty, their slots are free, and nothing
-- else that a thread can see has changed.
pub record IsReaped (us : List ℕ) (s z : State) : Type 0 where
  pub emptied : z.queues.reaps ≡ queue []
  pub states : (u : Tid) → z.ut_state u ≡ (if has u us then ut_no_state else s.ut_state u)
  pub stacks : (u : Tid) → z.ut_stack u ≡ (if has u us then false else s.ut_stack u)
  pub exits : (u : Tid) → z.ut_exit u ≡ (if has u us then 0 else s.ut_exit u)
  pub detached : (u : Tid) → z.ut_detached u ≡ (if has u us then false else s.ut_detached u)
  pub runqs : z.queues.runqs ≡ s.queues.runqs
  pub lwps : z.lwps ≡ s.lwps
  pub owners : z.m_owner ≡ s.m_owner
  pub reaper : z.reaper_thr_id ≡ s.reaper_thr_id

IsReaped-cons :
    (u : Tid) (us : List ℕ) (s z : State)
    → IsReaped us (reaped_one u us s) z
    → IsReaped (u ∷ us) s z
IsReaped-cons u us s z i = record {
  emptied = i.emptied;
  states = λ w. ground (arith, i.states w);
  stacks = λ w. ground (arith, i.stacks w);
  exits = λ w. ground (arith, i.exits w);
  detached = λ w. ground (arith, i.detached w);
  runqs = i.runqs;
  lwps = i.lwps;
  owners = i.owners;
  reaper = i.reaper;
}

IsReaped-reap_each :
    (us : List ℕ) (s : State) → s.queues.reaps ≡ queue us → IsReaped us s (reap_each us s)
unfolding reap_each
IsReaped-reap_each [] s e = record {
  emptied = e;
  states = λ u. refl;
  stacks = λ u. refl;
  exits = λ u. refl;
  detached = λ u. refl;
  runqs = refl;
  lwps = refl;
  owners = refl;
  reaper = refl;
}
IsReaped-reap_each (u ∷ us) s e =
    IsReaped-cons u us s (reap_each us (reaped_one u us s))
      (IsReaped-reap_each us (reaped_one u us s) refl)

module _ (s : State) (t : Tid) (r : IsRunning s t) (u : Tid) (us : List ℕ)
    (e : s.queues.reaps ≡ queue (u ∷ us)) (ds : Distinct (u ∷ us)) (d : AllDead s (u ∷ us)) where
  solo-await_reapable : (fuel : ℕ) → solo (await_reapable (suc fuel) s) ≡ returned tt s
  unfolding await_reapable bind
  solo-await_reapable fuel =
      solo-seq _ _ (solo-utqueue_empty reap_queue s (u ∷ us) e) ∙ solo-done tt s

  enough : length (u ∷ us) < s.queues.reaps.tq_size + 1
  enough = omega (arith, ap (λ (q : Utqueue). q.tq_size) e)

  solo-exit_if :
      (b : Bool) (z : State) → solo (exit_if b z) ≡ (if b then ended z else returned tt z)
  unfolding exit_if solo
  solo-exit_if true z = refl
  solo-exit_if false z = refl

  -- The reaper runs a round while the reap queue holds distinct zombies whose `ut_pmut` is free.
  -- The round ends. The reap queue is then empty, each zombie's slot is in UT_NO_STATE with no
  -- stack, no exit value and not detached, the other slots are as before in these four fields,
  -- and the program exits if, and only if, the scan finds no slot in use but the reaper's.
  pub reaper_round-IsReaped :
      (waits : ℕ)
      → (z : State) × (solo (reaper_round (suc waits) s) ≡ (
          if all_gone uth_max_uthreads s.reaper_thr_id z.ut_state then ended z else returned tt z))
        × IsReaped (u ∷ us) s z
  unfolding reaper_round bind
  reaper_round-IsReaped waits = (
    z,
    solo-seq _ _ (solo-await_reapable waits)
        ∙ (solo-seq _ _ (solo-reap_all t _ (u ∷ us) s enough r e ds d)
            ∙ (solo-exit_if _ z
                ∙ ap
                    (λ (k : Tid).
                      if all_gone uth_max_uthreads k z.ut_state then ended z else returned tt z)
                    i.reaper)),
    i,
  )
    where
      z : State
      z = reap_each (u ∷ us) s

      i : IsReaped (u ∷ us) s z
      i = IsReaped-reap_each (u ∷ us) s e
