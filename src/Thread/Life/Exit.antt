-- ===== src/Thread/Life/Exit.antt =====
-- Proofs about `uthread_exit` of a thread that is not detached.
use multi_process_threading.Base.{
  ℕ, ◌≡◌, ◌∙◌, refl, subst, true, false, Option, none, some, List, [], ◌∷◌, arith, ◌==◌, update,
  update_self, update-restore,
}
use multi_process_threading.State.{
  State, Tid, MtxId, ut_pmut, ut_waiter, ut_zombie, ut_wait, ut_runnable,
}
use multi_process_threading.Cmd.{Cmd, Run, ◌>>=◌, bind, curthr, fail, panicked, pthread_mutex_lock}
use multi_process_threading.Cmd.Solo.{returned, solo, solo-seq, solo-lock}
use multi_process_threading.Queue.{write_queue, set_linked}
use multi_process_threading.Queue.Laws.{queue, solo-utqueue_dequeue_nil, solo-utqueue_dequeue_cons}
use multi_process_threading.Sched.{set_state, uthread_nopreempt_on}
use multi_process_threading.Sched.Preempt.{
  IsRunning, masked_in, solo-nopreempt_on, IsRunning-masked_in,
}
use multi_process_threading.Sched.Wake.{CanAdd, runq_added, solo-wake}
use multi_process_threading.Switch.{after_switch}
use multi_process_threading.Switch.Laws.{
  Parks, Parks-bind, Parks-after, Leaves, Leaves-bind, Leaves-after, Leaves-Parks, leaving,
  releasing, released, vacant,
}
use multi_process_threading.Switch.Release.{switch-releases}
use multi_process_threading.Mtx.{set_owner, uthread_mtx_lock}
use multi_process_threading.Mtx.Lock.{lock-free}
use multi_process_threading.Mtx.Unlock.{unlock-free}
use multi_process_threading.Cond.{wake_if_some}
use multi_process_threading.Thread.Alloc.{set_exit}
use multi_process_threading.Thread.Life.{reap_mtx, exit_joinable, uthread_exit}

-- `t` a zombie that holds its exit value.
abbrev pub dead : Tid → ℕ → State → State
dead t status s = set_exit t status (set_state t ut_zombie s)

-- What is left to a zombie: it never runs again.
unfoldable pub after_exit : {A : Type 0} → State → Run A
after_exit s' = bind (after_switch s') (λ _. fail panicked)

-- The zombie's state `z`, off its LWP, with `ut_pmut` free again, as in `s`.
abbrev pub gone : State → State → State
gone s z = vacant (record z { pmuts = record (s.pmuts) { of_runq = some s.cpu } })

-- The waiter `u` off the queue of `t`, and runnable.
abbrev pub let_go : Tid → Tid → List ℕ → State → State
let_go t u us z = set_linked u false (write_queue (ut_waiter t) (queue us) z)

abbrev pub woken_by : Tid → Tid → List ℕ → ℕ → List ℕ → State → State
woken_by t u us prio xs z = runq_added u prio xs (set_state u ut_runnable (let_go t u us z))

-- The reaper's mutex is free, nobody waits for it, and the posix mutexes are free.
pub record CanExit (s : State) (t : Tid) : Type 0 where
  pub owner : s.m_owner reap_mtx ≡ none
  pub mtx_waiters : s.queues.mtx_waiters reap_mtx ≡ queue []
  pub mtx_pmut : s.pmuts.of_mtx reap_mtx ≡ none
  pub pmut : s.pmuts.of_ut t ≡ none
  pub runq : s.pmuts.of_runq ≡ none

module _ (s : State) (t : Tid) (r : IsRunning s t) (c : CanExit s t) (status : ℕ) where
  -- `t` with `reap_mtx` and its own `ut_pmut`, dead.
  abbrev dying : State
  dying = dead t status (record (set_owner reap_mtx (some t) (masked_in s t)) {
    pmuts = record (s.pmuts) { of_ut = update s.pmuts.of_ut t (some s.cpu) };
  })

  solo-dying :
      {A : Type 0} (z : Tid → Unit {0} → Cmd A)
      → solo (
          (uthread_nopreempt_on >>= λ _.
          uthread_mtx_lock reap_mtx >>= λ _. curthr >>= λ x. pthread_mutex_lock (ut_pmut x) >>= z x)
            s)
        ≡ solo (
            z t tt (record (set_owner reap_mtx (some t) (masked_in s t)) {
              pmuts = record (s.pmuts) { of_ut = update s.pmuts.of_ut t (some s.cpu) };
            }))
  unfolding bind curthr
  solo-dying z =
      solo-seq _ _ (solo-nopreempt_on s t r)
      ∙ (solo-seq _ _
            (lock-free (masked_in s t) t reap_mtx (IsRunning-masked_in s t r) c.mtx_pmut c.owner)
          ∙ rw r.here (solo-seq _ _ (solo-lock (ut_pmut t) _ c.pmut)))

  dying-IsRunning : IsRunning dying t
  dying-IsRunning = record { here = r.here; nested = i.nested }
    where
      i : IsRunning (masked_in s t) t
      i = IsRunning-masked_in s t r

  nobody-wakes :
      s.queues.waiters t ≡ queue []
      → solo (exit_joinable t dying) ≡ returned tt (set_owner reap_mtx none dying)
  unfolding exit_joinable bind wake_if_some
  nobody-wakes e =
      solo-seq _ _ (solo-utqueue_dequeue_nil (ut_waiter t) dying e)
      ∙ unlock-free dying t reap_mtx dying-IsRunning c.mtx_pmut c.mtx_waiters

  -- A running thread that is not detached exits with nobody waiting for it, while `reap_mtx` is
  -- free with no waiters, and so are the posix mutexes. It is off the LWP, a zombie that keeps
  -- its exit value, `reap_mtx` and `ut_pmut` are free, and no queue has changed. What is left of
  -- the call is a panic.
  pub exit-alone :
      {A : Type 0}
      → s.queues.waiters t ≡ queue []
      → s.ut_detached t ≡ false
      → Parks
          (solo (uthread_exit {A = A} status s))
          (gone s (dead t status (masked_in s t)))
          after_exit
  unfolding uthread_exit bind after_exit
  exit-alone {A = A} e attached =
      subst
        (λ (f : MtxId → Option Tid).
          Parks (solo (uthread_exit {A = A} status s))
            (gone s (record (dead t status (masked_in s t)) { m_owner = f })) after_exit)
        (update-restore s.m_owner reap_mtx (some t) none c.owner)
        (Parks-after (solo-dying _ ∙ rw attached (solo-seq _ _ (nobody-wakes e))) (
          Parks-bind _ _ (
            Leaves-Parks _ none false (some (ut_pmut t)) (
              switch-releases (set_owner reap_mtx none dying) t (ut_pmut t) s.pmuts
                (record {
                  here = r.here;
                  masked = update_self s.masked s.cpu true;
                  nested = ground arith;
                })
                c.runq refl refl c.pmut))))

  module _ (u : Tid) (prio : ℕ) (us xs : List ℕ) where
    module _ (w : s.ut_state u ≡ ut_wait) (other : (t == u) ≡ false)
        (a : CanAdd (let_go t u us s) u prio xs) where
      waiter-wakes :
          s.queues.waiters t ≡ queue (u ∷ us)
          → solo (exit_joinable t dying)
            ≡ returned tt (set_owner reap_mtx none (woken_by t u us prio xs dying))
      unfolding exit_joinable bind wake_if_some
      waiter-wakes e =
          solo-seq _ _ (solo-utqueue_dequeue_cons (ut_waiter t) dying u us e)
          ∙ (solo-seq _ _ (
                solo-wake (let_go t u us dying) t (record { here = r.here; nested = i.nested })
                  c.runq u prio xs (rw other w)
                  (record { prio = a.prio; small = a.small; free = a.free; holds = a.holds }))
              ∙ unlock-free (woken_by t u us prio xs dying) t reap_mtx
                  (record { here = r.here; nested = i.nested }) c.mtx_pmut c.mtx_waiters)
        where
          i : IsRunning (masked_in s t) t
          i = IsRunning-masked_in s t r

      -- The thread dead and its waiter woken, while its LWP holds `ut_pmut`.
      abbrev pub last : State
      last = woken_by t u us prio xs (
          dead t status (record (masked_in s t) {
            pmuts = record (s.pmuts) { of_ut = update s.pmuts.of_ut t (some s.cpu) };
          }))

      -- A running thread that is not detached exits while another waits to join it, in
      -- UT_WAIT with a legal priority; `reap_mtx` is free with no waiters, and so are the
      -- posix mutexes. It leaves the LWP when its oldest waiter is runnable, it is a zombie
      -- with its exit value, and `reap_mtx` is free again; the LWP then holds `ut_pmut` and
      -- `runq_mtx`. What `lwp_leave` does there is given whole: its only pause is the release
      -- of `ut_pmut`, and then the LWP is vacant. What is left of the thread's call is the
      -- second return in `uthread_switch` and a panic.
      pub exit-wakes :
          {A : Type 0}
          → s.queues.waiters t ≡ queue (u ∷ us)
          → s.ut_detached t ≡ false
          → Leaves
              (solo (uthread_exit {A = A} status s))
              (leaving last none false (some (ut_pmut t)))
              (releasing (released last (ut_pmut t) s.pmuts))
              after_exit
      unfolding uthread_exit bind after_exit
      exit-wakes {A = A} e attached =
          subst
            (λ (f : MtxId → Option Tid).
              Leaves (solo (uthread_exit {A = A} status s))
                (leaving (record last { m_owner = f }) none false (some (ut_pmut t)))
                (releasing (released (record last { m_owner = f }) (ut_pmut t) s.pmuts)) after_exit)
            (update-restore s.m_owner reap_mtx (some t) none c.owner)
            (Leaves-after (solo-dying _ ∙ rw attached (solo-seq _ _ (waiter-wakes e))) (
              Leaves-bind _ _ (
                switch-releases (set_owner reap_mtx none (woken_by t u us prio xs dying)) t
                  (ut_pmut t) s.pmuts
                  (record {
                    here = r.here;
                    masked = update_self s.masked s.cpu true;
                    nested = ground arith;
                  })
                  c.runq refl refl c.pmut)))

      pub exit_waking-Parks :
          {A : Type 0}
          → s.queues.waiters t ≡ queue (u ∷ us)
          → s.ut_detached t ≡ false
          → Parks
              (solo (uthread_exit {A = A} status s))
              (gone s (woken_by t u us prio xs (dead t status (masked_in s t))))
              after_exit
      exit_waking-Parks e attached =
          Leaves-Parks _ none false (some (ut_pmut t)) (exit-wakes e attached)
