-- ===== src/Switch/Laws.antt =====
-- Proofs about `uthread_switch` and what the LWP does for the thread that has left.
use multi_process_threading.Base.{
  ℕ, ◌≡◌, ◌∙◌, refl, ap, Bool, true, false, none, some, List, [], ◌∷◌, ◌++◌, ltb, update_self,
  update-update, if◌then◌else◌, Option,
}
use multi_process_threading.State.{
  State, Tid, LwpId, QueueId, PmutId, Pmuts, runq_mtx, uthreads_mtx, ut_pmut, m_pmut, c_pmut,
  ut_zombie, get_pmut, put_pmut,
}
use multi_process_threading.Cmd.{Run, Cmd, done, unlocked, modify, ◌>>◌, bind, curthr, is_masked}
use multi_process_threading.Cmd.Solo.{
  Outcome, returned, left, solo, solo-seq, solo-left, solo-lock, bind-done,
  pthread_mutex_unlock_lem,
}
use multi_process_threading.Queue.{queue_of, write_queue, set_linked}
use multi_process_threading.Queue.Laws.{queue, utqueue_enqueue_lem}
use multi_process_threading.Sched.{is_state}
use multi_process_threading.Switch.{
  set_curlwp, set_curthr, setcontext_lwp, after_switch, uthread_switch, enqueue_on, save_on_runq,
  leave_thread, unlock_pmut, lwp_leave,
}

-- Thread `t` runs with preemption off, as `uthread_switch` asserts.
pub record IsMasked (s : State) (t : Tid) : Type 0 where
  pub here : s.ut_curthr s.cpu ≡ some t
  pub masked : s.masked s.cpu ≡ true
  pub nested : (ltb 0 (s.ut_no_preempt_count t)) ≡ true

solo-leave : {A : Type 0} (s : State) (k : Cmd A) → solo ((setcontext_lwp >> k) s) ≡ left s k
unfolding solo bind setcontext_lwp
solo-leave s k = refl

module _ (s : State) (t : Tid) (i : IsMasked s t) (free : s.pmuts.of_runq ≡ none) where
  abbrev pub switched : Option QueueId → Bool → Option PmutId → State
  switched q b m =
      set_curlwp q (if is_state (s.ut_state t) ut_zombie then false else b) m
        (record s { pmuts = record (s.pmuts) { of_runq = some s.cpu } })

  -- The thread is off the LWP, which holds `runq_mtx` and has its parameters.
  pub solo-switch :
      (q : Option QueueId) (b : Bool) (m : Option PmutId)
      → solo (uthread_switch q b m s) ≡ left (switched q b m) after_switch
  unfolding uthread_switch bind curthr is_masked
  solo-switch q b m =
      rw (i.masked, i.here, i.nested)
        (solo-seq _ _ (solo-lock runq_mtx s free)
          ∙ rw i.here (solo-leave (switched q b m) after_switch))

-- What `*curlwp` asks the LWP to do.
pub record Asks (s : State) (q : Option QueueId) (b : Bool) (m : Option PmutId) : Type 0 where
  pub queue : s.lwps.queue s.cpu ≡ q
  pub saveonrq : s.lwps.saveonrq s.cpu ≡ b
  pub pmut : s.lwps.pmut s.cpu ≡ m

module _ (s : State) (t : Tid) where
  enqueue_on_lem :
      (q : QueueId) (xs : List ℕ)
      → queue_of q s ≡ queue xs
      → s.linked t ≡ false
      → enqueue_on (some q) t s
        ≡ done tt (set_linked t true (write_queue q (queue (xs ++ t ∷ [])) s))
  unfolding enqueue_on
  enqueue_on_lem q xs e f = utqueue_enqueue_lem q s t xs e f

  pub save_on_runq-false : save_on_runq false t s ≡ done tt s
  unfolding save_on_runq bind
  save_on_runq-false = refl

-- The thread, put on the queue that it asked for.
leave_thread_lem :
    (s : State) (t : Tid) (q : QueueId) (m : Option PmutId) (xs : List ℕ)
    → Asks s (some q) false m
    → ltb 0 (s.ut_no_preempt_count t) ≡ true
    → queue_of q s ≡ queue xs
    → s.linked t ≡ false
    → leave_thread (some t) s ≡ done tt (set_linked t true (write_queue q (queue (xs ++ t ∷ [])) s))
unfolding leave_thread bind
leave_thread_lem s t q m xs a n e f =
    rw (n, a.queue)
      (bind-done _ (enqueue_on_lem s t q xs e f) ∙ rw a.saveonrq (save_on_runq-false _ t))

-- The LWP, without a thread and with its parameters cleared.
abbrev pub vacant : State → State
vacant s = set_curthr none (set_curlwp none false none s)

-- A posix mutex has just been released, in state `w`: others may run, and then the LWP is vacant.
abbrev pub releasing : State → Run (Unit {0})
releasing w = unlocked w (λ s'. done tt (vacant s'))

-- The posix mutex `m` is released as the last step before the LWP is vacant.
pub unlock-releasing :
    (s : State) (m : PmutId) (p : Pmuts)
    → s.pmuts ≡ put_pmut p m (some s.cpu)
    → get_pmut p m ≡ none
    → bind
        (unlock_pmut (some m) s)
        (λ _. modify (set_curlwp none false none) >> modify (set_curthr none))
      ≡ releasing (record s { pmuts = p })
unfolding bind unlock_pmut
unlock-releasing s m p held free =
    ap (λ r. bind r (λ _. modify (set_curlwp none false none) >> modify (set_curthr none)))
      (pthread_mutex_unlock_lem m s p held free)

-- A thread that leaves to wait on `q` is put at its end, and only then is the posix mutex `m`
-- released. `runq_mtx` stays with the LWP.
pub lwp_leave_lem :
    (s : State) (t : Tid) (q : QueueId) (m : PmutId) (xs : List ℕ) (p : Pmuts)
    → Asks s (some q) false (some m)
    → IsMasked s t
    → queue_of q s ≡ queue xs
    → s.linked t ≡ false
    → s.pmuts ≡ put_pmut p m (some s.cpu)
    → get_pmut p m ≡ none
    → lwp_leave s
      ≡ releasing
          (record (set_linked t true (write_queue q (queue (xs ++ t ∷ [])) s)) { pmuts = p })
unfolding lwp_leave bind
lwp_leave_lem s t q m xs p a i e f held free = rw i.here (
    bind-done _ (leave_thread_lem s t q (some m) xs a i.nested e f)
    ∙ rw a.pmut (unlock-releasing _ m p held free))

-- A command that ends with the thread off the LWP: `k` is its saved context, and `z` the state once
-- the LWP has done what it was asked, just before it looks for another thread.
pub record Parks {A : Type 0} (o : Outcome A) (z : State) (k : State → Run A) : Type 0 where
  pub before : State
  pub leaves : o ≡ left before k
  pub settles : solo (lwp_leave before) ≡ returned tt z

pub Parks-bind :
    {A B : Type 0} (r : Run A) (f : A → Cmd B) {z : State} {k : State → Run A}
    → Parks (solo r) z k
    → Parks (solo (bind r f)) z (λ s'. bind (k s') f)
Parks-bind r f p = record {
  before = p.before;
  leaves = solo-left r f p.leaves;
  settles = p.settles;
}

pub Parks-after :
    {A : Type 0} {o o' : Outcome A} {z : State} {k : State → Run A}
    → o ≡ o'
    → Parks o' z k
    → Parks o z k
Parks-after e p = record { before = p.before; leaves = e ∙ p.leaves; settles = p.settles }

abbrev pub is_runq : PmutId → Bool
is_runq runq_mtx = true
is_runq _ = false

pub with_runq :
    (p : Pmuts) (m : PmutId) (l : LwpId)
    → record (put_pmut p m (some l)) { of_runq = some l }
      ≡ put_pmut (record p { of_runq = some l }) m (some l)
with_runq p runq_mtx l = refl
with_runq p _ l = refl

pub without_runq :
    (p : Pmuts) (m : PmutId) (l : LwpId)
    → is_runq m ≡ false
    → get_pmut p m ≡ none
    → get_pmut (record p { of_runq = some l }) m ≡ none
without_runq p runq_mtx l ne e = cc
without_runq p uthreads_mtx l ne e = e
without_runq p (ut_pmut t) l ne e = e
without_runq p (m_pmut t) l ne e = e
without_runq p (c_pmut t) l ne e = e

-- The parameters are cleared, whatever they were.
pub curlwp-clear :
    (s : State) (q : Option QueueId) (b : Bool) (m : Option PmutId)
    → set_curlwp none false none (set_curlwp q b m s) ≡ set_curlwp none false none s
curlwp-clear s q b m = λ i. record s {
  lwps = record (s.lwps) {
    queue = update-update s.lwps.queue s.cpu q none i;
    saveonrq = update-update s.lwps.saveonrq s.cpu b false i;
    pmut = update-update s.lwps.pmut s.cpu m none i;
  };
}

-- `t` waits on `q`, behind `xs`; the LWP holds `runq_mtx`, beside the posix mutexes of `p`.
abbrev pub parked : State → Tid → QueueId → List ℕ → Pmuts → State
parked s t q xs p = vacant (record (set_linked t true (write_queue q (queue (xs ++ t ∷ [])) s)) {
  pmuts = record p { of_runq = some s.cpu };
})

pub never : (b : Bool) → (if b then false else false) ≡ false
never true = refl
never false = refl

-- The thread is off the LWP, which holds `runq_mtx` and has its parameters. It is on the queues that
-- it was on, and the LWP still holds the posix mutexes that it held.
abbrev pub leaving : State → Option QueueId → Bool → Option PmutId → State
leaving s q b m = set_curlwp q b m (record s { pmuts = record (s.pmuts) { of_runq = some s.cpu } })

-- Then `t` is put behind `xs` on `q`, and the posix mutexes are those of `p`, beside `runq_mtx`.
abbrev pub queued : State → Tid → QueueId → PmutId → List ℕ → Pmuts → State
queued s t q m xs p =
    record (set_linked t true
      (write_queue q (queue (xs ++ t ∷ [])) (leaving s (some q) false (some m)))) {
        pmuts = record p { of_runq = some s.cpu };
      }

-- The LWP, vacant, without `m`.
abbrev pub released : State → PmutId → Pmuts → State
released s m p = record (leaving s none false (some m)) {
  pmuts = record p { of_runq = some s.cpu };
}

-- A command that ends with the thread off the LWP, in state `b`, with `k` for its saved context.
-- `r` is what the LWP then does for the thread, before it looks for another one.
pub record Leaves {A : Type 0} (o : Outcome A) (b : State) (r : Run (Unit {0})) (k : State → Run A)
    : Type 0 where
  pub leaves : o ≡ left b k
  pub does : lwp_leave b ≡ r

pub Leaves-bind :
    {A B : Type 0} (r : Run A) (f : A → Cmd B) {b : State} {d : Run (Unit {0})} {k : State → Run A}
    → Leaves (solo r) b d k
    → Leaves (solo (bind r f)) b d (λ s'. bind (k s') f)
Leaves-bind r f p = record { leaves = solo-left r f p.leaves; does = p.does }

pub Leaves-after :
    {A : Type 0} {o o' : Outcome A} {b : State} {d : Run (Unit {0})} {k : State → Run A}
    → o ≡ o'
    → Leaves o' b d k
    → Leaves o b d k
Leaves-after e p = record { leaves = e ∙ p.leaves; does = p.does }

module _ {A : Type 0} {o : Outcome A} {b : State} {k : State → Run A} where
  -- The parameters are cleared in the end, whatever they were.
  clear-Parks :
      (z : State) (q : Option QueueId) (c : Bool) (m : Option PmutId) {d : Run (Unit {0})}
      → solo d ≡ returned tt (vacant (set_curlwp q c m z))
      → Leaves o b d k
      → Parks o (vacant z) k
  clear-Parks z q c m e l = record {
    before = b;
    leaves = l.leaves;
    settles = ap solo l.does ∙ e ∙ ap (λ x. returned tt (set_curthr none x)) (curlwp-clear z q c m);
  }

  pub Leaves-Parks :
      (z : State) (q : Option QueueId) (c : Bool) (m : Option PmutId)
      → Leaves o b (releasing (set_curlwp q c m z)) k
      → Parks o (vacant z) k
  unfolding solo
  Leaves-Parks z q c m = clear-Parks z q c m refl

  pub saved-Parks :
      (z : State) (q : Option QueueId) (c : Bool) (m : Option PmutId)
      → Leaves o b (done tt (vacant (set_curlwp q c m z))) k
      → Parks o (vacant z) k
  unfolding solo
  saved-Parks z q c m = clear-Parks z q c m refl

module _ (s : State) (t : Tid) (i : IsMasked s t) (free : s.pmuts.of_runq ≡ none) where
  -- A thread that asks for no run queue.
  pub switch-leaves :
      (q : Option QueueId) (m : Option PmutId)
      → solo (uthread_switch q false m s) ≡ left (leaving s q false m) after_switch
  switch-leaves q m =
      solo-switch s t i free q false m
      ∙ ap
          (λ (c : Bool).
            left (set_curlwp q c m (record s { pmuts = record (s.pmuts) { of_runq = some s.cpu } }))
              after_switch)
          (never (is_state (s.ut_state t) ut_zombie))

pub leaving-Asks :
    (s : State) (q : Option QueueId) (b : Bool) (m : Option PmutId) → Asks (leaving s q b m) q b m
leaving-Asks s q b m = record {
  queue = update_self s.lwps.queue s.cpu q;
  saveonrq = update_self s.lwps.saveonrq s.cpu b;
  pmut = update_self s.lwps.pmut s.cpu m;
}

pub switch-Leaves :
    (s : State) (t : Tid) (q : QueueId) (m : PmutId) (xs : List ℕ) (p : Pmuts)
    → IsMasked s t
    → s.pmuts.of_runq ≡ none
    → is_runq m ≡ false
    → queue_of q s ≡ queue xs
    → s.linked t ≡ false
    → s.pmuts ≡ put_pmut p m (some s.cpu)
    → get_pmut p m ≡ none
    → Leaves
        (solo (uthread_switch (some q) false (some m) s))
        (leaving s (some q) false (some m))
        (releasing (queued s t q m xs p))
        after_switch
switch-Leaves s t q m xs p i free other e f held got = record {
  leaves = switch-leaves s t i free (some q) (some m);
  does =
      lwp_leave_lem (leaving s (some q) false (some m)) t q m xs (record p { of_runq = some s.cpu })
        (leaving-Asks s (some q) false (some m))
        (record { here = i.here; masked = i.masked; nested = i.nested }) e f
        (ap (λ (ps : Pmuts). record ps { of_runq = some s.cpu }) held ∙ with_runq p m s.cpu)
        (without_runq p m s.cpu other got);
}
