-- ===== src/Discipline/Threads.antt =====
-- The calls of uthread.c keep the lock discipline.
use multi_process_threading.Base.{◌≡◌, ℕ, refl, Bool, false, Option, none, some, [], ◌∷◌, ◌==◌}
use multi_process_threading.State.{Tid, PmutId, uthreads_mtx, ut_pmut, ut_zombie}
use multi_process_threading.State.Int.{ℤ}
use multi_process_threading.Cmd.{Cmd}
use multi_process_threading.Sched.{is_state}
use multi_process_threading.Thread.Alloc.{
  release_uthreads, claim, uthread_alloc, alloc_stack, setup_thread, create_at, uthread_create,
  uthread_self,
}
use multi_process_threading.Thread.Life.{
  reap_mtx, reap_cond, release_reap, add_reapable, make_reapable, exit_detached, exit_joinable,
  uthread_exit, thread_start,
}
use multi_process_threading.Discipline.{Op, is_runq_mtx}
use multi_process_threading.Switch.{uthread_switch}
use multi_process_threading.Discipline.Parts.{Respects-ids}
use multi_process_threading.Discipline.Rules.{
  Op-may_tick, Op-gets, Op-assert, Op-if, Op-pure, Op-fail, Op-modify, Op-own, ◌⨾◌,
}
use multi_process_threading.Discipline.Locking.{
  Op-lock, Op-unlock, Op-lock_ut, Op-unlock_ut, Op-reset,
}
use multi_process_threading.Discipline.Sched.{
  Op-curthr, Op-is_masked, Op-nopreempt_on, Op-nopreempt_off, Op-startonrunq,
}
use multi_process_threading.Discipline.Queues.{
  Op-utqueue_init, Op-utqueue_enqueue, Op-utqueue_dequeue,
}
use multi_process_threading.Discipline.Switch.{Op-switch}
use multi_process_threading.Discipline.Locks.{Op-mtx_lock, not-runq_some}
use multi_process_threading.Discipline.Sync.{Op-cond_signal, Op-wake_if_some}
use multi_process_threading.Discipline.Locks.{Op-mtx_unlock}

-- `uthread_create`
Op-release_uthreads : Op (uthreads_mtx ∷ []) (λ _. []) release_uthreads
unfolding release_uthreads
Op-release_uthreads = Op-unlock _ _ ⨾ λ _. Op-nopreempt_off

Op-claim : (t : Option Tid) → Op (uthreads_mtx ∷ []) (λ _. []) (claim t)
unfolding claim
Op-claim none = Op-release_uthreads ⨾ λ _. Op-pure
Op-claim (some i) = Op-own (λ s. refl) ⨾ λ _.
    Op-modify _ _ (λ s h. Respects-ids s (some i) h.has.0) (λ s. refl) ⨾ λ _.
    Op-release_uthreads ⨾ λ _. Op-may_tick ⨾ λ _. Op-gets

pub Op-alloc : Op [] (λ _. []) uthread_alloc
unfolding uthread_alloc
Op-alloc = Op-gets ⨾ λ _. Op-may_tick ⨾ λ _.
    Op-nopreempt_on ⨾ λ _. Op-lock uthreads_mtx [] refl tt ⨾ λ _. Op-gets ⨾ λ t. Op-claim t

Op-alloc_stack : (b : Bool) → Op [] (λ _. []) (alloc_stack b)
unfolding alloc_stack
Op-alloc_stack b = Op-nopreempt_on ⨾ λ _. Op-nopreempt_off ⨾ λ _. Op-pure

Op-setup_thread : (t : Tid) → Op [] (λ _. []) (setup_thread t)
unfolding setup_thread
Op-setup_thread t = Op-own (λ s. refl) ⨾ λ _. Op-may_tick ⨾ λ _. Op-own (λ s. refl) ⨾ λ _.
    Op-may_tick ⨾ λ _. Op-own (λ s. refl) ⨾ λ _. Op-may_tick ⨾ λ _.
    Op-utqueue_init _ (λ s h. tt) (λ s. tt) ⨾ λ _.
    Op-may_tick ⨾ λ _. Op-reset t ⨾ λ _. Op-may_tick ⨾ λ _. Op-own (λ s. refl)

Op-create_at : (t : Option Tid) (b : Bool) (p : ℤ) → Op [] (λ _. []) (create_at t b p)
unfolding create_at
Op-create_at none b p = Op-pure
Op-create_at (some t) b p = Op-may_tick ⨾ λ _. Op-alloc_stack b ⨾ λ got. Op-may_tick ⨾ λ _.
    Op-own (λ s. refl) ⨾ λ _. Op-may_tick ⨾ λ _.
    Op-if got (Op-setup_thread t ⨾ λ _. Op-may_tick ⨾ λ _. Op-startonrunq tt t p ⨾ λ _. Op-pure)
      Op-pure

pub Op-create : (b : Bool) (p : ℤ) → Op [] (λ _. []) (uthread_create b p)
unfolding uthread_create
Op-create b p = Op-alloc ⨾ λ t. Op-create_at t b p

pub Op-self : Op [] (λ _. []) uthread_self
unfolding uthread_self
Op-self = Op-nopreempt_on ⨾ λ _. Op-curthr ⨾ λ t. Op-nopreempt_off ⨾ λ _. Op-pure

-- `make_reapable` and `uthread_exit`
Op-switch_to :
    (m : Option PmutId)
    → ((m' : PmutId) → m ≡ some m' → is_runq_mtx m' ≡ false)
    → Op [] (λ _. []) (uthread_switch none false m)
Op-switch_to m e = Op-switch [] none m (λ s h q x. absurd cc) e (λ x i. absurd i) tt false

pub Op-release_reap : (t : Tid) → Op [] (λ _. []) (release_reap t)
unfolding release_reap
Op-release_reap t = Op-unlock_ut (ut_pmut t) [] refl ⨾ λ _. Op-mtx_unlock reap_mtx tt tt

Op-add_reapable : (t : Tid) → Op [] (λ _. []) (add_reapable t)
unfolding add_reapable
Op-add_reapable t = Op-utqueue_enqueue _ (λ s h. tt) (λ s h. tt) t ⨾ λ _.
    Op-cond_signal reap_cond ⨾ λ _. Op-curthr ⨾ λ u. Op-release_reap t ⨾ λ _.
    Op-if (t == u) (Op-switch_to none (λ m x. absurd cc) ⨾ λ _. Op-fail) Op-pure

pub Op-make_reapable : (t : Tid) → Op [] (λ _. []) (make_reapable t)
unfolding make_reapable
Op-make_reapable t = Op-is_masked ⨾ λ _. Op-assert _ ⨾ λ _.
    Op-gets ⨾ λ u. Op-if (is_state u ut_zombie) (Op-add_reapable t) (Op-release_reap t)

Op-exit_detached : (t : Tid) → Op [] (λ _. []) (exit_detached t)
unfolding exit_detached
Op-exit_detached t = Op-make_reapable t

Op-exit_joinable : (t : Tid) → Op [] (λ _. []) (exit_joinable t)
unfolding exit_joinable
Op-exit_joinable t =
    Op-utqueue_dequeue _ (λ s h. tt) ⨾ λ w. Op-wake_if_some tt w ⨾ λ _. Op-mtx_unlock reap_mtx tt tt

pub Op-leave_ut : (t : Tid) → Op [] (λ _. []) (uthread_switch none false (some (ut_pmut t)))
Op-leave_ut t = Op-switch_to (some (ut_pmut t)) (λ m x. not-runq_some (ut_pmut t) m refl x)

pub Op-exit : {A : Type 0} (v : ℕ) → Op {A = A} [] (λ _. []) (uthread_exit v)
unfolding uthread_exit
Op-exit v = Op-nopreempt_on ⨾ λ _. Op-mtx_lock reap_mtx ⨾ λ _. Op-curthr ⨾ λ t.
    Op-lock_ut (ut_pmut t) [] refl tt ⨾ λ _. Op-own (λ s. refl) ⨾ λ _. Op-own (λ s. refl) ⨾ λ _.
    Op-gets ⨾ λ d.
    Op-if d (Op-exit_detached t) (Op-exit_joinable t) ⨾ λ _. Op-leave_ut t ⨾ λ _. Op-fail

pub Op-thread_start :
    {A : Type 0} (f : Cmd ℕ) → Op [] (λ _. []) f → Op {A = A} [] (λ _. []) (thread_start f)
unfolding thread_start
Op-thread_start f x =
    Op-nopreempt_off ⨾ λ _. Op-is_masked ⨾ λ b. Op-assert _ ⨾ λ _. x ⨾ λ v. Op-exit v
