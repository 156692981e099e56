-- ===== src/Discipline/Joins.antt =====
-- `uthread_join`, `uthread_detach` and the reaper keep the lock discipline.
use multi_process_threading.Base.{
  ℕ, zero, suc, refl, Bool, true, false, not, Option, none, some, [],
}
use multi_process_threading.State.{Tid, ut_pmut, ut_zombie}
use multi_process_threading.State.Int.{ℤ}
use multi_process_threading.Cmd.{pure, pthread_mutex_lock, pthread_mutex_unlock}
use multi_process_threading.Sched.{is_state}
use multi_process_threading.Prio.{Errno, index_of, esrch}
use multi_process_threading.Thread.Life.{reap_mtx, reap_cond}
use multi_process_threading.Thread.Join.{
  Joined, release_thread, reap_joined, finish_join, await_exit, join_thread, uthread_join,
  detach_zombie, detach_thread, uthread_detach,
}
use multi_process_threading.Thread.Reaper.{
  free_stack, uthread_destroy, await_reapable, reap_one, reap_all, exit_if, reaper_round,
  reaper_loop, reaper,
}
use multi_process_threading.Discipline.{Op, Keeps}
use multi_process_threading.Discipline.Writes.{Respects-refl}
use multi_process_threading.Discipline.Rules.{
  Op-gets, Op-deref, Op-assert, Op-if, Op-pure, Op-fail, Op-own, ◌⨾◌,
}
use multi_process_threading.Discipline.Locking.{Op-lock_ut, Op-unlock_ut, Op-reset}
use multi_process_threading.Discipline.Sched.{Op-curthr, Op-nopreempt_on, Op-nopreempt_off}
use multi_process_threading.Discipline.Queues.{
  Op-utqueue_init, Op-utqueue_empty, Op-utqueue_enqueue, Op-utqueue_dequeue,
}
use multi_process_threading.Discipline.Locks.{Op-mtx_lock}
use multi_process_threading.Discipline.Sync.{Op-cond_wait}
use multi_process_threading.Discipline.Threads.{Op-release_reap, Op-make_reapable, Op-leave_ut}

module _ (t : Tid) where
  Op-lock_thread : Op [] (λ _. []) (pthread_mutex_lock (ut_pmut t))
  Op-lock_thread = Op-lock_ut (ut_pmut t) [] refl tt

  Op-unlock_thread : Op [] (λ _. []) (pthread_mutex_unlock (ut_pmut t))
  Op-unlock_thread = Op-unlock_ut (ut_pmut t) [] refl

  Op-release_thread : Op [] (λ _. []) (release_thread t)
  unfolding release_thread
  Op-release_thread = Op-unlock_thread ⨾ λ _. Op-nopreempt_off

  Op-reap_joined : (v : Option ℕ) → Op [] (λ _. []) (reap_joined t v)
  unfolding reap_joined
  Op-reap_joined v = Op-mtx_lock reap_mtx ⨾ λ _. Op-lock_thread ⨾ λ _. Op-gets ⨾ λ u.
      Op-if (is_state u ut_zombie) (Op-make_reapable t) (Op-release_reap t) ⨾ λ _.
      Op-nopreempt_off ⨾ λ _. Op-pure

  Op-finish_join : (b : Bool) → Op [] (λ _. []) (finish_join t b)
  unfolding finish_join
  Op-finish_join b = Op-gets ⨾ λ u. Op-gets ⨾ λ v.
      Op-if (is_state u ut_zombie)
        (Op-own (λ s. refl) ⨾ λ _. Op-unlock_thread ⨾ λ _. Op-reap_joined _)
        (Op-release_thread ⨾ λ _. Op-pure)

  Op-await_exit : Op [] (λ _. []) (await_exit t)
  unfolding await_exit
  Op-await_exit = Op-curthr ⨾ λ u. Op-own (λ s. refl) ⨾ λ _.
      Op-utqueue_enqueue _ (λ s h. tt) (λ s h. tt) u ⨾ λ _. Op-leave_ut t ⨾ λ _. Op-lock_thread

  Op-join_thread : (b : Bool) → Op [] (λ _. []) (join_thread t b)
  unfolding join_thread
  Op-join_thread b = Op-nopreempt_on ⨾ λ _. Op-lock_thread ⨾ λ _. Op-utqueue_empty _ ⨾ λ e.
      Op-gets ⨾ λ d. Op-gets ⨾ λ u. Op-if (not e) (Op-release_thread ⨾ λ _. Op-pure) (
        Op-if d (Op-release_thread ⨾ λ _. Op-pure)
          (Op-if (is_state u ut_zombie) (Op-finish_join b) (Op-await_exit ⨾ λ _. Op-finish_join b)))

  Op-detach_zombie : Op [] (λ _. []) (detach_zombie t)
  unfolding detach_zombie
  Op-detach_zombie = Op-mtx_lock reap_mtx ⨾ λ _.
      Op-gets ⨾ λ u. Op-if (is_state u ut_zombie) (Op-make_reapable t) (Op-release_reap t)

  Op-detach_thread : Op [] (λ _. []) (detach_thread t)
  unfolding detach_thread
  Op-detach_thread = Op-nopreempt_on ⨾ λ _. Op-lock_thread ⨾ λ _. Op-utqueue_empty _ ⨾ λ e.
      Op-gets ⨾ λ d. Op-gets ⨾ λ u. Op-if (not e) (Op-release_thread ⨾ λ _. Op-pure) (
        Op-if d (Op-release_thread ⨾ λ _. Op-pure) (
          Op-own (λ s. refl) ⨾ λ _.
          Op-if (is_state u ut_zombie) Op-detach_zombie Op-unlock_thread ⨾ λ _.
          Op-nopreempt_off ⨾ λ _. Op-pure))

Op-join_at :
    (o : Option Tid) (b : Bool)
    → Op {A = Joined} [] (λ _. []) (elim o [ none ↦ pure (esrch, none) | some t ↦ join_thread t b ])
Op-join_at none b = Op-pure
Op-join_at (some t) b = Op-join_thread t b

pub Op-join : (id : ℤ) (b : Bool) → Op [] (λ _. []) (uthread_join id b)
unfolding uthread_join
Op-join id b = Op-join_at (index_of id) b

Op-detach_at :
    (o : Option Tid)
    → Op {A = Errno} [] (λ _. []) (elim o [ none ↦ pure esrch | some t ↦ detach_thread t ])
Op-detach_at none = Op-pure
Op-detach_at (some t) = Op-detach_thread t

pub Op-detach : (id : ℤ) → Op [] (λ _. []) (uthread_detach id)
unfolding uthread_detach
Op-detach id = Op-detach_at (index_of id)

-- The reaper
Op-free_stack : (t : Tid) → Op [] (λ _. []) (free_stack t)
unfolding free_stack
Op-free_stack t = Op-nopreempt_on ⨾ λ _. Op-own (λ s. refl) ⨾ λ _. Op-nopreempt_off

Op-destroy : (t : Tid) → Op [] (λ _. []) (uthread_destroy t)
unfolding uthread_destroy
Op-destroy t = Op-gets ⨾ λ _. Op-assert _ ⨾ λ _. Op-free_stack t ⨾ λ _. Op-own (λ s. refl) ⨾ λ _.
    Op-own (λ s. refl) ⨾ λ _.
    Op-utqueue_init _ (λ s h. tt) (λ s. tt) ⨾ λ _. Op-reset t ⨾ λ _. Op-own (λ s. refl)

Op-await_reapable : (n : ℕ) → Op [] (λ _. []) (await_reapable n)
unfolding await_reapable
Op-await_reapable zero = Op-fail
Op-await_reapable (suc n) = Op-utqueue_empty _ ⨾ λ e.
    Op-if e (Op-cond_wait reap_cond reap_mtx ⨾ λ _. Op-await_reapable n) Op-pure

Op-reap_one : Op [] (λ _. []) reap_one
unfolding reap_one
Op-reap_one = Op-utqueue_dequeue _ (λ s h. tt) ⨾ λ o. Op-deref o ⨾ λ t.
    Op-gets ⨾ λ _. Op-assert _ ⨾ λ _. Op-lock_thread t ⨾ λ _. Op-unlock_thread t ⨾ λ _. Op-destroy t

Op-reap_all : (n : ℕ) → Op [] (λ _. []) (reap_all n)
unfolding reap_all
Op-reap_all zero = Op-fail
Op-reap_all (suc n) = Op-utqueue_empty _ ⨾ λ e. Op-if e Op-pure (Op-reap_one ⨾ λ _. Op-reap_all n)

Op-exit_if : (b : Bool) → Op [] (λ _. []) (exit_if b)
unfolding exit_if Keeps
Op-exit_if true = record { at = λ s h. Respects-refl s }
Op-exit_if false = Op-pure

Op-reaper_loop : (w n : ℕ) → Op [] (λ _. []) (reaper_loop w n)
unfolding reaper_loop reaper_round
Op-reaper_loop w zero = Op-fail
Op-reaper_loop w (suc n) =
    (Op-await_reapable w ⨾ λ _.
    Op-gets ⨾ λ q. Op-reap_all _ ⨾ λ _. Op-gets ⨾ λ gone. Op-exit_if gone)
    ⨾ λ _. Op-reaper_loop w n

pub Op-reaper : (w n : ℕ) → Op [] (λ _. []) (reaper w n)
unfolding reaper
Op-reaper w n = Op-nopreempt_on ⨾ λ _. Op-mtx_lock reap_mtx ⨾ λ _. Op-reaper_loop w n
