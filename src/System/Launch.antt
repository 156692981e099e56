-- ===== src/System/Launch.antt =====
-- The program as `uthread_start` leaves it.
use multi_process_threading.Base.{ℕ, zero, suc, ltb, if◌then◌else◌}
use multi_process_threading.State.{State, Tid, LwpId}
use multi_process_threading.Cmd.{Cmd}
use multi_process_threading.Thread.Start.{lwp_start}
use multi_process_threading.Thread.Start.Laws.{start-IsStarted}
use multi_process_threading.System.{
  Prog, enter, enter_reaper, thread, lwp, Doing, ready, absent, System,
}

abbrev pub uth_lwps : ℕ
uth_lwps = 8

-- The first LWP enters thread 0; the others, made by `uthread_start_lwp`, are at `lwp_start`.
unfoldable pub places : Prog → LwpId → Doing
places p zero = ready (thread (enter p))
places p (suc l) = if ltb (suc l) uth_lwps then ready (lwp lwp_start) else absent

-- The contexts of the first thread and of the reaper; the other slots have none, and `makes` gives
-- them one before they run.
unfoldable pub contexts : Prog → ℕ → ℕ → Tid → Cmd Prog
contexts p turns rounds zero = enter p
contexts p turns rounds (suc t) = enter_reaper turns rounds

unfoldable pub launch : State → Prog → ℕ → ℕ → System
launch s p turns rounds = record {
  mem = (start-IsStarted s).0;
  at = places p;
  saved = contexts p turns rounds;
}
