-- ===== src/Task/Tests/Joins.antt =====
-- A join in runtime_helpers_tasks.inc of a task that is cancelled while it waits.
use kira_zig.Common.{ℕ, zero, suc, ◌≡◌, refl, pos, true, none, some, [], ◌∷◌}
use kira_zig.BridgeValue.{BridgeValue, void, integer}
use kira_zig.Task.{Task, Executor, complete, consumed, M, ok, Env, pure, ◌>>◌}
use kira_zig.Task.Queue.{pop_next, pop_next_or_wait, now_ns, scan_due, take_out, or_wait, remove_at}
use kira_zig.Task.Run.{run_one, drive_task, run_work_task, start_work}
use kira_zig.Task.Api.{drive, drive_next, await, collect, cancel, join_error, check_joinable}
use kira_zig.Task.Tests.{simple_env, queued, plain}

-- Thunk 1 cancels the task 1.
abbrev canceller : ℕ → M BridgeValue
canceller zero = pure (integer (pos 0))
canceller (suc _) = cancel (some 1) >> pure void

abbrev cancel_env : Env
cancel_env = record simple_env { run_work = λ w ctx. canceller w }

abbrev with_canceller : Executor
with_canceller = queued (plain 1 ∷ plain 0 ∷ []) (0 ∷ 1 ∷ [])

abbrev dropped_target : Task
dropped_target = record (plain 0) { state = consumed; cancel_requested = true; ctx = none }

abbrev target_cancelled : Executor
target_cancelled = record with_canceller {
  tasks = record (plain 1) { state = complete; ctx = none } ∷ dropped_target ∷ [];
  queue = [];
  clock = 2;
}

loop_ends : drive cancel_env 3 1 with_canceller ≡ ok tt target_cancelled
unfolding cancel drive drive_next pop_next_or_wait pop_next now_ns scan_due take_out remove_at
    or_wait run_one drive_task run_work_task start_work
loop_ends = refl

-- The join returns VOID.
cancelled_join :
    await cancel_env 3 (some 1) with_canceller
    ≡ ok void (record target_cancelled {
      tasks = record (plain 1) { state = complete; ctx = none } ∷ dropped_target ∷ [];
    })
unfolding await collect cancel check_joinable join_error drive drive_next pop_next_or_wait pop_next
    now_ns scan_due take_out or_wait remove_at run_one drive_task run_work_task start_work
cancelled_join = refl
