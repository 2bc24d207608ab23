-- ===== src/Task/Run.antt =====
-- `kira_task_run_one` of runtime_helpers_tasks.inc: one drive of a popped task.
use kira_zig.Common.{
  ℕ, ℤ, pos, negsuc, Bool, false, Option, none, some, List, ◌==◌, if◌then◌else◌, get_elem?,
}
use kira_zig.BridgeValue.{BridgeValue, integer, is_void}
use kira_zig.Task.{
  Task, complete, consumed, M, pure, ◌>>=◌, ◌>>◌, get, modify, or_fault, load, store, Env,
}
use kira_zig.Task.Queue.{enqueue}

-- A cancel that is seen before the drive: the call never runs.
abbrev pub dropped : Task → Task
dropped t = record t { state = consumed; ctx = none; frame = none }

-- `status == 1`.
abbrev pub is_suspended : ℤ → Bool
is_suspended (pos n) = n == 1
is_suspended (negsuc n) = false

-- The result of a finished body, in slot 1 of its frame; VOID becomes the integer 0.
abbrev pub frame_result : BridgeValue → BridgeValue
frame_result v = if is_void v then integer (pos 0) else v

-- The task after a body has finished: a detached task's result is discarded.
abbrev pub body_dropped : Task → Task
body_dropped t = record t { state = consumed; frame = none }

abbrev pub body_done : Task → BridgeValue → Task
body_done t v = record t { state = complete; result = frame_result v; frame = none }

abbrev pub work_done : Task → BridgeValue → Task
work_done t v =
    if t.detached
    then record t { state = consumed; ctx = none }
    else record t { state = complete; result = v; ctx = none }

-- The body writes through the pointer that it was given.
abbrev pub write_frame : Task → List BridgeValue → Task
write_frame t slots = record t { frame = elim t.frame [ none ↦ none | some _ ↦ some slots ] }

abbrev pub slot_1 : Task → Option BridgeValue
slot_1 t = elim t.frame [ none ↦ none | some slots ↦ get_elem? slots 1 ]

module _ (env : Env) where
  -- The body of a detached task is not asked for its result.
  unfoldable pub finish_body : ℕ → Task → M (Unit {0})
  finish_body h t =
      if t.detached
      then store h (body_dropped t)
      else (or_fault (slot_1 t) >>= λ v. store h (body_done t v))

  -- What follows the call of a body: a suspended task goes to the back of the queue.
  unfoldable pub after_body : ℕ → ℤ × List BridgeValue → M (Unit {0})
  unfolding enqueue finish_body
  after_body h (status, slots) = do
    t ← load h
    store h (write_frame t slots)
    if is_suspended status then enqueue env h else finish_body h (write_frame t slots)

  unfoldable pub run_body_task : ℕ → Task → ℕ → M (Unit {0})
  unfolding after_body
  run_body_task h t b = do
    store h (record t { wake_at_ns = 0 })
    e ← get
    modify (λ e. record e { current = some h })
    outcome ← env.run_body b t.frame
    modify (λ after. record after { current = e.current })
    after_body h outcome

  -- `work` is NULL for a task that was spawned ready.
  unfoldable pub start_work : Option ℕ → Task → M BridgeValue
  start_work none t = pure t.ready_value
  start_work (some w) t = env.run_work w t.ctx

  unfoldable pub run_work_task : ℕ → Task → M (Unit {0})
  unfolding start_work
  run_work_task h t = do out ← start_work t.work t; t' ← load h; store h (work_done t' out)

  unfoldable pub drive_task : ℕ → Task → Option ℕ → M (Unit {0})
  unfolding run_body_task run_work_task
  drive_task h t none = run_work_task h t
  drive_task h t (some b) = run_body_task h t b

  unfoldable pub run_one : ℕ → M (Unit {0})
  unfolding drive_task
  run_one h = do
    t ← load h
    if t.cancel_requested then store h (dropped t) else drive_task h t t.body
