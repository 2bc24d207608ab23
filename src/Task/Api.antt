-- ===== src/Task/Api.antt =====
-- The exported operations of runtime_helpers_tasks.inc. The loops take fuel.
use kira_zig.Common.{
  ℕ, zero, suc, ◌+◌, ◌*◌, ◌%◌, ◌^◌, ℤ, pos, negsuc, Bool, true, false, not, ◌&&◌, ◌||◌, Option,
  none, some, List, [], ◌∷◌, ◌++◌, ◌==◌, ltb, if◌then◌else◌, length, replicate,
}
use kira_zig.BridgeValue.{BridgeValue, void}
use kira_zig.Task.{
  Task, TaskState, Executor, pending, complete, consumed, Trap, out_of_memory, expected_handle,
  awaited_cancelled, already_joined, queue_drained, M, pure, ◌>>=◌, ◌>>◌, get, modify, abort,
  starve, load, store, Env, is_pending, is_complete_state, is_consumed,
}
use kira_zig.Task.Queue.{now_ns, sleep_ns, registry_add, enqueue, pop_next, pop_next_or_wait}
use kira_zig.Task.Run.{run_one}

-- `calloc` of a `KiraTask`.
abbrev pub blank : Task
blank = record {
  work = none;
  body = none;
  ctx = none;
  frame = none;
  ready_value = void;
  result = void;
  state = pending;
  cancel_requested = false;
  detached = false;
  wake_at_ns = 0;
}

-- The slots of a fresh frame or argument array: one at least.
unfoldable pub alloc_args : ℕ → List BridgeValue
alloc_args argc = if argc == 0 then replicate 1 void else replicate argc void

abbrev pub ns_per_ms : ℕ
ns_per_ms = 1000000

abbrev pub u64 : ℕ → ℕ
u64 n = n % 2 ^ 64

abbrev pub milliseconds : ℤ → ℕ
milliseconds (pos n) = n
milliseconds (negsuc n) = 0

-- A joined or discarded result.
abbrev pub spent : Task → Task
spent t = record t { result = void; state = consumed }

-- The tests of `kira_task_await` before its loop.
unfoldable pub join_error : Task → Option Trap
join_error t =
    if is_consumed t.state || t.detached
    then (if t.cancel_requested && not t.detached
        then some awaited_cancelled
        else some already_joined)
    else if t.cancel_requested
    then some awaited_cancelled
    else none

abbrev pub stop_or : Option Trap → ℕ → M ℕ
stop_or none h = pure h
stop_or (some r) h = abort r

-- A NULL handle is `none`.
unfoldable pub check_joinable : Option ℕ → M ℕ
unfolding join_error
check_joinable none = abort expected_handle
check_joinable (some h) = do t ← load h; stop_or (join_error t) h

-- The end of `kira_task_await`: the result is handed over and the task consumed.
unfoldable pub collect : ℕ → M BridgeValue
collect h = do t ← load h; store h (spent t); pure t.result

unfoldable pub cancel : Option ℕ → M (Unit {0})
cancel none = pure tt
cancel (some h) = do
  t ← load h
  if is_pending t.state then store h (record t { cancel_requested = true }) else pure tt

-- The two branches of `kira_task_detach`.
abbrev pub release : TaskState → ℕ → Task → M (Unit {0})
release pending h t = store h (record t { detached = true })
release complete h t = store h (spent t)
release consumed h t = pure tt

unfoldable pub detach : Option ℕ → M (Unit {0})
detach none = pure tt
detach (some h) = do t ← load h; release t.state h t

unfoldable pub is_complete : Option ℕ → M Bool
is_complete none = pure true
is_complete (some h) = do t ← load h; pure (not (is_pending t.state) || t.cancel_requested)

-- The result of a driven task that nobody joins is discarded.
unfoldable pub discard : ℕ → M (Unit {0})
discard h = do t ← load h; if is_complete_state t.state then store h (spent t) else pure tt

-- The rounds that are given to a wait: after a sleep the earliest deadline has passed.
abbrev pub wait_rounds : ℕ
wait_rounds = 2

module _ (env : Env) where
  -- The three spawns differ in the fields that they set.
  unfoldable pub spawn_task : Task → M ℕ
  unfolding registry_add enqueue
  spawn_task t e =
      if not (env.spare e)
      then abort out_of_memory e
      else (do
        modify (λ e. record e { tasks = e.tasks ++ t ∷ [] })
        registry_add env (length e.tasks)
        enqueue env (length e.tasks)
        pure (length e.tasks))
          e

  unfoldable pub spawn : (work : Option ℕ) (ctx : Option ℕ) → M ℕ
  unfolding spawn_task
  spawn work ctx = spawn_task (record blank { work = work; ctx = ctx })

  unfoldable pub spawn_suspendable : (body : Option ℕ) (frame : Option (List BridgeValue)) → M ℕ
  unfolding spawn_task
  spawn_suspendable body frame = spawn_task (record blank { body = body; frame = frame })

  unfoldable pub spawn_ready : BridgeValue → M ℕ
  unfolding spawn_task
  spawn_ready value = spawn_task (record blank { ready_value = value })

  -- The rest of the loop of a join, after the pop.
  unfoldable pub drive_next : M (Unit {0}) → Option ℕ → M (Unit {0})
  unfolding run_one
  drive_next again none = abort queue_drained
  drive_next again (some next) = do run_one env next; again

  -- `while (task->state == PENDING) { ... }`
  unfoldable pub drive : ℕ → ℕ → M (Unit {0})
  unfolding pop_next_or_wait drive_next
  drive zero h = starve
  drive (suc f) h = do
    t ← load h
    elim (is_pending t.state) [
      | false ↦ pure tt
      | true ↦ pop_next_or_wait env wait_rounds >>= drive_next (drive f h)
    ]

  unfoldable pub await : ℕ → Option ℕ → M BridgeValue
  unfolding drive check_joinable collect
  await fuel handle = do h ← check_joinable handle; drive fuel h; collect h

  -- A suspendable task is parked; outside one the thread sleeps.
  unfoldable pub sleep_in : ℤ → Option ℕ → M (Unit {0})
  unfolding now_ns sleep_ns
  sleep_in ms none =
      if ltb 0 (milliseconds ms) then sleep_ns env (u64 (milliseconds ms * ns_per_ms)) else pure tt
  sleep_in ms (some h) = do
    t ← load h
    now ← now_ns env
    store h (record t { wake_at_ns = u64 (now + u64 (milliseconds ms * ns_per_ms)) })

  unfoldable pub sleep : ℤ → M (Unit {0})
  unfolding sleep_in
  sleep ms = do e ← get; sleep_in ms e.current

  -- What `taskYield` does with the task that it popped.
  unfoldable pub run_yielded : Option ℕ → M (Unit {0})
  unfolding run_one
  run_yielded none = pure tt
  run_yielded (some h) = do
    run_one env h
    t ← load h
    if is_complete_state t.state && t.detached then store h (spent t) else pure tt

  unfoldable pub yield : M (Unit {0})
  unfolding pop_next run_yielded
  yield = pop_next env >>= run_yielded

  unfoldable pub drain_all : ℕ → M (Unit {0})
  unfolding pop_next_or_wait run_one discard
  drain_all zero = starve
  drain_all (suc f) =
      pop_next_or_wait env wait_rounds
      >>= elim [ none ↦ pure tt | some h ↦ do run_one env h; discard h; drain_all f ]

-- The teardown at exit: the tasks that it frees, and the statics that are left.
unfoldable pub registry_teardown : Executor → List ℕ × Executor
registry_teardown e = (
  e.registry,
  record e { registry = []; registry_cap = 0; queue = []; queue_cap = 0; queue_head = 0 },
)
