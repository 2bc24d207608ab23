-- ===== src/Task/Safety/Calls.antt =====
-- Programs over the executor of runtime_helpers_tasks.inc: any sequence of its exported operations.
use kira_zig.Common.{
  ℕ, ◌<◌, ◌≡◌, ◌≢◌, Bool, true, not, ◌||◌, Option, none, some, List, [], arith, length, ℤ,
}
use kira_zig.BridgeValue.{BridgeValue}
use kira_zig.Task.{Executor, ok, fault, M, Env, pure, ◌>>=◌, ◌>>◌}
use kira_zig.Task.Api
use kira_zig.Task.Safety
use kira_zig.Task.Safety.{
  IsTask, IsValid, IsTame, Good, Safe, safe, trapped, starved, is_none, has_slots, Safe-ok,
  Safe-ne-fault, Below, Distinct, Good-refl,
}
use kira_zig.Task.Safety.Spawn.{spawn_task-Safe}
use kira_zig.Task.Safety.Ops.{Keeps, Known, cancel-Safe, detach-Safe, sleep-Safe, is_complete-Safe}
use kira_zig.Task.Safety.Join.{await-Safe, yield-Safe, drain_all-Safe}

-- A call of an exported operation; a handle is NULL or a task.
pub data Call : Type 0 where
  spawn : (work ctx : Option ℕ) → Call
  spawn_suspendable : (body : ℕ) (frame : List BridgeValue) → Call
  spawn_ready : BridgeValue → Call
  await cancel detach is_complete : Option ℕ → Call
  sleep : ℤ → Call
  yield drain_all : Call

pub data Reply : Type 0 where
  handle : ℕ → Reply
  value : BridgeValue → Reply
  flag : Bool → Reply
  done : Reply

unfoldable pub perform : Env → ℕ → Call → M Reply
perform env fuel (spawn work ctx) = do h ← Api.spawn env work ctx; pure (handle h)
perform env fuel (spawn_suspendable b frame) = do
  h ← Api.spawn_suspendable env (some b) (some frame)
  pure (handle h)
perform env fuel (spawn_ready v) = do h ← Api.spawn_ready env v; pure (handle h)
perform env fuel (await o) = do v ← Api.await env fuel o; pure (value v)
perform env fuel (cancel o) = do Api.cancel o; pure done
perform env fuel (detach o) = do Api.detach o; pure done
perform env fuel (is_complete o) = do b ← Api.is_complete o; pure (flag b)
perform env fuel (sleep ms) = do Api.sleep env ms; pure done
perform env fuel yield = do Api.yield env; pure done
perform env fuel drain_all = do Api.drain_all env fuel; pure done

-- What the caller owes: a handle is NULL or one that it was given, a thunk comes with its argument
-- block, and the frame of a suspendable task has a slot for the resume state and one for the result.
abbrev pub Permitted : Executor → Call → Type 0
Permitted e (await o) = Known e o
Permitted e (cancel o) = Known e o
Permitted e (detach o) = Known e o
Permitted e (is_complete o) = Known e o
Permitted e (spawn work ctx) = (is_none work || not (is_none ctx)) ≡ true
Permitted e (spawn_suspendable b frame) = has_slots (some frame) ≡ true
Permitted e _ = Unit

-- A handle in a reply names a task.
abbrev pub Replied : Reply → Executor → Type 0
Replied (handle h) e = h < length e.tasks
Replied _ e = Unit

-- A call whose operation is safe, with its reply.
replied :
    {e : Executor} (m : M ℕ)
    → Safe (λ h e'. Good e e' × (h ≡ length e.tasks) × (h < length e'.tasks)) (m e)
    → Safe (λ r e'. Good e e' × Replied r e') ((m >>= λ h. pure (handle h)) e)
replied m p = Safety.bind p λ h e' q. safe (q.0, q.2)

acted :
    {e : Executor} (m : M (Unit {0}))
    → Keeps e m
    → Safe (λ r e'. Good e e' × Replied r e') ((m >> pure done) e)
acted m p = Safety.bind p λ _ e' g. safe (g, tt)

module _ (env : Env) (fuel : ℕ) (tame : IsTame env) {e : Executor} (v : IsValid e) where
  perform-Safe :
      (c : Call) → Permitted e c → Safe (λ r e'. Good e e' × Replied r e') (perform env fuel c e)
  unfolding perform Api.spawn Api.spawn_suspendable Api.spawn_ready
  perform-Safe (spawn work ctx) p =
      replied (Api.spawn env work ctx)
        (spawn_task-Safe v env (record Api.blank { work = work; ctx = ctx }) (ground arith))
  perform-Safe (spawn_suspendable b frame) p =
      replied (Api.spawn_suspendable env (some b) (some frame)) (
        spawn_task-Safe v env (record Api.blank { body = some b; frame = some frame })
          (ground arith))
  perform-Safe (spawn_ready x) p =
      replied (Api.spawn_ready env x)
        (spawn_task-Safe v env (record Api.blank { ready_value = x }) (ground arith))
  perform-Safe (await o) p = Safety.bind (await-Safe env tame v fuel o p) λ x e' g. safe (g, tt)
  perform-Safe (cancel o) p = acted (Api.cancel o) (cancel-Safe v o p)
  perform-Safe (detach o) p = acted (Api.detach o) (detach-Safe v o p)
  perform-Safe (is_complete o) p = Safety.bind (is_complete-Safe v o p) λ x e' g. safe (g, tt)
  perform-Safe (sleep ms) p = acted (Api.sleep env ms) (sleep-Safe v env ms)
  perform-Safe yield p = acted (Api.yield env) (yield-Safe env tame v)
  perform-Safe drain_all p = acted (Api.drain_all env fuel) (drain_all-Safe env tame fuel e v)

-- The executor of a program that has not spawned a task.
abbrev pub initial : ℕ → Executor
initial clock = record {
  tasks = [];
  current = none;
  queue = [];
  queue_cap = 0;
  queue_head = 0;
  registry = [];
  registry_cap = 0;
  clock = clock;
}

-- The states between the calls of a program.
pub data Reach (env : Env) (fuel : ℕ) : Executor → Type 0 where
  start : (clock : ℕ) → Reach env fuel (initial clock)
  call :
      {e e' : Executor} {r : Reply}
      → Reach env fuel e
      → (c : Call) → Permitted e c
      → perform env fuel c e ≡ ok r e'
      → Reach env fuel e'

-- In every state between the calls of a program the invariant holds: the ready-queue and the registry
-- hold handles of tasks, none twice, and no more than their capacity; the head of the queue lies
-- within it; a task that is not pending owns neither argument block nor frame; a pending body has
-- its frame, and a pending thunk its argument block; no complete task is detached, and only a complete
-- task holds a result. The callbacks are tame, thunks only when they get a block, and the caller
-- passes one with each thunk.
pub Reach-IsValid :
    (env : Env) (fuel : ℕ) {e : Executor} → IsTame env → Reach env fuel e → IsValid e
Reach-IsValid env fuel tame (start clock) = record {
  tasks = tt;
  current = tt;
  queued = tt;
  distinct = tt;
  queue_fits = omega arith;
  head_fits = omega arith;
  registered = tt;
  registered_once = tt;
  registry_fits = omega arith;
}
Reach-IsValid env fuel tame (call {e} {e'} {r} reach c permitted ran) =
    (Safe-ok (perform-Safe env fuel tame (Reach-IsValid env fuel tame reach) c permitted)
      ran).0.valid

-- No exported operation faults in a state that a program reaches: it reads no freed task or frame, runs
-- no thunk on an argument block that is NULL or was freed, and reads no queue entry that is not a
-- task. The caller passes NULL or handles that it was given, an argument block with each thunk, and
-- frames of at least two slots; the callbacks are tame, thunks only when they get a block.
pub perform-ne-fault :
    (env : Env) (fuel : ℕ) {e : Executor} (c : Call)
    → IsTame env
    → Reach env fuel e
    → Permitted e c
    → perform env fuel c e ≢ fault
perform-ne-fault env fuel c tame reach permitted =
    Safe-ne-fault (perform-Safe env fuel tame (Reach-IsValid env fuel tame reach) c permitted)
