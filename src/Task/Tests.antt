-- ===== src/Task/Tests.antt =====
-- Runs of the executor of runtime_helpers_tasks.inc, and the theorems at some of them.
mod Joins
mod Ends
use kira_zig.Common.{
  ℕ, zero, suc, ◌+◌, ◌≡◌, ◌≢◌, refl, pos, true, Option, none, some, List, [], ◌∷◌, arith, get_elem?,
  set,
}
use kira_zig.BridgeValue.{BridgeValue, void, integer}
use kira_zig.Task.{Task, Executor, complete, consumed, M, ok, fault, Env, pure, ◌>>◌}
use kira_zig.Task.Queue.{
  pop_next, pop_next_or_wait, now_ns, scan_due, take_out, or_wait, retry, wait_until, sleep_ns,
  earliest, enqueue, registry_add, remove_at,
}
use kira_zig.Task.Run.{dropped, run_one, drive_task, run_work_task, start_work}
use kira_zig.Task.Api.{
  blank, spent, wait_rounds, spawn, spawn_task, drive, drive_next, await, cancel, join_error,
  check_joinable, collect,
}
use kira_zig.Task.Safety.{IsValid, IsTask, IsTame, safe, Good-refl}
use kira_zig.Task.Safety.Calls
use kira_zig.Task.Safety.Calls.{
  Call, Reply, handle, perform, initial, Reach, start, call, Reach-IsValid, perform-ne-fault,
}
use kira_zig.Task.Order.{in_queue, pop_due}
use kira_zig.Task.Order.Refine.{IsClock, pop_next-refines}
use kira_zig.Task.Order.Wait.{Serves, pop_next_or_wait-Serves}
use kira_zig.Task.Join.{cancelled, await-await, cancel-run_one}
use kira_zig.Task.Joinable.{Traps}
use kira_zig.Task.Result.{Yielded, await-Yields}

-- Thunks that return their number, and bodies that finish at once.
abbrev pub simple_env : Env
simple_env = record {
  run_work = λ w ctx. pure (integer (pos w));
  run_body = λ b frame. pure (pos 0, elim frame [ none ↦ [] | some slots ↦ slots ]);
  grow = λ n. true;
  spare = λ e. true;
  tick = λ t. t + 1;
  after = λ t ns. t + ns;
}

simple_env-IsTame : IsTame simple_env
simple_env-IsTame = record {
  work = λ w ctx e v. safe (Good-refl v);
  body = λ b slots e v. safe (Good-refl v, refl);
}

simple_env-IsClock : IsClock simple_env
simple_env-IsClock = record { forward = λ t. omega arith; full_sleep = λ t ns. omega arith }

abbrev pub queued : List Task → List ℕ → Executor
queued ts q = record {
  tasks = ts;
  current = none;
  queue = q;
  queue_cap = 16;
  queue_head = 0;
  registry = q;
  registry_cap = 16;
  clock = 0;
}

abbrev pub plain : ℕ → Task
plain w = record blank { work = some w; ctx = some 1 }

abbrev pub parked : ℕ → Task
parked w = record (plain w) { wake_at_ns = 9 }

-- The state after one spawn.
abbrev one_spawned : Executor
one_spawned = queued (plain 7 ∷ []) (0 ∷ [])

spawned :
    perform simple_env 3 (Calls.spawn (some 7) (some 1)) (initial 0) ≡ ok (handle 0) one_spawned
unfolding perform spawn spawn_task registry_add enqueue
spawned = refl

one_spawned-Reach : Reach simple_env 3 one_spawned
one_spawned-Reach = call (start 0) (Calls.spawn (some 7) (some 1)) refl spawned

Reach-IsValid_example : IsValid one_spawned
Reach-IsValid_example = Reach-IsValid simple_env 3 simple_env-IsTame one_spawned-Reach

perform-ne-fault_example : perform simple_env 3 (Calls.await (some 0)) one_spawned ≢ fault
perform-ne-fault_example =
    perform-ne-fault simple_env 3 (Calls.await (some 0)) simple_env-IsTame one_spawned-Reach
      (omega arith)

-- The task of `one_spawned` after its drive.
abbrev one_driven : Executor
one_driven = record one_spawned {
  tasks = record (plain 7) { state = complete; result = integer (pos 7); ctx = none } ∷ [];
  queue = [];
  clock = 1;
}

abbrev one_joined : Executor
one_joined = record one_driven { tasks = record (plain 7) { state = consumed; ctx = none } ∷ [] }

joined : await simple_env 3 (some 0) one_spawned ≡ ok (integer (pos 7)) one_joined
unfolding await check_joinable join_error collect drive drive_next pop_next_or_wait pop_next now_ns
    scan_due take_out remove_at or_wait run_one drive_task run_work_task start_work
joined = refl

await-await_example : Traps (await simple_env 1 (some 0) one_joined)
await-await_example = await-await simple_env 3 1 (some 0) one_spawned joined

await-Yields_example :
    (h : ℕ) × (t : Task) × (e₁ : Executor) × (◌≡◌ {A = Option ℕ} (some 0) (some h))
    × (e₀ : Executor) × (check_joinable (some 0) one_spawned ≡ ok h e₀)
    × (drive simple_env 3 h e₀ ≡ ok tt e₁)
    × (get_elem? e₁.tasks h ≡ some t)
    × Yielded t
    × (integer (pos 7) ≡ t.result)
    × (one_joined ≡ record e₁ { tasks = set e₁.tasks h (spent t) })
await-Yields_example =
    await-Yields simple_env 3 (some 0) one_spawned simple_env-IsTame
      (Reach-IsValid simple_env 3 simple_env-IsTame one_spawned-Reach) (omega arith) joined

cancel-run_one_example :
    let e' = queued (cancelled (plain 7) ∷ []) (0 ∷ []) in
    (cancel (some 0) one_spawned ≡ ok tt e')
    × (run_one simple_env 0 e' ≡ ok tt (record e' { tasks = dropped (cancelled (plain 7)) ∷ [] }))
    × Traps (await simple_env 3 (some 0) e')
cancel-run_one_example = cancel-run_one simple_env 3 one_spawned 0 (plain 7) refl refl

-- A parked task in front of one that is due.
abbrev two_waiting : Executor
two_waiting = queued (parked 1 ∷ plain 2 ∷ []) (0 ∷ 1 ∷ [])

abbrev all_parked : Executor
all_parked = queued (parked 1 ∷ []) (0 ∷ [])

pub plain-IsTask : (w n : ℕ) → IsTask (record (plain w) { wake_at_ns = n })
plain-IsTask w n = record {
  freed = refl;
  framed = refl;
  bare = refl;
  joinable = refl;
  blank = refl;
  argued = refl;
}

two_waiting-IsValid : IsValid two_waiting
two_waiting-IsValid = record {
  tasks = (plain-IsTask 1 9, (plain-IsTask 2 0, tt));
  current = tt;
  queued = (omega arith, (omega arith, tt));
  distinct = ((omega arith, tt), (tt, tt));
  queue_fits = omega arith;
  head_fits = omega arith;
  registered = (omega arith, (omega arith, tt));
  registered_once = ((omega arith, tt), (tt, tt));
  registry_fits = omega arith;
}

all_parked-IsValid : IsValid all_parked
all_parked-IsValid = record {
  tasks = (plain-IsTask 1 9, tt);
  current = tt;
  queued = (omega arith, tt);
  distinct = (tt, tt);
  queue_fits = omega arith;
  head_fits = omega arith;
  registered = (omega arith, tt);
  registered_once = (tt, tt);
  registry_fits = omega arith;
}

-- The parked task is passed over, and stays in front.
passed_over :
    pop_next simple_env two_waiting ≡ ok (some 1) (record two_waiting { queue = 0 ∷ []; clock = 1 })
unfolding pop_next now_ns scan_due take_out remove_at
passed_over = refl

-- A queue of parked tasks is slept out.
slept_out :
    pop_next_or_wait simple_env wait_rounds all_parked
    ≡ ok (some 0) (record all_parked { queue = []; clock = 10 })
unfolding pop_next_or_wait pop_next now_ns scan_due take_out remove_at or_wait retry wait_until
    sleep_ns earliest
slept_out = refl

pop_next-refines_example :
    (o : Option ℕ) × (e' : Executor) × (pop_next simple_env two_waiting ≡ ok o e')
    × (pop_due 1 (in_queue two_waiting) ≡ (o, in_queue e'))
    × (e'.tasks ≡ two_waiting.tasks)
    × (e'.clock ≡ 1)
pop_next-refines_example = pop_next-refines simple_env two_waiting-IsValid

pop_next_or_wait-Serves_example :
    Serves 0 all_parked.tasks
      (in_queue all_parked)
      (pop_next_or_wait simple_env wait_rounds all_parked)
pop_next_or_wait-Serves_example =
    pop_next_or_wait-Serves simple_env simple_env-IsClock all_parked-IsValid
