-- ===== src/NativeState/Tests.antt =====
-- Native-state tokens of runtime_helpers_native_state.inc, and the theorems at some of them.
use kira_zig.Common.{
  ℕ, ◌+◌, ◌≡◌, ◌≢◌, false, not, ◌&&◌, replicate, arith, refl, pos, true, none, some, [], ◌∷◌,
  get_elem?, List, Option, codes, All, Lacks, ◌==◌, if◌then◌else◌,
}
use kira_zig.NativeState.{
  World, ok, trap, fault, Grants, state_alloc, registry_add, state_free, registry_remove,
  remove_node, dispose, recover, registry_teardown,
}
use kira_zig.BridgeValue.{BridgeValue, integer}
use kira_zig.Strings.{digits}
use kira_zig.Output.{Env, trace_log}
use kira_zig.NativeState.Hybrid.{Trampoline, install_runtime_invoker, invoke_runtime, call_runtime}
use kira_zig.NativeState.Lock
use kira_zig.NativeState.Lock.{
  System, Scheduled, add, remove, add_acquire, register, link, publish, unlock, remove_acquire,
  search_node, unlink, later, added, removed, sequential,
}
use kira_zig.NativeState.Lock.Invariant.{critical, has_added}
use kira_zig.NativeState.Lock.Order.{sequential-Scheduled}
use kira_zig.NativeState.Struct.{
  struct_alloc, struct_type_id, struct_free, struct_alloc-struct_free,
}
use kira_zig.RawHeap.{RawHeap, read_bytes}
use kira_zig.RawHeap.Laws.{IsFree}
use kira_zig.NativeState.Safety.{Freed}
use kira_zig.NativeState.Reach.{
  Reach, start, alloc, free, teardown-Reach, alloc-recover, fresh_token,
}

abbrev granted : Grants
granted = record { state = true; payload = true; node = true }

abbrev empty : World
empty = record { tokens = []; registry = [] }

abbrev one : World
one = record { tokens = some (fresh_token 3 8) ∷ []; registry = 0 ∷ [] }

abbrev two : World
two = record {
  tokens = some (fresh_token 3 8) ∷ some (fresh_token 4 0) ∷ [];
  registry = 1 ∷ 0 ∷ [];
}

abbrev first_freed : World
first_freed = record { tokens = none ∷ some (fresh_token 4 0) ∷ []; registry = 1 ∷ [] }

first : state_alloc granted 3 (pos 8) empty ≡ ok (some 0) one
unfolding state_alloc registry_add
first = refl

second : state_alloc granted 4 (pos 0) one ≡ ok (some 1) two
unfolding state_alloc registry_add
second = refl

frees : state_free none (some 0) two ≡ ok tt first_freed
unfolding state_free registry_remove remove_node dispose
frees = refl

-- A second free of the token is a fault, as is a recovery of it.
stale : (state_free none (some 0) first_freed ≡ fault) × (recover (some 0) 3 first_freed ≡ fault)
unfolding state_free registry_remove remove_node dispose recover
stale = (refl, refl)

first_freed-Reach : Reach none first_freed
first_freed-Reach =
    free (alloc (alloc start granted 3 (pos 8) first) granted 4 (pos 0) second) 0
      (fresh_token 3 8, refl) frees

teardown-Reach_example :
    (w' : World) × (registry_teardown none first_freed ≡ ok tt w')
    × (w'.registry ≡ [])
    × All (Freed w') (1 ∷ [])
    × ((k : ℕ) → Lacks k (1 ∷ []) → get_elem? w'.tokens k ≡ get_elem? first_freed.tokens k)
teardown-Reach_example = teardown-Reach none first_freed tt first_freed-Reach

alloc-recover_example :
    (n : ℕ) × (pos 8 ≡ pos n)
    × (recover (some 0) 4 one ≡ (if 3 == 4 then ok (if n == 0 then none else some n) one else trap))
alloc-recover_example = alloc-recover granted 3 (pos 8) empty one 0 4 first

-- Thread 1 asks for the lock while thread 0 adds a token, and then removes it.
abbrev contended : (s : System) × Scheduled s
contended = (
  _,
  later
      (later
        (later
          (later
            (later
              (later
                (later
                  (later (later (later (Lock.start) 0 (add 5)) 1 (remove 5)) 0 (add_acquire refl)) 0
                  register)
                0 link)
              0 publish)
            0 unlock)
          1 (remove_acquire refl))
        1 search_node)
      1 unlink,
)

emptied : (contended.0.mem.registry ≡ []) × (contended.0.mem.history ≡ removed 5 ∷ added 5 ∷ [])
unfolding remove_node
emptied = (refl, refl)

sequential-Scheduled_example :
    (sequential contended.0.mem.history empty
      ≡ ok tt (record empty { registry = contended.0.mem.registry }))
    × ((critical (contended.0.pc 0) && critical (contended.0.pc 1) && not (0 == 1)) ≡ false)
    × (contended.0.mem.atexit_calls ≡ (if contended.0.mem.teardown_registered then 1 else 0))
    × ((has_added contended.0.mem.history && not contended.0.mem.teardown_registered) ≡ false)
sequential-Scheduled_example = sequential-Scheduled contended.0 empty 0 1 contended.1 refl

abbrev no_blocks : RawHeap
no_blocks = record { memory = λ x. none; blocks = λ x. none }

abbrev nothing_there : (a n : ℕ) → a ≢ 0 → IsFree no_blocks a n
nothing_there a n ne = record { nonnull = ne; unallocated = λ x le lt. refl; unknown = refl }

struct_alloc-struct_free_example :
    (h' : RawHeap) × (struct_alloc (some 4096) (λ x. 7) 5 16 no_blocks ≡ some (4096 + 8, h'))
    × (struct_type_id (4096 + 8) h' ≡ some 5)
    × (read_bytes 16 (4096 + 8) h'.memory ≡ some (replicate 16 0))
    × (struct_free (4096 + 8) h' ≡ some no_blocks)
struct_alloc-struct_free_example =
    struct_alloc-struct_free 4096 (λ x. 7) 5 16 no_blocks
      (nothing_there 4096 (8 + 16) (λ e. omega arith)) (omega arith) (omega arith)

-- A virtual machine whose functions return their number.
abbrev numbers :
    ℕ → ℕ → List BridgeValue → Option BridgeValue → Trampoline → Option BridgeValue × Trampoline
numbers k function_id args out s = (some (integer (pos function_id)), s)

abbrev tracing_env : Env
tracing_env = record { trace_execution = none; format_g = λ v. []; format_llx = λ v. [] }

abbrev silent : Trampoline
silent = record {
  invoker = none;
  plain_invoker = none;
  console = record {
    stdout = [];
    stderr = [];
    trace = pos 1;
    first_frame_hook = none;
    log_hook = none;
    hook_calls = [];
    lookups = 0;
  };
}

called :
    let r =
      call_runtime tracing_env numbers
        (λ k function_id s. s)
        12
        (integer (pos 7) ∷ [])
        none
        (install_runtime_invoker (some 1) silent) in
    (r.0 ≡ some (integer (pos 12)))
    × (r.1.console.stderr
        ≡ codes
            "[trace][TRAMPOLINE][ENTER] native->runtime fn=12 args=1\n[trace][TRAMPOLINE][RETURN] runtime->native fn=12 tag=1\n")
unfolding call_runtime invoke_runtime install_runtime_invoker trace_log digits
called = (refl, refl)
