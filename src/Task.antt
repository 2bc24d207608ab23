-- ===== src/Task.antt =====
-- packages/kira_native_bridge/src/runtime_helpers_tasks.inc: deferred tasks and their cooperative
-- executor. This file has the state and the monad; the operations are in the children.
pub mod Queue
pub mod Run
pub mod Api
pub mod Safety
pub mod Order
pub mod Joinable
pub mod Join
pub mod Result
pub mod Ends
pub mod Tests
use Prim.Native.Nat.{pred}
use kira_zig.Common.{
  ℕ, zero, suc, ◌+◌, ◌*◌, ◌≡◌, ℤ, Bool, true, false, Option, none, some, List, [], ◌∷◌, ◌++◌, ◌==◌,
  if◌then◌else◌, length, get_elem?, set,
}
use kira_zig.BridgeValue.{BridgeValue}

pub data TaskState : Type 0 where
  pending complete consumed : TaskState

-- A `KiraTask *` is the position of its task in `tasks`; code pointers are numbers that the
-- environment interprets. `ctx` and `frame` are NULL once they are freed.
pub record Task : Type 0 where
  pub work : Option ℕ
  pub body : Option ℕ
  pub ctx : Option ℕ
  pub frame : Option (List BridgeValue)
  pub ready_value : BridgeValue
  pub result : BridgeValue
  pub state : TaskState
  pub cancel_requested : Bool
  pub detached : Bool
  pub wake_at_ns : ℕ

-- The statics of the file: the current task, the ready-queue (`queue` holds the entries below
-- `kira_task_queue_len`), the registry, and the time that the clock last showed.
pub record Executor : Type 0 where
  pub tasks : List Task
  pub current : Option ℕ
  pub queue : List ℕ
  pub queue_cap : ℕ
  pub queue_head : ℕ
  pub registry : List ℕ
  pub registry_cap : ℕ
  pub clock : ℕ

-- The messages before `abort()`.
pub data Trap : Type 0 where
  out_of_memory expected_handle awaited_cancelled already_joined queue_drained : Trap

-- `fault` is an access that C leaves undefined: a dangling or null pointer, or a frame without
-- the slot that is read.
pub data Outcome (A : Type 0) : Type 0 where
  ok : A → Executor → Outcome A
  trap : Trap → Outcome A
  fault : Outcome A
  out_of_fuel : Outcome A

abbrev pub M : Type 0 → Type 0
M A = Executor → Outcome A

abbrev pub pure : {A : Type 0} → A → M A
pure a e = ok a e

abbrev pub and_then : {A B : Type 0} → Outcome A → (A → M B) → Outcome B
and_then (ok a e) k = k a e
and_then (trap t) k = trap t
and_then fault k = fault
and_then out_of_fuel k = out_of_fuel

infixl 5 ◌>>=◌ ◌>>◌
abbrev pub ◌>>=◌ : {A B : Type 0} → M A → (A → M B) → M B
◌>>=◌ m k e = and_then (m e) k

abbrev pub ◌>>◌ : {B : Type 0} → M (Unit {0}) → M B → M B
m >> k = m >>= λ _. k

abbrev pub get : M Executor
get e = ok e e

abbrev pub modify : (Executor → Executor) → M (Unit {0})
modify f e = ok tt (f e)

abbrev pub abort : {A : Type 0} → Trap → M A
abort t e = trap t

abbrev pub starve : {A : Type 0} → M A
starve e = out_of_fuel

abbrev pub or_fault : {A : Type 0} → Option A → M A
or_fault none e = fault
or_fault (some a) e = ok a e

-- `*task`, and the assignment of its fields.
abbrev pub load : ℕ → M Task
load h e = or_fault (get_elem? e.tasks h) e

abbrev pub store : ℕ → Task → M (Unit {0})
store h t = modify (λ e. record e { tasks = set e.tasks h t })

-- What the file calls and does not define. `run_work` and `run_body` are the compiled thunks and
-- state machines, which may themselves call every operation of the executor; a body is given its
-- frame and leaves a new content in it. `grow n` says whether a `realloc` to `n` entries succeeds,
-- `spare e` whether a `calloc` of a task does. `tick` is the next value of the monotonic clock, and
-- `after t ns` the time when a sleep of `ns` that starts at `t` returns.
pub record Env : Type 0 where
  pub run_work : ℕ → Option ℕ → M BridgeValue
  pub run_body : ℕ → Option (List BridgeValue) → M (ℤ × List BridgeValue)
  pub grow : ℕ → Bool
  pub spare : Executor → Bool
  pub tick : ℕ → ℕ
  pub after : ℕ → ℕ → ℕ

abbrev pub is_pending : TaskState → Bool
is_pending pending = true
is_pending _ = false

abbrev pub is_complete_state : TaskState → Bool
is_complete_state complete = true
is_complete_state _ = false

abbrev pub is_consumed : TaskState → Bool
is_consumed consumed = true
is_consumed _ = false
