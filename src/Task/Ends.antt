-- ===== src/Task/Ends.antt =====
-- When the loop of `kira_task_await` of runtime_helpers_tasks.inc ends: the callbacks that are
-- considered, and the turns that the tasks of the queue still need.

pub mod Queue
pub mod Move
pub mod Run
pub mod Turn
pub mod Loop
use kira_zig.Common.{
  ℕ, suc, ◌+◌, ◌<◌, ◌≡◌, ℤ, true, Option, none, some, List, [], ◌∷◌, length, get_elem?,
}
use kira_zig.BridgeValue.{BridgeValue}
use kira_zig.Task.{Task, Executor, ok, Env}
use kira_zig.Task.Run.{is_suspended}
use kira_zig.Task.Order.{Entry}

-- Callbacks that return and call no operation of the executor. A body in a frame is suspended
-- `steps` more times at most.
pub record IsQuiet (env : Env) (steps : ℕ → List BridgeValue → ℕ) : Type 0 where
  pub work :
      (w : ℕ) (ctx : Option ℕ) (e : Executor) → (v : BridgeValue) × (env.run_work w ctx e ≡ ok v e)
  pub body :
      (b : ℕ) (slots : List BridgeValue) (e : Executor)
      → (status : ℤ) × (left : List BridgeValue) × (env.run_body b (some slots) e
          ≡ ok (status, left) e)
        × (length left ≡ length slots)
        × (is_suspended status ≡ true → steps b left < steps b slots)

-- The turns that a task needs at most.
module _ (steps : ℕ → List BridgeValue → ℕ) where
  abbrev pub body_steps : Option ℕ → Option (List BridgeValue) → ℕ
  body_steps none f = 0
  body_steps (some b) none = 0
  body_steps (some b) (some slots) = steps b slots

  abbrev pub turns : Task → ℕ
  turns t = suc (body_steps t.body t.frame)

  abbrev pub turns_of : Option Task → ℕ
  turns_of none = 0
  turns_of (some t) = turns t

  -- The turns of all that wait.
  unfoldable pub total : List Task → List Entry → ℕ
  total ts [] = 0
  total ts ((h, w) ∷ r) = turns_of (get_elem? ts h) + total ts r
