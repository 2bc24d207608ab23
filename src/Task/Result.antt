-- ===== src/Task/Result.antt =====
-- The result of a join: what `kira_task_await` returns, and when there is nothing to return.
use mathlib.Core.Option.{some-injective}
use kira_zig.Common.{
  ℕ, ◌≡◌, refl, sym, ◌∙◌, true, false, Option, some, get_elem?, set, ◌⊎◌, inl, inr, arith,
}
use kira_zig.BridgeValue.{BridgeValue, void, is_void, integer, float, string, boolean, raw_ptr}
use kira_zig.Task.{Task, TaskState, pending, complete, consumed, Executor, ok, Env, is_pending}
use kira_zig.Task.Api.{spent, drive, check_joinable, await}
use kira_zig.Task.Safety.{IsTask, IsValid, IsTame, Safe-ok}
use kira_zig.Task.Safety.Store.{All-get}
use kira_zig.Task.Safety.Ops.{Known, check_joinable-Safe}
use kira_zig.Task.Safety.Join.{drive-Safe}
use kira_zig.Task.Joinable.{and_then-ok, collect-ok, check_joinable-ok}

is_void-void : (v : BridgeValue) → is_void v ≡ true → v ≡ void
is_void-void void p = refl
is_void-void (integer _) p = cc
is_void-void (float _) p = cc
is_void-void (string _ _) p = cc
is_void-void (boolean _) p = cc
is_void-void (raw_ptr _) p = cc

-- A task that was cancelled, joined or discarded has no result.
consumed-void : (t : Task) → IsTask t → t.state ≡ consumed → t.result ≡ void
consumed-void t is_task s = is_void-void t.result (ground arith)

-- The end of a settled task: it is complete, or it has no result.
abbrev pub Yielded : Task → Type 0
Yielded t = (t.state ≡ complete) ⊎ ((t.state ≡ consumed) × (t.result ≡ void))

settled-Yielded :
    (t : Task) → IsTask t → (s : TaskState) → t.state ≡ s → is_pending s ≡ false → Yielded t
settled-Yielded t is_task pending e p = cc
settled-Yielded t is_task complete e p = inl e
settled-Yielded t is_task consumed e p = inr (e, consumed-void t is_task e)

-- A join that returns passed the tests before the loop, and the loop ended; it hands over the result
-- that the task has in the state where the loop ended, and marks the task consumed there. The task
-- is complete, or it was consumed during the loop and the value is VOID. The callbacks are tame, the invariant holds, and the handle is NULL or names a task.
pub await-Yields :
    (env : Env) (fuel : ℕ) (o : Option ℕ) (e : Executor) {v : BridgeValue} {e' : Executor}
    → IsTame env
    → IsValid e
    → Known e o
    → await env fuel o e ≡ ok v e'
    → (h : ℕ) × (t : Task) × (e₁ : Executor) × (o ≡ some h)
      × (e₀ : Executor) × (check_joinable o e ≡ ok h e₀)
      × (drive env fuel h e₀ ≡ ok tt e₁)
      × (get_elem? e₁.tasks h ≡ some t)
      × Yielded t
      × (v ≡ t.result)
      × (e' ≡ record e₁ { tasks = set e₁.tasks h (spent t) })
unfolding await
await-Yields env fuel o e tame valid known q =
    let (h, e₁, joinable, q₁) = and_then-ok (check_joinable o e) _ q in
    let (g₁, lt) = Safe-ok (check_joinable-Safe valid o known) joinable in
    let (_, e₂, driven, q₂) = and_then-ok (drive env fuel h e₁) _ q₁ in
    let (g₂, (t', found', settled)) = Safe-ok (drive-Safe env tame fuel h e₁ g₁.valid lt) driven in
    let (t, found, returned, last) = collect-ok h e₂ q₂ in
    let same = some-injective _ _ (sym found' ∙ found) in
    (
      h,
      t,
      e₂,
      check_joinable-ok o e joinable,
      e₁,
      joinable,
      driven,
      found,
      settled-Yielded t (All-get IsTask e₂.tasks h g₂.valid.tasks found) t.state refl
          (rw (sym same) settled),
      returned,
      last,
    )
