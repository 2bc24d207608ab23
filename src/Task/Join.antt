-- ===== src/Task/Join.antt =====
-- Joining, detaching and cancelling: what `kira_task_await` does with a task that has no result to
-- give.
use mathlib.Core.Option.{some-injective}
use kira_zig.Common.{
  ℕ, zero, suc, ◌≡◌, refl, sym, ap, ◌∙◌, true, Option, some, List, [], ◌∷◌, arith, if◌then◌else◌,
  get_elem?, set,
}
use kira_zig.BridgeValue.{BridgeValue}
use kira_zig.Task.{
  Task, TaskState, pending, complete, consumed, Executor, ok, Env, is_pending, or_fault, pure,
  modify, ◌>>=◌,
}
use kira_zig.Task.Run.{dropped, run_one}
use kira_zig.Task.Api.{spent, drive, check_joinable, await, cancel, detach, release}
use kira_zig.Task.Joinable.{
  Traps, Unjoinable, and_then-ok, await-Traps, check_joinable-ok, collect-ok, get_elem?-stored,
}

-- A task can be joined once: in the state after a join that returned, a join through the same handle
-- ends in `abort()`, whatever the callbacks did during the first join.
pub await-await :
    (env : Env) (fuel fuel' : ℕ) (o : Option ℕ) (e : Executor) {v : BridgeValue} {e' : Executor}
    → await env fuel o e ≡ ok v e'
    → Traps (await env fuel' o e')
unfolding await
await-await env fuel fuel' o e {v} {e'} q =
    let (h, e₁, joinable, q₁) = and_then-ok (check_joinable o e) _ q in
    let (_, e₂, _, q₂) = and_then-ok (drive env fuel h e₁) _ q₁ in
    let (t, found, _, last) = collect-ok h e₂ q₂ in
    rw (check_joinable-ok o e joinable, last)
      (await-Traps env fuel' (record e₂ { tasks = set e₂.tasks h (spent t) }) h (spent t)
        (get_elem?-stored e₂ h (spent t) found) refl)

set-set {ℓ} : {A : Type ℓ} (xs : List A) (i : ℕ) (a b : A) → set (set xs i a) i b ≡ set xs i b
set-set [] i a b = refl
set-set (x ∷ xs) zero a b = refl
set-set (x ∷ xs) (suc i) a b = ap (λ r. x ∷ r) (set-set xs i a b)

abbrev pub cancelled : Task → Task
cancelled t = record t { cancel_requested = true }

cancel-pending :
    (e : Executor) (h : ℕ) (t : Task)
    → get_elem? e.tasks h ≡ some t
    → is_pending t.state ≡ true
    → cancel (some h) e ≡ ok tt (record e { tasks = set e.tasks h (cancelled t) })
unfolding cancel
cancel-pending e h t found p = rw found (
    ap
      (λ b.
        (if b then modify (λ e. record e { tasks = set e.tasks h (cancelled t) }) else pure tt) e)
      p)

run_one-cancelled :
    (env : Env) (e : Executor) (h : ℕ) (t : Task)
    → get_elem? e.tasks h ≡ some (cancelled t)
    → run_one env h e ≡ ok tt (record e { tasks = set e.tasks h (dropped (cancelled t)) })
unfolding run_one
run_one-cancelled env e h t found = rw found

-- A cancel of a pending task that comes before its drive wins: the drive calls neither the thunk nor
-- the body, whatever they are, and only marks the task consumed and frees its argument block and its
-- frame; and a join after the cancel ends in `abort()`.
pub cancel-run_one :
    (env : Env) (fuel : ℕ) (e : Executor) (h : ℕ) (t : Task)
    → get_elem? e.tasks h ≡ some t
    → is_pending t.state ≡ true
    → let e' = record e { tasks = set e.tasks h (cancelled t) } in
      (cancel (some h) e ≡ ok tt e')
      × (run_one env h e' ≡ ok tt (record e { tasks = set e.tasks h (dropped (cancelled t)) }))
      × Traps (await env fuel (some h) e')
cancel-run_one env fuel e h t found p =
    let e' = record e { tasks = set e.tasks h (cancelled t) } in
    let stored = get_elem?-stored e h (cancelled t) found in
    (
      cancel-pending e h t found p,
      run_one-cancelled env e' h t stored
          ∙ ap (λ ts. ok tt (record e { tasks = ts })) (set-set e.tasks h (cancelled t) _),
      await-Traps env fuel e' h (cancelled t) stored (ground arith),
    )

set_self {ℓ} :
    {A : Type ℓ} (xs : List A) (i : ℕ) {a : A} → get_elem? xs i ≡ some a → set xs i a ≡ xs
set_self [] i e = refl
set_self (x ∷ xs) zero e = ap (λ r. r ∷ xs) (sym (some-injective _ _ e))
set_self (x ∷ xs) (suc i) e = ap (λ r. x ∷ r) (set_self xs i e)

-- `kira_task_detach` at a task in the state `s`.
abbrev detached_state : TaskState → Task → Task
detached_state pending t = record t { detached = true }
detached_state complete t = spent t
detached_state consumed t = t

detached_state-Unjoinable :
    (s : TaskState) (t : Task) → t.state ≡ s → Unjoinable (detached_state s t)
detached_state-Unjoinable pending t p = ground arith
detached_state-Unjoinable complete t p = refl
detached_state-Unjoinable consumed t p = rw p

release-step :
    (s : TaskState) (e : Executor) (h : ℕ) (t : Task)
    → get_elem? e.tasks h ≡ some t
    → release s h t e ≡ ok tt (record e { tasks = set e.tasks h (detached_state s t) })
release-step pending e h t found = refl
release-step complete e h t found = refl
release-step consumed e h t found =
    ap (λ ts. ok tt (record e { tasks = ts })) (sym (set_self e.tasks h found))

detach-step :
    (e : Executor) (h : ℕ) (t : Task)
    → get_elem? e.tasks h ≡ some t
    → detach (some h) e ≡ ok tt (record e { tasks = set e.tasks h (detached_state t.state t) })
unfolding detach
detach-step e h t found =
    ap (λ o. (or_fault o >>= λ t. release t.state h t) e) found ∙ release-step t.state e h t found

-- A detached task cannot be joined, in whatever state the detach found it.
detach-await :
    (env : Env) (fuel : ℕ) (e : Executor) (h : ℕ) (t : Task)
    → get_elem? e.tasks h ≡ some t
    → (e' : Executor) × (detach (some h) e ≡ ok tt e') × Traps (await env fuel (some h) e')
detach-await env fuel e h t found =
    let t' = detached_state t.state t in
    (
      record e { tasks = set e.tasks h t' },
      detach-step e h t found,
      await-Traps env fuel (record e { tasks = set e.tasks h t' }) h t'
          (get_elem?-stored e h t' found) (detached_state-Unjoinable t.state t refl),
    )
