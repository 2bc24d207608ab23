-- ===== src/Task/Ends/Loop.antt =====
-- About the loop of `kira_task_await` of runtime_helpers_tasks.inc: it ends.
use mathlib.Core.Path.{subst}
use kira_zig.Common.{
  ℕ, zero, suc, ◌+◌, ◌<◌, ◌≡◌, inl, inr, refl, sym, ap, ◌∙◌, Bool, true, false, Option, none, some,
  List, [], arith, get_elem?, Bool-cases,
}
use kira_zig.BridgeValue.{BridgeValue}
use kira_zig.Task.{Task, Executor, Outcome, ok, Env, is_pending, M, pure, ◌>>=◌, and_then, or_fault}
use kira_zig.Task.Queue.{pop_next_or_wait}
use kira_zig.Task.Api.{
  wait_rounds, join_error, stop_or, check_joinable, drive, drive_next, collect, await,
}
use kira_zig.Task.Joinable.{collect-found}
use kira_zig.Task.Order.{in_queue, pop_due}
use kira_zig.Task.Order.Refine.{IsClock}
use kira_zig.Task.Order.Wait.{pop_next_or_wait-Serves}
use kira_zig.Task.Safety.{IsValid, Safe-ok}
use kira_zig.Task.Safety.Pop.{Popped, pop_next_or_wait-Safe}
use kira_zig.Task.Ends.{IsQuiet, turns, turns_of, total}
use kira_zig.Task.Ends.Queue.{Among, Among-nil, Among-pop_due, total-pop_due}
use kira_zig.Task.Ends.Turn.{Waits, run_one-Left}

-- One turn of the loop, at a task that is pending or not.
abbrev turn : Env → (f k : ℕ) → Bool → M Unit
turn env f k b = elim b [
  | false ↦ pure tt
  | true ↦ pop_next_or_wait env wait_rounds >>= drive_next env (drive env f k)
]

drive-turn :
    (env : Env) (f k : ℕ) (e : Executor) (t : Task)
    → get_elem? e.tasks k ≡ some t
    → drive env (suc f) k e ≡ turn env f k (is_pending t.state) e
unfolding drive
drive-turn env f k e t found =
    ap (λ o. and_then (or_fault o e) (λ (t : Task). turn env f k (is_pending t.state))) found

module _ (env : Env) (steps : ℕ → List BridgeValue → ℕ) (quiet : IsQuiet env steps) where
  -- The loop ends, and the task is still there.
  abbrev pub Ends : ℕ → Outcome Unit → Type 0
  Ends k r = (e' : Executor) × (t : Task) × (r ≡ ok tt e') × (get_elem? e'.tasks k ≡ some t)

  next-Ends :
      (f k : ℕ)
      → ((e : Executor)
          → IsValid e
          → Waits k e
          → total steps e.tasks (in_queue e) < f
          → Ends k (drive env f k e))
      → (e : Executor) (t : Task) → get_elem? e.tasks k ≡ some t
      → Among k (in_queue e)
      → total steps e.tasks (in_queue e) < suc f
      → (o : Option ℕ) (e₁ : Executor) (now : ℕ) → pop_due now (in_queue e) ≡ (o, in_queue e₁)
      → (o ≡ none → in_queue e ≡ [])
      → e₁.tasks ≡ e.tasks
      → Popped e o e₁
      → Ends k (drive_next env (drive env f k) o e₁)
  unfolding drive_next
  next-Ends f k again e t found among lt none e₁ now pop empty kept popped =
      absurd (Among-nil k (subst (Among k) (empty refl) among))
  next-Ends f k again e t found among lt (some h) e₁ now pop empty kept (g, d, _) =
      let (e₂, ran, v, (fewer, keeps)) = run_one-Left env steps quiet h g.valid d in
      let all : total steps e.tasks (in_queue e)
          ≡ turns steps d.task + total steps e₁.tasks (in_queue e₁) =
        total-pop_due steps e.tasks now (in_queue e) pop
        ∙ ap (λ ts. turns_of steps (get_elem? ts h) + total steps ts (in_queue e₁)) (sym kept)
        ∙ ap (λ o. turns_of steps o + total steps e₁.tasks (in_queue e₁)) d.found in
      let (e', t', drove, found') =
        again e₂ v
          (keeps k (Among-pop_due k now (in_queue e) pop among) t
            (ap (λ ts. get_elem? ts k) kept ∙ found))
          (omega (arith, fewer, all, lt)) in
      (e', t', ap (λ r. and_then r (λ _. drive env f k)) ran ∙ drove, found')

  module _ (clock : IsClock env) where
    drive-Ends :
        (f k : ℕ) (e : Executor)
        → IsValid e
        → Waits k e
        → total steps e.tasks (in_queue e) < f
        → Ends k (drive env f k e)
    drive-Ends zero k e v w lt = absurd (omega (arith, lt))
    drive-Ends (suc f) k e v (t, found, waits) lt =
        subst (Ends k) (sym (drive-turn env f k e t found))
          (elim (Bool-cases (is_pending t.state)) [
            | inr settled ↦ subst (λ b. Ends k (turn env f k b e)) (sym settled) (e, t, refl, found)
            | inl p ↦
                let (o, e₁, ran, _, pop, empty, kept) = pop_next_or_wait-Serves env clock v in
                let next =
                  next-Ends f k (drive-Ends f k) e t found (waits p) lt o e₁ e₁.clock pop empty.0
                    kept (Safe-ok (pop_next_or_wait-Safe env wait_rounds v) ran) in
                subst (λ b. Ends k (turn env f k b e)) (sym p)
                  (subst (λ r. Ends k (and_then r (drive_next env (drive env f k)))) (sym ran) next)
          ])

-- A join ends: the clock runs forward, the callbacks return and call no operation of the executor,
-- each body is suspended at most as often as `steps` says, and the invariant holds. If the task may
-- be joined, and is in the queue where it is pending, then a join with more fuel than the turns of
-- the waiting tasks returns a value, whatever waits in front of it, parked, cancelled or suspended.
pub await-returns :
    (env : Env) (steps : ℕ → List BridgeValue → ℕ) (fuel k : ℕ) (e : Executor) (t : Task)
    → IsQuiet env steps
    → IsClock env
    → IsValid e
    → get_elem? e.tasks k ≡ some t
    → join_error t ≡ none
    → (is_pending t.state ≡ true → Among k (in_queue e))
    → total steps e.tasks (in_queue e) < fuel
    → (v : BridgeValue) × (e' : Executor) × (await env fuel (some k) e ≡ ok v e')
unfolding await check_joinable
await-returns env steps fuel k e t quiet clock valid found joinable waits lt =
    let (e₁, t₁, drove, found₁) =
      drive-Ends env steps quiet clock fuel k e valid (t, found, waits) lt in
    (
      t₁.result,
      _,
      ap
            (λ o.
              and_then (and_then (or_fault o e) (λ t. stop_or (join_error t) k))
                (λ k e. and_then (drive env fuel k e) (λ _. collect k)))
            found
          ∙ ap
              (λ o.
                and_then (stop_or o k e) (λ k e. and_then (drive env fuel k e) (λ _. collect k)))
              joinable
          ∙ ap (λ r. and_then r (λ _. collect k)) drove
          ∙ collect-found k e₁ t₁ found₁,
    )
