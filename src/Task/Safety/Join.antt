-- ===== src/Task/Safety/Join.antt =====
-- About `kira_task_await`, `kira_task_yield` and `kira_task_drain_all` of runtime_helpers_tasks.inc, the
-- operations that drive tasks.
use kira_zig.Common.{
  ℕ, zero, suc, ◌<◌, ◌≡◌, refl, true, false, Option, none, some, arith, length, get_elem?,
  get_elem?-some,
}
use kira_zig.Task.{Task, Executor, queue_drained, is_pending, M, Env, pure, abort, ◌>>=◌, ◌>>◌}
use kira_zig.Task.Run.{run_one}
use kira_zig.Task.Queue.{pop_next_or_wait}
use kira_zig.Task.Api.{wait_rounds, drive, collect, await, run_yielded, yield, discard, drain_all}
use kira_zig.Task.Safety
use kira_zig.Task.Safety.{
  IsTask, IsValid, IsTame, InRange, Held, Good, GoodBut, Safe, safe, trapped, starved, Good-refl,
  Good-trans, Good-drive,
}
use kira_zig.Task.Safety.Store.{get_elem?-lt}
use kira_zig.Task.Safety.Pop.{Popped, pop_next-Safe, pop_next_or_wait-Safe}
use kira_zig.Task.Safety.Drive.{run_one-Safe}
use kira_zig.Task.Safety.Ops.{
  Keeps, Known, spent-Good, yielded-found, check_joinable-Safe, discard-Safe,
}

-- The task `h` has been driven to its end.
abbrev pub Settled : ℕ → Executor → Type 0
Settled h e = (t : Task) × (get_elem? e.tasks h ≡ some t) × (is_pending t.state ≡ false)

module _ (env : Env) (tame : IsTame env) where
  -- A drive of a task that a pop gave.
  next-run-Safe :
      {e e' : Executor} (next : ℕ)
      → Popped e (some next) e'
      → Safe (λ _ e''. Good e e'') (run_one env next e')
  next-run-Safe next (g, driven, free) =
      Safety.mono (run_one-Safe env tame next g.valid driven) λ _ e'' d. Good-drive free g d

  -- A popped handle stays known after its drive.
  Popped-lt : {e e' : Executor} (next : ℕ) → Popped e (some next) e' → next < length e'.tasks
  Popped-lt {e} {e'} next (g, driven, free) = get_elem?-lt e'.tasks next driven.found

  module _ (h f : ℕ)
      (again : (e : Executor)
        → IsValid e
        → h < length e.tasks
        → Safe (λ _ e'. Good e e' × Settled h e') (drive env f h e)) where
    next-Safe :
        {e : Executor} (e' : Executor) (o : Option ℕ)
        → h < length e.tasks
        → Popped e o e'
        → Safe
            (λ _ e''. Good e e'' × Settled h e'')
            ((elim o as (λ _. M (Unit {0})) [
              | none ↦ abort queue_drained
              | some next ↦ run_one env next >> drive env f h
            ])
              e')
    next-Safe e' none known p = trapped
    next-Safe e' (some next) known p = Safety.bind (next-run-Safe next p) λ _ e₁ g.
        Safety.mono (again e₁ g.valid (omega (arith, g.grows)))
          λ _ e₂ (g', done). (Good-trans g g', done)

  pub drive-Safe :
      (fuel h : ℕ) (e : Executor)
      → IsValid e
      → h < length e.tasks
      → Safe (λ _ e'. Good e e' × Settled h e') (drive env fuel h e)
  unfolding drive
  drive-Safe zero h e v known = starved
  drive-Safe (suc f) h e v known =
      let (t, found) = get_elem?-some e.tasks h known in
      rw found (
        (elim (is_pending t.state)
            as (λ b.
              is_pending t.state ≡ b
              → Safe (λ _ e'. Good e e' × Settled h e')
                  ((elim b as (λ _. M (Unit {0})) [
                    | false ↦ pure tt
                    | true ↦ pop_next_or_wait env wait_rounds >>= elim [
                      | none ↦ abort queue_drained
                      | some next ↦ run_one env next >> drive env f h
                    ]
                  ])
                    e)) [
                      | false ↦ λ settled. safe (Good-refl v, (t, found, settled))
                      | true ↦ λ _.
                          Safety.bind (pop_next_or_wait-Safe env wait_rounds v)
                            λ o e' p. next-Safe h f (λ e v k. drive-Safe f h e v k) e' o known p
                    ])
          refl)

  pub await-Safe :
      {e : Executor}
      → IsValid e
      → (fuel : ℕ) (o : Option ℕ) → Known e o
      → Keeps e (await env fuel o)
  unfolding await collect
  await-Safe v fuel o known = Safety.bind (check_joinable-Safe v o known) λ h e₁ (g₁, lt).
      Safety.bind (drive-Safe fuel h e₁ g₁.valid lt) λ _ e₂ (g₂, (t, found, settled)).
        rw found (safe (Good-trans (Good-trans g₁ g₂) (spent-Good g₂.valid h t found settled)))

  run_yielded-Safe :
      {e : Executor} (e' : Executor) (o : Option ℕ)
      → Popped e o e'
      → Safe (λ _ e''. Good e e'') (run_yielded env o e')
  unfolding run_yielded
  run_yielded-Safe e' none g = safe g
  run_yielded-Safe e' (some h) p = Safety.bind (run_one-Safe env tame h p.0.valid p.1) λ _ e₁ d.
      let (t, found) = get_elem?-some e₁.tasks h (omega (arith, Popped-lt h p, d.grows)) in
      rw found (
        Safety.mono (yielded-found d.valid h t found) λ _ e₂ g. Good-trans (Good-drive p.2 p.0 d) g)

  pub yield-Safe : {e : Executor} → IsValid e → Keeps e (yield env)
  unfolding yield
  yield-Safe v = Safety.bind (pop_next-Safe env v) λ o e' p. run_yielded-Safe e' o p

  drained-Safe :
      (f : ℕ)
      → ((e : Executor) → IsValid e → Keeps e (drain_all env f))
      → {e : Executor} (e' : Executor) (o : Option ℕ) → Popped e o e'
      → Safe
          (λ _ e''. Good e e'')
          ((elim o as (λ _. M (Unit {0})) [
            | none ↦ pure tt
            | some h ↦ run_one env h >> (discard h >> drain_all env f)
          ])
            e')
  drained-Safe f again e' none g = safe g
  drained-Safe f again e' (some h) p = Safety.bind (run_one-Safe env tame h p.0.valid p.1) λ _ e₁ d.
      Safety.bind (discard-Safe d.valid h (omega (arith, Popped-lt h p, d.grows))) λ _ e₂ g.
        Safety.mono (again e₂ g.valid)
          λ _ e₃ g'. Good-trans (Good-drive p.2 p.0 d) (Good-trans g g')

  pub drain_all-Safe : (fuel : ℕ) (e : Executor) → IsValid e → Keeps e (drain_all env fuel)
  unfolding drain_all
  drain_all-Safe zero e v = starved
  drain_all-Safe (suc f) e v =
      Safety.bind (pop_next_or_wait-Safe env wait_rounds v)
        λ o e' p. drained-Safe f (drain_all-Safe f) e' o p
