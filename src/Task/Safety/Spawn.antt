-- ===== src/Task/Safety/Spawn.antt =====
-- About the three spawns of runtime_helpers_tasks.inc and the invariant.
use kira_zig.Common.{get_elem?-append}
use kira_zig.Common.{
  ℕ, ◌≤◌, ◌<◌, ◌≡◌, refl, Option, List, [], ◌∷◌, ◌++◌, arith, ◌==◌, length, length-append,
  Bool-cases, inl, inr,
}
use kira_zig.BridgeValue.{BridgeValue}
use kira_zig.Task.{Task, Executor, Env}
use kira_zig.Task.Queue.{next_cap, registry_add}
use kira_zig.Task.Api.{spawn_task}
use kira_zig.Task.Safety
use kira_zig.Task.Safety.{
  IsTask, IsValid, Held, Good, GoodBut, Safe, safe, trapped, Lacks, Distinct, Below, Good-refl,
  Good-trans, Good-drive,
}
use kira_zig.Task.Safety.Store.{All-map, All-concat, get_elem?-lt, Below-mono, InRange-mono}
use kira_zig.Task.Safety.Steps.{Distinct-concat, enqueue-Safe}

Lacks-Below : (n : ℕ) (q : List ℕ) → Below n q → Lacks n q
Lacks-Below n q = All-map q (λ k lt. omega arith)

-- The next handle is not held.
not-Held :
    (e : Executor) (b : Option ℕ) (f : Option (List BridgeValue)) → ¬ Held e (length e.tasks) b f
not-Held e b f held = absurd (omega (arith, get_elem?-lt e.tasks (length e.tasks) held.found))

module _ {e : Executor} (v : IsValid e) where
  new_task-Good : (t : Task) → IsTask t → Good e (record e { tasks = e.tasks ++ t ∷ [] })
  new_task-Good t is =
      let grown : length e.tasks ≤ length (e.tasks ++ t ∷ []) =
        omega (arith, length-append e.tasks (t ∷ [])) in
      record {
        valid = record {
          tasks = All-concat IsTask e.tasks v.tasks is;
          current = InRange-mono e.current _ _ grown v.current;
          queued = Below-mono e.queue _ _ grown v.queued;
          distinct = v.distinct;
          queue_fits = v.queue_fits;
          head_fits = v.head_fits;
          registered = Below-mono e.registry _ _ grown v.registered;
          registered_once = v.registered_once;
          registry_fits = v.registry_fits;
        };
        grows = grown;
        held = λ k b f held. record {
          task = held.task;
          found = get_elem?-append e.tasks k (t ∷ []) held.found;
          pending = held.pending;
          same_body = held.same_body;
          same_frame = held.same_frame;
          apart = held.apart;
        };
      }

  registered-Good :
      (h cap : ℕ)
      → h < length e.tasks
      → Lacks h e.registry
      → length e.registry < cap
      → Good e (record e { registry = e.registry ++ h ∷ []; registry_cap = cap })
  registered-Good h cap lt apart room = record {
    valid = record {
      tasks = v.tasks;
      current = v.current;
      queued = v.queued;
      distinct = v.distinct;
      queue_fits = v.queue_fits;
      head_fits = v.head_fits;
      registered = All-concat (λ k. k < length e.tasks) e.registry v.registered lt;
      registered_once = Distinct-concat e.registry h v.registered_once apart;
      registry_fits = omega (arith, length-append e.registry (h ∷ []));
    };
    grows = omega arith;
    held = λ k b f held. record {
      task = held.task;
      found = held.found;
      pending = held.pending;
      same_body = held.same_body;
      same_frame = held.same_frame;
      apart = held.apart;
    };
  }

  -- A registry that cannot grow leaves the task untracked.
  registry_add-Safe :
      (env : Env) (h : ℕ)
      → h < length e.tasks
      → Lacks h e.registry
      → Safe
          (λ _ e'. Good e e' × (e'.queue ≡ e.queue) × (e'.tasks ≡ e.tasks))
          (registry_add env h e)
  unfolding registry_add
  registry_add-Safe env h lt apart = elim (Bool-cases (length e.registry == e.registry_cap)) [
    | inl full ↦ elim (Bool-cases (env.grow (next_cap e.registry_cap))) [
      | inl granted ↦
          rw (full, registry_add, granted)
            (safe (registered-Good h _ lt apart (ground arith), refl, refl))
      | inr refused ↦ rw (full, registry_add, refused) (safe (Good-refl v, refl, refl))
    ]
    | inr room ↦
        rw (room, registry_add)
          (safe (
            registered-Good h e.registry_cap lt apart (ground (arith, v.registry_fits)),
            refl,
            refl,
          ))
  ]

module _ {e : Executor} (v : IsValid e) where
  -- The handle that a spawn returns names the new task.
  pub spawn_task-Safe :
      (env : Env) (t : Task)
      → IsTask t
      → Safe (λ h e'. Good e e' × (h ≡ length e.tasks) × (h < length e'.tasks)) (spawn_task env t e)
  unfolding spawn_task
  spawn_task-Safe env t is =
      let made = new_task-Good v t is in
      let room : length e.tasks < length (e.tasks ++ t ∷ []) =
        omega (arith, length-append e.tasks (t ∷ [])) in
      elim (Bool-cases (env.spare e)) [
        | inl granted ↦ rw granted (
            Safety.bind
              (registry_add-Safe made.valid env (length e.tasks) room
                (Lacks-Below _ e.registry v.registered))
              λ _ e₁ added.
                let lt : length e.tasks < length e₁.tasks = omega (arith, added.0.grows) in
                let apart : Lacks (length e.tasks) e₁.queue =
                  rw (added.1) (Lacks-Below _ e.queue v.queued) in
                Safety.bind (enqueue-Safe added.0.valid (length e.tasks) lt apart env)
                  λ _ e₂ pushed. safe (
                    Good-drive (not-Held e) (Good-trans made added.0) pushed,
                    refl,
                    omega (arith, pushed.grows),
                  ))
        | inr refused ↦ rw refused trapped
      ]
