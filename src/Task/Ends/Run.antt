-- ===== src/Task/Ends/Run.antt =====
-- About `kira_task_run_one` of runtime_helpers_tasks.inc with callbacks that call no operation of the
-- executor: what it does to the task and the queue.
use mathlib.Core.Path.{subst}
use kira_zig.Common.{
  ℕ, ◌≤◌, ◌<◌, ◌≡◌, inl, inr, refl, sym, ap, ◌∙◌, ℤ, true, false, Option, none, some, List, [], ◌∷◌,
  ◌++◌, arith, if◌then◌else◌, length, get_elem?, get_elem?-set_self, get_elem?-lt, set, Bool-cases,
}
use kira_zig.BridgeValue.{BridgeValue}
use kira_zig.Task.{Task, Executor, Env, is_pending, and_then, or_fault, modify, ◌>>◌, store}
use kira_zig.Task.Queue.{enqueue}
use kira_zig.Task.Run.{
  dropped, is_suspended, write_frame, finish_body, after_body, run_body_task, drive_task, run_one,
}
use kira_zig.Task.Safety.{IsTask, IsValid}
use kira_zig.Task.Safety.Steps.{slots_of}
use kira_zig.Task.Safety.Store.{All-get}
use kira_zig.Task.Safety.Pop.{Driven}
use kira_zig.Task.Ends.{IsQuiet, body_steps}
use kira_zig.Task.Ends.Move.{
  Moves, Moves-after, enqueue-room, finish_body-Moves, run_work_task-Moves, store-Moves,
  stored-AgreeBut,
}

module _ (env : Env) (steps : ℕ → List BridgeValue → ℕ) (quiet : IsQuiet env steps) (h : ℕ) where
  after_body-Moves :
      (t : Task) (e : Executor) (b : ℕ) (slots left : List BridgeValue) (status : ℤ)
      → get_elem? e.tasks h ≡ some t
      → is_pending t.state ≡ true
      → t.body ≡ some b
      → t.frame ≡ some slots
      → 2 ≤ length left
      → length e.queue < e.queue_cap
      → (is_suspended status ≡ true → steps b left < steps b slots)
      → Moves steps h t e (after_body env h (status, left) e)
  unfolding after_body
  after_body-Moves t e b slots left status found p body framed le room fewer =
      let t' = write_frame t left in
      let e' = record e { tasks = set e.tasks h t' } in
      let at_h = get_elem?-set_self e.tasks h t' (get_elem?-lt e.tasks h found) in
      let framed' : t'.frame ≡ some left =
        ap (λ f. elim f [ none ↦ none | some _ ↦ some left ]) framed in
      let go : Moves steps h t e
          ((if is_suspended status then enqueue env h else finish_body env h t') e') =
        elim (Bool-cases (is_suspended status)) [
          | inl suspended ↦
              let fewer_turns : body_steps steps t.body t'.frame < body_steps steps t.body t.frame =
                subst (λ o. body_steps steps o t'.frame < body_steps steps o t.frame) (sym body)
                  (subst (λ o. body_steps steps (some b) o < body_steps steps (some b) t.frame)
                    (sym framed')
                    (subst (λ o. steps b left < body_steps steps (some b) o) (sym framed)
                      (fewer suspended))) in
              subst
                (λ s. Moves steps h t e ((if s then enqueue env h else finish_body env h t') e'))
                (sym suspended)
                (
                  t',
                  record e' { queue = e.queue ++ h ∷ [] },
                  enqueue-room env steps quiet h e' room,
                  at_h,
                  stored-AgreeBut env steps quiet h t' e.tasks,
                  refl,
                  inr (p, omega (arith, fewer_turns), refl),
                )
          | inr finished ↦
              subst
                (λ s. Moves steps h t e ((if s then enqueue env h else finish_body env h t') e'))
                (sym finished)
                (Moves-after env steps quiet h t t e e'
                  (stored-AgreeBut env steps quiet h t' e.tasks) refl refl refl
                  (finish_body-Moves env steps quiet h t t' e' left at_h framed' le))
        ] in
      subst
        (λ o. Moves steps h t e (
          and_then (or_fault o e) (λ t.
            store h (write_frame t left)
            >> (if is_suspended status
                then enqueue env h
                else finish_body env h (write_frame t left)))))
        (sym found) go

  run_body_task-Moves :
      (t : Task) (e : Executor) (b : ℕ)
      → IsTask t
      → get_elem? e.tasks h ≡ some t
      → is_pending t.state ≡ true
      → t.body ≡ some b
      → length e.queue < e.queue_cap
      → Moves steps h t e (run_body_task env h t b e)
  unfolding run_body_task
  run_body_task-Moves t e b is found p body room =
      let (slots, framed, le) = slots_of is p body in
      let awake = record t { wake_at_ns = 0 } in
      let e₁ = record e { tasks = set e.tasks h awake } in
      let (status, left, ran, same, fewer) = quiet.body b slots (record e₁ { current = some h }) in
      subst
        (λ r. Moves steps h t e (
          and_then r (λ outcome.
            modify (λ after. record after { current = e.current }) >> after_body env h outcome)))
        (sym (ap (λ f. env.run_body b f (record e₁ { current = some h })) framed ∙ ran))
        (Moves-after env steps quiet h t awake e e₁
          (stored-AgreeBut env steps quiet h awake e.tasks) refl refl refl
          (after_body-Moves awake e₁ b slots left status
            (get_elem?-set_self e.tasks h awake (get_elem?-lt e.tasks h found)) p body framed
            (omega (arith, le, same)) room fewer))

  drive_task-Moves :
      (t : Task) (e : Executor)
      → IsTask t
      → get_elem? e.tasks h ≡ some t
      → is_pending t.state ≡ true
      → length e.queue < e.queue_cap
      → (o : Option ℕ) → t.body ≡ o
      → Moves steps h t e (drive_task env h t o e)
  unfolding drive_task
  drive_task-Moves t e is found p room none body = run_work_task-Moves env steps quiet h t e found
  drive_task-Moves t e is found p room (some b) body =
      run_body_task-Moves t e b is found p body room

  -- A drive of a popped task.
  pub run_one-Moves :
      {e : Executor} → IsValid e → (d : Driven e h) → Moves steps h d.task e (run_one env h e)
  unfolding run_one
  run_one-Moves {e} v d =
      let t = d.task in
      let is = All-get IsTask e.tasks h v.tasks d.found in
      rw d.found
        (elim t.cancel_requested
          as (λ c.
            Moves steps h t e ((if c then store h (dropped t) else drive_task env h t t.body) e)) [
              | true ↦ store-Moves env steps quiet h t (dropped t) e d.found refl
              | false ↦ drive_task-Moves t e is d.found d.pending d.room t.body refl
            ])
