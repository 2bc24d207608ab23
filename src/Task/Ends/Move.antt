-- ===== src/Task/Ends/Move.antt =====
-- About the ends of a drive in runtime_helpers_tasks.inc, with callbacks that call no operation of the
-- executor: a task is settled, or queued again.
use mathlib.Core.Path.{subst}
use kira_zig.Common.{
  ℕ, ◌≤◌, ◌<◌, ◌≡◌, ◌⊎◌, inl, inr, refl, sym, ap, ◌∙◌, true, false, Option, none, some, List, [],
  ◌∷◌, ◌++◌, ◌==◌, arith, if◌then◌else◌, length, get_elem?, get_elem?-set_self, get_elem?-set_ne,
  get_elem?-lt, set,
}
use kira_zig.BridgeValue.{BridgeValue}
use kira_zig.Task.{Task, Executor, Outcome, ok, Env, is_pending, and_then, or_fault, ◌>>=◌, store}
use kira_zig.Task.Queue.{enqueue}
use kira_zig.Task.Run.{
  body_done, body_dropped, work_done, slot_1, finish_body, start_work, run_work_task,
}
use kira_zig.Task.Safety.Steps.{slot_1-some}
use kira_zig.Task.Ends.{IsQuiet, turns}
use kira_zig.Task.Ends.Queue.{AgreeBut}

-- The task is settled, or it is suspended and back in the queue, with fewer turns to go. The other
-- tasks are as before.
abbrev pub Moves : (ℕ → List BridgeValue → ℕ) → ℕ → Task → Executor → Outcome Unit → Type 0
Moves steps h t e r =
    (t' : Task) × (e' : Executor) × (r ≡ ok tt e')
    × (get_elem? e'.tasks h ≡ some t')
    × AgreeBut h e.tasks e'.tasks
    × (e'.queue_head ≡ e.queue_head)
    × (((is_pending t'.state ≡ false) × (e'.queue ≡ e.queue))
        ⊎ ((is_pending t'.state ≡ true)
            × (turns steps t' < turns steps t)
            × (e'.queue ≡ e.queue ++ h ∷ [])))

module _ (env : Env) (steps : ℕ → List BridgeValue → ℕ) (quiet : IsQuiet env steps) (h : ℕ) where
  -- A move that started from writes to the task.
  pub Moves-after :
      (t t₁ : Task) (e e₁ : Executor) {r : Outcome Unit}
      → AgreeBut h e.tasks e₁.tasks
      → e₁.queue_head ≡ e.queue_head
      → e₁.queue ≡ e.queue
      → turns steps t₁ ≡ turns steps t
      → Moves steps h t₁ e₁ r
      → Moves steps h t e r
  Moves-after t t₁ e e₁ agree head queue same
        (t', e', ran, found, agree', head', inl (done, stays)) =
      (
        t',
        e',
        ran,
        found,
        (λ k ne. agree' k ne ∙ agree k ne),
        head' ∙ head,
        inl (done, stays ∙ queue),
      )
  Moves-after t t₁ e e₁ agree head queue same
        (t', e', ran, found, agree', head', inr (p, lt, back)) =
      (
        t',
        e',
        ran,
        found,
        (λ k ne. agree' k ne ∙ agree k ne),
        head' ∙ head,
        inr (p, omega (arith, lt, same), back ∙ ap (λ q. q ++ h ∷ []) queue),
      )

  pub stored-AgreeBut : (t : Task) (ts : List Task) → AgreeBut h ts (set ts h t)
  stored-AgreeBut t ts k ne = get_elem?-set_ne ts t (λ same. ne (sym same))

  pub store-Moves :
      (t t' : Task) (e : Executor) {old : Task}
      → get_elem? e.tasks h ≡ some old
      → is_pending t'.state ≡ false
      → Moves steps h t e (store h t' e)
  store-Moves t t' e found done = (
    t',
    record e { tasks = set e.tasks h t' },
    refl,
    get_elem?-set_self e.tasks h t' (get_elem?-lt e.tasks h found),
    stored-AgreeBut t' e.tasks,
    refl,
    inl (done, refl),
  )

  start_work-returns :
      (o : Option ℕ) (t : Task) (e : Executor) → (v : BridgeValue) × (start_work env o t e ≡ ok v e)
  unfolding start_work
  start_work-returns none t e = (t.ready_value, refl)
  start_work-returns (some w) t e = quiet.work w t.ctx e

  settled : (t : Task) (v : BridgeValue) → is_pending (work_done t v).state ≡ false
  settled t v = ground arith

  pub run_work_task-Moves :
      (t : Task) (e : Executor)
      → get_elem? e.tasks h ≡ some t
      → Moves steps h t e (run_work_task env h t e)
  unfolding run_work_task
  run_work_task-Moves t e found =
      let (v, ran) = start_work-returns t.work t e in
      rw (ran, found) (store-Moves t (work_done t v) e found (settled t v))

  -- A suspended body goes to the back of the queue, which has room for it.
  pub enqueue-room :
      (e : Executor)
      → length e.queue < e.queue_cap
      → enqueue env h e ≡ ok tt (record e { queue = e.queue ++ h ∷ [] })
  unfolding enqueue
  enqueue-room e room =
      let b : (length e.queue == e.queue_cap) ≡ false = ground (arith, room) in rw b refl

  pub finish_body-Moves :
      (before t : Task) (e : Executor) (slots : List BridgeValue)
      → get_elem? e.tasks h ≡ some t
      → t.frame ≡ some slots
      → 2 ≤ length slots
      → Moves steps h before e (finish_body env h t e)
  unfolding finish_body
  finish_body-Moves before t e slots found framed le =
      let (v, at_1) = slot_1-some slots le in
      let slot : slot_1 t ≡ some v =
        ap (λ f. elim f [ none ↦ none | some slots ↦ get_elem? slots 1 ]) framed ∙ at_1 in
      elim t.detached
        as (λ d. Moves steps h before e (
          (if d
              then store h (body_dropped t)
              else (or_fault (slot_1 t) >>= λ v. store h (body_done t v)))
            e)) [
              | true ↦ store-Moves before (body_dropped t) e found refl
              | false ↦
                  subst
                    (λ o.
                      Moves steps h before e
                        (and_then (or_fault o e) (λ v. store h (body_done t v))))
                    (sym slot) (store-Moves before (body_done t v) e found refl)
            ]
