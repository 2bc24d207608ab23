-- ===== src/Task/Ends/Turn.antt =====
-- About one drive of the loop of `kira_task_await` of runtime_helpers_tasks.inc: the tasks that wait
-- after it.
use mathlib.Core.Path.{subst}
use native.Mathlib.Decide.{ℕ_discrete}
use kira_zig.Common.{
  ℕ, ◌+◌, ◌≤◌, ◌<◌, ◌≡◌, ◌≢◌, ◌⊎◌, inl, inr, sym, ap, ◌∙◌, true, some, List, [], ◌∷◌, ◌++◌, arith,
  length, get_elem?, drop,
}
use kira_zig.BridgeValue.{BridgeValue}
use kira_zig.Task.{Task, Executor, ok, Env, is_pending}
use kira_zig.Task.Run.{run_one}
use kira_zig.Task.Order.{waiting, in_queue}
use kira_zig.Task.Order.Scan.{waiting-append, waiting-pending}
use kira_zig.Task.Safety.{IsValid, IsTame, safe, Safe, Safe-ok, Good-refl, Lacks}
use kira_zig.Task.Safety.Pop.{All-drop, Driven}
use kira_zig.Task.Safety.Drive.{run_one-Safe}
use kira_zig.Task.Ends.{IsQuiet, turns, turns_of, total}
use kira_zig.Task.Ends.Queue.{
  AgreeBut, Among, Among-append_left, Among-append_last, total-append, waiting-AgreeBut,
  total-AgreeBut, drop-append_short,
}
use kira_zig.Task.Ends.Run.{run_one-Moves}

-- The task waits, if it is pending.
abbrev pub Waits : ℕ → Executor → Type 0
Waits k e =
    (t : Task) × (get_elem? e.tasks k ≡ some t) × (is_pending t.state ≡ true → Among k (in_queue e))

-- What a drive that does not call the executor leaves in the queue.
module _ (e e' : Executor) (h : ℕ) (agree : AgreeBut h e.tasks e'.tasks)
    (head : e'.queue_head ≡ e.queue_head) (apart : Lacks h (drop e.queue_head e.queue)) where
  in_queue-settled : e'.queue ≡ e.queue → in_queue e' ≡ in_queue e
  in_queue-settled same =
      ap (λ n. waiting e'.tasks (drop n e'.queue)) head
      ∙ ap (λ q. waiting e'.tasks (drop e.queue_head q)) same
      ∙ waiting-AgreeBut h e.tasks e'.tasks agree (drop e.queue_head e.queue) apart

  in_queue-suspended :
      (t : Task)
      → get_elem? e'.tasks h ≡ some t
      → is_pending t.state ≡ true
      → e.queue_head ≤ length e.queue
      → e'.queue ≡ e.queue ++ h ∷ []
      → in_queue e' ≡ in_queue e ++ (h, t.wake_at_ns) ∷ []
  unfolding waiting
  in_queue-suspended t found p le same =
      ap (λ n. waiting e'.tasks (drop n e'.queue)) head
      ∙ ap (λ q. waiting e'.tasks (drop e.queue_head q)) same
      ∙ ap (waiting e'.tasks) (drop-append_short e.queue_head e.queue (h ∷ []) le)
      ∙ waiting-append e'.tasks (drop e.queue_head e.queue) (h ∷ [])
      ∙ ap (λ r. r ++ waiting e'.tasks (h ∷ []))
          (waiting-AgreeBut h e.tasks e'.tasks agree (drop e.queue_head e.queue) apart)
      ∙ ap (λ r. in_queue e ++ r) (waiting-pending e'.tasks h found [] p)

  module _ (steps : ℕ → List BridgeValue → ℕ) where
    total-settled :
        e'.queue ≡ e.queue → total steps e'.tasks (in_queue e') ≡ total steps e.tasks (in_queue e)
    total-settled same =
        ap (total steps e'.tasks) (in_queue-settled same)
        ∙ total-AgreeBut h e.tasks e'.tasks agree steps (drop e.queue_head e.queue) apart

    total-suspended :
        (t : Task)
        → get_elem? e'.tasks h ≡ some t
        → is_pending t.state ≡ true
        → e.queue_head ≤ length e.queue
        → e'.queue ≡ e.queue ++ h ∷ []
        → total steps e'.tasks (in_queue e')
          ≡ total steps e.tasks (in_queue e) + (turns steps t + 0)
    unfolding total
    total-suspended t found p le same =
        ap (total steps e'.tasks) (in_queue-suspended t found p le same)
        ∙ total-append steps e'.tasks (in_queue e) ((h, t.wake_at_ns) ∷ [])
        ∙ ap (λ n. n + (turns_of steps (get_elem? e'.tasks h) + 0))
            (total-AgreeBut h e.tasks e'.tasks agree steps (drop e.queue_head e.queue) apart)
        ∙ ap (λ o. total steps e.tasks (in_queue e) + (turns_of steps o + 0)) found

module _ (env : Env) (steps : ℕ → List BridgeValue → ℕ) (quiet : IsQuiet env steps) where
  quiet-IsTame : IsTame env
  quiet-IsTame = record {
    work = λ w c e v.
        let (out, ran) = quiet.work w (some c) e in subst (Safe _) (sym ran) (safe (Good-refl v));
    body = λ b slots e v.
        let (status, left, ran, same, _) = quiet.body b slots e in
        subst (Safe _) (sym ran) (safe (Good-refl v, same));
  }

  -- After a drive fewer turns are left, and what waited still waits, or is settled.
  abbrev Left : (e : Executor) (h : ℕ) → Task → Executor → Type 0
  Left e h t e' =
      (total steps e'.tasks (in_queue e') < turns steps t + total steps e.tasks (in_queue e))
      × ((k : ℕ)
          → (h ≡ k) ⊎ Among k (in_queue e)
          → (x : Task) → get_elem? e.tasks k ≡ some x
          → Waits k e')

  -- The tasks wait if the popped one does.
  still-Waits :
      (e e' : Executor) (h : ℕ) (t' : Task)
      → get_elem? e'.tasks h ≡ some t'
      → AgreeBut h e.tasks e'.tasks
      → (is_pending t'.state ≡ true → Among h (in_queue e'))
      → ((k : ℕ) → Among k (in_queue e) → Among k (in_queue e'))
      → (k : ℕ) → (h ≡ k) ⊎ Among k (in_queue e)
      → (x : Task) → get_elem? e.tasks k ≡ some x
      → Waits k e'
  still-Waits e e' h t' found agree here others k waits x at_k = elim (ℕ_discrete k h) [
    | yes same ↦ subst (λ k. Waits k e') (sym same) (t', found, here)
    | no ne ↦ (
      x,
      agree k ne ∙ at_k,
      λ _. elim waits [ inl popped ↦ absurd (ne (sym popped)) | inr among ↦ others k among ],
    )
  ]

  pub run_one-Left :
      {e : Executor} (h : ℕ)
      → IsValid e
      → (d : Driven e h)
      → (e' : Executor) × (run_one env h e ≡ ok tt e') × IsValid e' × Left e h d.task e'
  run_one-Left {e} h v d =
      let (t', e', ran, found, agree, head, after) = run_one-Moves env steps quiet h v d in
      let apart = All-drop (λ k. k ≢ h) e.queue_head e.queue d.apart in
      let valid = (Safe-ok (run_one-Safe env quiet-IsTame h v d) ran).valid in
      let left : Left e h d.task e' = elim after [
        | inl (done, same) ↦ (
          omega (arith, total-settled e e' h agree head apart steps same),
          still-Waits e e' h t' found agree (λ p. cc)
              (λ k. subst (Among k) (sym (in_queue-settled e e' h agree head apart same))),
        )
        | inr (p, lt, back) ↦
            let queue = in_queue-suspended e e' h agree head apart t' found p v.head_fits back in
            (
              omega (
                arith,
                lt,
                total-suspended e e' h agree head apart steps t' found p v.head_fits back,
              ),
              still-Waits e e' h t' found agree
                  (λ _.
                    subst (Among h) (sym queue) (Among-append_last h t'.wake_at_ns (in_queue e)))
                  (λ k among.
                    subst (Among k) (sym queue)
                      (Among-append_left k (in_queue e) ((h, t'.wake_at_ns) ∷ []) among)),
            )
      ] in
      (e', ran, valid, left)
