-- ===== src/Task/Safety/Drive.antt =====
-- About `kira_task_run_one` of runtime_helpers_tasks.inc and the contract of the callbacks.
use kira_zig.Common.{
  ℕ, ◌≤◌, ◌≡◌, ◌⊎◌, refl, true, false, Option, none, some, List, arith, if◌then◌else◌, length,
  length-set, get_elem?, get_elem?-set_self, set, Bool-cases, inl, inr, ℤ,
}
use kira_zig.BridgeValue.{BridgeValue}
use kira_zig.Task.{Task, Executor, is_pending, Env, or_fault, store, ◌>>=◌}
use kira_zig.Task.Run.{
  dropped, is_suspended, body_dropped, body_done, work_done, write_frame, slot_1, finish_body,
  after_body, run_body_task, start_work, run_work_task, drive_task, run_one,
}
use kira_zig.Task.Safety
use kira_zig.Task.Safety.{
  IsTask, IsValid, Held, Good, GoodBut, Safe, safe, trapped, starved, Lacks, Distinct, Below,
  IsTame, is_none, has_slots, Good-refl, Good-trans, GoodBut-trans, GoodBut-of_Good,
}
use kira_zig.Task.Safety.Store.{All-get, get_elem?-lt, store-GoodBut, current-Good, InRange-mono}
use kira_zig.Task.Safety.Pop.{Driven}
use kira_zig.Task.Safety.Steps.{
  Held-IsTask, awake-IsTask, body_done-IsTask, body_dropped-IsTask, dropped-IsTask, enqueue-Safe,
  slot_1-some, slots_of, block_of, work_done-IsTask, write_frame-IsTask,
}

module _ (env : Env) (h : ℕ) where
  finish_body-Safe :
      {e : Executor} (v : IsValid e) (t : Task) (slots : List BridgeValue)
      → IsTask t
      → is_pending t.state ≡ true
      → is_none t.body ≡ false
      → t.frame ≡ some slots
      → 2 ≤ length slots
      → Safe (λ _ e'. GoodBut h e e') (finish_body env h t e)
  unfolding finish_body
  finish_body-Safe {e} v t slots is p b frame le =
      let (r, found) = slot_1-some slots le in
      (elim t.detached
          as (λ d.
            t.detached ≡ d
            → Safe (λ _ e'. GoodBut h e e')
                ((if d
                    then store h (body_dropped t)
                    else (or_fault (slot_1 t) >>= λ v. store h (body_done t v)))
                  e)) [
                    | true ↦ λ d.
                        safe (store-GoodBut v h (body_dropped t) (body_dropped-IsTask t is p b))
                    | false ↦ λ nd.
                        rw (frame, found)
                          (safe
                            (store-GoodBut v h (body_done t r) (body_done-IsTask t is p b nd r)))
                  ])
        refl

  module _ {e : Executor} (v : IsValid e) {b : ℕ} {slots : List BridgeValue}
      (held : Held e h (some b) (some slots)) (le : 2 ≤ length slots) where
    after_body-Safe :
        (r : ℤ × List BridgeValue)
        → length (r.1) ≡ length slots
        → Safe (λ _ e'. GoodBut h e e') (after_body env h r e)
    unfolding after_body
    after_body-Safe (status, slots') same =
        let is = Held-IsTask v held in
        let pending = held.pending in
        let lt = get_elem?-lt e.tasks h held.found in
        let bodied : is_none held.task.body ≡ false = rw held.same_body in
        let t = write_frame held.task slots' in
        let t-IsTask = write_frame-IsTask held.task is pending bodied slots' (omega arith) in
        let stored = store-GoodBut v h t t-IsTask in
        let framed : t.frame ≡ some slots' = ground (arith, held.same_frame) in
        rw held.found (elim (Bool-cases (is_suspended status)) [
          | inl s ↦ rw s (
              Safety.mono (enqueue-Safe stored.valid h (rw length-set lt) held.apart env)
                λ _ e' g. GoodBut-trans stored g)
          | inr ns ↦ rw ns (
              Safety.mono
                (finish_body-Safe stored.valid t slots' t-IsTask pending bodied framed
                  (omega arith))
                λ _ e' g. GoodBut-trans stored g)
        ])

module _ (env : Env) (tame : IsTame env) (h : ℕ) where
  start_work-Safe :
      {e : Executor}
      → IsValid e
      → (o : Option ℕ) (t : Task) → (o ≡ none) ⊎ ((c : ℕ) × (t.ctx ≡ some c))
      → Safe (λ _ e'. Good e e') (start_work env o t e)
  unfolding start_work
  start_work-Safe v none t live = safe (Good-refl v)
  start_work-Safe v (some w) t (inl e) = cc
  start_work-Safe v (some w) t (inr (c, e)) = rw e (tame.work w c _ v)

  call_body-Safe :
      {e : Executor} {f : Option (List BridgeValue)} {slots : List BridgeValue}
      → IsValid e
      → (b : ℕ) → f ≡ some slots
      → Safe (λ r e'. Good e e' × (length (r.1) ≡ length slots)) (env.run_body b f e)
  call_body-Safe v b frame = rw frame (tame.body b _ _ v)

  module _ {e : Executor} (v : IsValid e) (t : Task) (found : get_elem? e.tasks h ≡ some t)
      (p : is_pending t.state ≡ true) (apart : Lacks h e.queue) where
    Held-now : Held e h t.body t.frame
    Held-now = record {
      task = t;
      found = found;
      pending = p;
      same_body = refl;
      same_frame = refl;
      apart = apart;
    }

    run_work_task-Safe : t.body ≡ none → Safe (λ _ e'. GoodBut h e e') (run_work_task env h t e)
    unfolding run_work_task
    run_work_task-Safe b =
        let live = block_of (All-get IsTask e.tasks h v.tasks found) p in
        Safety.bind (start_work-Safe v t.work t live) λ out e' g.
          let held = g.held h t.body t.frame Held-now in
          rw held.found (
            safe (
              GoodBut-trans (GoodBut-of_Good g) (
                store-GoodBut g.valid h (work_done held.task out) (
                  work_done-IsTask held.task (Held-IsTask g.valid held) held.pending
                    (rw (held.same_body, b)) out))))

    run_body_task-Safe :
        (b : ℕ) → t.body ≡ some b → Safe (λ _ e'. GoodBut h e e') (run_body_task env h t b e)
    unfolding run_body_task
    run_body_task-Safe b body =
        let is = All-get IsTask e.tasks h v.tasks found in
        let lt = get_elem?-lt e.tasks h found in
        let (slots, frame, le) = slots_of is p body in
        let awake = record t { wake_at_ns = 0 } in
        let stored = store-GoodBut v h awake (awake-IsTask t is) in
        let entered = current-Good stored.valid (some h) (rw length-set lt) in
        let start : GoodBut h e (record e { tasks = set e.tasks h awake; current = some h }) =
          GoodBut-trans stored (GoodBut-of_Good entered) in
        let held : Held (record e { tasks = set e.tasks h awake; current = some h }) h (some b)
            (some slots) =
          record {
            task = awake;
            found = get_elem?-set_self e.tasks h awake lt;
            pending = p;
            same_body = body;
            same_frame = frame;
            apart = apart;
          } in
        (Safety.bind (call_body-Safe start.valid b frame) λ r e' ran.
          let left = current-Good ran.0.valid e.current (
            InRange-mono e.current (length e.tasks) (length e'.tasks)
              (omega (arith, start.grows, ran.0.grows)) v.current) in
          let back = Good-trans ran.0 left in
          Safety.mono
            (after_body-Safe env h back.valid (back.held h (some b) (some slots) held) le r ran.1)
            λ _ e'' g. GoodBut-trans (GoodBut-trans start (GoodBut-of_Good back)) g)

    drive_task-Safe :
        (o : Option ℕ) → t.body ≡ o → Safe (λ _ e'. GoodBut h e e') (drive_task env h t o e)
    unfolding drive_task
    drive_task-Safe none b = run_work_task-Safe b
    drive_task-Safe (some b) body = run_body_task-Safe b body

  -- A drive of a popped task.
  pub run_one-Safe :
      {e : Executor} → IsValid e → Driven e h → Safe (λ _ e'. GoodBut h e e') (run_one env h e)
  unfolding run_one
  run_one-Safe {e} v d =
      let t = d.task in
      let is = All-get IsTask e.tasks h v.tasks d.found in
      rw d.found
        (elim t.cancel_requested
          as (λ c.
            Safe (λ _ e'. GoodBut h e e')
              ((if c then store h (dropped t) else drive_task env h t t.body) e)) [
                | true ↦ safe (store-GoodBut v h (dropped t) (dropped-IsTask t is d.pending))
                | false ↦ drive_task-Safe v t d.found d.pending d.apart t.body refl
              ])
