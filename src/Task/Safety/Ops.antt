-- ===== src/Task/Safety/Ops.antt =====
-- About the exported operations of runtime_helpers_tasks.inc that drive no task.
use kira_zig.Common.{
  ℕ, ◌*◌, ◌<◌, ◌≡◌, refl, true, false, ◌&&◌, Option, none, some, arith, ltb, if◌then◌else◌, length,
  get_elem?, get_elem?-some, set, ℤ,
}
use kira_zig.Task.{
  Task, pending, complete, consumed, Executor, is_pending, is_complete_state, M, Env, store, pure,
}
use kira_zig.Task.Queue.{now_ns, sleep_ns}
use kira_zig.Task.Api.{
  spent, u64, milliseconds, ns_per_ms, join_error, stop_or, check_joinable, cancel, detach, release,
  sleep_in, sleep, is_complete, discard,
}
use kira_zig.Task.Safety.{
  IsTask, IsValid, InRange, Good, Safe, safe, trapped, Good-refl, Good-trans,
}
use kira_zig.Task.Safety.Store.{All-get, store-Good, clock-Good}

module _ (t : Task) (is : IsTask t) where
  spent-IsTask : is_pending t.state ≡ false → IsTask (spent t)
  spent-IsTask p = ground arith

  cancelled-IsTask : IsTask (record t { cancel_requested = true })
  cancelled-IsTask = ground arith

  detached-IsTask : is_pending t.state ≡ true → IsTask (record t { detached = true })
  detached-IsTask p = ground arith

  parked-IsTask : (w : ℕ) → IsTask (record t { wake_at_ns = w })
  parked-IsTask w = ground arith

-- Safe, with the guarantee of every operation.
abbrev pub Keeps : {A : Type 0} → Executor → M A → Type 0
Keeps e m = Safe (λ _ e'. Good e e') (m e)

module _ {e : Executor} (v : IsValid e) (h : ℕ) (t : Task)
    (found : get_elem? e.tasks h ≡ some t) where
  is_task : IsTask t
  is_task = All-get IsTask e.tasks h v.tasks found

  cancel-found : Keeps e (cancel (some h))
  unfolding cancel
  cancel-found = rw found (
      (elim t.state
          as (λ s.
            t.state ≡ s
            → Keeps e (
                if is_pending s then store h (record t { cancel_requested = true }) else pure tt)) [
                  | pending ↦ λ s.
                      safe (
                        store-Good v h _ t found (cancelled-IsTask t is_task)
                          (λ p. (p, refl, refl)))
                  | complete ↦ λ s. safe (Good-refl v)
                  | consumed ↦ λ s. safe (Good-refl v)
                ])
        refl)

  pub spent-Good :
      is_pending t.state ≡ false → Good e (record e { tasks = set e.tasks h (spent t) })
  spent-Good settled = store-Good v h _ t found (spent-IsTask t is_task settled) (λ p. cc)

  detach-found : Keeps e (detach (some h))
  unfolding detach
  detach-found = rw found (
      (elim t.state as (λ s. t.state ≡ s → Keeps e (release s h t)) [
        | pending ↦ λ s.
            safe
              (store-Good v h _ t found (detached-IsTask t is_task (rw s)) (λ p. (p, refl, refl)))
        | complete ↦ λ s. safe (spent-Good (rw s))
        | consumed ↦ λ s. safe (Good-refl v)
      ])
        refl)

  discard-found : Keeps e (discard h)
  unfolding discard
  discard-found = rw found (
      (elim t.state
          as (λ s.
            t.state ≡ s → Keeps e (if is_complete_state s then store h (spent t) else pure tt)) [
              | pending ↦ λ s. safe (Good-refl v)
              | complete ↦ λ s. safe (spent-Good (rw s))
              | consumed ↦ λ s. safe (Good-refl v)
            ])
        refl)

  is_complete-found : Keeps e (is_complete (some h))
  unfolding is_complete
  is_complete-found = rw found (safe (Good-refl v))

  sleep-found : (env : Env) (ms : ℤ) → Keeps e (sleep_in env ms (some h))
  unfolding sleep_in now_ns
  sleep-found env ms =
      let ticked = clock-Good v (env.tick e.clock) in
      rw found (
        safe (
          Good-trans ticked (
            store-Good ticked.valid h _ t found (parked-IsTask t is_task _)
              (λ p. (p, refl, refl)))))

  pub yielded-found :
      Keeps e (if is_complete_state t.state && t.detached then store h (spent t) else pure tt)
  yielded-found =
      ((elim t.state
          as (λ s.
            t.state ≡ s
            → Keeps e (if is_complete_state s && t.detached then store h (spent t) else pure tt)) [
              | pending ↦ λ s. safe (Good-refl v)
              | complete ↦ λ s.
                  elim t.detached as (λ d. Keeps e (if d then store h (spent t) else pure tt)) [
                    | true ↦ safe (spent-Good (rw s))
                    | false ↦ safe (Good-refl v)
                  ]
              | consumed ↦ λ s. safe (Good-refl v)
            ])
        refl)

-- A handle that the caller may pass.
abbrev pub Known : Executor → Option ℕ → Type 0
Known e = InRange (length e.tasks)

module _ {e : Executor} (v : IsValid e) where
  pub cancel-Safe : (o : Option ℕ) → Known e o → Keeps e (cancel o)
  cancel-Safe none known = unfold cancel in safe (Good-refl v)
  cancel-Safe (some h) known =
      let (t, found) = get_elem?-some e.tasks h known in cancel-found v h t found

  pub detach-Safe : (o : Option ℕ) → Known e o → Keeps e (detach o)
  detach-Safe none known = unfold detach in safe (Good-refl v)
  detach-Safe (some h) known =
      let (t, found) = get_elem?-some e.tasks h known in detach-found v h t found

  pub is_complete-Safe : (o : Option ℕ) → Known e o → Keeps e (is_complete o)
  is_complete-Safe none known = unfold is_complete in safe (Good-refl v)
  is_complete-Safe (some h) known =
      let (t, found) = get_elem?-some e.tasks h known in is_complete-found v h t found

  pub discard-Safe : (h : ℕ) → h < length e.tasks → Keeps e (discard h)
  discard-Safe h known =
      let (t, found) = get_elem?-some e.tasks h known in discard-found v h t found

  sleep_in-Safe : (env : Env) (ms : ℤ) (o : Option ℕ) → Known e o → Keeps e (sleep_in env ms o)
  sleep_in-Safe env ms none known =
      unfold sleep_in sleep_ns in
      elim (ltb 0 (milliseconds ms))
        as (λ b.
          Keeps e (if b then sleep_ns env (u64 (milliseconds ms * ns_per_ms)) else pure tt)) [
            | true ↦ safe (clock-Good v _)
            | false ↦ safe (Good-refl v)
          ]
  sleep_in-Safe env ms (some h) known =
      let (t, found) = get_elem?-some e.tasks h known in sleep-found v h t found env ms

  pub sleep-Safe : (env : Env) (ms : ℤ) → Keeps e (sleep env ms)
  unfolding sleep
  sleep-Safe env ms = sleep_in-Safe env ms e.current v.current

  pub check_joinable-Safe :
      (o : Option ℕ)
      → Known e o
      → Safe (λ h e'. Good e e' × (h < length e'.tasks)) (check_joinable o e)
  unfolding check_joinable
  check_joinable-Safe none known = trapped
  check_joinable-Safe (some h) known =
      let (t, found) = get_elem?-some e.tasks h known in
      rw found
        (elim (join_error t)
          as (λ o. Safe (λ h e'. Good e e' × (h < length e'.tasks)) (stop_or o h e)) [
            | none ↦ safe (Good-refl v, known)
            | some r ↦ trapped
          ])
