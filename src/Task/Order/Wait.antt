-- ===== src/Task/Order/Wait.antt =====
-- About `kira_task_pop_next_or_wait` of runtime_helpers_tasks.inc and its rounds.
use mathlib.Core.Path.{subst}
use kira_zig.Common.{
  ℕ, ◌-◌, ◌≤◌, ◌<◌, ◌≡◌, ◌≢◌, ◌↔◌, refl, sym, ap, ◌∙◌, Option, none, some, List, [], ◌∷◌, ltb,
  arith, length, drop, Bool-cases, inl, inr,
}
use kira_zig.Task.{Task, Executor, ok, Env, Outcome}
use kira_zig.Task.Queue.{now_ns, sleep_ns, pop_next, wait_until, retry, or_wait, pop_next_or_wait}
use kira_zig.Task.Api.{wait_rounds}
use kira_zig.Task.Order.{Entry, in_queue, pop_due}
use kira_zig.Task.Order.Scan.{Parked}
use kira_zig.Task.Order.Refine.{
  IsClock, pop_next-refines, soonest, earliest-soonest, Parked-pop_due, soonest-Later, Later,
  nil-soonest,
}
use kira_zig.Task.Safety.{IsValid, Safe-ok}
use kira_zig.Task.Safety.Store.{clock-Good}
use kira_zig.Task.Safety.Pop.{All-drop, pop_next-Safe}

pop_due-none : (now : ℕ) (w : List Entry) → (pop_due now w).0 ≡ none → (pop_due now w).1 ≡ w
unfolding pop_due
pop_due-none now [] e = refl
pop_due-none now ((h, x) ∷ r) e = ground (arith, pop_due-none now r)

-- A pop from `w`, at the time from `start` on that the clock shows afterwards, that leaves nothing behind but what waits later and
-- does not change the tasks `ts`.
abbrev pub Serves : ℕ → List Task → List Entry → Outcome (Option ℕ) → Type 0
Serves start ts w r =
    (o : Option ℕ) × (e' : Executor) × (r ≡ ok o e')
    × (start ≤ e'.clock)
    × (pop_due e'.clock w ≡ (o, in_queue e'))
    × ((o ≡ none) ↔ (w ≡ []))
    × (e'.tasks ≡ ts)

some_iff :
    (now h : ℕ) (w : List Entry) {w' : List Entry}
    → pop_due now w ≡ (some h, w')
    → (◌≡◌ {A = Option ℕ} (some h) none) ↔ (w ≡ [])
unfolding pop_due
some_iff now h [] p = absurd (not_none (ap (λ x. x.0) p))
  where
    not_none : ◌≢◌ {A = Option ℕ} none (some h)
    not_none q = cc
some_iff now h (x ∷ r) p = (λ q. cc, λ q. cc)

pop_due_of_Parked : (now : ℕ) (w : List Entry) → Parked now w → pop_due now w ≡ (none, w)
unfolding pop_due
pop_due_of_Parked now [] parked = refl
pop_due_of_Parked now ((h, x) ∷ r) (lt, parked) = ground (arith, pop_due_of_Parked now r parked)

Serves-mono :
    {start later : ℕ} {ts : List Task} {w : List Entry} {r : Outcome (Option ℕ)}
    → start ≤ later
    → Serves later ts w r
    → Serves start ts w r
Serves-mono le (o, e', ran, after, p, found, kept) = (o, e', ran, omega arith, p, found, kept)

module _ (env : Env) (clock : IsClock env) where
  wait_until-returns :
      {e : Executor} (deadline : ℕ)
      → IsValid e
      → (e' : Executor) × (wait_until env deadline e ≡ ok tt e')
        × IsValid e'
        × (in_queue e' ≡ in_queue e)
        × (e'.tasks ≡ e.tasks)
        × (deadline ≤ e'.clock)
        × (e.clock ≤ e'.clock)
  unfolding wait_until now_ns sleep_ns
  wait_until-returns {e} deadline v =
      let now = env.tick e.clock in
      let ticked = clock-Good v now in
      elim (Bool-cases (ltb now deadline)) [
        | inl early ↦ (
          record e { clock = env.after now (deadline - now) },
          rw (early, wait_until),
          (clock-Good ticked.valid (env.after now (deadline - now))).valid,
          refl,
          refl,
          omega (arith, clock.full_sleep now (deadline - now)),
          omega (arith, clock.full_sleep now (deadline - now), clock.forward e.clock),
        )
        | inr late ↦ (
          record e { clock = now },
          rw (late, wait_until),
          ticked.valid,
          refl,
          refl,
          ground arith,
          clock.forward e.clock,
        )
      ]

  -- The round after a sleep finds a task.
  second_round :
      (e : Executor) (d : ℕ) (o : Option ℕ) (e' : Executor)
      → soonest none (in_queue e) ≡ some d
      → d ≤ env.tick e.clock
      → pop_next env e ≡ ok o e'
      → pop_due (env.tick e.clock) (in_queue e) ≡ (o, in_queue e')
      → e'.tasks ≡ e.tasks
      → e'.clock ≡ env.tick e.clock
      → Serves e.clock e.tasks (in_queue e) (pop_next_or_wait env 1 e)
  unfolding pop_next_or_wait or_wait
  second_round e d none e' s le r p kept c =
      let parked = Parked-pop_due (env.tick e.clock) (in_queue e) (ap (λ x. x.0) p) in
      let later : env.tick e.clock < d =
        subst (Later (env.tick e.clock)) s
          (soonest-Later (env.tick e.clock) none (in_queue e) tt parked) in
      absurd (omega arith)
  second_round e d (some h) e' s le r p kept c =
      (some h, e', rw r, omega (arith, c, clock.forward e.clock), at_clock, some_iff _ h _ p, kept)
    where
      at_clock : pop_due e'.clock (in_queue e) ≡ (some h, in_queue e')
      at_clock = ap (λ now. pop_due now (in_queue e)) c ∙ p

  -- What follows a first pop that found nothing due.
  first_sleep :
      (e : Executor)
      → IsValid e
      → (best : Option ℕ) → soonest none (in_queue e) ≡ best
      → Parked e.clock (in_queue e)
      → Serves e.clock e.tasks (in_queue e) (retry env (pop_next_or_wait env 1) best e)
  unfolding retry
  first_sleep e v none s parked = (
    none,
    e,
    refl,
    omega arith,
    pop_due_of_Parked e.clock (in_queue e) parked,
    (λ _. nil-soonest (in_queue e) s, λ _. refl),
    refl,
  )
  first_sleep e v (some d) s parked =
      let (e₁, ran, v₁, same, kept, past, onward) = wait_until-returns d v in
      let (o, e₂, popped, p, kept', c) = pop_next-refines env v₁ in
      let found =
        second_round e₁ d o e₂ (rw same s) (omega (arith, clock.forward e₁.clock)) popped p kept'
          c in
      rw ran (
        Serves-mono onward (
          subst (λ ts. Serves e₁.clock ts (in_queue e) (pop_next_or_wait env 1 e₁)) kept
            (subst (λ w. Serves e₁.clock e₁.tasks w (pop_next_or_wait env 1 e₁)) same found)))

  after_pop :
      {e : Executor}
      → IsValid e
      → (o : Option ℕ) (e₁ : Executor) → pop_next env e ≡ ok o e₁
      → pop_due (env.tick e.clock) (in_queue e) ≡ (o, in_queue e₁)
      → e₁.tasks ≡ e.tasks
      → e₁.clock ≡ env.tick e.clock
      → Serves e.clock e.tasks (in_queue e) (or_wait env (pop_next_or_wait env 1) o e₁)
  unfolding or_wait
  after_pop {e} v (some h) e₁ popped p kept c = (
    some h,
    e₁,
    refl,
    omega (arith, c, clock.forward e.clock),
    ap (λ now. pop_due now (in_queue e)) c ∙ p,
    some_iff _ h _ p,
    kept,
  )
  after_pop {e} v none e₁ popped p kept c =
      let v₁ = (Safe-ok (pop_next-Safe env v) popped).valid in
      let now = env.tick e.clock in
      let same : in_queue e₁ ≡ in_queue e =
        sym (ap (λ x. x.1) p) ∙ pop_due-none now (in_queue e) (ap (λ x. x.0) p) in
      let parked = Parked-pop_due now (in_queue e) (ap (λ x. x.0) p) in
      let slept = first_sleep e₁ v₁ (soonest none (in_queue e₁)) refl (
        subst (Parked e₁.clock) (sym same) (subst (λ at. Parked at (in_queue e)) (sym c) parked)) in
      rw
        (earliest-soonest e₁.tasks none (drop e₁.queue_head e₁.queue)
          (All-drop (λ k. k < length e₁.tasks) e₁.queue_head e₁.queue v₁.queued))
        (Serves-mono (omega (arith, c, clock.forward e.clock)) (
          subst
            (λ ts.
              Serves e₁.clock ts (in_queue e)
                (retry env (pop_next_or_wait env 1) (soonest none (in_queue e₁)) e₁))
            kept
            (subst
              (λ w.
                Serves e₁.clock e₁.tasks w
                  (retry env (pop_next_or_wait env 1) (soonest none (in_queue e₁)) e₁))
              same slept)))

  -- With this clock and in a valid state a wait always returns within the rounds that it is given;
  -- it returns a task exactly when one is pending in the queue, and that task is the one that the
  -- abstract queue gives at the time that the clock shows at the end. The tasks themselves are not
  -- changed.
  pub pop_next_or_wait-Serves :
      {e : Executor}
      → IsValid e
      → Serves e.clock e.tasks (in_queue e) (pop_next_or_wait env wait_rounds e)
  unfolding pop_next_or_wait or_wait
  pop_next_or_wait-Serves {e} v =
      let (o, e₁, popped, p, kept, c) = pop_next-refines env v in
      rw popped (after_pop v o e₁ popped p kept c)
