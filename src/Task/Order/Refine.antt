-- ===== src/Task/Order/Refine.antt =====
-- About `kira_task_pop_next` of runtime_helpers_tasks.inc, against the abstract queue.
use mathlib.Core.Path.{subst}
use kira_zig.Common.{
  ℕ, ◌+◌, ◌≤◌, ◌<◌, ◌≡◌, ◌≢◌, refl, Option, none, some, List, [], ◌∷◌, ltb, arith, length,
  get_elem?-some, drop, Bool-cases, inl, inr,
}
use kira_zig.Task.{Task, Executor, is_pending, ok, Env, or_fault, ◌>>=◌}
use kira_zig.Task.Queue.{scan_due, earliest, sooner, take_out, now_ns, pop_next}
use kira_zig.Task.Order.{Entry, waiting, in_queue, pop_due}
use kira_zig.Task.Order.Scan.{Finds, Parked, scan_due-Finds, waiting-settled, waiting-pending}
use kira_zig.Task.Safety.{IsValid, Below}
use kira_zig.Task.Safety.Pop.{All-drop}

take_out-refines :
    (e : Executor) (now : ℕ) (r : Option (ℕ × Option (ℕ × ℕ)))
    → Finds e.tasks e.queue now (in_queue e) r
    → (o : Option ℕ) × (e' : Executor) × ((or_fault r >>= take_out) e ≡ ok o e')
      × (pop_due now (in_queue e) ≡ (o, in_queue e'))
      × (e'.tasks ≡ e.tasks)
      × (e'.clock ≡ e.clock)
unfolding take_out
take_out-refines e now none f = absurd f
take_out-refines e now (some (head, none)) f =
    (none, record e { queue_head = head }, refl, f, refl, refl)
take_out-refines e now (some (head, some (index, h))) f = (some h, _, refl, f, refl, refl)

-- A pop reads the clock once and always returns. What it returns and what then waits are those of
-- the abstract queue: the first pending task in queue order whose wake deadline has passed, and the
-- other pending tasks in their order; no task and the same queue if none is due. The tasks
-- themselves are not changed.
pub pop_next-refines :
    (env : Env) {e : Executor}
    → IsValid e
    → (o : Option ℕ) × (e' : Executor) × (pop_next env e ≡ ok o e')
      × (pop_due (env.tick e.clock) (in_queue e) ≡ (o, in_queue e'))
      × (e'.tasks ≡ e.tasks)
      × (e'.clock ≡ env.tick e.clock)
unfolding pop_next now_ns
pop_next-refines env {e} v =
    let now = env.tick e.clock in
    let rest = drop e.queue_head e.queue in
    take_out-refines (record e { clock = now }) now
      (scan_due e.tasks now e.queue_head e.queue_head rest)
      (scan_due-Finds e.tasks e.queue now rest [] e.queue_head e.queue_head refl (omega arith)
        (unfold waiting in tt) (All-drop (λ k. k < length e.tasks) e.queue_head e.queue v.queued))

-- The earliest deadline of the abstract queue.
pub soonest : Option ℕ → List Entry → Option ℕ
soonest best [] = best
soonest best ((h, w) ∷ r) = soonest (sooner best w) r

pub earliest-soonest :
    (ts : List Task) (best : Option ℕ) (q : List ℕ)
    → Below (length ts) q
    → earliest ts best q ≡ some (soonest best (waiting ts q))
unfolding earliest waiting soonest
earliest-soonest ts best [] below = refl
earliest-soonest ts best (h ∷ q) below =
    let (t, found) = get_elem?-some ts h below.0 in
    elim (Bool-cases (is_pending t.state)) [
      | inl p ↦
          rw (waiting-pending ts h found q p, found, earliest, p)
            (earliest-soonest ts (sooner best t.wake_at_ns) q below.1)
      | inr p ↦
          rw (waiting-settled ts h found q p, found, earliest, p)
            (earliest-soonest ts best q below.1)
    ]

pub Parked-pop_due : (now : ℕ) (w : List Entry) → (pop_due now w).0 ≡ none → Parked now w
unfolding pop_due
Parked-pop_due now [] e = tt
Parked-pop_due now ((h, w) ∷ r) e = ground (arith, Parked-pop_due now r)

abbrev pub Later : ℕ → Option ℕ → Type 0
Later now none = Unit
Later now (some b) = now < b

Later-sooner :
    (now : ℕ) (best : Option ℕ) (w : ℕ) → Later now best → now < w → Later now (sooner best w)
Later-sooner now none w l lt = lt
Later-sooner now (some b) w l lt = ground arith

-- While all entries are parked, so is the earliest.
pub soonest-Later :
    (now : ℕ) (best : Option ℕ) (w : List Entry)
    → Later now best
    → Parked now w
    → Later now (soonest best w)
unfolding soonest
soonest-Later now best [] l parked = l
soonest-Later now best ((h, x) ∷ r) l (lt, parked) =
    soonest-Later now (sooner best x) r (Later-sooner now best x l lt) parked

sooner-some : (best : Option ℕ) (w : ℕ) → (b : ℕ) × (sooner best w ≡ some b)
sooner-some none w = (w, refl)
sooner-some (some b) w = elim (Bool-cases (ltb w b)) [
  | inl lt ↦ (w, rw (lt, sooner))
  | inr ge ↦ (b, rw (ge, sooner))
]

soonest-some : (b : ℕ) (w : List Entry) → soonest (some b) w ≢ none
unfolding soonest
soonest-some b [] e = cc
soonest-some b ((h, x) ∷ r) e =
    let (c, q) = sooner-some (some b) x in soonest-some c r (subst (λ o. soonest o r ≡ none) q e)

-- Without a deadline nothing waits.
pub nil-soonest : (w : List Entry) → soonest none w ≡ none → w ≡ []
unfolding soonest
nil-soonest [] e = refl
nil-soonest ((h, x) ∷ r) e = absurd (soonest-some x r e)

-- The clock of the environment runs forward, and a sleep lasts as long as it is asked to.
pub record IsClock (env : Env) : Type 0 where
  pub forward : (t : ℕ) → t ≤ env.tick t
  pub full_sleep : (t ns : ℕ) → t + ns ≤ env.after t ns
