-- ===== src/Task/Joinable.antt =====
-- About the checks of `kira_task_await` of runtime_helpers_tasks.inc and the result that it takes.
use kira_zig.Common.{
  ℕ, ◌≡◌, ◌≢◌, refl, ap, true, ◌||◌, Option, none, some, arith, get_elem?, get_elem?-set_self, set,
  Option-cases, inl, inr,
}
use kira_zig.BridgeValue.{BridgeValue}
use kira_zig.Task.{
  Task, Executor, M, Outcome, ok, trap, fault, out_of_fuel, and_then, Trap, Env, is_consumed,
  or_fault,
}
use kira_zig.Task.Api.{spent, join_error, stop_or, check_joinable, collect, await}
use kira_zig.Task.Safety.Store.{get_elem?-lt}

-- A run that ends in `abort()` with the message of a failed join.
pub data Traps {A : Type 0} : Outcome A → Type 0 where
  traps : {t : Trap} → Traps (trap t)

-- A task with nothing to join.
abbrev pub Unjoinable : Task → Type 0
Unjoinable t = (is_consumed t.state || t.detached || t.cancel_requested) ≡ true

join_error-none : (t : Task) → Unjoinable t → join_error t ≢ none
unfolding join_error
join_error-none t u e = ground arith

stop_or-Traps : (o : Option Trap) (h : ℕ) (e : Executor) → o ≢ none → Traps (stop_or o h e)
stop_or-Traps none h e ne = absurd (ne refl)
stop_or-Traps (some r) h e ne = traps

Traps-and_then : {A B : Type 0} {r : Outcome A} (k : A → M B) → Traps r → Traps (and_then r k)
Traps-and_then k traps = traps

check_joinable-Traps :
    (e : Executor) (h : ℕ) (t : Task)
    → get_elem? e.tasks h ≡ some t
    → Unjoinable t
    → Traps (check_joinable (some h) e)
unfolding check_joinable
check_joinable-Traps e h t found u =
    rw found (stop_or-Traps (join_error t) h e (join_error-none t u))

pub and_then-ok :
    {A B : Type 0} (r : Outcome A) (k : A → M B) {b : B} {e' : Executor}
    → and_then r k ≡ ok b e'
    → (a : A) × (e : Executor) × (r ≡ ok a e) × (k a e ≡ ok b e')
and_then-ok (ok a e) k q = (a, e, refl, q)
and_then-ok (trap t) k q = cc
and_then-ok fault k q = cc
and_then-ok out_of_fuel k q = cc

-- Nobody can join a task that was joined, detached or cancelled.
pub await-Traps :
    (env : Env) (fuel : ℕ) (e : Executor) (h : ℕ) (t : Task)
    → get_elem? e.tasks h ≡ some t
    → Unjoinable t
    → Traps (await env fuel (some h) e)
unfolding await
await-Traps env fuel e h t found u = Traps-and_then _ (check_joinable-Traps e h t found u)

pub collect-found :
    (h : ℕ) (e : Executor) (t : Task)
    → get_elem? e.tasks h ≡ some t
    → collect h e ≡ ok t.result (record e { tasks = set e.tasks h (spent t) })
unfolding collect
collect-found h e t found = rw found

collect-lost : (h : ℕ) (e : Executor) → get_elem? e.tasks h ≡ none → collect h e ≡ fault
unfolding collect
collect-lost h e lost = rw lost

pub collect-ok :
    (h : ℕ) (e : Executor) {v : BridgeValue} {e' : Executor}
    → collect h e ≡ ok v e'
    → (t : Task) × (get_elem? e.tasks h ≡ some t)
      × (v ≡ t.result)
      × (e' ≡ record e { tasks = set e.tasks h (spent t) })
collect-ok h e q = elim (Option-cases (get_elem? e.tasks h)) [
  | inl lost ↦ cc (collect-lost h e lost)
  | inr (t, found) ↦
      (t, found, cc (q, collect-found h e t found), cc (q, collect-found h e t found))
]

-- After a write of `t` the task is `t`.
pub get_elem?-stored :
    (e : Executor) (h : ℕ) (t : Task) {t₀ : Task}
    → get_elem? e.tasks h ≡ some t₀
    → get_elem? (set e.tasks h t) h ≡ some t
get_elem?-stored e h t found = get_elem?-set_self e.tasks h t (get_elem?-lt e.tasks h found)

pub stop_or-ok :
    (o : Option Trap) (h : ℕ) (e : Executor) {k : ℕ} {e' : Executor}
    → stop_or o h e ≡ ok k e'
    → h ≡ k
stop_or-ok none h e q = cc
stop_or-ok (some r) h e q = cc

pub check_joinable-ok :
    (o : Option ℕ) (e : Executor) {h : ℕ} {e' : Executor}
    → check_joinable o e ≡ ok h e'
    → o ≡ some h
unfolding check_joinable
check_joinable-ok none e q = cc
check_joinable-ok (some h) e q =
    let (t, e₁, _, stopped) = and_then-ok (or_fault (get_elem? e.tasks h) e) _ q in
    ap some (stop_or-ok (join_error t) h e₁ stopped)
