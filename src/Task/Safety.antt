-- ===== src/Task/Safety.antt =====
-- The invariant of the executor, and what a callback may rely on: the vocabulary of the safety
-- proofs in the children.
pub mod Store
pub mod Scan
pub mod Pop
pub mod Steps
pub mod Drive
pub mod Spawn
pub mod Ops
pub mod Join
pub mod Calls
use mathlib.Core.Path.{subst}
pub use kira_zig.Common.{Lacks, Distinct}
use kira_zig.Common.{
  ℕ, zero, suc, ◌+◌, ◌≤◌, ◌<◌, ◌≡◌, ◌≢◌, refl, ap, Bool, true, false, not, ◌&&◌, ◌||◌, Option, none,
  some, List, [], ◌∷◌, ◌++◌, arith, leb, if◌then◌else◌, length, length-set, get_elem?, set, All, ℤ,
}
use kira_zig.BridgeValue.{BridgeValue, is_void}
use kira_zig.Task.{
  Task, Executor, Outcome, ok, trap, fault, out_of_fuel, Trap, M, and_then, Env, is_pending,
  is_complete_state,
}

abbrev pub is_none {ℓ} : {A : Type ℓ} → Option A → Bool
is_none none = true
is_none (some _) = false

-- A frame has the resume state and the result.
abbrev pub has_slots : Option (List BridgeValue) → Bool
has_slots none = false
has_slots (some slots) = leb 2 (length slots)

-- A task that is not pending owns no memory; a pending body has its frame; a complete task is not
-- detached, and no other task holds a result. The argument block of a pending thunk is live: it is
-- freed, and its pointer reset, only when the task is settled.
pub record IsTask (t : Task) : Type 0 where
  pub freed : (is_pending t.state || (is_none t.ctx && is_none t.frame)) ≡ true
  pub framed :
      (not (is_pending t.state) || (if is_none t.body then is_none t.frame else has_slots t.frame))
      ≡ true
  pub bare : (is_none t.body || is_none t.ctx) ≡ true
  pub joinable : (not (is_complete_state t.state) || not t.detached) ≡ true
  pub blank : (is_complete_state t.state || is_void t.result) ≡ true
  pub argued : (not (is_pending t.state) || is_none t.work || not (is_none t.ctx)) ≡ true

abbrev pub Below : ℕ → List ℕ → Type 0
Below n = All (λ h. h < n)

abbrev pub InRange : ℕ → Option ℕ → Type 0
InRange n none = Unit
InRange n (some h) = h < n

-- The arrays hold valid handles, none twice, within their capacity.
pub record IsValid (e : Executor) : Type 0 where
  pub tasks : All IsTask e.tasks
  pub current : InRange (length e.tasks) e.current
  pub queued : Below (length e.tasks) e.queue
  pub distinct : Distinct e.queue
  pub queue_fits : length e.queue ≤ e.queue_cap
  pub head_fits : e.queue_head ≤ length e.queue
  pub registered : Below (length e.tasks) e.registry
  pub registered_once : Distinct e.registry
  pub registry_fits : length e.registry ≤ e.registry_cap

-- `k` is pending and out of the queue: some drive owns it.
pub record Held (e : Executor) (k : ℕ) (body : Option ℕ) (frame : Option (List BridgeValue))
    : Type 0 where
  pub task : Task
  pub found : get_elem? e.tasks k ≡ some task
  pub pending : is_pending task.state ≡ true
  pub same_body : task.body ≡ body
  pub same_frame : task.frame ≡ frame
  pub apart : Lacks k e.queue

-- What every operation guarantees, and may rely on when it calls back: the invariant holds, no task
-- disappears, and the tasks that are being driven are left to their drives.
pub record Good (e e' : Executor) : Type 0 where
  pub valid : IsValid e'
  pub grows : length e.tasks ≤ length e'.tasks
  pub held :
      (k : ℕ) (body : Option ℕ) (frame : Option (List BridgeValue))
      → Held e k body frame
      → Held e' k body frame

-- The same for a drive of the task `h`.
pub record GoodBut (h : ℕ) (e e' : Executor) : Type 0 where
  pub valid : IsValid e'
  pub grows : length e.tasks ≤ length e'.tasks
  pub held :
      (k : ℕ) (body : Option ℕ) (frame : Option (List BridgeValue))
      → k ≢ h
      → Held e k body frame
      → Held e' k body frame

-- No fault, and a postcondition if the run returns.
pub data Safe {A : Type 0} (P : A → Executor → Type 0) : Outcome A → Type 0 where
  safe : {a : A} {e : Executor} → P a e → Safe P (ok a e)
  trapped : {t : Trap} → Safe P (trap t)
  starved : Safe P out_of_fuel

-- The callbacks behave as code that only calls the operations of the executor, and a body keeps
-- the size of its frame. Nothing is known of a thunk that gets no argument block, or of a body that
-- gets no frame.
pub record IsTame (env : Env) : Type 0 where
  pub work :
      (w c : ℕ) (e : Executor) → IsValid e → Safe (λ v e'. Good e e') (env.run_work w (some c) e)
  pub body :
      (b : ℕ) (slots : List BridgeValue) (e : Executor)
      → IsValid e
      → Safe (λ r e'. Good e e' × (length (r.1) ≡ length slots)) (env.run_body b (some slots) e)

module _ {A B : Type 0} {P : A → Executor → Type 0} where
  pub bind :
      {Q : B → Executor → Type 0} {r : Outcome A} {k : A → M B}
      → Safe P r
      → ((a : A) (e : Executor) → P a e → Safe Q (k a e))
      → Safe Q (and_then r k)
  bind (safe p) next = next _ _ p
  bind trapped next = trapped
  bind starved next = starved

module _ {A : Type 0} {P Q : A → Executor → Type 0} where
  pub mono : {r : Outcome A} → Safe P r → ((a : A) (e : Executor) → P a e → Q a e) → Safe Q r
  mono (safe p) weaken = safe (weaken _ _ p)
  mono trapped weaken = trapped
  mono starved weaken = starved

-- What a safe outcome says, by cases.
abbrev pub Holds : {A : Type 0} → (A → Executor → Type 0) → Outcome A → Type 0
Holds P (ok a e) = P a e
Holds P (trap t) = Unit
Holds P fault = ⊥
Holds P out_of_fuel = Unit

module _ {A : Type 0} {P : A → Executor → Type 0} where
  Safe-Holds : {r : Outcome A} → Safe P r → Holds P r
  Safe-Holds (safe p) = p
  Safe-Holds trapped = tt
  Safe-Holds starved = tt

  pub Safe-ok : {r : Outcome A} {a : A} {e : Executor} → Safe P r → r ≡ ok a e → P a e
  Safe-ok s e = subst (Holds P) e (Safe-Holds s)

  pub Safe-ne-fault : {r : Outcome A} → Safe P r → r ≢ fault
  Safe-ne-fault s e = subst (Holds P) e (Safe-Holds s)

pub Good-refl : {e : Executor} → IsValid e → Good e e
Good-refl v = record { valid = v; grows = omega arith; held = λ k b f held. held }

pub Good-trans : {e e' e'' : Executor} → Good e e' → Good e' e'' → Good e e''
Good-trans {e} {e'} {e''} g g' = record {
  valid = g'.valid;
  grows = omega (arith, g.grows, g'.grows);
  held = λ k b f held. g'.held k b f (g.held k b f held);
}

-- A drive of a task that nobody held before is an ordinary step.
pub Good-drive :
    {h : ℕ} {e e' e'' : Executor}
    → ((body : Option ℕ) (frame : Option (List BridgeValue)) → ¬ Held e h body frame)
    → Good e e'
    → GoodBut h e' e''
    → Good e e''
Good-drive {h} {e} {e'} {e''} free g d = record {
  valid = d.valid;
  grows = omega (arith, g.grows, d.grows);
  held = λ k b f held.
      d.held k b f (λ same. free b f (subst (λ i. Held e i b f) same held)) (g.held k b f held);
}

pub GoodBut-of_Good : {h : ℕ} {e e' : Executor} → Good e e' → GoodBut h e e'
GoodBut-of_Good {h} {e} {e'} g = record {
  valid = g.valid;
  grows = g.grows;
  held = λ k b f _ held. g.held k b f held;
}

pub GoodBut-trans :
    {h : ℕ} {e e' e'' : Executor} → GoodBut h e e' → GoodBut h e' e'' → GoodBut h e e''
GoodBut-trans {h} {e} {e'} {e''} g g' = record {
  valid = g'.valid;
  grows = omega (arith, g.grows, g'.grows);
  held = λ k b f ne held. g'.held k b f ne (g.held k b f ne held);
}
