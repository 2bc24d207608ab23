-- ===== src/NativeState/Lock/Invariant.antt =====
-- About the lock of the registry: what holds between two steps of the threads.
use mathlib.Core.Path.{subst}
use kira_zig.Common.{
  ℕ, suc, ◌≡◌, ◌≢◌, refl, sym, ap, ◌∙◌, inl, inr, Bool, true, false, none, some, List, [], ◌∷◌,
  ◌==◌, if◌then◌else◌, arith, Bool-cases,
}
use kira_zig.NativeState.{remove_node}
use kira_zig.NativeState.Lock.{
  Event, added, removed, Shared, Pc, idle, adding, entered, registered, linked, removing, searching,
  found, leaving, Move, add, add_acquire, register, link, publish, remove, remove_acquire,
  search_node, unlink, unlock, System, at_pc, initial, Scheduled, start, later,
}

-- Between the lock and the unlock.
abbrev pub critical : Pc → Bool
critical idle = false
critical (adding h) = false
critical (removing h) = false
critical _ = true

-- What the locals of a thread say about the shared memory.
abbrev IsFresh : Shared → Pc → Type 0
IsFresh m idle = Unit
IsFresh m (adding h) = Unit
IsFresh m (removing h) = Unit
IsFresh m (entered h) = Unit
IsFresh m (registered h) = m.teardown_registered ≡ true
IsFresh m (linked h next) = (m.teardown_registered ≡ true) × (next ≡ m.registry)
IsFresh m (searching h) = Unit
IsFresh m (found h nodes) = nodes ≡ m.registry
IsFresh m leaving = Unit

-- The list that the changes make, the last one first in the list of events.
unfoldable pub replay : List Event → List ℕ
replay [] = []
replay (added h ∷ events) = h ∷ replay events
replay (removed h ∷ events) = remove_node h (replay events)

abbrev pub has_added : List Event → Bool
has_added [] = false
has_added (added h ∷ events) = true
has_added (removed h ∷ events) = has_added events

pub record IsValid (s : System) : Type 0 where
  pub owned : (i : ℕ) → critical (s.pc i) ≡ true → s.mem.owner ≡ some i
  pub fresh : (i : ℕ) → IsFresh s.mem (s.pc i)
  pub replayed : s.mem.registry ≡ replay s.mem.history
  pub once : s.mem.atexit_calls ≡ (if s.mem.teardown_registered then 1 else 0)
  pub armed : has_added s.mem.history ≡ true → s.mem.teardown_registered ≡ true

initial-IsValid : IsValid initial
unfolding replay
initial-IsValid = record {
  owned = λ i e. cc;
  fresh = λ i. tt;
  replayed = refl;
  once = refl;
  armed = λ e. cc;
}

-- A thread outside of the critical section says nothing of the shared memory.
IsFresh-idle : (p : Pc) (m m' : Shared) → critical p ≡ false → IsFresh m p → IsFresh m' p
IsFresh-idle idle m m' e f = tt
IsFresh-idle (adding h) m m' e f = tt
IsFresh-idle (removing h) m m' e f = tt
IsFresh-idle (entered h) m m' e f = tt
IsFresh-idle (registered h) m m' e f = cc
IsFresh-idle (linked h next) m m' e f = cc
IsFresh-idle (searching h) m m' e f = tt
IsFresh-idle (found h nodes) m m' e f = cc
IsFresh-idle leaving m m' e f = tt

first_call :
    (m : Shared)
    → m.atexit_calls ≡ (if m.teardown_registered then 1 else 0)
    → (if m.teardown_registered then m.atexit_calls else suc m.atexit_calls) ≡ 1
first_call m e = ground arith

module _ (s : System) (v : IsValid s) (i : ℕ) where
  -- The other threads, where the memory is `m` now.
  abbrev Others : Shared → Type 0
  Others m = (j : ℕ) → j ≢ i → (critical (s.pc j) ≡ true → m.owner ≡ some j) × IsFresh m (s.pc j)

  -- With no other thread in the critical section the memory may change.
  alone : (m : Shared) → ((j : ℕ) → j ≢ i → critical (s.pc j) ≡ false) → Others m
  alone m none_inside j ne = (
    (λ e. cc (e, none_inside j ne)),
    IsFresh-idle (s.pc j) s.mem m (none_inside j ne) (v.fresh j),
  )

  unowned : s.mem.owner ≡ none → (j : ℕ) → j ≢ i → critical (s.pc j) ≡ false
  unowned free j ne = elim (Bool-cases (critical (s.pc j))) [
    | inl inside ↦ cc (free, v.owned j inside)
    | inr outside ↦ outside
  ]

  excluded : critical (s.pc i) ≡ true → (j : ℕ) → j ≢ i → critical (s.pc j) ≡ false
  excluded mine j ne = elim (Bool-cases (critical (s.pc j))) [
    | inl inside ↦ absurd (ne (cc (v.owned i mine, v.owned j inside)))
    | inr outside ↦ outside
  ]

  stepped :
      (m : Shared) (p : Pc)
      → Others m
      → (critical p ≡ true → m.owner ≡ some i)
      → IsFresh m p
      → m.registry ≡ replay m.history
      → m.atexit_calls ≡ (if m.teardown_registered then 1 else 0)
      → (has_added m.history ≡ true → m.teardown_registered ≡ true)
      → IsValid (record { mem = m; pc = at_pc i p s.pc })
  stepped m p others own fresh replayed once armed = record {
    owned = λ j. elim (Bool-cases (j == i)) [
      | inl same ↦
          let e : j ≡ i = ground arith in
          subst (λ b. critical (if b then p else s.pc j) ≡ true → m.owner ≡ some j) (sym same)
            (λ inside. own inside ∙ ap some (sym e))
      | inr other ↦
          subst (λ b. critical (if b then p else s.pc j) ≡ true → m.owner ≡ some j) (sym other)
            ((others j (ground arith)).0)
    ];
    fresh = λ j. elim (Bool-cases (j == i)) [
      | inl same ↦ subst (λ b. IsFresh m (if b then p else s.pc j)) (sym same) fresh
      | inr other ↦
          subst (λ b. IsFresh m (if b then p else s.pc j)) (sym other) ((others j (ground arith)).1)
    ];
    replayed = replayed;
    once = once;
    armed = armed;
  }

  quiet : Others s.mem
  quiet j ne = (v.owned j, v.fresh j)

  Move-IsValid :
      (p : Pc) (m : Shared) (p' : Pc)
      → s.pc i ≡ p
      → Move i s.mem p m p'
      → IsValid (record { mem = m; pc = at_pc i p' s.pc })
  unfolding replay
  Move-IsValid p m p' at (add h) =
      stepped s.mem (adding h) quiet (λ e. cc) tt v.replayed v.once v.armed
  Move-IsValid p m p' at (remove h) =
      stepped s.mem (removing h) quiet (λ e. cc) tt v.replayed v.once v.armed
  Move-IsValid p m p' at (add_acquire {h} free) =
      stepped (record s.mem { owner = some i }) (entered h) (alone m (unowned free)) (λ e. refl) tt
        v.replayed v.once v.armed
  Move-IsValid p m p' at (remove_acquire {h} free) =
      stepped (record s.mem { owner = some i }) (searching h) (alone m (unowned free)) (λ e. refl)
        tt v.replayed v.once v.armed
  Move-IsValid p m p' at (register {h}) =
      let inside : critical (s.pc i) ≡ true = ap critical at in
      stepped m (registered h) (alone m (excluded inside)) (λ e. v.owned i inside) refl v.replayed
        (first_call s.mem v.once) (λ e. refl)
  Move-IsValid p m p' at (link {h}) =
      let inside : critical (s.pc i) ≡ true = ap critical at in
      let fresh = subst (IsFresh s.mem) at (v.fresh i) in
      stepped s.mem (linked h s.mem.registry) quiet (λ e. v.owned i inside) (fresh, refl) v.replayed
        v.once v.armed
  Move-IsValid p m p' at (publish {h} {next}) =
      let inside : critical (s.pc i) ≡ true = ap critical at in
      let (armed, same) = subst (IsFresh s.mem) at (v.fresh i) in
      stepped m leaving (alone m (excluded inside)) (λ e. v.owned i inside) tt
        (ap (λ q. h ∷ q) (same ∙ v.replayed)) v.once (λ e. armed)
  Move-IsValid p m p' at (search_node {h}) =
      let inside : critical (s.pc i) ≡ true = ap critical at in
      stepped s.mem (found h s.mem.registry) quiet (λ e. v.owned i inside) refl v.replayed v.once
        v.armed
  Move-IsValid p m p' at (unlink {h} {nodes}) =
      let inside : critical (s.pc i) ≡ true = ap critical at in
      let same = subst (IsFresh s.mem) at (v.fresh i) in
      stepped m leaving (alone m (excluded inside)) (λ e. v.owned i inside) tt
        (ap (remove_node h) (same ∙ v.replayed)) v.once v.armed
  Move-IsValid p m p' at unlock =
      let inside : critical (s.pc i) ≡ true = ap critical at in
      stepped m idle (alone m (excluded inside)) (λ e. cc) tt v.replayed v.once v.armed

pub Scheduled-IsValid : {s : System} → Scheduled s → IsValid s
Scheduled-IsValid start = initial-IsValid
Scheduled-IsValid (later {s} reach i {m} {p} move) =
    Move-IsValid s (Scheduled-IsValid reach) i (s.pc i) m p refl move
