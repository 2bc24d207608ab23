-- ===== src/NativeState/Lock/Order.antt =====
-- About the lock of the registry: the threads act like the operations one after another.
use kira_zig.Common.{
  ℕ, ◌≡◌, refl, sym, ap, ◌∙◌, Bool, true, false, not, ◌&&◌, ◌==◌, List, [], ◌∷◌, if◌then◌else◌,
  arith,
}
use kira_zig.NativeState.{World, ok, and_then, registry_add, registry_remove}
use kira_zig.NativeState.Lock.{Event, added, removed, System, Scheduled, sequential}
use kira_zig.NativeState.Lock.Invariant.{critical, replay, has_added, Scheduled-IsValid}

sequential-replay :
    (events : List Event) (w : World)
    → w.registry ≡ []
    → sequential events w ≡ ok tt (record w { registry = replay events })
unfolding sequential replay registry_add registry_remove
sequential-replay [] w e = ap (λ q. ok tt (record w { registry = q })) e
sequential-replay (added h ∷ events) w e =
    ap (λ o. and_then o (λ _. registry_add true h)) (sequential-replay events w e)
sequential-replay (removed h ∷ events) w e =
    ap (λ o. and_then o (λ _. registry_remove h)) (sequential-replay events w e)

armed_lem : (a r : Bool) → (a ≡ true → r ≡ true) → (a && not r) ≡ false
armed_lem true r armed = ap not (armed refl)
armed_lem false r armed = refl

exclusive_lem :
    (a b : Bool) (i j : ℕ) → (a ≡ true → b ≡ true → i ≡ j) → (a && b && not (i == j)) ≡ false
exclusive_lem true true i j same = let e = same refl refl in ground arith
exclusive_lem true false i j same = refl
exclusive_lem false b i j same = refl

-- In every state that threads reach, in any order of their steps, the registry is what the sequential
-- operations make of an empty one, run one after another in the order in which the changes were made under the
-- lock. No two threads are between the lock and the unlock. The teardown was passed to `atexit` once if
-- `teardown_registered` is set, which it is if a token was added, and otherwise not at all.
pub sequential-Scheduled :
    (s : System) (w : World) (i j : ℕ)
    → Scheduled s
    → w.registry ≡ []
    → (sequential s.mem.history w ≡ ok tt (record w { registry = s.mem.registry }))
      × ((critical (s.pc i) && critical (s.pc j) && not (i == j)) ≡ false)
      × (s.mem.atexit_calls ≡ (if s.mem.teardown_registered then 1 else 0))
      × ((has_added s.mem.history && not s.mem.teardown_registered) ≡ false)
sequential-Scheduled s w i j reach empty =
    let v = Scheduled-IsValid reach in
    (
      sequential-replay s.mem.history w empty
          ∙ ap (λ q. ok tt (record w { registry = q })) (sym v.replayed),
      exclusive_lem (critical (s.pc i)) (critical (s.pc j)) i j
          (λ first second. cc (v.owned i first, v.owned j second)),
      v.once,
      armed_lem (has_added s.mem.history) s.mem.teardown_registered v.armed,
    )
