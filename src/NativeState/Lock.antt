-- ===== src/NativeState/Lock.antt =====
-- The lock of the registry in runtime_helpers_native_state.inc: threads that add and remove tokens, one
-- access to the shared memory at a time.
pub mod Invariant
pub mod Order
use kira_zig.Common.{
  ℕ, suc, ◌≡◌, Bool, true, false, Option, none, some, List, [], ◌∷◌, ◌==◌, if◌then◌else◌,
}
use kira_zig.NativeState.{World, M, ok, ◌>>◌, registry_add, registry_remove, remove_node}

-- What a thread changed under the lock.
pub data Event : Type 0 where
  added : (token : ℕ) → Event
  removed : (token : ℕ) → Event

-- The thread that holds the lock, `teardown_registered`, the list from the head pointer on, and how often `atexit` was called. `history` holds the
-- changes of the list, the last one first; the code does not have it.
pub record Shared : Type 0 where
  pub owner : Option ℕ
  pub teardown_registered : Bool
  pub registry : List ℕ
  pub atexit_calls : ℕ
  pub history : List Event

-- Where a thread stands, with the locals that are live there.
pub data Pc : Type 0 where
  idle : Pc
  adding : (token : ℕ) → Pc  -- before the lock, with a node
  entered : (token : ℕ) → Pc  -- before the test of `teardown_registered`
  registered : (token : ℕ) → Pc  -- before `node->next = …`
  linked : (token : ℕ) → (next : List ℕ) → Pc  -- before the node becomes the head
  removing : (token : ℕ) → Pc  -- before the lock
  searching : (token : ℕ) → Pc  -- before the loop
  found : (token : ℕ) → (nodes : List ℕ) → Pc  -- before the link is written
  leaving : Pc  -- before the unlock

-- One step of thread `i`. A node that was not granted is never added.
pub data Move (i : ℕ) (s : Shared) : Pc → Shared → Pc → Type 0 where
  add : (h : ℕ) → Move i s idle s (adding h)
  add_acquire :
      {h : ℕ} → s.owner ≡ none → Move i s (adding h) (record s { owner = some i }) (entered h)
  register :
      {h : ℕ}
      → Move i s
          (entered h)
          (record s {
            teardown_registered = true;
            atexit_calls = if s.teardown_registered then s.atexit_calls else suc s.atexit_calls;
          })
          (registered h)
  link : {h : ℕ} → Move i s (registered h) s (linked h s.registry)
  publish :
      {h : ℕ} {next : List ℕ}
      → Move i s
          (linked h next)
          (record s { registry = h ∷ next; history = added h ∷ s.history })
          leaving
  remove : (h : ℕ) → Move i s idle s (removing h)
  remove_acquire :
      {h : ℕ} → s.owner ≡ none → Move i s (removing h) (record s { owner = some i }) (searching h)
  search_node : {h : ℕ} → Move i s (searching h) s (found h s.registry)
  unlink :
      {h : ℕ} {nodes : List ℕ}
      → Move i s
          (found h nodes)
          (record s { registry = remove_node h nodes; history = removed h ∷ s.history })
          leaving
  unlock : Move i s leaving (record s { owner = none }) idle

pub record System : Type 0 where
  pub mem : Shared
  pub pc : ℕ → Pc

abbrev pub at_pc : ℕ → Pc → (ℕ → Pc) → ℕ → Pc
at_pc i p pc j = if j == i then p else pc j

abbrev pub initial : System
initial = record {
  mem = record {
    owner = none;
    teardown_registered = false;
    registry = [];
    atexit_calls = 0;
    history = [];
  };
  pc = λ i. idle;
}

-- The states that the threads reach, in any order of their steps.
pub data Scheduled : System → Type 0 where
  start : Scheduled initial
  later :
      {s : System}
      → Scheduled s
      → (i : ℕ) {m : Shared} {p : Pc} → Move i s.mem (s.pc i) m p
      → Scheduled (record { mem = m; pc = at_pc i p s.pc })

-- The operations of the sequential model, one after another, the last event of the list first.
unfoldable pub sequential : List Event → M (Unit {0})
unfolding registry_add registry_remove
sequential [] = λ w. ok tt w
sequential (added h ∷ events) = sequential events >> registry_add true h
sequential (removed h ∷ events) = sequential events >> registry_remove h
