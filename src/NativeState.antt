-- ===== src/NativeState.antt =====
-- packages/kira_native_bridge/src/runtime_helpers_native_state.inc: the tokens of native state and
-- their registry. A token is the index of its `KiraNativeState` among those ever allocated; the lock
-- around the registry is left out, since each operation is one step here.
pub mod Safety
pub mod Reach
pub mod Lock
pub mod Struct
pub mod Hybrid
mod Tests
use kira_zig.Common.{
  ℕ, zero, suc, ◌≡◌, ℤ, pos, negsuc, Bool, true, false, not, ◌&&◌, Option, none, some, List, [],
  ◌∷◌, ◌++◌, ◌==◌, if◌then◌else◌, length, get_elem?, set,
}

-- The payload is its size, `none` for NULL. `runtime_payload` belongs to the VM and stays NULL.
pub record Token : Type 0 where
  pub type_id : ℕ
  pub payload : Option ℕ

-- `none` is a token that was freed. The registry is the list of its nodes' tokens, the newest first.
pub record World : Type 0 where
  pub tokens : List (Option Token)
  pub registry : List ℕ

-- `trap` is `abort()`, `fault` an access to a freed token.
pub data Outcome (A : Type 0) : Type 0 where
  ok : A → World → Outcome A
  trap : Outcome A
  fault : Outcome A

abbrev pub M : Type 0 → Type 0
M A = World → Outcome A

abbrev pub and_then : {A B : Type 0} → Outcome A → (A → M B) → Outcome B
and_then (ok a w) k = k a w
and_then trap k = trap
and_then fault k = fault

infixl 5 ◌>>=◌ ◌>>◌
abbrev pub ◌>>=◌ : {A B : Type 0} → M A → (A → M B) → M B
◌>>=◌ m k w = and_then (m w) k

abbrev pub ◌>>◌ : {B : Type 0} → M (Unit {0}) → M B → M B
m >> k = m >>= λ _. k

-- Which of the allocations of one call succeed.
pub record Grants : Type 0 where
  pub state : Bool
  pub payload : Bool
  pub node : Bool

abbrev pub live_or_fault : Option (Option Token) → M Token
live_or_fault none w = fault
live_or_fault (some none) w = fault
live_or_fault (some (some t)) w = ok t w

abbrev pub load : ℕ → M Token
load h w = live_or_fault (get_elem? w.tokens h) w

abbrev pub payload_of : ℕ → Option ℕ
payload_of n = if n == 0 then none else some n

unfoldable pub registry_add : Bool → ℕ → M (Unit {0})
registry_add granted h w =
    if granted then ok tt (record w { registry = h ∷ w.registry }) else ok tt w

unfoldable pub remove_node : ℕ → List ℕ → List ℕ
remove_node h [] = []
remove_node h (k ∷ q) = if k == h then q else k ∷ remove_node h q

unfoldable pub registry_remove : ℕ → M (Unit {0})
unfolding remove_node
registry_remove h w = ok tt (record w { registry = remove_node h w.registry })

abbrev pub with_token : Token → World → World
with_token t w = record w { tokens = w.tokens ++ some t ∷ [] }

unfoldable pub state_alloc : Grants → (type_id : ℕ) → (payload_size : ℤ) → M (Option ℕ)
unfolding registry_add
state_alloc g type_id (negsuc _) w = ok none w
state_alloc g type_id (pos n) w =
    if not g.state
    then ok none w
    else if not (n == 0) && not g.payload
    then ok none w
    else and_then
        (registry_add g.node (length w.tokens)
          (with_token (record { type_id = type_id; payload = payload_of n }) w))
        (λ _ w'. ok (some (length w.tokens)) w')

unfoldable pub state_payload : Option ℕ → M (Option ℕ)
state_payload none w = ok none w
state_payload (some h) w = and_then (load h w) (λ t w. ok t.payload w)

unfoldable pub recover : (user_data : Option ℕ) → (expected_type_id : ℕ) → M (Option ℕ)
recover none expected w = trap
recover (some h) expected w =
    and_then (load h w) (λ t w. if t.type_id == expected then ok t.payload w else trap)

-- The installed release hook; `none` while it is NULL.
module _ (interior : Option (ℕ → M (Unit {0}))) where
  abbrev pub release_interior : ℕ → M (Unit {0})
  release_interior h w = elim interior [ none ↦ ok tt w | some f ↦ f h w ]

  unfoldable pub dispose : ℕ → M (Unit {0})
  dispose h =
      release_interior h >> (load h >>= λ t w. ok tt (record w { tokens = set w.tokens h none }))

  unfoldable pub state_free : Option ℕ → M (Unit {0})
  unfolding registry_remove dispose
  state_free none w = ok tt w
  state_free (some h) w = and_then (registry_remove h w) (λ _. dispose h)

  unfoldable pub dispose_all : List ℕ → M (Unit {0})
  unfolding dispose
  dispose_all [] w = ok tt w
  dispose_all (h ∷ q) w = and_then (dispose h w) (λ _. dispose_all q)

  unfoldable pub registry_teardown : M (Unit {0})
  unfolding dispose_all
  registry_teardown w = dispose_all w.registry (record w { registry = [] })
