-- ===== src/Memory.antt =====
-- The C heap of the native bridge and the allocator hooks of
-- packages/kira_native_bridge/src/runtime_helpers.c.
pub mod Laws
use kira_zig.Common.{
  ℕ, ◌*◌, ◌/◌, ◌%◌, ◌^◌, Bool, true, false, not, ◌&&◌, ◌||◌, Option, none, some, List, ◌==◌, ltb,
  if◌then◌else◌, replicate, length, Bytes,
}
use kira_zig.BridgeValue.{BridgeValue, void}

-- `items` is an address, 0 for NULL.
pub record KiraArray : Type 0 where
  pub len : ℕ
  pub items : ℕ
  pub cap : ℕ

pub data Body : Type 0 where
  header : KiraArray → Body
  cells : List BridgeValue → Body
  bytes : Bytes → Body

-- An allocation: the size that was asked for, and what is stored in it.
pub record Chunk : Type 0 where
  pub size : ℕ
  pub body : Body

abbrev pub Heap : Type 0
Heap = ℕ → Option Chunk

-- `trap` is a call of `abort()`. `fault` is what C leaves undefined: an access or a free at an address
-- where no such allocation starts, an access beyond its end, or a free of the wrong size.
pub data Outcome (A : Type 0) : Type 0 where
  ok : A → Heap → Outcome A
  trap : Outcome A
  fault : Outcome A

abbrev pub M : Type 0 → Type 0
M A = Heap → Outcome A

abbrev pub pure : {A : Type 0} → A → M A
pure a h = ok a h

abbrev pub and_then : {A B : Type 0} → Outcome A → (A → M B) → Outcome B
and_then (ok a h) k = k a h
and_then trap k = trap
and_then fault k = fault

infixl 5 ◌>>=◌ ◌>>◌
abbrev pub ◌>>=◌ : {A B : Type 0} → M A → (A → M B) → M B
◌>>=◌ m k h = and_then (m h) k

abbrev pub ◌>>◌ : {B : Type 0} → M (Unit {0}) → M B → M B
m >> k = m >>= λ _. k

abbrev pub abort : {A : Type 0} → M A
abort h = trap

abbrev pub invalid : {A : Type 0} → M A
invalid h = fault

-- The heap after a write of one allocation, or after it was freed.
unfoldable pub put : ℕ → Option Chunk → Heap → Heap
put a c h x = if x == a then c else h x

-- What the bridge is linked with and configured by: `malloc`, and the allocator that a hybrid
-- runtime has installed, if any. Both give the address of a new allocation of so many bytes, or
-- `none` for NULL.
pub record Hooks : Type 0 where
  pub malloc : Heap → ℕ → Option ℕ
  pub array_alloc : Option (Heap → ℕ → Option ℕ)

abbrev pub u64 : ℕ → ℕ
u64 n = n % 2 ^ 64

-- `sizeof(KiraBridgeValue)`, and `sizeof(KiraArray)`, on a 64-bit target.
abbrev pub cell_size : ℕ
cell_size = 24

abbrev pub header_size : ℕ
header_size = 24

abbrev pub at_least_1 : ℕ → ℕ
at_least_1 n = if n == 0 then 1 else n

abbrev pub is_hybrid : Hooks → Bool
is_hybrid hooks = elim hooks.array_alloc [ none ↦ false | some _ ↦ true ]

-- An allocation of `size` bytes that holds `body`; its address, or 0.
abbrev pub place : ℕ → Body → Option ℕ → M ℕ
place size body none h = ok 0 h
place size body (some a) h = ok a (put a (some (record { size = size; body = body })) h)

-- The allocator that is in force.
abbrev pub allocate : Hooks → Heap → ℕ → Option ℕ
allocate hooks = elim hooks.array_alloc [ none ↦ hooks.malloc | some alloc ↦ alloc ]

unfoldable pub bridge_alloc : Hooks → (size : ℕ) → Body → M ℕ
unfolding put
bridge_alloc hooks size body h = place (at_least_1 size) body (allocate hooks h (at_least_1 size)) h

-- A buffer has the whole elements that fit into its bytes.
unfoldable pub cells_of : (size : ℕ) → List BridgeValue
cells_of size = replicate (size / cell_size) void

-- `kira_bridge_alloc` and `kira_bridge_calloc` of `count` elements.
unfoldable pub bridge_calloc : Hooks → (count : ℕ) → M ℕ
unfolding bridge_alloc cells_of
bridge_calloc hooks count =
    bridge_alloc hooks (u64 (count * cell_size)) (cells (cells_of (u64 (count * cell_size))))

-- `malloc` of a copy of `bs`; one byte at least.
unfoldable pub malloc_bytes : Hooks → Bytes → M ℕ
unfolding put
malloc_bytes hooks bs h =
    place (at_least_1 (length bs)) (bytes bs) (hooks.malloc h (at_least_1 (length bs))) h

-- `free` ignores the size, the allocator of a hybrid runtime relies on it.
abbrev pub release_chunk : Bool → (size a : ℕ) → Option Chunk → M (Unit {0})
release_chunk checked size a none = invalid
release_chunk checked size a (some c) =
    if checked && not (c.size == size) then invalid else (λ h. ok tt (put a none h))

unfoldable pub free : (a : ℕ) → M (Unit {0})
unfolding put
free a h = if a == 0 then ok tt h else release_chunk false 0 a (h a) h

unfoldable pub bridge_free : Hooks → (a size : ℕ) → M (Unit {0})
unfolding put
bridge_free hooks a size h =
    if a == 0 then ok tt h else release_chunk (is_hybrid hooks) (at_least_1 size) a (h a) h

abbrev pub header_of : Option Chunk → M KiraArray
header_of none = invalid
header_of (some c) = elim c.body [ header r ↦ pure r | cells _ ↦ invalid | bytes _ ↦ invalid ]

-- `*array`, and the assignment of its fields.
unfoldable pub load_header : ℕ → M KiraArray
load_header a h = header_of (h a) h

abbrev pub write_body : ℕ → Body → Option Chunk → M (Unit {0})
write_body a b none = invalid
write_body a b (some c) = λ h. ok tt (put a (some (record c { body = b })) h)

unfoldable pub store_header : ℕ → KiraArray → M (Unit {0})
unfolding put
store_header a r h = write_body a (header r) (h a) h

abbrev pub cells_at : Option Chunk → M (List BridgeValue)
cells_at none = invalid
cells_at (some c) = elim c.body [ header _ ↦ invalid | cells vs ↦ pure vs | bytes _ ↦ invalid ]

unfoldable pub load_cells : ℕ → M (List BridgeValue)
load_cells p h = cells_at (h p) h

unfoldable pub store_cells : ℕ → List BridgeValue → M (Unit {0})
unfolding put
store_cells p vs h = write_body p (cells vs) (h p) h
