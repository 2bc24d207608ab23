-- ===== src/Array.antt =====
-- packages/kira_native_bridge/src/runtime_helpers_arrays.inc: the arrays of the native runtime. An
-- array is the address of its header, 0 for NULL; `hooks` says which allocator is installed.
pub mod Layout
pub mod Access
pub mod Copy
pub mod Extends
pub mod Append
pub mod Alloc
pub mod Owned
mod Tests
use kira_zig.Common.{
  ℕ, zero, suc, ◌+◌, ◌*◌, ℤ, pos, negsuc, Bool, true, false, not, ◌&&◌, ◌||◌, Option, none, some,
  List, [], ◌∷◌, ◌++◌, ◌==◌, ltb, if◌then◌else◌, length, get_elem?, set, take, drop,
}
use kira_zig.BridgeValue.{BridgeValue, void, integer, float, string, boolean, raw_ptr}
use kira_zig.Memory.{
  KiraArray, Hooks, M, pure, ◌>>=◌, ◌>>◌, invalid, u64, cell_size, header_size, at_least_1,
  is_hybrid, header, cells, bridge_alloc, bridge_calloc, bridge_free, free, load_header,
  store_header, load_cells, store_cells,
}

-- `kira_bridge_probably_invalid_pointer`.
abbrev pub probably_invalid : ℕ → Bool
probably_invalid p = not (p == 0) && ltb p 4096

abbrev pub is_active : ℕ → Bool
is_active a = not (a == 0) && not (probably_invalid a)

abbrev pub emptied : KiraArray
emptied = record { len = 0; items = 0; cap = 0 }

unfoldable pub repair_invalid_storage : ℕ → M (Unit {0})
unfolding load_header store_header
repair_invalid_storage a =
    if a == 0
    then pure tt
    else load_header a >>= λ r. if probably_invalid r.items then store_header a emptied else pure tt

-- `items[i]` and its assignment.
abbrev pub or_invalid : Option BridgeValue → M BridgeValue
or_invalid none = invalid
or_invalid (some v) = pure v

unfoldable pub read_cell : (p i : ℕ) → M BridgeValue
unfolding load_cells
read_cell p i = load_cells p >>= λ vs. or_invalid (get_elem? vs i)

unfoldable pub write_cell : (p i : ℕ) → BridgeValue → M (Unit {0})
unfolding load_cells store_cells
write_cell p i v = do
  vs ← load_cells p
  if ltb i (length vs) then store_cells p (set vs i v) else invalid

-- `(size_t)index >= array->len` fails, for an index that is not negative.
abbrev pub in_bounds : ℤ → ℕ → Option ℕ
in_bounds (negsuc _) len = none
in_bounds (pos i) len = if ltb i len then some i else none

unfoldable pub array_len : ℕ → M ℕ
unfolding load_header
array_len a =
    if not (is_active a)
    then pure 0
    else load_header a >>= λ r. pure (if probably_invalid r.items then 0 else r.len)

abbrev pub store_at : KiraArray → Option ℕ → BridgeValue → M (Unit {0})
store_at r none v = pure tt
store_at r (some i) v = write_cell r.items i v

-- `value` is not NULL here and below: the compiler passes the address of a local.
unfoldable pub array_store : (a : ℕ) (index : ℤ) → BridgeValue → M (Unit {0})
unfolding repair_invalid_storage load_header write_cell
array_store a index v =
    if not (is_active a)
    then pure tt
    else (do repair_invalid_storage a; r ← load_header a; store_at r (in_bounds index r.len) v)

abbrev pub load_at : KiraArray → Option ℕ → M BridgeValue
load_at r none = pure void
load_at r (some i) = read_cell r.items i

unfoldable pub array_load : (a : ℕ) (index : ℤ) → M BridgeValue
unfolding load_header read_cell
array_load a index =
    if not (is_active a)
    then pure void
    else load_header a >>= λ r.
        if probably_invalid r.items then pure void else load_at r (in_bounds index r.len)

abbrev pub take_at : KiraArray → Option ℕ → M BridgeValue
take_at r none = pure void
take_at r (some i) = do v ← read_cell r.items i; write_cell r.items i void; pure v

unfoldable pub array_take : (a : ℕ) (index : ℤ) → M BridgeValue
unfolding load_header read_cell write_cell
array_take a index =
    if not (is_active a)
    then pure void
    else load_header a >>= λ r.
        if probably_invalid r.items then pure void else take_at r (in_bounds index r.len)

unfoldable pub next_cap : (cap len : ℕ) → ℕ
next_cap cap len =
    let doubled = if ltb cap 4 then 4 else u64 (cap * 2) in
    if ltb doubled (u64 (len + 1)) then u64 (len + 1) else doubled

-- `memcpy(next_items, items, len)`.
unfoldable pub copy_items : (to from len : ℕ) → M (Unit {0})
unfolding load_cells store_cells
copy_items to from len = do
  old ← load_cells from
  new ← load_cells to
  if ltb (length old) len || ltb (length new) len
      then invalid
      else store_cells to (take len old ++ drop len new)

module _ (hooks : Hooks) where
  unfoldable pub alloc_items : (a len : ℕ) → M ℕ
  unfolding bridge_calloc bridge_free store_header
  alloc_items a len = do
    p ← bridge_calloc hooks (at_least_1 len)
    if p == 0
        then (bridge_free hooks a header_size >> pure 0)
        else (store_header a (record { len = len; items = p; cap = len }) >> pure a)

  -- The fields of a new header are set before the buffer is allocated.
  unfoldable pub array_alloc : ℤ → M ℕ
  unfolding alloc_items bridge_alloc
  array_alloc (negsuc _) = pure 0
  array_alloc (pos len) = do
    a ← bridge_alloc hooks header_size (header (record { len = len; items = 0; cap = len }))
    if a == 0 then pure 0 else alloc_items a len

  -- The move to a larger buffer. A refused allocation drops the value.
  unfoldable pub grow : (a : ℕ) → KiraArray → BridgeValue → M (Unit {0})
  unfolding next_cap bridge_calloc copy_items bridge_free store_header write_cell
  grow a r v = do
    let cap = next_cap r.cap r.len
    p ← bridge_calloc hooks cap
    if p == 0 then pure tt else (do
      (if not (r.items == 0) && not (r.len == 0) then copy_items p r.items r.len else pure tt)
      bridge_free hooks r.items (u64 (at_least_1 r.cap * cell_size))
      write_cell p r.len v
      store_header a (record { len = u64 (r.len + 1); items = p; cap = cap }))

  unfoldable pub array_append : (a : ℕ) → BridgeValue → M (Unit {0})
  unfolding repair_invalid_storage load_header grow write_cell store_header
  array_append a v = if not (is_active a) then pure tt else (do
    repair_invalid_storage a
    r ← load_header a
    if not (r.items == 0) && ltb r.len r.cap
        then (write_cell r.items r.len v >> store_header a (record r { len = u64 (r.len + 1) }))
        else grow a r v)
