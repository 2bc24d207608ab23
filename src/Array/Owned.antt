-- ===== src/Array/Owned.antt =====
-- The operations of runtime_helpers_arrays.inc that own elements: clone, release, and the stores that
-- release what they replace. `release_raw_ptr` and `clone_elem` are the compiled destructor and copy
-- of an element type, `none` for NULL.
pub mod Buffers
pub mod Element
pub mod Copies
pub mod Loop
pub mod Built
pub mod Clone
pub mod Release
pub mod Faults
use kira_zig.Common.{
  ℕ, zero, suc, ◌+◌, ◌*◌, ◌-◌, ◌%◌, ◌^◌, ℤ, pos, negsuc, Bool, true, false, not, ◌&&◌, ◌||◌, Option,
  none, some, List, [], ◌∷◌, ◌==◌, ltb, leb, if◌then◌else◌, length, Bytes, take, ◌++◌, drop,
  replicate,
}
use kira_zig.BridgeValue.{BridgeValue, void, integer, float, string, boolean, raw_ptr}
use kira_zig.Memory.{
  KiraArray, Heap, Hooks, Body, M, pure, ◌>>=◌, ◌>>◌, invalid, u64, cell_size, header_size,
  at_least_1, is_hybrid, header, cells, bytes, Chunk, place, bridge_alloc, bridge_calloc,
  bridge_free, free, malloc_bytes, load_header, store_header,
}
use kira_zig.Array.{
  probably_invalid, is_active, repair_invalid_storage, read_cell, write_cell, in_bounds,
}

abbrev pub Destructor : Type 0
Destructor = Option (ℕ → M (Unit {0}))

-- `fn(ptr)`, unless one of them is NULL.
abbrev pub call_on : Destructor → ℕ → M (Unit {0})
call_on none p = pure tt
call_on (some f) p = if p == 0 then pure tt else f p

-- An element that leaves its slot.
abbrev pub release_value : Destructor → BridgeValue → M (Unit {0})
release_value fn void = pure tt
release_value fn (integer _) = pure tt
release_value fn (float _) = pure tt
release_value fn (string ptr len) = free ptr
release_value fn (boolean _) = pure tt
release_value fn (raw_ptr ptr) = call_on fn ptr

-- The loop of `kira_array_release`, over `n` elements from `i` on.
unfoldable pub release_cells : Destructor → (items i n : ℕ) → M (Unit {0})
unfolding read_cell free
release_cells fn items i zero = pure tt
release_cells fn items i (suc n) = do
  v ← read_cell items i
  release_value fn v
  release_cells fn items (i + 1) n

-- The pointer that is stored is not released.
abbrev pub incoming_ptr : BridgeValue → ℕ
incoming_ptr (raw_ptr ptr) = ptr
incoming_ptr _ = 0

abbrev pub incoming_bytes : BridgeValue → ℕ
incoming_bytes (string ptr _) = ptr
incoming_bytes _ = 0

abbrev pub release_old : Destructor → (old new : BridgeValue) → M (Unit {0})
release_old fn (string ptr _) new = if ptr == incoming_bytes new then pure tt else free ptr
release_old fn (raw_ptr ptr) new = if ptr == incoming_ptr new then pure tt else call_on fn ptr
release_old fn _ new = pure tt

-- The string buffer of a copied element is duplicated; without memory the copy is an empty string.
abbrev pub copy_bytes : Option Chunk → (ptr len : ℕ) → M Bytes
copy_bytes none ptr len = invalid
copy_bytes (some c) ptr len = elim c.body [
  | header _ ↦ invalid
  | cells _ ↦ invalid
  | bytes bs ↦ if leb len (length bs) then pure (take len bs) else invalid
]

unfoldable pub load_bytes : (ptr len : ℕ) → M Bytes
load_bytes ptr len h = copy_bytes (h ptr) ptr len h

module _ (hooks : Hooks) where
  unfoldable pub clone_string_element : BridgeValue → M BridgeValue
  unfolding load_bytes malloc_bytes
  clone_string_element (string ptr len) = if ptr == 0 then pure (string ptr len) else (do
    bs ← load_bytes ptr len
    buf ← malloc_bytes hooks bs
    if buf == 0 then pure (string 0 0) else pure (string buf len))
  clone_string_element v = pure v

  -- `clone_elem` where the element is a pointer, then the string copy.
  abbrev pub clone_value : Option (ℕ → M ℕ) → BridgeValue → M BridgeValue
  clone_value none v = pure v
  clone_value (some f) (raw_ptr ptr) =
      if ptr == 0 then pure (raw_ptr ptr) else (f ptr >>= λ copy. pure (raw_ptr copy))
  clone_value (some f) v = pure v

  unfoldable pub clone_cells : Option (ℕ → M ℕ) → (from to i n : ℕ) → M (Unit {0})
  unfolding read_cell write_cell clone_string_element
  clone_cells fn from to i zero = pure tt
  clone_cells fn from to i (suc n) = do
    v ← read_cell from i
    v' ← clone_value fn v
    v'' ← clone_string_element v'
    write_cell to i v''
    clone_cells fn from to (i + 1) n

  unfoldable pub clone_items : Option (ℕ → M ℕ) → (r : KiraArray) → (copy : ℕ) → M ℕ
  unfolding bridge_calloc store_header clone_cells
  clone_items fn r copy =
      if (r.len == 0) || (r.items == 0) || probably_invalid r.items
      then store_header copy (record { len = r.len; items = 0; cap = 0 }) >> pure copy
      else (do
        p ← bridge_calloc hooks r.len
        if p == 0
            then (store_header copy (record { len = 0; items = 0; cap = 0 }) >> pure copy)
            else (do
              store_header copy (record { len = r.len; items = p; cap = r.len })
              clone_cells fn r.items p 0 r.len
              pure copy))

  unfoldable pub array_clone : Option (ℕ → M ℕ) → (a : ℕ) → M ℕ
  unfolding load_header bridge_alloc clone_items
  array_clone fn a = if is_hybrid hooks then pure a else if not (is_active a) then pure 0 else (do
    r ← load_header a
    copy ← bridge_alloc hooks header_size (header (record { len = r.len; items = 0; cap = r.len }))
    if copy == 0 then pure 0 else clone_items fn r copy)

  -- A rejected store still owns the value, natively.
  abbrev pub reject : Destructor → BridgeValue → M (Unit {0})
  reject fn v = if is_hybrid hooks then pure tt else release_value fn v

  unfoldable pub replace_at : Destructor → (items i : ℕ) → BridgeValue → M (Unit {0})
  unfolding read_cell write_cell free
  replace_at fn items i v =
      if is_hybrid hooks
      then write_cell items i v
      else (do old ← read_cell items i; release_old fn old v; write_cell items i v)

  abbrev pub store_released : Destructor → (a : ℕ) → Option ℕ → BridgeValue → M (Unit {0})
  store_released fn a none v = reject fn v
  store_released fn a (some i) v = do
    repair_invalid_storage a
    r ← load_header a
    replace_at fn r.items i v

  unfoldable pub array_store_release : Destructor → (a : ℕ) (index : ℤ) → BridgeValue → M (Unit {0})
  unfolding load_header repair_invalid_storage replace_at free
  array_store_release fn a index v =
      if not (is_active a)
      then reject fn v
      else load_header a >>= λ r. store_released fn a (in_bounds index r.len) v

  -- The elements, then the buffer, then the header.
  unfoldable pub release_storage : Destructor → (a : ℕ) → KiraArray → M (Unit {0})
  unfolding release_cells bridge_free
  release_storage fn a r = do
    (if not (r.items == 0) && not (probably_invalid r.items)
        then release_cells fn r.items 0 r.len
        else pure tt)
    bridge_free hooks r.items (u64 (at_least_1 r.cap * cell_size))
    bridge_free hooks a header_size

  unfoldable pub array_release : Destructor → (a : ℕ) → M (Unit {0})
  unfolding repair_invalid_storage load_header release_storage
  array_release fn a =
      if not (is_active a)
      then pure tt
      else if is_hybrid hooks
      then pure tt
      else (do repair_invalid_storage a; r ← load_header a; release_storage fn a r)

  unfoldable pub array_release_replaced : Destructor → (old new : ℕ) → M (Unit {0})
  unfolding array_release
  array_release_replaced fn old new =
      if (old == 0) || (old == new) || ltb old 4096 || not (old % 16 == 0)
      then pure tt
      else array_release fn old

  -- `destroy` is the hook that a hybrid runtime installs, `none` while it is NULL.
  unfoldable pub destroy_closure :
      (destroy : Option (ℕ → M (Unit {0}))) → (value : ℕ) → M (Unit {0})
  unfolding free
  destroy_closure destroy value =
      let bits = value % 2 ^ 63 in
      if (value == 0)
        || leb value 4294967295
        || ltb value (2 ^ 63)
        || ltb bits 4096
        || not (bits % 8 == 0)
      then pure tt
      else elim destroy [ none ↦ free bits | some f ↦ f bits ]
