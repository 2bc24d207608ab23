-- ===== src/Memory/Laws.antt =====
-- Steps of the heap of the native bridge: what each access does where it is defined.
use kira_zig.Common.{
  ℕ, ◌*◌, ◌/◌, ◌^◌, ◌≤◌, ◌<◌, ◌≡◌, ◌≢◌, refl, ap, ◌∙◌, Bool, true, false, not, ◌&&◌, Option, none,
  some, List, ◌==◌, if◌then◌else◌, arith, replicate,
}
use kira_zig.BridgeValue.{BridgeValue, void}
use kira_zig.Memory.{
  KiraArray, Body, header, cells, Chunk, Heap, ok, put, Hooks, u64, cell_size, at_least_1,
  is_hybrid, place, allocate, bridge_alloc, cells_of, release_chunk, invalid, free, bridge_free,
  header_of, load_header, write_body, store_header, cells_at, load_cells, store_cells,
}

abbrev pub chunk : ℕ → Body → Option Chunk
chunk size body = some (record { size = size; body = body })

pub put_self : (a : ℕ) (c : Option Chunk) (h : Heap) → put a c h a ≡ c
unfolding put
put_self a c h = ground arith

pub put_ne : (a : ℕ) (c : Option Chunk) (h : Heap) {x : ℕ} → x ≢ a → put a c h x ≡ h x
unfolding put
put_ne a c h ne = ground arith

pub load_header-step :
    (h : Heap) (a : ℕ) {n : ℕ} {r : KiraArray} → h a ≡ chunk n (header r) → load_header a h ≡ ok r h
unfolding load_header
load_header-step h a e = ap (λ c. header_of c h) e

pub store_header-step :
    (h : Heap) (a : ℕ) {n : ℕ} {b : Body} (r : KiraArray)
    → h a ≡ chunk n b
    → store_header a r h ≡ ok tt (put a (chunk n (header r)) h)
unfolding store_header
store_header-step h a r e = ap (λ c. write_body a (header r) c h) e

pub load_cells-step :
    (h : Heap) (p : ℕ) {n : ℕ} {vs : List BridgeValue}
    → h p ≡ chunk n (cells vs)
    → load_cells p h ≡ ok vs h
unfolding load_cells
load_cells-step h p e = ap (λ c. cells_at c h) e

pub store_cells-step :
    (h : Heap) (p : ℕ) {n : ℕ} {b : Body} (vs : List BridgeValue)
    → h p ≡ chunk n b
    → store_cells p vs h ≡ ok tt (put p (chunk n (cells vs)) h)
unfolding store_cells
store_cells-step h p vs e = ap (λ c. write_body p (cells vs) c h) e

pub bridge_alloc-none :
    (hooks : Hooks) (h : Heap) (size : ℕ) (b : Body)
    → allocate hooks h (at_least_1 size) ≡ none
    → bridge_alloc hooks size b h ≡ ok 0 h
unfolding bridge_alloc
bridge_alloc-none hooks h size b e = ap (λ o. place (at_least_1 size) b o h) e

pub bridge_alloc-some :
    (hooks : Hooks) (h : Heap) (size : ℕ) (b : Body) {a : ℕ}
    → allocate hooks h (at_least_1 size) ≡ some a
    → bridge_alloc hooks size b h ≡ ok a (put a (chunk (at_least_1 size) b) h)
unfolding bridge_alloc
bridge_alloc-some hooks h size b e = ap (λ o. place (at_least_1 size) b o h) e

release_chunk-step :
    (h : Heap) (checked : Bool) (size a : ℕ) (b : Body)
    → release_chunk checked size a (chunk size b) h ≡ ok tt (put a none h)
release_chunk-step h checked size a b =
    ap (λ t. (if t then invalid else (λ h. ok tt (put a none h))) h) (unchecked checked size)
  where
    unchecked : (c : Bool) (size : ℕ) → (c && not (size == size)) ≡ false
    unchecked true size = ground arith
    unchecked false size = refl

-- A free of an allocation with the size that it was made with.
pub bridge_free-step :
    (hooks : Hooks) (h : Heap) (a size : ℕ) {b : Body}
    → a ≢ 0
    → size ≢ 0
    → h a ≡ chunk size b
    → bridge_free hooks a size h ≡ ok tt (put a none h)
unfolding bridge_free
bridge_free-step hooks h a size {b} real sized e =
    let ne : (a == 0) ≡ false = ground arith in
    let same : at_least_1 size ≡ size = ground arith in
    ap (λ t. if t then ok tt h else release_chunk (is_hybrid hooks) (at_least_1 size) a (h a) h) ne
    ∙ ap (λ n. release_chunk (is_hybrid hooks) n a (h a) h) same
    ∙ ap (λ c. release_chunk (is_hybrid hooks) size a c h) e
    ∙ release_chunk-step h (is_hybrid hooks) size a b

pub free-step :
    (h : Heap) (a n : ℕ) {b : Body} → a ≢ 0 → h a ≡ chunk n b → free a h ≡ ok tt (put a none h)
unfolding free
free-step h a n {b} real e =
    let ne : (a == 0) ≡ false = ground arith in
    ap (λ t. if t then ok tt h else release_chunk false 0 a (h a) h) ne
    ∙ ap (λ c. release_chunk false 0 a c h) e

pub u64-small : (n : ℕ) → n < 2 ^ 64 → u64 n ≡ n
u64-small n small = omega arith

whole : (n : ℕ) → n * cell_size / cell_size ≡ n
whole n = omega arith

-- A buffer for `n` elements has `n` elements while its size does not wrap around.
pub cells_of-small :
    (n : ℕ) → n * cell_size < 2 ^ 64 → cells_of (u64 (n * cell_size)) ≡ replicate n void
unfolding cells_of
cells_of-small n small =
    ap (λ k. replicate (k / cell_size) void) (u64-small (n * cell_size) small)
    ∙ ap (λ k. replicate k void) (whole n)

-- What the bridge relies on: an allocator gives an address where nothing is allocated, above the
-- first page, and refuses requests from 2 ^ 63 bytes on.
pub record IsAllocator (hooks : Hooks) : Type 0 where
  pub fresh : (h : Heap) (n a : ℕ) → allocate hooks h n ≡ some a → h a ≡ none
  pub real : (h : Heap) (n a : ℕ) → allocate hooks h n ≡ some a → 4096 ≤ a
  pub possible : (h : Heap) (n a : ℕ) → allocate hooks h n ≡ some a → n < 2 ^ 63
