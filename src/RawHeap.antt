-- ===== src/RawHeap.antt =====
-- Blocks of bytes that `malloc` gives and `free` takes, for the C code that works on raw bytes.
pub mod Laws
use kira_zig.Common.{
  ℕ, zero, suc, ◌+◌, ◌-◌, Bool, ◌&&◌, not, Option, none, some, List, [], ◌∷◌, ◌==◌, ltb, leb,
  if◌then◌else◌, Bytes,
}
use kira_zig.DynamicFfi.Access.{Memory, set_byte, if_allocated}

-- `blocks a` is the size of the block that starts at `a`.
pub record RawHeap : Type 0 where
  pub memory : Memory
  pub blocks : ℕ → Option ℕ

abbrev pub within : (a n x : ℕ) → Bool
within a n x = leb a x && ltb x (a + n)

-- A new block; its bytes have any values.
unfoldable pub place : (junk : ℕ → ℕ) → (a n : ℕ) → RawHeap → RawHeap
place junk a n h = record {
  memory = λ x. if within a n x then some (junk x) else h.memory x;
  blocks = λ x. if x == a then some n else h.blocks x;
}

abbrev pub release_block : ℕ → Option ℕ → RawHeap → Option RawHeap
release_block a none h = none
release_block a (some n) h = some (record {
  memory = λ x. if within a n x then none else h.memory x;
  blocks = λ x. if x == a then none else h.blocks x;
})

-- `free`; `none` is a free of what is no block.
unfoldable pub free_block : ℕ → RawHeap → Option RawHeap
free_block a h = if a == 0 then some h else release_block a (h.blocks a) h

-- `memcpy` from bytes and `memset`.
unfoldable pub write_bytes : (a : ℕ) → Bytes → Memory → Option Memory
write_bytes a [] m = some m
write_bytes a (b ∷ bs) m = if_allocated (m a) (write_bytes (a + 1) bs (set_byte a b m))

abbrev pub push : Option ℕ → Option Bytes → Option Bytes
push none bs = none
push (some b) none = none
push (some b) (some bs) = some (b ∷ bs)

unfoldable pub read_bytes : (n a : ℕ) → Memory → Option Bytes
read_bytes zero a m = some []
read_bytes (suc n) a m = push (m a) (read_bytes n (a + 1) m)
