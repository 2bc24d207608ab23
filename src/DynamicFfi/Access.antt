-- ===== src/DynamicFfi/Access.antt =====
-- The typed reads and writes of native memory of dynamic_ffi_helpers.c.
pub mod Laws
pub mod Typed
use kira_zig.Common.{
  ℕ, zero, suc, ◌+◌, ◌-◌, ◌*◌, ◌/◌, ◌%◌, ◌^◌, ℤ, pos, negsuc, Bool, true, false, Option, none, some,
  List, [], ◌∷◌, ◌==◌, ltb, if◌then◌else◌, replicate,
}
use kira_zig.DynamicFfi.{word}

-- The byte at each address, `none` where nothing is allocated. Numbers are little-endian.
abbrev pub Memory : Type 0
Memory = ℕ → Option ℕ

abbrev pub set_byte : ℕ → ℕ → Memory → Memory
set_byte a v m x = if x == a then some v else m x

abbrev pub push_byte : Option ℕ → Option ℕ → Option ℕ
push_byte none r = none
push_byte (some b) none = none
push_byte (some b) (some r) = some (b + 256 * r)

-- The number in `width` bytes; `none` is an access outside of what is allocated.
unfoldable pub load : (width a : ℕ) → Memory → Option ℕ
load zero a m = some 0
load (suc w) a m = push_byte (m a) (load w (a + 1) m)

abbrev pub if_allocated : Option ℕ → Option Memory → Option Memory
if_allocated none r = none
if_allocated (some _) r = r

unfoldable pub store : (width a v : ℕ) → Memory → Option Memory
store zero a v m = some m
store (suc w) a v m = if_allocated (m a) (store w (a + 1) (v / 256) (set_byte a (v % 256) m))

abbrev pub address : (ptr offset : ℕ) → ℕ
address ptr offset = (ptr + offset) % 2 ^ 64

-- A pointer is its address, 0 for NULL.
abbrev pub unless_null : {A : Type 0} → ℕ → A → A → A
unless_null ptr null_case other_case = if ptr == 0 then null_case else other_case

abbrev pub to_signed : (bits : ℕ) → ℕ → ℤ
to_signed bits n = if ltb n (2 ^ (bits - 1)) then pos n else negsuc (2 ^ bits - 1 - n)

abbrev pub signed : (bits : ℕ) → Option ℕ → Option ℤ
signed bits none = none
signed bits (some n) = some (to_signed bits n)

unfoldable pub read_u32 : ℕ → Memory → Option ℕ
unfolding load
read_u32 ptr m = unless_null ptr (some 0) (load 4 ptr m)

unfoldable pub read_i32 : ℕ → Memory → Option ℤ
unfolding load
read_i32 ptr m = unless_null ptr (some (pos 0)) (signed 32 (load 4 ptr m))

unfoldable pub read_ptr : ℕ → Memory → Option ℕ
unfolding load
read_ptr ptr m = unless_null ptr (some 0) (load 8 ptr m)

unfoldable pub read_u8_at : (ptr offset : ℕ) → Memory → Option ℕ
unfolding load
read_u8_at ptr offset m = unless_null ptr (some 0) (load 1 (address ptr offset) m)

unfoldable pub read_u16_at : (ptr offset : ℕ) → Memory → Option ℕ
unfolding load
read_u16_at ptr offset m = unless_null ptr (some 0) (load 2 (address ptr offset) m)

unfoldable pub read_u32_at : (ptr offset : ℕ) → Memory → Option ℕ
unfolding load
read_u32_at ptr offset m = unless_null ptr (some 0) (load 4 (address ptr offset) m)

unfoldable pub read_i32_at : (ptr offset : ℕ) → Memory → Option ℤ
unfolding load
read_i32_at ptr offset m =
    unless_null ptr (some (pos 0)) (signed 32 (load 4 (address ptr offset) m))

unfoldable pub read_u64_at : (ptr offset : ℕ) → Memory → Option ℕ
unfolding load
read_u64_at ptr offset m = unless_null ptr (some 0) (load 8 (address ptr offset) m)

unfoldable pub read_i64_at : (ptr offset : ℕ) → Memory → Option ℤ
unfolding load
read_i64_at ptr offset m =
    unless_null ptr (some (pos 0)) (signed 64 (load 8 (address ptr offset) m))

unfoldable pub read_ptr_at : (ptr offset : ℕ) → Memory → Option ℕ
unfolding load
read_ptr_at ptr offset m = unless_null ptr (some 0) (load 8 (address ptr offset) m)

-- A float is its bit pattern.
unfoldable pub read_f32_at : (ptr offset : ℕ) → Memory → Option ℕ
unfolding load
read_f32_at ptr offset m = unless_null ptr (some 0) (load 4 (address ptr offset) m)

unfoldable pub read_f64_at : (ptr offset : ℕ) → Memory → Option ℕ
unfolding load
read_f64_at ptr offset m = unless_null ptr (some 0) (load 8 (address ptr offset) m)

unfoldable pub write_u32 : (ptr value : ℕ) → Memory → Option Memory
unfolding store
write_u32 ptr value m = unless_null ptr (some m) (store 4 ptr value m)

unfoldable pub write_ptr : (ptr value : ℕ) → Memory → Option Memory
unfolding store
write_ptr ptr value m = unless_null ptr (some m) (store 8 ptr value m)

unfoldable pub write_u8_at : (ptr offset value : ℕ) → Memory → Option Memory
unfolding store
write_u8_at ptr offset value m = unless_null ptr (some m) (store 1 (address ptr offset) value m)

unfoldable pub write_u16_at : (ptr offset value : ℕ) → Memory → Option Memory
unfolding store
write_u16_at ptr offset value m = unless_null ptr (some m) (store 2 (address ptr offset) value m)

unfoldable pub write_u32_at : (ptr offset value : ℕ) → Memory → Option Memory
unfolding store
write_u32_at ptr offset value m = unless_null ptr (some m) (store 4 (address ptr offset) value m)

unfoldable pub write_u64_at : (ptr offset value : ℕ) → Memory → Option Memory
unfolding store
write_u64_at ptr offset value m = unless_null ptr (some m) (store 8 (address ptr offset) value m)

unfoldable pub write_i64_at : (ptr offset : ℕ) → (value : ℤ) → Memory → Option Memory
unfolding store
write_i64_at ptr offset value m =
    unless_null ptr (some m) (store 8 (address ptr offset) (word 64 value) m)

unfoldable pub write_ptr_at : (ptr offset value : ℕ) → Memory → Option Memory
unfolding store
write_ptr_at ptr offset value m = unless_null ptr (some m) (store 8 (address ptr offset) value m)

unfoldable pub write_f32_at : (ptr offset value : ℕ) → Memory → Option Memory
unfolding store
write_f32_at ptr offset value m = unless_null ptr (some m) (store 4 (address ptr offset) value m)

unfoldable pub write_f64_at : (ptr offset value : ℕ) → Memory → Option Memory
unfolding store
write_f64_at ptr offset value m = unless_null ptr (some m) (store 8 (address ptr offset) value m)
