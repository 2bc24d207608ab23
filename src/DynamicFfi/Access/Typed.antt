-- ===== src/DynamicFfi/Access/Typed.antt =====
-- About the typed reads and writes of dynamic_ffi_helpers.c: each kind of access as a write and a read of bits.
use kira_zig.Common.{
  ℕ, false, ◌-◌, ◌^◌, ◌<◌, ◌≡◌, ◌≢◌, inl, inr, sym, ap, ◌∙◌, ℤ, pos, negsuc, Option, none, some,
  ◌==◌, ltb, if◌then◌else◌, arith, Bool-cases,
}
use kira_zig.DynamicFfi.{word}
use kira_zig.DynamicFfi.Access.{
  Memory, load, store, address, to_signed, unless_null, signed, read_u32, read_ptr, read_i32,
  read_i32_at, read_u8_at, read_u16_at, read_u32_at, read_u64_at, read_i64_at, read_ptr_at,
  read_f32_at, read_f64_at, write_u32, write_ptr, write_u8_at, write_u16_at, write_u32_at,
  write_u64_at, write_i64_at, write_ptr_at, write_f32_at, write_f64_at,
}
use kira_zig.DynamicFfi.Access.Laws.{IsAllocated, Outside, store-Stored}

-- The accesses: those at an offset, and the ones of 32 bits and of pointers at the pointer itself.
pub data Access : Type 0 where
  u8 u16 u32 i32 u64 i64 ptr f32 f64 first_u32 first_i32 first_ptr : Access

abbrev pub width : Access → ℕ
width u8 = 1
width u16 = 2
width u32 = 4
width i32 = 4
width u64 = 8
width i64 = 8
width ptr = 8
width f32 = 4
width f64 = 8
width first_u32 = 4
width first_i32 = 4
width first_ptr = 8

-- Where the access is.
abbrev pub target : Access → (base offset : ℕ) → ℕ
target first_u32 base offset = base
target first_i32 base offset = base
target first_ptr base offset = base
target u8 base offset = address base offset
target u16 base offset = address base offset
target u32 base offset = address base offset
target i32 base offset = address base offset
target u64 base offset = address base offset
target i64 base offset = address base offset
target ptr base offset = address base offset
target f32 base offset = address base offset
target f64 base offset = address base offset

-- The bits of a signed number.
abbrev pub bits_of : (bits : ℕ) → Option ℤ → Option ℕ
bits_of bits none = none
bits_of bits (some v) = some (word bits v)

-- The write of the bits `v`.
unfoldable pub write_typed : Access → (base offset v : ℕ) → Memory → Option Memory
write_typed u8 base offset v m = write_u8_at base offset v m
write_typed u16 base offset v m = write_u16_at base offset v m
write_typed u32 base offset v m = write_u32_at base offset v m
write_typed i32 base offset v m = write_u32_at base offset v m
write_typed u64 base offset v m = write_u64_at base offset v m
write_typed i64 base offset v m = write_i64_at base offset (to_signed 64 v) m
write_typed ptr base offset v m = write_ptr_at base offset v m
write_typed f32 base offset v m = write_f32_at base offset v m
write_typed f64 base offset v m = write_f64_at base offset v m
write_typed first_u32 base offset v m = write_u32 base v m
write_typed first_i32 base offset v m = write_u32 base v m
write_typed first_ptr base offset v m = write_ptr base v m

-- The bits that the read gives.
unfoldable pub read_typed : Access → (base offset : ℕ) → Memory → Option ℕ
read_typed u8 base offset m = read_u8_at base offset m
read_typed u16 base offset m = read_u16_at base offset m
read_typed u32 base offset m = read_u32_at base offset m
read_typed i32 base offset m = bits_of 32 (read_i32_at base offset m)
read_typed u64 base offset m = read_u64_at base offset m
read_typed i64 base offset m = bits_of 64 (read_i64_at base offset m)
read_typed ptr base offset m = read_ptr_at base offset m
read_typed f32 base offset m = read_f32_at base offset m
read_typed f64 base offset m = read_f64_at base offset m
read_typed first_u32 base offset m = read_u32 base m
read_typed first_i32 base offset m = bits_of 32 (read_i32 base m)
read_typed first_ptr base offset m = read_ptr base m

pub nonnull : {A : Type 0} (p : ℕ) (x y : A) → p ≢ 0 → unless_null p x y ≡ y
nonnull p x y ne = let other : (p == 0) ≡ false = ground arith in ap (λ b. if b then x else y) other

word32-to_signed : (v : ℕ) → v < 2 ^ 32 → word 32 (to_signed 32 v) ≡ v
word32-to_signed v small = elim (Bool-cases (ltb v (2 ^ 31))) [
  | inl below ↦
      let e : to_signed 32 v ≡ pos v =
        ap (λ b. if b then pos v else negsuc (2 ^ 32 - 1 - v)) below in
      ap (word 32) e ∙ (omega arith)
  | inr above ↦
      let e : to_signed 32 v ≡ negsuc (2 ^ 32 - 1 - v) =
        ap (λ b. if b then pos v else negsuc (2 ^ 32 - 1 - v)) above in
      ap (word 32) e ∙ (omega arith)
]

word64-to_signed : (v : ℕ) → v < 2 ^ 64 → word 64 (to_signed 64 v) ≡ v
word64-to_signed v small = elim (Bool-cases (ltb v (2 ^ 63))) [
  | inl below ↦
      let e : to_signed 64 v ≡ pos v =
        ap (λ b. if b then pos v else negsuc (2 ^ 64 - 1 - v)) below in
      ap (word 64) e ∙ (omega arith)
  | inr above ↦
      let e : to_signed 64 v ≡ negsuc (2 ^ 64 - 1 - v) =
        ap (λ b. if b then pos v else negsuc (2 ^ 64 - 1 - v)) above in
      ap (word 64) e ∙ (omega arith)
]

-- A write of `v` at `a` through a pointer that may be NULL, and the read of it.
written :
    (p w a v default : ℕ) (m : Memory)
    → p ≢ 0
    → IsAllocated a w m
    → v < 256 ^ w
    → (m' : Memory) × (unless_null p (some m) (store w a v m) ≡ some m')
      × (unless_null p (some default) (load w a m') ≡ some v)
      × Outside a w m m'
written p w a v default m ne allocated small =
    let (m', stored, (back, out, _)) = store-Stored w a v m allocated small in
    (m', nonnull p _ _ ne ∙ stored, nonnull p _ _ ne ∙ back, out)

signed_read :
    (bits p v : ℕ) (o : Option ℕ)
    → p ≢ 0
    → unless_null p (some 0) o ≡ some v
    → word bits (to_signed bits v) ≡ v
    → bits_of bits (unless_null p (some (pos 0)) (signed bits o)) ≡ some v
signed_read bits p v o ne back e =
    ap (bits_of bits) (
      nonnull p (some (pos 0)) (signed bits o) ne
      ∙ ap (signed bits) (sym (nonnull p (some 0) o ne) ∙ back))
    ∙ ap some e

-- With a pointer that is not NULL and allocated bytes at the access, a write of bits that fit succeeds, the
-- read of the same kind gives these bits, and the other bytes stay.
pub write_typed-read_typed :
    (k : Access) (base offset v : ℕ) (m : Memory)
    → base ≢ 0
    → IsAllocated (target k base offset) (width k) m
    → v < 256 ^ width k
    → (m' : Memory) × (write_typed k base offset v m ≡ some m')
      × (read_typed k base offset m' ≡ some v)
      × Outside (target k base offset) (width k) m m'
unfolding write_typed read_typed write_u8_at read_u8_at write_u16_at read_u16_at write_u32_at
    read_u32_at write_u64_at read_u64_at write_ptr_at read_ptr_at write_f32_at read_f32_at
    write_f64_at read_f64_at write_i64_at read_i64_at read_i32_at write_u32 read_u32 read_i32
    write_ptr read_ptr
write_typed-read_typed u8 p o v m ne al small = written p 1 (address p o) v 0 m ne al small
write_typed-read_typed u16 p o v m ne al small = written p 2 (address p o) v 0 m ne al small
write_typed-read_typed u32 p o v m ne al small = written p 4 (address p o) v 0 m ne al small
write_typed-read_typed i32 p o v m ne al small =
    let (m', stored, back, out) = written p 4 (address p o) v 0 m ne al small in
    (
      m',
      stored,
      signed_read 32 p v (load 4 (address p o) m') ne back (word32-to_signed v small),
      out,
    )
write_typed-read_typed u64 p o v m ne al small = written p 8 (address p o) v 0 m ne al small
write_typed-read_typed i64 p o v m ne al small =
    let (m', stored, back, out) = written p 8 (address p o) v 0 m ne al small in
    let whole = word64-to_signed v small in
    (
      m',
      ap (λ x. unless_null p (some m) (store 8 (address p o) x m)) whole ∙ stored,
      signed_read 64 p v (load 8 (address p o) m') ne back whole,
      out,
    )
write_typed-read_typed ptr p o v m ne al small = written p 8 (address p o) v 0 m ne al small
write_typed-read_typed f32 p o v m ne al small = written p 4 (address p o) v 0 m ne al small
write_typed-read_typed f64 p o v m ne al small = written p 8 (address p o) v 0 m ne al small
write_typed-read_typed first_u32 p o v m ne al small = written p 4 p v 0 m ne al small
write_typed-read_typed first_i32 p o v m ne al small =
    let (m', stored, back, out) = written p 4 p v 0 m ne al small in
    (m', stored, signed_read 32 p v (load 4 p m') ne back (word32-to_signed v small), out)
write_typed-read_typed first_ptr p o v m ne al small = written p 8 p v 0 m ne al small
