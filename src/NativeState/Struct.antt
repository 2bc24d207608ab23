-- ===== src/NativeState/Struct.antt =====
-- kira_struct_alloc, kira_struct_type_id and kira_struct_free of runtime_helpers_native_state.inc: a block
-- with the type id in front of the payload.
use mathlib.Core.Path.{subst}
use kira_zig.Common.{
  length-replicate, ℕ, ◌+◌, ◌-◌, ◌%◌, ◌^◌, ◌≡◌, ◌≢◌, ◌<◌, ap, ◌∙◌, inl, inr, Option, none, some,
  replicate, arith,
}
use kira_zig.DynamicFfi.Access.{Memory, load, store, unless_null}
use kira_zig.DynamicFfi.Access.Laws.{store-Stored, load_agree}
use kira_zig.DynamicFfi.Access.Typed.{nonnull}
use kira_zig.RawHeap.{RawHeap, place, free_block, write_bytes, read_bytes}
use kira_zig.RawHeap.Laws.{IsFree, place-IsAllocated, free_block-place, write_bytes-read_bytes}

-- `sizeof(uint64_t)`
abbrev pub id_size : ℕ
id_size = 8

abbrev pub with_memory : (result : ℕ) → RawHeap → Option Memory → Option (ℕ × RawHeap)
with_memory result h none = none
with_memory result h (some m) = some (result, record h { memory = m })

abbrev pub cleared : (a size : ℕ) → Option Memory → Option Memory
cleared a size none = none
cleared a size (some m) = write_bytes a (replicate size 0) m

-- `answer` is what `malloc` gives, and `junk` what its block holds. The outer `none` is an access outside of
-- what is allocated.
unfoldable pub struct_alloc :
    (answer : Option ℕ) → (junk : ℕ → ℕ) → (type_id size : ℕ) → RawHeap → Option (ℕ × RawHeap)
unfolding place store write_bytes
struct_alloc none junk type_id size h = some (0, h)
struct_alloc (some base) junk type_id size h =
    let h₁ = place junk base ((id_size + size) % 2 ^ 64) h in
    with_memory (base + id_size) h₁
      (cleared (base + id_size) size (store id_size base type_id h₁.memory))

unfoldable pub struct_type_id : (ptr : ℕ) → RawHeap → Option ℕ
unfolding load
struct_type_id ptr h = unless_null ptr (some 0) (load id_size (ptr - id_size) h.memory)

unfoldable pub struct_free : (ptr : ℕ) → RawHeap → Option RawHeap
unfolding free_block
struct_free ptr h = unless_null ptr (some h) (free_block (ptr - id_size) h)

-- Where `malloc` gives a block at a free address and the size does not wrap around, the allocation gives a
-- pointer whose type id is the given one and whose payload is zeros, without an access outside of the block;
-- a free of the pointer leaves the heap as it was.
pub struct_alloc-struct_free :
    (base : ℕ) (junk : ℕ → ℕ) (type_id size : ℕ) (h : RawHeap)
    → IsFree h base (id_size + size)
    → id_size + size < 2 ^ 64
    → type_id < 2 ^ 64
    → (h' : RawHeap) × (struct_alloc (some base) junk type_id size h ≡ some (base + id_size, h'))
      × (struct_type_id (base + id_size) h' ≡ some type_id)
      × (read_bytes size (base + id_size) h'.memory ≡ some (replicate size 0))
      × (struct_free (base + id_size) h' ≡ some h)
unfolding struct_alloc struct_type_id struct_free
struct_alloc-struct_free base junk type_id size h free fits small =
    let n = id_size + size in
    let h₁ = place junk base n h in
    let al = place-IsAllocated junk base n h in
    let (m₂, stored, (back, out₂, keeps₂)) =
      store-Stored 8 base type_id h₁.memory (λ x le lt. al x le (omega arith)) small in
    let long = length-replicate {A = ℕ} size 0 in
    let (m₃, written, zeros, out₃, keeps₃) =
      write_bytes-read_bytes (base + 8) (replicate size 0) m₂
        (λ x le lt. keeps₂ x (al x (omega arith) (omega (arith, long)))) in
    let within : (id_size + size) % 2 ^ 64 ≡ n = omega arith in
    let same_id : load 8 base m₃ ≡ load 8 base m₂ =
      load_agree 8 base m₂ m₃ (λ x le lt. out₃ x (inl (omega arith))) in
    let back_to : base + 8 - 8 ≡ base = omega arith in
    let h' = record h₁ { memory = m₃ } in
    let ptr : base + 8 ≢ 0 = λ e. omega arith in
    (
      h',
      ap
            (λ k. with_memory (base + 8) (place junk base k h) (
              cleared (base + 8) size
                (store 8 base type_id (RawHeap.memory (place junk base k h)))))
            within
          ∙ ap (λ o. with_memory (base + 8) h₁ (cleared (base + 8) size o)) stored
          ∙ ap (with_memory (base + 8) h₁) written,
      nonnull (base + 8) _ _ ptr ∙ ap (λ a. load 8 a m₃) back_to ∙ same_id ∙ back,
      subst (λ k. read_bytes k (base + 8) m₃ ≡ some (replicate size 0)) long zeros,
      nonnull (base + 8) _ _ ptr
          ∙ ap (λ a. free_block a h') back_to
          ∙ free_block-place junk base n h m₃ free (λ x far.
            out₃ x (elim far [ inl lt ↦ inl (omega arith) | inr le ↦ inr (omega (arith, long)) ])
            ∙ out₂ x (elim far [ inl lt ↦ inl (omega arith) | inr le ↦ inr (omega arith) ])),
    )
