-- ===== src/DynamicFfi/Results.antt =====
-- The typed invokes of dynamic_ffi_helpers.c and its calls of fixed types: what they return.
pub mod Answer
use kira_zig.Common.{ℕ, ◌%◌, ◌^◌, ℤ, pos, Option, none, some, List, [], ◌∷◌}
use kira_zig.DynamicFfi.{
  Status, success, null_symbol, libffi_unavailable, unsupported_type, prep_failed, too_many_args,
  Env, Invocation, World, Call, arg_ptr, arg_u32, invoke, ffi_call,
}
use kira_zig.DynamicFfi.Access.{to_signed}

-- The members of the union; an address has 64 bits.
abbrev pub as_i32 : ℕ → ℤ
as_i32 slot = to_signed 32 (slot % 2 ^ 32)

abbrev pub as_u32 : ℕ → ℕ
as_u32 slot = slot % 2 ^ 32

abbrev pub as_i64 : ℕ → ℤ
as_i64 slot = to_signed 64 (slot % 2 ^ 64)

abbrev pub as_u64 : ℕ → ℕ
as_u64 slot = slot % 2 ^ 64

abbrev pub read_result : {A : Type 0} → (failed : A) → (read : ℕ → A) → Option ℕ → A
read_result failed read none = failed
read_result failed read (some slot) = read slot

-- `returns i` is the word that `ffi_call` leaves in the result slot, which is 0 before.
module _ (env : Env) (returns : Invocation → ℕ) where
  abbrev pub written_by : List Invocation → ℕ
  written_by [] = 0
  written_by (i ∷ []) = returns i
  written_by (i ∷ j ∷ calls) = written_by (j ∷ calls)

  -- The result slot, if the status is KIRA_FFI_OK.
  abbrev pub slot_of : Status × World → Option ℕ
  slot_of (success, w) = some (written_by w.calls)
  slot_of (null_symbol, w) = none
  slot_of (libffi_unavailable, w) = none
  slot_of (unsupported_type, w) = none
  slot_of (prep_failed, w) = none
  slot_of (too_many_args, w) = none

  -- `if (… != KIRA_FFI_OK) return failed; return …;`
  abbrev pub returned : {A : Type 0} → (failed : A) → (read : ℕ → A) → Status × World → A × World
  returned failed read r = (read_result failed read (slot_of r), r.1)

  unfoldable pub invoke_void : Option Call → (fn : Option ℕ) → World → World
  unfolding invoke
  invoke_void c fn w = (invoke env c fn 0 w).1

  unfoldable pub invoke_i32 : Option Call → (fn : Option ℕ) → World → ℤ × World
  unfolding invoke
  invoke_i32 c fn w = returned (pos 0) as_i32 (invoke env c fn 5 w)

  unfoldable pub invoke_u32 : Option Call → (fn : Option ℕ) → World → ℕ × World
  unfolding invoke
  invoke_u32 c fn w = returned 0 as_u32 (invoke env c fn 6 w)

  unfoldable pub invoke_i64 : Option Call → (fn : Option ℕ) → World → ℤ × World
  unfolding invoke
  invoke_i64 c fn w = returned (pos 0) as_i64 (invoke env c fn 7 w)

  unfoldable pub invoke_u64 : Option Call → (fn : Option ℕ) → World → ℕ × World
  unfolding invoke
  invoke_u64 c fn w = returned 0 as_u64 (invoke env c fn 8 w)

  unfoldable pub invoke_ptr : Option Call → (fn : Option ℕ) → World → ℕ × World
  unfolding invoke
  invoke_ptr c fn w = returned 0 as_u64 (invoke env c fn 11 w)

  unfoldable pub invoke_f32 : Option Call → (fn : Option ℕ) → World → ℕ × World
  unfolding invoke
  invoke_f32 c fn w = returned 0 as_u32 (invoke env c fn 9 w)

  unfoldable pub invoke_f64 : Option Call → (fn : Option ℕ) → World → ℕ × World
  unfolding invoke
  invoke_f64 c fn w = returned 0 as_u64 (invoke env c fn 10 w)

  -- The `int32_t` that these two pass as the result is taken to hold what `ffi_call` writes.
  unfoldable pub call_i32_ptr : (fn : Option ℕ) → (arg0 : ℕ) → World → ℤ × World
  unfolding ffi_call
  call_i32_ptr fn arg0 w = returned (pos 0) as_i32 (ffi_call env fn 5 (arg_ptr arg0 ∷ []) w)

  unfoldable pub call_i32_ptr_u32_ptr_ptr :
      (fn : Option ℕ) → (arg0 arg1 arg2 arg3 : ℕ) → World → ℤ × World
  unfolding ffi_call
  call_i32_ptr_u32_ptr_ptr fn arg0 arg1 arg2 arg3 w =
      returned (pos 0) as_i32
        (ffi_call env fn 5 (arg_ptr arg0 ∷ arg_u32 arg1 ∷ arg_ptr arg2 ∷ arg_ptr arg3 ∷ []) w)
