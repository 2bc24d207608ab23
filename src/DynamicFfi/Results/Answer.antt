-- ===== src/DynamicFfi/Results/Answer.antt =====
-- About the typed invokes of dynamic_ffi_helpers.c: the result is that of the call made, or 0.
use mathlib.Core.Path.{subst}
use kira_zig.Common.{
  ℕ, ◌+◌, ◌-◌, ◌*◌, ◌/◌, ◌%◌, ◌^◌, ◌<◌, ◌≡◌, ◌≢◌, ◌⊎◌, inl, inr, refl, sym, ap, ◌∙◌, ℤ, pos, negsuc,
  arith, length, Bool-cases, ltb, Option, none, some, List, [], ◌∷◌, ◌++◌,
}
use kira_zig.DynamicFfi.{
  Status, success, null_symbol, libffi_unavailable, unsupported_type, prep_failed, too_many_args,
  Env, Invocation, World, Arg, Call, invoke, words, ffi_type, type_symbol, Symbol, type_sint32,
  type_uint32, type_sint64, type_uint64, type_float, type_double, type_pointer,
}
use kira_zig.DynamicFfi.Calls.{Reports, ffi_call-Reports, failed}
use kira_zig.DynamicFfi.Results.{
  written_by, returned, as_i32, as_u32, as_i64, as_u64, invoke_i32, invoke_u32, invoke_i64,
  invoke_u64, invoke_ptr, invoke_f32, invoke_f64,
}

-- The invokes that return a result.
pub data ResultKind : Type 0 where
  i32 u32 i64 u64 ptr f32 f64 : ResultKind

abbrev pub Result : ResultKind → Type 0
Result i32 = ℤ
Result u32 = ℕ
Result i64 = ℤ
Result u64 = ℕ
Result ptr = ℕ
Result f32 = ℕ
Result f64 = ℕ

abbrev pub zero_of : (k : ResultKind) → Result k
zero_of i32 = pos 0
zero_of u32 = 0
zero_of i64 = pos 0
zero_of u64 = 0
zero_of ptr = 0
zero_of f32 = 0
zero_of f64 = 0

abbrev pub args_of : Option Call → List Arg
args_of none = []
args_of (some c) = c.args

-- The type that libffi is asked for.
abbrev pub symbol_of : ResultKind → Symbol
symbol_of i32 = type_sint32
symbol_of u32 = type_uint32
symbol_of i64 = type_sint64
symbol_of u64 = type_uint64
symbol_of ptr = type_pointer
symbol_of f32 = type_float
symbol_of f64 = type_double

-- The low bits of the slot.
abbrev pub LowBits : (bits slot : ℕ) → ℕ → Type 0
LowBits bits slot x = (x < 2 ^ bits) × ((q : ℕ) × (slot ≡ q * 2 ^ bits + x))

-- The low bits of the slot in two's complement.
abbrev pub SignedBits : (bits slot : ℕ) → ℤ → Type 0
SignedBits bits slot (pos n) = (n < 2 ^ (bits - 1)) × ((q : ℕ) × (slot ≡ q * 2 ^ bits + n))
SignedBits bits slot (negsuc n) = (n < 2 ^ (bits - 1)) × ((q : ℕ) × (slot + (n + 1) ≡ q * 2 ^ bits))

-- The result that is in the slot.
abbrev pub IsResult : (k : ResultKind) → (slot : ℕ) → Result k → Type 0
IsResult i32 slot x = SignedBits 32 slot x
IsResult u32 slot x = LowBits 32 slot x
IsResult i64 slot x = SignedBits 64 slot x
IsResult u64 slot x = LowBits 64 slot x
IsResult ptr slot x = LowBits 64 slot x
IsResult f32 slot x = LowBits 32 slot x
IsResult f64 slot x = LowBits 64 slot x

as_u32-LowBits : (slot : ℕ) → LowBits 32 slot (as_u32 slot)
as_u32-LowBits slot = (omega arith, (slot / 2 ^ 32, omega arith))

as_u64-LowBits : (slot : ℕ) → LowBits 64 slot (as_u64 slot)
as_u64-LowBits slot = (omega arith, (slot / 2 ^ 64, omega arith))

as_i32-SignedBits : (slot : ℕ) → SignedBits 32 slot (as_i32 slot)
as_i32-SignedBits slot = (elim (Bool-cases (ltb (slot % 2 ^ 32) (2 ^ 31))) [
  | inl low ↦ rw low (ground arith, (slot / 2 ^ 32, omega arith))
  | inr high ↦ rw high (ground arith, (slot / 2 ^ 32 + 1, ground arith))
])

as_i64-SignedBits : (slot : ℕ) → SignedBits 64 slot (as_i64 slot)
as_i64-SignedBits slot = (elim (Bool-cases (ltb (slot % 2 ^ 64) (2 ^ 63))) [
  | inl low ↦ rw low (ground arith, (slot / 2 ^ 64, omega arith))
  | inr high ↦ rw high (ground arith, (slot / 2 ^ 64 + 1, ground arith))
])

module _ (env : Env) (returns : Invocation → ℕ) where
  unfoldable pub invoke_typed :
      (k : ResultKind) → Option Call → (fn : Option ℕ) → World → Result k × World
  invoke_typed i32 c fn w = invoke_i32 env returns c fn w
  invoke_typed u32 c fn w = invoke_u32 env returns c fn w
  invoke_typed i64 c fn w = invoke_i64 env returns c fn w
  invoke_typed u64 c fn w = invoke_u64 env returns c fn w
  invoke_typed ptr c fn w = invoke_ptr env returns c fn w
  invoke_typed f32 c fn w = invoke_f32 env returns c fn w
  invoke_typed f64 c fn w = invoke_f64 env returns c fn w

  -- One call with the arguments and a result of the type was made and `x` is its result, or none was
  -- made and `x` is `zero`.
  unfoldable pub Answers :
      {A : Type 0}
      → (zero : A) → (Says : ℕ → A → Type 0) → Symbol
      → Option ℕ
      → List Arg
      → World
      → A × World
      → Type 0
  Answers zero Says type fn args w (x, w') =
      ((i : Invocation) × (fn ≡ some i.function)
        × (i.words ≡ words args)
        × (length i.types ≡ length args)
        × ((lib : ℕ) × (env.symbol lib type ≡ some i.result_type))
        × (w'.calls ≡ w.calls ++ i ∷ [])
        × (w'.last_error ≡ success)
        × Says (returns i) x)
      ⊎ ((w'.last_error ≢ success) × (w'.calls ≡ w.calls) × (x ≡ zero))

  written_by-append :
      (calls : List Invocation) (i : Invocation)
      → written_by env returns (calls ++ i ∷ []) ≡ returns i
  written_by-append [] i = refl
  written_by-append (j ∷ []) i = refl
  written_by-append (j ∷ k ∷ calls) i = written_by-append (k ∷ calls) i

  module _ {A : Type 0} (zero : A) (read : ℕ → A) (Says : ℕ → A → Type 0)
      (says : (slot : ℕ) → Says slot (read slot)) (tag : ℕ) (type : Symbol)
      (named : type_symbol tag ≡ some type) (fn : Option ℕ) (args : List Arg) (w : World) where
    ffi_type-symbol : (lib : ℕ) → ffi_type env lib tag ≡ env.symbol lib type
    unfolding ffi_type
    ffi_type-symbol lib = ap (λ o. elim o [ none ↦ none | some s ↦ env.symbol lib s ]) named

    no_call :
        (s : Status) (w' : World)
        → s ≢ success
        → Reports env fn tag args w (s, w')
        → Answers zero Says type fn args w (zero, w')
    unfolding Answers
    no_call s w' ne (e, inl (ok, _, _, _)) = absurd (ne ok)
    no_call s w' ne (e, inr (_, same)) = inr ((λ ok. ne (sym e ∙ ok)), same, refl)

    returned-Answers :
        (r : Status × World)
        → Reports env fn tag args w r
        → Answers zero Says type fn args w (returned env returns zero read r)
    unfolding Answers
    returned-Answers (success, w') (e, inl (ok, i, calls, (called, same, long, (lib, typed)))) =
        inl (
          i,
          called,
          same,
          long,
          (lib, sym (ffi_type-symbol lib) ∙ typed),
          calls,
          e,
          subst (λ slot. Says (returns i) (read slot))
              (sym (ap (written_by env returns) calls ∙ written_by-append w.calls i))
              (says (returns i)),
        )
    returned-Answers (success, w') (e, inr (ne, same)) = absurd (ne refl)
    returned-Answers (null_symbol, w') p = no_call null_symbol w' (λ e. cc) p
    returned-Answers (libffi_unavailable, w') p = no_call libffi_unavailable w' (λ e. cc) p
    returned-Answers (unsupported_type, w') p = no_call unsupported_type w' (λ e. cc) p
    returned-Answers (prep_failed, w') p = no_call prep_failed w' (λ e. cc) p
    returned-Answers (too_many_args, w') p = no_call too_many_args w' (λ e. cc) p

  invoke-Reports :
      (c : Option Call) (fn : Option ℕ) (tag : ℕ) (w : World)
      → Reports env fn tag (args_of c) w (invoke env c fn tag w)
  unfolding invoke
  invoke-Reports none fn tag w = failed env fn tag [] null_symbol w w (λ e. cc) refl
  invoke-Reports (some c) fn tag w = ffi_call-Reports env fn tag c.args w

  returned-invoke-Answers :
      {A : Type 0} (zero : A) (read : ℕ → A) (Says : ℕ → A → Type 0)
      → ((slot : ℕ) → Says slot (read slot))
      → (tag : ℕ) (type : Symbol) → type_symbol tag ≡ some type
      → (c : Option Call) (fn : Option ℕ) (w : World)
      → Answers zero Says type fn
          (args_of c)
          w
          (returned env returns zero read (invoke env c fn tag w))
  returned-invoke-Answers zero read Says says tag type named c fn w =
      returned-Answers zero read Says says tag type named fn (args_of c) w (invoke env c fn tag w)
        (invoke-Reports c fn tag w)

  -- Each typed invoke, also of a NULL handle or function, either makes exactly one call, of the given
  -- function with the words of the appended arguments and the result type of the invoke, leaves no
  -- error, and returns the low 32 or 64 bits of what this call left in the slot, for signed results in
  -- two's complement; or it makes no call, leaves an error, and returns 0.
  pub invoke_typed-Answers :
      (k : ResultKind) (c : Option Call) (fn : Option ℕ) (w : World)
      → Answers (zero_of k) (IsResult k) (symbol_of k) fn (args_of c) w (invoke_typed k c fn w)
  unfolding invoke_typed invoke_i32 invoke_u32 invoke_i64 invoke_u64 invoke_ptr invoke_f32
      invoke_f64
  invoke_typed-Answers i32 =
      returned-invoke-Answers (pos 0) as_i32 (IsResult i32) as_i32-SignedBits 5 type_sint32 refl
  invoke_typed-Answers u32 =
      returned-invoke-Answers 0 as_u32 (IsResult u32) as_u32-LowBits 6 type_uint32 refl
  invoke_typed-Answers i64 =
      returned-invoke-Answers (pos 0) as_i64 (IsResult i64) as_i64-SignedBits 7 type_sint64 refl
  invoke_typed-Answers u64 =
      returned-invoke-Answers 0 as_u64 (IsResult u64) as_u64-LowBits 8 type_uint64 refl
  invoke_typed-Answers ptr =
      returned-invoke-Answers 0 as_u64 (IsResult ptr) as_u64-LowBits 11 type_pointer refl
  invoke_typed-Answers f32 =
      returned-invoke-Answers 0 as_u32 (IsResult f32) as_u32-LowBits 9 type_float refl
  invoke_typed-Answers f64 =
      returned-invoke-Answers 0 as_u64 (IsResult f64) as_u64-LowBits 10 type_double refl
