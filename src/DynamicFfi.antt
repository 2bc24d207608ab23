-- ===== src/DynamicFfi.antt =====
-- packages/kira_native_bridge/src/dynamic_ffi_helpers.c: calls of native functions through libffi, and
-- the call builder. libffi and the loader are parameters.
pub mod Calls
pub mod Access
pub mod Quad
pub mod Search
pub mod Results
pub mod Copies
mod Tests
use kira_zig.Common.{
  ℕ, zero, suc, ◌+◌, ◌-◌, ◌%◌, ◌^◌, ◌<◌, ◌≡◌, ℤ, pos, negsuc, Bool, true, false, not, ◌&&◌, ◌||◌,
  Option, none, some, List, [], ◌∷◌, ◌++◌, ◌==◌, ltb, if◌then◌else◌, length, get_elem?,
}

-- The status codes.
pub data Status : Type 0 where
  success null_symbol libffi_unavailable unsupported_type prep_failed too_many_args : Status

-- The symbols that are looked up in libffi.
pub data Symbol : Type 0 where
  prep_cif call : Symbol
  type_void type_uint8 type_sint8 type_uint16 type_sint16 type_uint32 type_sint32 : Symbol
  type_uint64 type_sint64 type_float type_double type_pointer : Symbol

-- `managed` is the library that the loader opens for libffi; `symbol lib s` is the address of `s` in the library `lib`; `prepare` says whether `ffi_prep_cif`
-- accepts the types. What the called function does and returns is left out.
pub record Env : Type 0 where
  pub managed : Option ℕ
  pub symbol : ℕ → Symbol → Option ℕ
  pub prepare : ℕ → List ℕ → Bool

-- A call that libffi makes: the function, and the types and words of the arguments.
pub record Invocation : Type 0 where
  pub function : ℕ
  pub result_type : ℕ
  pub types : List ℕ
  pub words : List ℕ

-- `kira_libffi.library`, which stands for the table, `kira_dynamic_ffi_last_error`, and the calls made.
pub record World : Type 0 where
  pub library : Option ℕ
  pub last_error : Status
  pub calls : List Invocation

-- The cases of `kira_ffi_type`, in the order of the tags.
abbrev pub type_symbols : List Symbol
type_symbols =
    type_void ∷ type_sint8 ∷ type_uint8 ∷ type_sint16 ∷ type_uint16 ∷ type_sint32 ∷ type_uint32
    ∷ type_sint64 ∷ type_uint64 ∷ type_float ∷ type_double ∷ type_pointer ∷ []

abbrev pub type_symbol : ℕ → Option Symbol
type_symbol tag = get_elem? type_symbols tag

abbrev pub max_args : ℕ
max_args = 32

abbrev pub fail : Status → World → Status × World
fail s w = (s, record w { last_error = s })

-- An argument: its type tag and its word.
abbrev pub Arg : Type 0
Arg = ℕ × ℕ

abbrev pub cons_type : Option ℕ → Option (List ℕ) → Option (List ℕ)
cons_type none ts = none
cons_type (some t) none = none
cons_type (some t) (some ts) = some (t ∷ ts)

abbrev pub words : List Arg → List ℕ
words [] = []
words ((t, v) ∷ args) = v ∷ words args

module _ (env : Env) where
  abbrev pub is_usable : ℕ → Bool
  is_usable lib = has prep_cif && has call && has type_pointer
    where
      has : Symbol → Bool
      has s = elim (env.symbol lib s) [ none ↦ false | some _ ↦ true ]

  unfoldable pub open_checked : Option ℕ → World → Option ℕ × World
  open_checked none w = (none, record w { last_error = libffi_unavailable })
  open_checked (some lib) w =
      if is_usable lib
      then (some lib, record w { library = some lib })
      else (none, record w { last_error = libffi_unavailable })

  -- The library, if it can be used.
  unfoldable pub ensure_libffi : World → Option ℕ × World
  unfolding open_checked
  ensure_libffi w = elim w.library [ some lib ↦ (some lib, w) | none ↦ open_checked env.managed w ]

  unfoldable pub ffi_type : (lib tag : ℕ) → Option ℕ
  ffi_type lib tag = elim (type_symbol tag) [ none ↦ none | some s ↦ env.symbol lib s ]

  unfoldable pub arg_types : ℕ → List Arg → Option (List ℕ)
  unfolding ffi_type
  arg_types lib [] = some []
  arg_types lib ((tag, _) ∷ args) =
      let rest = arg_types lib args in cons_type (ffi_type lib tag) rest

  -- `ffi_prep_cif` and `ffi_call`.
  unfoldable pub prepared :
      (fn : ℕ) → (result_type : ℕ) → (types words : List ℕ) → World → Status × World
  prepared fn rt types ws w =
      if env.prepare rt types
      then (
        success,
        record w {
          last_error = success;
          calls =
              w.calls ++ record { function = fn; result_type = rt; types = types; words = ws } ∷ [];
        },
      )
      else fail prep_failed w

  abbrev pub with_types : (fn : ℕ) → List Arg → Option ℕ → Option (List ℕ) → World → Status × World
  with_types fn args none types w = fail unsupported_type w
  with_types fn args (some rt) none w = fail unsupported_type w
  with_types fn args (some rt) (some types) w = prepared fn rt types (words args) w

  unfoldable pub with_library : (fn result_tag : ℕ) → List Arg → Option ℕ × World → Status × World
  unfolding prepared ffi_type arg_types
  with_library fn result_tag args (none, w) = (w.last_error, w)
  with_library fn result_tag args (some lib, w) =
      with_types fn args (ffi_type lib result_tag) (arg_types lib args) w

  unfoldable pub ffi_call : (fn : Option ℕ) → (result_tag : ℕ) → List Arg → World → Status × World
  unfolding with_library ensure_libffi
  ffi_call none result_tag args w = fail null_symbol w
  ffi_call (some fn) result_tag args w =
      if ltb max_args (length args)
      then fail too_many_args w
      else with_library fn result_tag args (ensure_libffi w)

-- `KiraDynamicCall`: `args` are the entries below `count`.
pub record Call : Type 0 where
  pub capacity : ℕ
  pub args : List Arg

-- `spare` says whether `calloc` succeeds.
unfoldable pub call_new : Bool → ℕ → Option Call
call_new spare n =
    if ltb max_args n || not spare
    then none
    else some (record { capacity = if n == 0 then max_args else n; args = [] })

abbrev pub call_reset : Call → Call
call_reset c = record c { args = [] }

unfoldable pub call_append : Call → Arg → Call
call_append c a = if ltb (length c.args) c.capacity then record c { args = c.args ++ a ∷ [] } else c

-- The words of signed arguments.
abbrev pub word : ℕ → ℤ → ℕ
word bits (pos n) = n % 2 ^ bits
word bits (negsuc n) = 2 ^ bits - 1 - n % 2 ^ bits

abbrev pub arg_i32 : ℤ → Arg
arg_i32 v = (5, word 32 v)

abbrev pub arg_i64 : ℤ → Arg
arg_i64 v = (7, word 64 v)

-- A pointer is its address, a float its bit pattern.
abbrev pub arg_ptr : ℕ → Arg
arg_ptr v = (11, v)

abbrev pub arg_u32 : ℕ → Arg
arg_u32 v = (6, v)

abbrev pub arg_u64 : ℕ → Arg
arg_u64 v = (8, v)

abbrev pub arg_f32 : ℕ → Arg
arg_f32 v = (9, v)

abbrev pub arg_f64 : ℕ → Arg
arg_f64 v = (10, v)

-- `kira_dynamic_call_invoke`.
unfoldable pub invoke :
    Env → Option Call → (fn : Option ℕ) → (result_tag : ℕ) → World → Status × World
unfolding ffi_call
invoke env none fn tag w = fail null_symbol w
invoke env (some c) fn tag w = ffi_call env fn tag c.args w
