-- ===== src/DynamicFfi/Search.antt =====
-- The search for libffi on Linux (`kira_open_managed_libffi`) and the wrappers of the loader in
-- dynamic_ffi_helpers.c.
pub mod Order
use kira_zig.Common.{ℕ, ◌-◌, Option, none, some, List, [], ◌∷◌, ◌++◌, Bool, Bytes, codes, take}
use kira_zig.DynamicFfi.{
  Env, Symbol, prep_cif, call, type_void, type_uint8, type_sint8, type_uint16, type_sint16,
  type_uint32, type_sint32, type_uint64, type_sint64, type_float, type_double, type_pointer,
}

-- `dlopen`, `dlsym` and `getenv`.
pub record Loader : Type 0 where
  pub dlopen : Bytes → Option ℕ
  pub dlsym : ℕ → Bytes → Option ℕ
  pub getenv : Bytes → Option Bytes

-- `path[1024]`
abbrev pub path_size : ℕ
path_size = 1024

-- `snprintf` writes at most `size - 1` bytes and the terminator. Its result is positive here, since the format
-- has a slash.
abbrev pub formatted : (size : ℕ) → Bytes → Bytes
formatted size text = take (size - 1) text

unfoldable pub append_path : (size : ℕ) → (root : Option Bytes) → (suffix : Bytes) → Option Bytes
append_path size none suffix = none
append_path size (some []) suffix = none
append_path size (some (c ∷ root)) suffix =
    some (formatted size ((c ∷ root) ++ (codes "/" ++ suffix)))

unfoldable pub user_path : (home : Option Bytes) → Option Bytes
user_path none = none
user_path (some home) = some (
    formatted path_size
      (home ++ codes "/.kira/toolchains/libffi/3.5.2/x86_64-linux-gnu/lib/libffi.so"))

abbrev pub or_else : Option ℕ → Option ℕ → Option ℕ
or_else none next = next
or_else (some handle) next = some handle

module _ (L : Loader) where
  unfoldable pub os_library_open : Option Bytes → Option ℕ
  os_library_open none = none
  os_library_open (some []) = none
  os_library_open (some (c ∷ name)) = L.dlopen (c ∷ name)

  unfoldable pub os_library_symbol : (library : Option ℕ) → (name : Option Bytes) → Option ℕ
  os_library_symbol none name = none
  os_library_symbol (some library) none = none
  os_library_symbol (some library) (some name) = L.dlsym library name

  unfoldable pub try_open_libffi_path : Option Bytes → Option ℕ
  unfolding os_library_open
  try_open_libffi_path none = none
  try_open_libffi_path (some []) = none
  try_open_libffi_path (some (c ∷ path)) = os_library_open (some (c ∷ path))

  unfoldable pub open_managed_libffi : Option ℕ
  unfolding try_open_libffi_path append_path user_path
  open_managed_libffi = or_else (try_open_libffi_path (L.getenv (codes "KIRA_LIBFFI_PATH"))) (
      or_else
        (try_open_libffi_path
          (append_path path_size (L.getenv (codes "KIRA_LIBFFI_HOME")) (codes "lib/libffi.so")))
        (or_else (try_open_libffi_path (user_path (L.getenv (codes "HOME")))) (
          or_else (try_open_libffi_path (some (codes "libffi.so.8")))
            (try_open_libffi_path (some (codes "libffi.so"))))))

  abbrev pub symbol_name : Symbol → Bytes
  symbol_name prep_cif = codes "ffi_prep_cif"
  symbol_name call = codes "ffi_call"
  symbol_name type_void = codes "ffi_type_void"
  symbol_name type_uint8 = codes "ffi_type_uint8"
  symbol_name type_sint8 = codes "ffi_type_sint8"
  symbol_name type_uint16 = codes "ffi_type_uint16"
  symbol_name type_sint16 = codes "ffi_type_sint16"
  symbol_name type_uint32 = codes "ffi_type_uint32"
  symbol_name type_sint32 = codes "ffi_type_sint32"
  symbol_name type_uint64 = codes "ffi_type_uint64"
  symbol_name type_sint64 = codes "ffi_type_sint64"
  symbol_name type_float = codes "ffi_type_float"
  symbol_name type_double = codes "ffi_type_double"
  symbol_name type_pointer = codes "ffi_type_pointer"

  -- What the calls of this file see of the loader.
  unfoldable pub loader_env : (prepare : ℕ → List ℕ → Bool) → Env
  unfolding open_managed_libffi os_library_symbol
  loader_env prepare = record {
    managed = open_managed_libffi;
    symbol = λ lib s. os_library_symbol (some lib) (some (symbol_name s));
    prepare = prepare;
  }
