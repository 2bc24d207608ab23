-- ===== src/DynamicFfi/Tests.antt =====
-- Calls of dynamic_ffi_helpers.c with a small libffi, and the theorems at some of them.
use kira_zig.Common.{
  ℕ, ◌*◌, ◌≡◌, ◌≤◌, refl, arith, Bool, if◌then◌else◌, ◌==◌, length, codes, pos, negsuc, true, none,
  some, List, [], ◌∷◌,
}
use kira_zig.DynamicFfi.{
  success, Env, World, Arg, Invocation, ffi_call, with_library, ensure_libffi, open_checked,
  prepared, arg_types, ffi_type, Call, call_new, invoke, arg_i32, max_args,
}
use kira_zig.DynamicFfi.Access.{Memory, address, load, read_i32_at}
use kira_zig.DynamicFfi.Access.Laws.{Outside}
use kira_zig.DynamicFfi.Access.Typed.{
  i64, width, target, write_typed, read_typed, write_typed-read_typed,
}
use kira_zig.DynamicFfi.Quad.{FloatOps, Quad, ui_write_quad}
use kira_zig.DynamicFfi.Quad.Laws.{load_floats, quad_floats, ui_write_quad-quad_floats}
use kira_zig.DynamicFfi.Search.{
  Loader, open_managed_libffi, try_open_libffi_path, os_library_open, append_path, user_path,
  loader_env,
}
use kira_zig.DynamicFfi.Search.Order.{Searched, ensure_libffi-Searched}
use kira_zig.DynamicFfi.Results.{invoke_i32}
use kira_zig.DynamicFfi.Results.Answer.{
  i32, IsResult, symbol_of, Answers, invoke_typed, invoke_typed-Answers,
}
use kira_zig.DynamicFfi.Calls.{Reports, ffi_call-Reports, append_all, invoke-append_all}

abbrev env : Env
env = record { managed = some 5; symbol = λ lib s. some 7; prepare = λ rt types. true }

abbrev fresh : World
fresh = record { library = none; last_error = success; calls = [] }

abbrev args : List Arg
args = arg_i32 (negsuc 0) ∷ arg_i32 (pos 2) ∷ []

abbrev made : Invocation
made = record { function = 9; result_type = 7; types = 7 ∷ 7 ∷ []; words = 4294967295 ∷ 2 ∷ [] }

called :
    ffi_call env (some 9) 5 args fresh
    ≡ (success, record { library = some 5; last_error = success; calls = made ∷ [] })
unfolding ffi_call with_library ensure_libffi open_checked prepared arg_types ffi_type
called = refl

ffi_call-Reports_example : Reports env none 5 args fresh (ffi_call env none 5 args fresh)
ffi_call-Reports_example = ffi_call-Reports env none 5 args fresh

abbrev two : Call
two = record { capacity = 2; args = [] }

new_two : call_new true 2 ≡ some two
unfolding call_new
new_two = refl

invoke-append_all_example :
    (invoke env (some (append_all two args)) (some 9) 5 fresh ≡ ffi_call env (some 9) 5 args fresh)
    × (2 ≤ max_args)
invoke-append_all_example = invoke-append_all env true 2 two args (some 9) 5 fresh new_two

abbrev zeros : Memory
zeros x = some 0

write_typed-read_typed_example :
    (m' : Memory) × (write_typed i64 4096 8 18446744073709551615 zeros ≡ some m')
    × (read_typed i64 4096 8 m' ≡ some 18446744073709551615)
    × Outside (target i64 4096 8) (width i64) zeros m'
write_typed-read_typed_example =
    write_typed-read_typed i64 4096 8 18446744073709551615 zeros (omega arith) (λ x le lt e. cc)
      (omega arith)

-- A signed number is read with its sign.
read_negative : read_i32_at 4096 8 (λ x. some 255) ≡ some (negsuc 0)
unfolding read_i32_at load
read_negative = refl

abbrev halves : FloatOps
halves = record { div = λ a b. a; mul = λ a b. a; sub = λ a b. b }

abbrev glyph : Quad
glyph = record {
  px0 = 1;
  py0 = 2;
  px1 = 3;
  py1 = 4;
  lx0 = 5;
  ly0 = 6;
  lx1 = 7;
  ly1 = 8;
  vw = 9;
  vh = 10;
  half_w = 11;
  half_h = 12;
  radius = 13;
  border_width = 14;
  mode = 15;
  fr = 16;
  fg = 17;
  fb = 18;
  fa = 19;
  br = 20;
  bg = 21;
  bb = 22;
  ba = 23;
  clip_min_x = 24;
  clip_min_y = 25;
  clip_max_x = 26;
  clip_max_y = 27;
}

ui_write_quad-quad_floats_example :
    (m' : Memory) × (ui_write_quad halves 4096 92 glyph zeros ≡ some m')
    × (load_floats 92 (address 4096 (4 * 92)) m' ≡ some (quad_floats halves glyph))
    × Outside (address 4096 (4 * 92)) 368 zeros m'
ui_write_quad-quad_floats_example =
    ui_write_quad-quad_floats halves 4096 92 glyph zeros (omega arith) (omega arith)
      (λ x le lt e. cc) refl

abbrev loader : Loader
loader = record {
  dlopen = λ path. if length path == 9 then some 5 else none;
  dlsym = λ lib name. some 7;
  getenv = λ name. if length name == 4 then some (codes "/home/k") else none;
}

abbrev accepts : ℕ → List ℕ → Bool
accepts rt types = true

-- Only the last name opens.
found_last : open_managed_libffi loader ≡ some 5
unfolding open_managed_libffi try_open_libffi_path os_library_open append_path user_path
found_last = refl

ensure_libffi-Searched_example :
    Searched loader accepts fresh (ensure_libffi (loader_env loader accepts) fresh)
ensure_libffi-Searched_example = ensure_libffi-Searched loader accepts fresh refl

abbrev minus_one : Invocation → ℕ
minus_one i = 4294967295

invoked :
    invoke_i32 env minus_one (some (record { capacity = 2; args = args })) (some 9) fresh
    ≡ (negsuc 0, record { library = some 5; last_error = success; calls = made ∷ [] })
unfolding invoke_i32 ffi_call with_library ensure_libffi open_checked prepared arg_types ffi_type
invoked = refl

invoke_typed-Answers_example :
    Answers env minus_one
      (pos 0)
      (IsResult i32)
      (symbol_of i32)
      (some 9)
      args
      fresh
      (invoke_typed env minus_one i32 (some (record { capacity = 2; args = args })) (some 9) fresh)
invoke_typed-Answers_example =
    invoke_typed-Answers env minus_one i32 (some (record { capacity = 2; args = args })) (some 9)
      fresh
