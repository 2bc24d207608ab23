-- ===== src/Output.antt =====
-- The output of packages/kira_native_bridge/src/runtime_helpers.c: printing, tracing and the hooks of the live
-- mode.
pub mod Effects
pub mod Steps
pub mod Runs
mod Tests
use kira_zig.Common.{
  ℕ, zero, suc, ℤ, pos, negsuc, Bool, true, false, not, ◌&&◌, ◌||◌, Option, none, some, List, [],
  ◌∷◌, ◌++◌, ◌==◌, if◌then◌else◌, length, Bytes, codes,
}
use kira_zig.Strings.{digits, max_digits, decimal}

-- A call of an installed hook; a hook is a number.
pub data HookCall : Type 0 where
  frame : (hook : ℕ) → HookCall
  log : (hook : ℕ) → (line : Bytes) → HookCall

-- The two streams, `kira_trace_execution_enabled`, the hooks, and what was asked of the outside: the calls of
-- hooks and the number of calls of `getenv`.
pub record Console : Type 0 where
  pub stdout : Bytes
  pub stderr : Bytes
  pub trace : ℤ
  pub first_frame_hook : Option ℕ
  pub log_hook : Option ℕ
  pub hook_calls : List HookCall
  pub lookups : ℕ

-- `KIRA_TRACE_EXECUTION`, "%g" and "%llx".
pub record Env : Type 0 where
  pub trace_execution : Option Bytes
  pub format_g : ℕ → Bytes
  pub format_llx : ℕ → Bytes

abbrev pub newline : Bytes
newline = 10 ∷ []

-- `value != NULL && value[0] != '\0' && value[0] != '0'`
abbrev pub is_set : Option Bytes → Bool
is_set none = false
is_set (some []) = false
is_set (some (c ∷ cs)) = not (c == b'0')

abbrev pub write_stdout : Bytes → Console → Console
write_stdout text c = record c { stdout = c.stdout ++ text }

abbrev pub write_stderr : Bytes → Console → Console
write_stderr text c = record c { stderr = c.stderr ++ text }

-- `< 0`, and the test of a number for being other than 0.
abbrev pub is_negative : ℤ → Bool
is_negative (pos n) = false
is_negative (negsuc n) = true

abbrev pub is_nonzero : ℤ → Bool
is_nonzero (pos zero) = false
is_nonzero (pos (suc n)) = true
is_nonzero (negsuc n) = true

abbrev pub trace_line : (domain event message : Bytes) → Bytes
trace_line domain event message =
    codes "[trace][" ++ (domain ++ (codes "][" ++ (event ++ (codes "] " ++ (message ++ newline)))))

abbrev pub write_newline : Console → Console
write_newline c = write_stdout newline c

module _ (env : Env) where
  abbrev pub looked_up : Console → Console
  looked_up c = record c {
    trace = if is_set env.trace_execution then pos 1 else pos 0;
    lookups = suc c.lookups;
  }

  -- The environment is read while the flag is negative.
  unfoldable pub trace_enabled : Console → Bool × Console
  trace_enabled c =
      let c' = if is_negative c.trace then looked_up c else c in (is_nonzero c'.trace, c')

  -- `message` is the formatted text.
  unfoldable pub trace_log : (domain event message : Bytes) → Console → Console
  unfolding trace_enabled
  trace_log domain event message c =
      let r = trace_enabled c in
      if r.0 then write_stderr (trace_line domain event message) r.1 else r.1

  abbrev pub trace_print : (message : Bytes) → Console → Console
  trace_print message = trace_log (codes "NATIVE") (codes "PRINT") message

  unfoldable pub write_i64 : ℤ → Console → Console
  unfolding trace_log decimal
  write_i64 value c = write_stdout (decimal value) (trace_print (codes "i64") c)

  unfoldable pub write_f64 : ℕ → Console → Console
  unfolding trace_log
  write_f64 value c = write_stdout (env.format_g value) (trace_print (codes "f64") c)

  -- The bytes at the pointer.
  unfoldable pub write_string : Bytes → Console → Console
  unfolding trace_log digits
  write_string text c =
      write_stdout text (trace_print (codes "string len=" ++ digits max_digits (length text)) c)

  unfoldable pub write_ptr : ℕ → Console → Console
  unfolding trace_log
  write_ptr value c =
      write_stdout (codes "0x" ++ env.format_llx value) (trace_print (codes "ptr") c)

  unfoldable pub print_i64 : ℤ → Console → Console
  unfolding write_i64
  print_i64 value c = write_newline (write_i64 value c)

  unfoldable pub print_f64 : ℕ → Console → Console
  unfolding write_f64
  print_f64 value c = write_newline (write_f64 value c)

  unfoldable pub print_string : Bytes → Console → Console
  unfolding write_string
  print_string text c = write_newline (write_string text c)

abbrev pub set_execution_trace_enabled : (enabled : ℕ) → Console → Console
set_execution_trace_enabled enabled c = record c { trace = if enabled == 0 then pos 0 else pos 1 }

abbrev pub install_first_frame_hook : Option ℕ → Console → Console
install_first_frame_hook hook c = record c { first_frame_hook = hook }

abbrev pub install_log_hook : Option ℕ → Console → Console
install_log_hook hook c = record c { log_hook = hook }

abbrev pub call_log_hook : Option ℕ → Bytes → Console → Console
call_log_hook none line c = c
call_log_hook (some hook) line c = record c { hook_calls = c.hook_calls ++ log hook line ∷ [] }

-- The hook is called before the line is written.
unfoldable pub emit_log_line : Option Bytes → Console → Console
emit_log_line none c = c
emit_log_line (some line) c = write_stderr (line ++ newline) (call_log_hook c.log_hook line c)

abbrev pub call_frame_hook : Option ℕ → Console → Console
call_frame_hook none c = c
call_frame_hook (some hook) c = record c { hook_calls = c.hook_calls ++ frame hook ∷ [] }

abbrev pub emit_first_frame : Console → Console
emit_first_frame c = call_frame_hook c.first_frame_hook c
