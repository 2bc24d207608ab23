-- ===== src/NativeState/Hybrid.antt =====
-- kira_hybrid_install_runtime_invoker and kira_hybrid_call_runtime of runtime_helpers_native_state.inc: native
-- code calls a function of the virtual machine.
use kira_zig.Common.{ℕ, Option, none, some, List, ◌++◌, length, Bytes, codes}
use kira_zig.BridgeValue.{BridgeValue, void, integer, float, string, boolean, raw_ptr}
use kira_zig.Strings.{digits, max_digits}
use kira_zig.Output.{Env, Console, trace_log}

-- `kira_runtime_invoker_ex`, `kira_runtime_invoker`, which nothing in the repository sets, and the
-- output.
pub record Trampoline : Type 0 where
  pub invoker : Option ℕ
  pub plain_invoker : Option ℕ
  pub console : Console

unfoldable pub install_runtime_invoker : Option ℕ → Trampoline → Trampoline
install_runtime_invoker invoker s = record s { invoker = invoker }

-- `out_result->tag`
abbrev pub tag_of : BridgeValue → ℕ
tag_of void = 0
tag_of (integer n) = 1
tag_of (float n) = 2
tag_of (string p n) = 3
tag_of (boolean b) = 4
tag_of (raw_ptr p) = 5

abbrev pub unsigned_text : ℕ → Bytes
unsigned_text = digits max_digits

abbrev pub enter_message : (function_id arg_count : ℕ) → Bytes
enter_message function_id arg_count =
    codes "native->runtime fn="
    ++ (unsigned_text function_id ++ (codes " args=" ++ unsigned_text arg_count))

-- A NULL `out_result` is `none`.
abbrev pub return_message : (function_id : ℕ) → Option BridgeValue → Bytes
return_message function_id none = codes "runtime->native fn=" ++ unsigned_text function_id
return_message function_id (some v) =
    codes "runtime->native fn="
    ++ (unsigned_text function_id ++ (codes " tag=" ++ unsigned_text (tag_of v)))

-- The virtual machine: `runtime` is given the invoker, the function, its arguments, and what stands
-- at `out_result`, and gives what stands there then; `plain` is given the invoker and the function.
module _ (env : Env)
    (runtime : ℕ
      → ℕ
      → List BridgeValue
      → Option BridgeValue
      → Trampoline
      → Option BridgeValue × Trampoline)
    (plain : ℕ → ℕ → Trampoline → Trampoline) where
  abbrev pub trampoline_log : (event message : Bytes) → Trampoline → Trampoline
  trampoline_log event message s = record s {
    console = trace_log env (codes "TRAMPOLINE") event message s.console;
  }

  abbrev pub invoke_plain : (invoker : Option ℕ) (function_id : ℕ) → Trampoline → Trampoline
  invoke_plain none function_id s = s
  invoke_plain (some k) function_id s =
      trampoline_log (codes "RETURN") (return_message function_id none) (plain k function_id s)

  -- What follows the first trace.
  unfoldable pub invoke_runtime :
      (invoker : Option ℕ) (function_id : ℕ) (args : List BridgeValue)
      → Option BridgeValue
      → Trampoline
      → Option BridgeValue × Trampoline
  invoke_runtime none function_id args out s = (out, invoke_plain s.plain_invoker function_id s)
  invoke_runtime (some k) function_id args out s =
      let r = runtime k function_id args out s in
      (r.0, trampoline_log (codes "RETURN") (return_message function_id r.0) r.1)

  unfoldable pub call_runtime :
      (function_id : ℕ) (args : List BridgeValue)
      → Option BridgeValue
      → Trampoline
      → Option BridgeValue × Trampoline
  unfolding invoke_runtime
  call_runtime function_id args out s =
      let start = trampoline_log (codes "ENTER") (enter_message function_id (length args)) s in
      invoke_runtime start.invoker function_id args out start
