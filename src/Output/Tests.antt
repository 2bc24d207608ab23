-- ===== src/Output/Tests.antt =====
-- Output of runtime_helpers.c at a small program.
use kira_zig.Common.{◌≡◌, refl, negsuc, none, some, [], ◌∷◌, List, codes}
use kira_zig.Strings.{digits, decimal}
use kira_zig.Output.{
  Console, Env, write_i64, print_i64, print_string, write_string, trace_log, emit_log_line,
}
use kira_zig.Output.Effects.{Op, op_print_i64, op_set_trace, op_print_string, op_log, effects, run}
use kira_zig.Output.Steps.{Has}
use kira_zig.Output.Runs.{run-Has}

abbrev env : Env
env = record { trace_execution = some (codes "1"); format_g = λ v. []; format_llx = λ v. [] }

abbrev fresh : Console
fresh = record {
  stdout = [];
  stderr = [];
  trace = negsuc 0;
  first_frame_hook = none;
  log_hook = none;
  hook_calls = [];
  lookups = 0;
}

abbrev program : List Op
program = op_print_i64 (negsuc 6) ∷ op_set_trace 0 ∷ op_print_string (codes "ok") ∷ op_log none ∷ []

printed : Console.stdout (run env program fresh) ≡ codes "-7\nok\n"
unfolding run print_i64 write_i64 print_string write_string trace_log decimal digits emit_log_line
printed = refl

traced : Console.stderr (run env program fresh) ≡ codes "[trace][NATIVE][PRINT] i64\n"
unfolding run print_i64 write_i64 print_string write_string trace_log decimal digits emit_log_line
traced = refl

run-Has_example : Has env (effects env program none none) fresh (run env program fresh)
run-Has_example = run-Has env program fresh
