-- ===== src/Output/Effects.antt =====
-- What each call of the output of runtime_helpers.c does, described by itself.
use kira_zig.Common.{
  ℕ, ℤ, Bool, true, false, not, ◌||◌, ◌&&◌, Option, none, some, List, [], ◌∷◌, ◌++◌, ◌==◌,
  if◌then◌else◌, length, Bytes, codes,
}
use kira_zig.Strings.{digits, max_digits, decimal}
use kira_zig.Output.{
  HookCall, frame, log, Console, Env, newline, is_set, is_negative, is_nonzero, trace_line,
  write_i64, write_f64, write_string, write_ptr, write_newline, print_i64, print_f64, print_string,
  set_execution_trace_enabled, install_first_frame_hook, install_log_hook, emit_log_line,
  emit_first_frame,
}

-- The exported calls.
pub data Op : Type 0 where
  op_write_i64 op_print_i64 : ℤ → Op
  op_write_f64 op_print_f64 op_write_ptr : ℕ → Op
  op_write_string op_print_string : Bytes → Op
  op_newline op_first_frame : Op
  op_set_trace : ℕ → Op
  op_frame_hook op_log_hook : Option ℕ → Op
  op_log : Option Bytes → Op

-- What a call prints, what it tells the error stream where tracing is on or off, whether tracing is on after it, whether it asks if
-- tracing is on, whether it sets tracing, the hooks it calls, and the hooks after it.
pub record Effect : Type 0 where
  pub text : Bytes
  pub told : Bool → Bytes
  pub turn : Bool → Bool
  pub asks : Bool
  pub sets : Bool
  pub calls : List HookCall
  pub frame_hook : Option ℕ
  pub log_hook : Option ℕ

abbrev pub traced_line : Bytes → Bytes
traced_line message = trace_line (codes "NATIVE") (codes "PRINT") message

module _ (f l : Option ℕ) where
  abbrev pub still : (text : Bytes) → Effect
  still text = record {
    text = text;
    told = λ on. [];
    turn = λ on. on;
    asks = false;
    sets = false;
    calls = [];
    frame_hook = f;
    log_hook = l;
  }

  abbrev pub traced : (message text : Bytes) → Effect
  traced message text = record (still text) {
    told = λ on. if on then traced_line message else [];
    asks = true;
  }

  abbrev pub frame_calls : List HookCall
  frame_calls = elim f [ none ↦ [] | some h ↦ frame h ∷ [] ]

  abbrev pub log_calls : Bytes → List HookCall
  log_calls line = elim l [ none ↦ [] | some h ↦ log h line ∷ [] ]

  abbrev pub effect : Env → Op → Effect
  effect env (op_write_i64 v) = traced (codes "i64") (decimal v)
  effect env (op_print_i64 v) = traced (codes "i64") (decimal v ++ newline)
  effect env (op_write_f64 v) = traced (codes "f64") (env.format_g v)
  effect env (op_print_f64 v) = traced (codes "f64") (env.format_g v ++ newline)
  effect env (op_write_ptr v) = traced (codes "ptr") (codes "0x" ++ env.format_llx v)
  effect env (op_write_string t) = traced (codes "string len=" ++ digits max_digits (length t)) t
  effect env (op_print_string t) =
      traced (codes "string len=" ++ digits max_digits (length t)) (t ++ newline)
  effect env op_newline = still newline
  effect env op_first_frame = record (still []) { calls = frame_calls }
  effect env (op_set_trace n) = record (still []) { turn = λ on. not (n == 0); sets = true }
  effect env (op_frame_hook h) = record (still []) { frame_hook = h }
  effect env (op_log_hook h) = record (still []) { log_hook = h }
  effect env (op_log none) = still []
  effect env (op_log (some line)) = record (still []) {
    told = λ on. line ++ newline;
    calls = log_calls line;
  }

-- One effect after another.
abbrev pub followed_by : Effect → Effect → Effect
followed_by e r = record {
  text = e.text ++ r.text;
  told = λ on. e.told on ++ r.told (e.turn on);
  turn = λ on. r.turn (e.turn on);
  asks = e.asks || (not e.sets && r.asks);
  sets = e.sets || r.sets;
  calls = e.calls ++ r.calls;
  frame_hook = r.frame_hook;
  log_hook = r.log_hook;
}

module _ (env : Env) where
  abbrev pub perform : Op → Console → Console
  perform (op_write_i64 v) = write_i64 env v
  perform (op_print_i64 v) = print_i64 env v
  perform (op_write_f64 v) = write_f64 env v
  perform (op_print_f64 v) = print_f64 env v
  perform (op_write_ptr v) = write_ptr env v
  perform (op_write_string t) = write_string env t
  perform (op_print_string t) = print_string env t
  perform op_newline = write_newline
  perform op_first_frame = emit_first_frame
  perform (op_set_trace n) = set_execution_trace_enabled n
  perform (op_frame_hook h) = install_first_frame_hook h
  perform (op_log_hook h) = install_log_hook h
  perform (op_log line) = emit_log_line line

  -- Whether tracing is on, with the variable read at once.
  abbrev pub is_tracing : ℤ → Bool
  is_tracing t = if is_negative t then is_set env.trace_execution else is_nonzero t

  unfoldable pub run : List Op → Console → Console
  run [] c = c
  run (op ∷ ops) c = run ops (perform op c)

  -- The same of a sequence of calls, from the hooks before it on.
  unfoldable pub effects : List Op → (f l : Option ℕ) → Effect
  effects [] f l = still f l []
  effects (op ∷ ops) f l =
      let e = effect f l env op in followed_by e (effects ops e.frame_hook e.log_hook)
