-- ===== src/Output/Runs.antt =====
-- About the output of runtime_helpers.c: what any sequence of calls prints, traces and asks.
use mathlib.Core.Path.{subst}
use kira_zig.Common.{
  ℕ, ◌+◌, ◌≡◌, refl, sym, ap, ◌∙◌, pos, Bool, true, false, not, ◌&&◌, ◌||◌, Option, none, some,
  List, [], ◌∷◌, ◌++◌, ◌==◌, if◌then◌else◌, length, Bytes, codes, append_assoc, append-nil, arith,
}
use kira_zig.Strings.{digits, max_digits, decimal}
use kira_zig.Output.{
  HookCall, frame, log, Console, Env, newline, is_negative, write_stderr, write_i64, write_f64,
  write_string, write_ptr, print_i64, print_f64, print_string, set_execution_trace_enabled,
  call_log_hook, emit_log_line, call_frame_hook,
}
use kira_zig.Output.Effects.{
  Op, op_write_i64, op_print_i64, op_write_f64, op_print_f64, op_write_ptr, op_write_string,
  op_print_string, op_newline, op_first_frame, op_set_trace, op_frame_hook, op_log_hook, op_log,
  Effect, still, effect, effects, followed_by, perform, is_tracing, run,
}
use kira_zig.Output.Steps.{Has, never, always, no_more, write-Traced, line-Traced}

module _ (env : Env) where
  -- Tracing is as before, and nothing was asked.
  quiet-Has :
      (text told : Bytes) (calls : List HookCall) (f l : Option ℕ) (c c' : Console)
      → (c'.stdout ≡ c.stdout ++ text) × (c'.stderr ≡ c.stderr ++ told)
      → (c'.trace ≡ c.trace) × (c'.lookups ≡ c.lookups)
      → (c'.hook_calls ≡ c.hook_calls ++ calls) × (c'.first_frame_hook ≡ f) × (c'.log_hook ≡ l)
      → Has env (record (still f l text) { told = λ on. told; calls = calls }) c c'
  quiet-Has text told calls f l c c' (out, err) (trace, looked) (called, first, second) = record {
    out = out;
    err = err;
    on = ap (is_tracing env) trace;
    unset = ap is_negative trace ∙ always env (is_negative c.trace);
    looked = looked ∙ no_more env (is_negative c.trace) c.lookups;
    called = called;
    frame_hook = first;
    log_hook = second;
  }

  set-Has :
      (n : ℕ) (c : Console)
      → Has env
          (effect c.first_frame_hook c.log_hook env (op_set_trace n))
          c
          (set_execution_trace_enabled n c)
  set-Has n c = record {
    out = sym (append-nil c.stdout);
    err = sym (append-nil c.stderr);
    on = chosen (n == 0);
    unset = decided (n == 0) (is_negative c.trace);
    looked = no_more env (is_negative c.trace) c.lookups;
    called = sym (append-nil c.hook_calls);
    frame_hook = refl;
    log_hook = refl;
  }
    where
      chosen : (b : Bool) → is_tracing env (if b then pos 0 else pos 1) ≡ not b
      chosen true = refl
      chosen false = refl

      decided : (b neg : Bool) → is_negative (if b then pos 0 else pos 1) ≡ (neg && false)
      decided true neg = never env neg
      decided false neg = never env neg

  module _ (c : Console) where
    abbrev out_same : c.stdout ≡ c.stdout ++ []
    out_same = sym (append-nil c.stdout)

    abbrev err_same : c.stderr ≡ c.stderr ++ []
    err_same = sym (append-nil c.stderr)

    abbrev calls_same : c.hook_calls ≡ c.hook_calls ++ []
    calls_same = sym (append-nil c.hook_calls)

    frame-Has :
        (f : Option ℕ)
        → Has env
            (record (still f c.log_hook []) {
              calls = elim f [ none ↦ [] | some h ↦ frame h ∷ [] ];
            })
            (record c { first_frame_hook = f })
            (call_frame_hook f (record c { first_frame_hook = f }))
    frame-Has none =
        quiet-Has [] [] [] none c.log_hook _ _ (out_same, err_same) (refl, refl)
          (calls_same, refl, refl)
    frame-Has (some h) =
        quiet-Has [] [] (frame h ∷ []) (some h) c.log_hook _ _ (out_same, err_same) (refl, refl)
          (refl, refl, refl)

    log-Has :
        (l : Option ℕ) (line : Bytes)
        → Has env
            (record (still c.first_frame_hook l []) {
              told = λ on. line ++ newline;
              calls = elim l [ none ↦ [] | some h ↦ log h line ∷ [] ];
            })
            (record c { log_hook = l })
            (write_stderr (line ++ newline) (call_log_hook l line (record c { log_hook = l })))
    log-Has none line =
        quiet-Has [] (line ++ newline) [] c.first_frame_hook none _ _ (out_same, refl) (refl, refl)
          (calls_same, refl, refl)
    log-Has (some h) line =
        quiet-Has [] (line ++ newline) (log h line ∷ []) c.first_frame_hook (some h) _ _
          (out_same, refl) (refl, refl) (refl, refl, refl)

    perform-Has :
        (op : Op) → Has env (effect c.first_frame_hook c.log_hook env op) c (perform env op c)
    unfolding write_i64 print_i64 write_f64 print_f64 write_string print_string write_ptr
        emit_log_line
    perform-Has (op_write_i64 v) = write-Traced env (codes "i64") (decimal v) c
    perform-Has (op_print_i64 v) = line-Traced env (codes "i64") (decimal v) c
    perform-Has (op_write_f64 v) = write-Traced env (codes "f64") (env.format_g v) c
    perform-Has (op_print_f64 v) = line-Traced env (codes "f64") (env.format_g v) c
    perform-Has (op_write_ptr v) = write-Traced env (codes "ptr") (codes "0x" ++ env.format_llx v) c
    perform-Has (op_write_string t) =
        write-Traced env (codes "string len=" ++ digits max_digits (length t)) t c
    perform-Has (op_print_string t) =
        line-Traced env (codes "string len=" ++ digits max_digits (length t)) t c
    perform-Has op_newline =
        quiet-Has newline [] [] c.first_frame_hook c.log_hook c _ (refl, err_same) (refl, refl)
          (calls_same, refl, refl)
    perform-Has op_first_frame = frame-Has c.first_frame_hook
    perform-Has (op_set_trace n) = set-Has n c
    perform-Has (op_frame_hook h) =
        quiet-Has [] [] [] h c.log_hook c _ (out_same, err_same) (refl, refl)
          (calls_same, refl, refl)
    perform-Has (op_log_hook h) =
        quiet-Has [] [] [] c.first_frame_hook h c _ (out_same, err_same) (refl, refl)
          (calls_same, refl, refl)
    perform-Has (op_log none) =
        quiet-Has [] [] [] c.first_frame_hook c.log_hook c c (out_same, err_same) (refl, refl)
          (calls_same, refl, refl)
    perform-Has (op_log (some line)) = log-Has c.log_hook line

  unset_twice :
      (n a s ra rs : Bool)
      → ((n && not (a || s)) && not (ra || rs)) ≡ (n && not ((a || (not s && ra)) || (s || rs)))
  unset_twice n a s ra rs = ground arith

  looked_twice :
      (n a s ra : Bool) (k : ℕ)
      → k + (if n && a then 1 else 0) + (if (n && not (a || s)) && ra then 1 else 0)
        ≡ k + (if n && (a || (not s && ra)) then 1 else 0)
  looked_twice n a s ra k = ground arith

  followed_by-Has :
      (e r : Effect) (c c₁ c₂ : Console)
      → Has env e c c₁
      → Has env r c₁ c₂
      → Has env (followed_by e r) c c₂
  followed_by-Has e r c c₁ c₂ h k = record {
    out = k.out ∙ ap (λ t. t ++ r.text) h.out ∙ append_assoc c.stdout e.text r.text;
    err =
        k.err
        ∙ ap (λ t. t ++ r.told (is_tracing env c₁.trace)) h.err
        ∙ ap (λ on. (c.stderr ++ e.told (is_tracing env c.trace)) ++ r.told on) h.on
        ∙ append_assoc c.stderr (e.told (is_tracing env c.trace))
            (r.told (e.turn (is_tracing env c.trace)));
    on = k.on ∙ ap r.turn h.on;
    unset =
        k.unset
        ∙ ap (λ b. b && not (r.asks || r.sets)) h.unset
        ∙ unset_twice (is_negative c.trace) e.asks e.sets r.asks r.sets;
    looked =
        k.looked
        ∙ ap (λ n. n + (if is_negative c₁.trace && r.asks then 1 else 0)) h.looked
        ∙ ap
            (λ b.
              c.lookups
              + (if is_negative c.trace && e.asks then 1 else 0)
              + (if b && r.asks then 1 else 0))
            h.unset
        ∙ looked_twice (is_negative c.trace) e.asks e.sets r.asks c.lookups;
    called = k.called ∙ ap (λ t. t ++ r.calls) h.called ∙ append_assoc c.hook_calls e.calls r.calls;
    frame_hook = k.frame_hook;
    log_hook = k.log_hook;
  }

  -- Any sequence of calls prints the texts of the calls in their order; the error stream gets the traces of the
  -- prints, while tracing is on, and the log lines, in their order, as if `KIRA_TRACE_EXECUTION` had been read at
  -- the start; it is read at most once, when tracing was not set and a call traces before one sets it; and
  -- each hook is called when it is installed, in order.
  pub run-Has :
      (ops : List Op) (c : Console)
      → Has env (effects env ops c.first_frame_hook c.log_hook) c (run env ops c)
  unfolding run effects
  run-Has [] c =
      quiet-Has [] [] [] c.first_frame_hook c.log_hook c c (out_same c, err_same c) (refl, refl)
        (calls_same c, refl, refl)
  run-Has (op ∷ ops) c =
      let c₁ = perform env op c in
      let first = perform-Has c op in
      let e = effect c.first_frame_hook c.log_hook env op in
      followed_by-Has e (effects env ops e.frame_hook e.log_hook) c c₁ (run env ops c₁) first (
        subst (λ h. Has env (effects env ops h e.log_hook) c₁ (run env ops c₁)) first.frame_hook
          (subst (λ h. Has env (effects env ops c₁.first_frame_hook h) c₁ (run env ops c₁))
            first.log_hook (run-Has ops c₁)))
