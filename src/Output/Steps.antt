-- ===== src/Output/Steps.antt =====
-- About the output of runtime_helpers.c: a trace, and the write after it.
use mathlib.Core.Path.{subst}
use kira_zig.Common.{
  ℕ, zero, suc, ◌+◌, ◌≡◌, refl, sym, ap, ◌∙◌, inl, inr, ℤ, pos, negsuc, Bool, true, false, not,
  ◌&&◌, ◌||◌, [], ◌++◌, if◌then◌else◌, Bytes, codes, append_assoc, append-nil, arith, Bool-cases,
}
use kira_zig.Output.{
  Console, Env, newline, is_set, is_negative, trace_line, write_stdout, trace_log, trace_print,
  write_newline,
}
use kira_zig.Output.Effects.{Effect, traced_line, traced, is_tracing}

module _ (env : Env) where
  -- The console after what the effect says.
  pub record Has (e : Effect) (c c' : Console) : Type 0 where
    pub out : c'.stdout ≡ c.stdout ++ e.text
    pub err : c'.stderr ≡ c.stderr ++ e.told (is_tracing env c.trace)
    pub on : is_tracing env c'.trace ≡ e.turn (is_tracing env c.trace)
    pub unset : is_negative c'.trace ≡ (is_negative c.trace && not (e.asks || e.sets))
    pub looked : c'.lookups ≡ c.lookups + (if is_negative c.trace && e.asks then 1 else 0)
    pub called : c'.hook_calls ≡ c.hook_calls ++ e.calls
    pub frame_hook : c'.first_frame_hook ≡ e.frame_hook
    pub log_hook : c'.log_hook ≡ e.log_hook

  -- `kira_trace_execution_enabled` after a question.
  abbrev settled : ℤ → ℤ
  settled t = if is_negative t then (if is_set env.trace_execution then pos 1 else pos 0) else t

  abbrev asked : Bytes → Console → Console
  asked line c = record c {
    stderr = c.stderr ++ (if is_tracing env c.trace then line else []);
    trace = settled c.trace;
    lookups = if is_negative c.trace then suc c.lookups else c.lookups;
  }

  trace_log-asked :
      (domain event m : Bytes) (c : Console) (t : ℤ)
      → trace_log env domain event m (record c { trace = t })
        ≡ asked (trace_line domain event m) (record c { trace = t })
  unfolding trace_log
  trace_log-asked domain event m c (pos zero) =
      ap (λ e. record c { stderr = e; trace = pos 0 }) (sym (append-nil c.stderr))
  trace_log-asked domain event m c (pos (suc n)) = refl
  trace_log-asked domain event m c (negsuc n) = elim (Bool-cases (is_set env.trace_execution)) [
    | inl on ↦ rw on refl
    | inr off ↦ rw off (
        ap (λ e. record c { stderr = e; trace = pos 0; lookups = suc c.lookups })
          (sym (append-nil c.stderr)))
  ]

  settled-is_tracing : (t : ℤ) → is_tracing env (settled t) ≡ is_tracing env t
  settled-is_tracing (pos n) = refl
  settled-is_tracing (negsuc n) = elim (Bool-cases (is_set env.trace_execution)) [
    | inl on ↦ rw on refl
    | inr off ↦ rw off refl
  ]

  settled-is_negative : (t : ℤ) → is_negative (settled t) ≡ false
  settled-is_negative (pos n) = refl
  settled-is_negative (negsuc n) = elim (Bool-cases (is_set env.trace_execution)) [
    | inl on ↦ rw on refl
    | inr off ↦ rw off refl
  ]

  pub never : (b : Bool) → false ≡ (b && false)
  never b = ground arith

  pub always : (b : Bool) → b ≡ (b && true)
  always b = ground arith

  one_more : (b : Bool) (n : ℕ) → (if b then suc n else n) ≡ n + (if b && true then 1 else 0)
  one_more b n = ground arith

  pub no_more : (b : Bool) (n : ℕ) → n ≡ n + (if b && false then 1 else 0)
  no_more b n = ground arith

  abbrev pub Traced : (m text : Bytes) → Console → Console → Type 0
  Traced m text c c' = Has (traced c.first_frame_hook c.log_hook m text) c c'

  asked-Traced :
      (m text : Bytes) (c : Console)
      → Traced m text c (record (asked (traced_line m) c) { stdout = c.stdout ++ text })
  asked-Traced m text c = record {
    out = refl;
    err = refl;
    on = settled-is_tracing c.trace;
    unset = settled-is_negative c.trace ∙ never (is_negative c.trace);
    looked = one_more (is_negative c.trace) c.lookups;
    called = sym (append-nil c.hook_calls);
    frame_hook = refl;
    log_hook = refl;
  }

  -- A write of a text, and a write of it with a newline after it.
  pub write-Traced :
      (m text : Bytes) (c : Console) → Traced m text c (write_stdout text (trace_print env m c))
  unfolding trace_log
  write-Traced m text c =
      subst (Traced m text c)
        (sym
          (ap (write_stdout text) (trace_log-asked (codes "NATIVE") (codes "PRINT") m c c.trace)))
        (asked-Traced m text c)

  pub line-Traced :
      (m text : Bytes) (c : Console)
      → Traced m (text ++ newline) c (write_newline (write_stdout text (trace_print env m c)))
  unfolding trace_log
  line-Traced m text c =
      subst (Traced m (text ++ newline) c)
        (sym (
          ap (λ k. write_newline (write_stdout text k))
            (trace_log-asked (codes "NATIVE") (codes "PRINT") m c c.trace)
          ∙ ap (λ o. record (asked (traced_line m) c) { stdout = o })
              (append_assoc c.stdout text newline)))
        (asked-Traced m (text ++ newline) c)
