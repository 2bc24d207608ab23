-- ===== src/ArgumentParser/Kinds.antt =====
-- About `kap_classify_token` and `kap_is_help_token` of argument_parser.c.
use kira_zig.Common.{ℕ, ◌<◌, ◌≡◌, ◌≢◌, refl, ◌↔◌, Option, none, some, [], ◌∷◌, arith, Bytes, All}
use mathlib.Core.Path.{subst}
use native.Mathlib.Decide.{ℕ_discrete}
use kira_zig.ArgumentParser.{
  TokenKind, positional, long_option, short_option, command_terminator, empty, dash, classify_token,
}

-- No byte of a C string is its terminator.
abbrev pub IsCString : Bytes → Type 0
IsCString = All (λ c. 0 < c)

-- The kinds by shape: `t` is what stands on the command line.
pub data Shape : Option Bytes → TokenKind → Type 0 where
  null : Shape none empty
  blank : Shape (some []) empty
  terminator : {t : Bytes} → t ≡ dash ∷ dash ∷ [] → Shape (some t) command_terminator
  long : {t rest : Bytes} {c : ℕ} → t ≡ dash ∷ dash ∷ c ∷ rest → Shape (some t) long_option
  short : {t rest : Bytes} {c : ℕ} → t ≡ dash ∷ c ∷ rest → c ≢ dash → Shape (some t) short_option
  lone_dash : {t : Bytes} → t ≡ dash ∷ [] → Shape (some t) positional
  plain : {t rest : Bytes} {c : ℕ} → t ≡ c ∷ rest → c ≢ dash → Shape (some t) positional

abbrev pub IsToken : Option Bytes → Type 0
IsToken none = Unit
IsToken (some t) = IsCString t

classify-plain :
    (c : ℕ) (rest : Bytes) → 0 < c → c ≢ dash → classify_token (some (c ∷ rest)) ≡ positional
unfolding classify_token
classify-plain c rest h ne = ground arith

classify-short :
    (c d : ℕ) (rest : Bytes)
    → 0 < d
    → c ≡ dash
    → d ≢ dash
    → classify_token (some (c ∷ d ∷ rest)) ≡ short_option
unfolding classify_token
classify-short c d rest h e ne = ground arith

classify-long :
    (c d x : ℕ) (rest : Bytes)
    → 0 < x
    → c ≡ dash
    → d ≡ dash
    → classify_token (some (c ∷ d ∷ x ∷ rest)) ≡ long_option
unfolding classify_token
classify-long c d x rest h e e' = ground arith

classify-lone_dash : (c : ℕ) → c ≡ dash → classify_token (some (c ∷ [])) ≡ positional
unfolding classify_token
classify-lone_dash c e = ground arith

classify-terminator :
    (c d : ℕ) → c ≡ dash → d ≡ dash → classify_token (some (c ∷ d ∷ [])) ≡ command_terminator
unfolding classify_token
classify-terminator c d e e' = ground arith

Shape-dash_dash :
    (c d : ℕ) (rest : Bytes)
    → IsCString rest
    → c ≡ dash
    → d ≡ dash
    → Shape (some (c ∷ d ∷ rest)) (classify_token (some (c ∷ d ∷ rest)))
Shape-dash_dash c d [] h e e' = rw (classify-terminator c d e e') (terminator (cc))
Shape-dash_dash c d (x ∷ rest) h e e' =
    rw (classify-long c d x rest h.0 e e') (long {rest = rest} {c = x} (cc))

Shape-dash :
    (c : ℕ) (rest : Bytes)
    → IsCString rest
    → c ≡ dash
    → Shape (some (c ∷ rest)) (classify_token (some (c ∷ rest)))
Shape-dash c [] h e = rw (classify-lone_dash c e) (lone_dash (cc))
Shape-dash c (d ∷ rest) h e = elim (ℕ_discrete d dash) [
  | yes e' ↦ Shape-dash_dash c d rest h.1 e e'
  | no ne ↦ rw (classify-short c d rest h.0 e ne) (short {rest = rest} {c = d} (cc) ne)
]

-- Every token has the shape of its kind.
pub classify-Shape : (t : Option Bytes) → IsToken t → Shape t (classify_token t)
classify-Shape none h = unfold classify_token in null
classify-Shape (some []) h = unfold classify_token in blank
classify-Shape (some (c ∷ rest)) h = elim (ℕ_discrete c dash) [
  | yes e ↦ Shape-dash c rest h.1 e
  | no ne ↦ rw (classify-plain c rest h.0 ne) (plain refl ne)
]

Shape-classify : {t : Option Bytes} {k : TokenKind} → IsToken t → Shape t k → classify_token t ≡ k
Shape-classify h null = unfold classify_token in refl
Shape-classify h blank = unfold classify_token in refl
Shape-classify h (terminator e) = rw e (classify-terminator dash dash refl refl)
Shape-classify {t} h (long {t = s} {rest} {c} e) =
    rw e (classify-long dash dash c rest (subst IsCString e h).1.1.0 refl refl)
Shape-classify h (short {rest} {c} e ne) =
    rw e (classify-short dash c rest (subst IsCString e h).1.0 refl ne)
Shape-classify h (lone_dash e) = rw e (classify-lone_dash dash refl)
Shape-classify h (plain {rest} {c} e ne) = rw e (classify-plain c rest (subst IsCString e h).0 ne)

-- `kap_classify_token` gives a token the kind `k` exactly when the token has the shape of `k`: NULL
-- and the empty string are empty, `--` is the terminator, two dashes and a further byte start a
-- long option, one dash and a byte other than a dash a short option, and all else, a lone dash
-- included, is positional. The bytes of the token are not NUL.
pub classify_token-Shape :
    (t : Option Bytes) (k : TokenKind) → IsToken t → (classify_token t ≡ k) ↔ Shape t k
classify_token-Shape t k h = (λ e. subst (Shape t) e (classify-Shape t h), Shape-classify h)
