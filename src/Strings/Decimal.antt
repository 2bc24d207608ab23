-- ===== src/Strings/Decimal.antt =====
-- About `kira_string_from_i64` of runtime_helpers.c, against a reader of decimal text.
use kira_zig.Common.{
  ℕ, zero, suc, ◌+◌, ◌-◌, ◌*◌, ◌^◌, ◌≤◌, ◌<◌, ◌≡◌, ◌≢◌, ◌⊎◌, inl, inr, refl, ap, ◌∙◌, ℤ, pos,
  negsuc, Option, none, some, [], ◌∷◌, ◌==◌, if◌then◌else◌, arith, length, Bytes, Bool-cases,
  Option-cases,
}
use kira_zig.Memory.{Hooks, Heap, ok, trap, bytes, put, at_least_1, malloc_bytes, place}
use kira_zig.Memory.Laws.{chunk, put_self, put_ne}
use kira_zig.Strings.{BridgeString, string_out}

-- The number that some digits stand for, after those that stand for `n`.
pub value_after : ℕ → Bytes → ℕ
value_after n [] = n
value_after n (d ∷ ds) = value_after (n * 10 + (d - 48)) ds

abbrev pub minus : ℕ → ℤ
minus zero = pos 0
minus (suc n) = negsuc n

-- A reader of decimal text.
pub parse : Bytes → ℤ
parse [] = pos 0
parse (c ∷ cs) = if c == b'-' then minus (value_after 0 cs) else pos (value_after 0 (c ∷ cs))

-- A text that starts with a digit.
abbrev pub Positive : Bytes → Type 0
Positive [] = Unit
Positive (c ∷ cs) = 48 ≤ c

-- `int64_t`.
abbrev pub IsInt64 : ℤ → Type 0
IsInt64 (pos n) = n < 2 ^ 63
IsInt64 (negsuc n) = n < 2 ^ 63

-- A string at `r`, which is not NULL, holds `bs`, and nothing else has changed.
abbrev pub Holds : Heap → Bytes → BridgeString → Heap → Type 0
Holds h bs r h' =
    (r.ptr ≢ 0)
    × (h' r.ptr ≡ chunk (at_least_1 (length bs)) (bytes bs))
    × (r.len ≡ length bs)
    × ((x : ℕ) → x ≢ r.ptr → h' x ≡ h x)

module _ (hooks : Hooks) (h : Heap) where
  malloc_bytes-step :
      (bs : Bytes) (o : Option ℕ)
      → hooks.malloc h (at_least_1 (length bs)) ≡ o
      → malloc_bytes hooks bs h ≡ place (at_least_1 (length bs)) (bytes bs) o h
  unfolding malloc_bytes
  malloc_bytes-step bs o e = ap (λ o. place (at_least_1 (length bs)) (bytes bs) o h) e

  -- `malloc` gives NULL.
  abbrev pub Refused : Bytes → Type 0
  Refused bs =
      (hooks.malloc h (at_least_1 (length bs)) ≡ none)
      ⊎ (hooks.malloc h (at_least_1 (length bs)) ≡ some 0)

  pub string_out-Holds :
      (bs : Bytes)
      → ((string_out hooks bs h ≡ trap) × Refused bs)
        ⊎ ((r : BridgeString) × (h' : Heap) × (string_out hooks bs h ≡ ok r h') × Holds h bs r h')
  unfolding string_out
  string_out-Holds bs = elim (Option-cases (hooks.malloc h (at_least_1 (length bs)))) [
    | inl refused ↦ inl (rw (malloc_bytes-step bs none refused) refl, inl refused)
    | inr (p, granted) ↦ elim (Bool-cases (p == 0)) [
      | inl null ↦
          let zero_p : p ≡ 0 = ground arith in
          inl
            (rw (malloc_bytes-step bs (some p) granted, null) refl, inr (granted ∙ ap some zero_p))
      | inr real ↦ inr (
        record { ptr = p; len = length bs },
        put p (chunk (at_least_1 (length bs)) (bytes bs)) h,
        rw (malloc_bytes-step bs (some p) granted, real) refl,
        (ground arith, put_self p _ h, refl, λ x ne. put_ne p _ h ne),
      )
    ]
  ]
