-- ===== src/Array/Owned/Element.antt =====
-- About `kira_bridge_clone_string_element` of runtime_helpers_arrays.inc.
use mathlib.Core.Path.{subst}
use kira_zig.Common.{
  ℕ, ◌≡◌, ◌≢◌, inl, inr, refl, sym, ap, ◌∙◌, true, false, none, some, ◌==◌, leb, if◌then◌else◌,
  arith, length, length-take, take, Bytes, Option-cases,
}
use kira_zig.BridgeValue.{BridgeValue, void, integer, float, string, boolean, raw_ptr}
use kira_zig.Memory.{
  Hooks, M, Outcome, invalid, bytes, Heap, ok, put, at_least_1, is_hybrid, allocate, place,
  malloc_bytes, and_then, pure, ◌>>=◌,
}
use kira_zig.Memory.Laws.{chunk, put_self, put_ne, IsAllocator}
use kira_zig.Array.Owned.Copies.{Readable, CopyOf, Kept}
use kira_zig.Array.Owned.{copy_bytes, load_bytes, clone_string_element}

true-ne-false : true ≢ false
true-ne-false e = cc

native-malloc : (hooks : Hooks) → is_hybrid hooks ≡ false → allocate hooks ≡ hooks.malloc
native-malloc hooks native = elim (Option-cases hooks.array_alloc) [
  | inl unset ↦ ap (λ o. elim o [ none ↦ hooks.malloc | some alloc ↦ alloc ]) unset
  | inr (alloc, set) ↦
      absurd (true-ne-false (sym (ap (λ o. elim o [ none ↦ false | some _ ↦ true ]) set) ∙ native))
]

-- The copy of an element, where no element function is given.
module _ (hooks : Hooks) (sound : IsAllocator hooks) (native : is_hybrid hooks ≡ false) where
  abbrev pub Copied : Heap → BridgeValue → Type 0
  Copied h x =
      (y : BridgeValue) × (h' : Heap) × (clone_string_element hooks x h ≡ ok y h')
      × CopyOf hooks h h' x y
      × Kept h h'

  pub clone_string_element-step : (h : Heap) (x : BridgeValue) → Readable h x → Copied h x
  unfolding clone_string_element load_bytes malloc_bytes
  clone_string_element-step h void r = (void, h, refl, refl, λ x ne. refl)
  clone_string_element-step h (integer n) r = (integer n, h, refl, refl, λ x ne. refl)
  clone_string_element-step h (float n) r = (float n, h, refl, refl, λ x ne. refl)
  clone_string_element-step h (boolean b) r = (boolean b, h, refl, refl, λ x ne. refl)
  clone_string_element-step h (raw_ptr p) r = (raw_ptr p, h, refl, refl, λ x ne. refl)
  clone_string_element-step h (string ptr len) (inl null) =
      let b : (ptr == 0) ≡ true = ground (arith, null) in
      (string ptr len, h, rw b refl, inl (null, refl), λ x ne. refl)
  clone_string_element-step h (string ptr len) (inr (real, n, bs, found, le)) =
      subst (λ r. Result r) (sym ran)
        (elim (Option-cases (hooks.malloc h (at_least_1 len))) [
          | inl refused ↦
              subst (λ o. Result (and_then (place (at_least_1 len) (bytes text) o h) rest))
                (sym refused)
                (
                  string 0 0,
                  h,
                  refl,
                  inr (inl (refl, h, (λ x there. there), (λ x there. there), refused)),
                  λ x ne. refl,
                )
          | inr (buf, granted) ↦
              let asked : allocate hooks h (at_least_1 len) ≡ some buf =
                ap (λ f. f h (at_least_1 len)) (native-malloc hooks native) ∙ granted in
              let free = sound.fresh h (at_least_1 len) buf asked in
              let there : (buf == 0) ≡ false =
                ground (arith, sound.real h (at_least_1 len) buf asked) in
              subst (λ o. Result (and_then (place (at_least_1 len) (bytes text) o h) rest))
                (sym granted)
                (
                  string buf len,
                  put buf (chunk (at_least_1 len) (bytes text)) h,
                  ap
                      (λ b.
                        (if b then pure (string 0 0) else pure (string buf len))
                          (put buf (chunk (at_least_1 len) (bytes text)) h))
                      there,
                  inr (inr (real, n, bs, buf, found, refl, free, put_self buf _ h)),
                  λ x ne. put_ne buf _ h (λ e. ne (ap h e ∙ free)),
                )
        ])
    where
      text : Bytes
      text = take len bs

      rest : ℕ → M BridgeValue
      rest buf = if buf == 0 then pure (string 0 0) else pure (string buf len)

      Result : Outcome BridgeValue → Type 0
      Result r =
          (y : BridgeValue) × (h' : Heap) × (r ≡ ok y h')
          × CopyOf hooks h h' (string ptr len) y
          × Kept h h'

      long : length text ≡ len
      long = omega (arith, length-take len bs, le)

      ran :
          clone_string_element hooks (string ptr len) h
          ≡ and_then (place (at_least_1 len) (bytes text) (hooks.malloc h (at_least_1 len)) h) rest
      ran =
          let ne : (ptr == 0) ≡ false = ground (arith, real) in
          let fits : leb len (length bs) ≡ true = ground (arith, le) in
          ap
            (λ b.
              (if b
                  then pure (string ptr len)
                  else (load_bytes ptr len >>= λ bs. malloc_bytes hooks bs >>= rest))
                h)
            ne
          ∙ ap (λ c. and_then (copy_bytes c ptr len h) (λ bs. malloc_bytes hooks bs >>= rest)) found
          ∙ ap
              (λ b.
                and_then ((if b then pure text else invalid) h)
                  (λ bs. malloc_bytes hooks bs >>= rest))
              fits
          ∙ ap
              (λ n.
                and_then (place (at_least_1 n) (bytes text) (hooks.malloc h (at_least_1 n)) h) rest)
              long
