-- ===== src/DynamicFfi/Copies.antt =====
-- The copies of dynamic_ffi_helpers.c: a span of floats into a buffer, and a C string into a block of its own;
-- and its wrappers of `calloc` and `free`.
use mathlib.Core.Path.{subst}
use kira_zig.Common.{
  ℕ, ◌+◌, ◌*◌, ◌≡◌, ◌≢◌, refl, sym, ap, ◌∙◌, inl, inr, Bool, true, false, ◌||◌, Option, none, some,
  [], ◌∷◌, ◌++◌, ◌==◌, if◌then◌else◌, length, Bytes, arith, length-append, Bool-cases,
}
use kira_zig.DynamicFfi.Access.{Memory, address, unless_null}
use kira_zig.DynamicFfi.Access.Laws.{IsAllocated, Outside}
use kira_zig.RawHeap.{RawHeap, place, free_block, write_bytes, read_bytes}
use kira_zig.RawHeap.Laws.{
  IsFree, place-IsAllocated, free_block-place, write_bytes-read_bytes, length-read_bytes,
}

-- `memcpy` of regions that do not overlap.
abbrev pub copied : (dst : ℕ) → Option Bytes → Memory → Option Memory
copied dst none m = none
copied dst (some bs) m = write_bytes dst bs m

-- `count` is a `uint32_t`, so that its bytes do not wrap around.
unfoldable pub write_f32_span : (dst offset src count : ℕ) → Memory → Option Memory
unfolding write_bytes read_bytes
write_f32_span dst offset src count m =
    if dst == 0 || src == 0 || count == 0
    then some m
    else copied (address dst offset) (read_bytes (count * 4) src m) m

abbrev pub with_memory : (result : ℕ) → RawHeap → Option Memory → Option (ℕ × RawHeap)
with_memory result h none = none
with_memory result h (some m) = some (result, record h { memory = m })

-- `answer` is what `malloc` gives, `junk` what its block holds, and `text` the bytes before the terminator.
unfoldable pub cstring_dup :
    (answer : Option ℕ) → (junk : ℕ → ℕ) → Option Bytes → RawHeap → Option (ℕ × RawHeap)
unfolding place write_bytes
cstring_dup answer junk none h = some (0, h)
cstring_dup none junk (some text) h = some (0, h)
cstring_dup (some a) junk (some text) h =
    let h₁ = place junk a (length text + 1) h in
    with_memory a h₁ (write_bytes a (text ++ 0 ∷ []) h₁.memory)

-- `none` is the empty string of the program.
abbrev pub cstring_at : (ptr offset : ℕ) → Option ℕ
cstring_at ptr offset = unless_null ptr none (some (address ptr offset))

-- `calloc(1, …)`, whose block is zeros.
unfoldable pub dynamic_alloc : (answer : Option ℕ) → (size : ℕ) → RawHeap → ℕ × RawHeap
unfolding place
dynamic_alloc none size h = (0, h)
dynamic_alloc (some a) size h = (a, place (λ x. 0) a (if size == 0 then 1 else size) h)

abbrev pub dynamic_free : (ptr : ℕ) → RawHeap → Option RawHeap
dynamic_free ptr h = free_block ptr h

-- With pointers that are not NULL, and spans of allocated bytes that do not overlap, the bytes of `count`
-- floats stand at the target, and no other byte changes.
pub write_f32_span-read_bytes :
    (dst offset src count : ℕ) (bs : Bytes) (m : Memory)
    → dst ≢ 0
    → src ≢ 0
    → read_bytes (count * 4) src m ≡ some bs
    → IsAllocated (address dst offset) (count * 4) m
    → (m' : Memory) × (write_f32_span dst offset src count m ≡ some m')
      × (read_bytes (count * 4) (address dst offset) m' ≡ some bs)
      × Outside (address dst offset) (count * 4) m m'
unfolding write_f32_span read_bytes
write_f32_span-read_bytes dst offset src count bs m ne ne' got al = elim (Bool-cases (count == 0)) [
  | inl empty ↦
      let none_left : count * 4 ≡ 0 = ground arith in
      (
        m,
        ap
              (λ b.
                if dst == 0 || src == 0 || b
                then some m
                else copied target (read_bytes (count * 4) src m) m)
              empty
            ∙ skipped (dst == 0) (src == 0) (some m)
                (copied target (read_bytes (count * 4) src m) m),
        nothing target none_left ∙ sym (nothing src none_left) ∙ got,
        (λ x out. refl),
      )
  | inr some_left ↦
      let long = length-read_bytes (count * 4) src bs m got in
      let (m', written, back, out, _) =
        write_bytes-read_bytes target bs m (λ x le lt. al x le (omega (arith, long))) in
      (
        m',
        ap
              (λ b.
                if b || src == 0 || count == 0
                then some m
                else copied target (read_bytes (count * 4) src m) m)
              (is_nonnull dst ne)
            ∙ ap
                (λ b.
                  if b || count == 0
                  then some m
                  else copied target (read_bytes (count * 4) src m) m)
                (is_nonnull src ne')
            ∙ ap (λ b. if b then some m else copied target (read_bytes (count * 4) src m) m)
                some_left
            ∙ ap (λ o. copied target o m) got
            ∙ written,
        subst (λ n. read_bytes n target m' ≡ some bs) long back,
        (λ x far. out x (elim far [ inl lt ↦ inl lt | inr le ↦ inr (omega (arith, long)) ])),
      )
]
  where
    target : ℕ
    target = address dst offset

    nothing : (a : ℕ) → count * 4 ≡ 0 → read_bytes (count * 4) a m ≡ some []
    nothing a e = ap (λ n. read_bytes n a m) e

    skipped : (b c : Bool) (x y : Option Memory) → (if b || c || true then x else y) ≡ x
    skipped true c x y = refl
    skipped false true x y = refl
    skipped false false x y = refl

    is_nonnull : (p : ℕ) → p ≢ 0 → (p == 0) ≡ false
    is_nonnull p ne = ground arith

-- Where `malloc` gives a free block, the copy of a string has its bytes and a terminator, and a
-- `kira_dynamic_free` of the copy leaves the heap as it was. NULL, and a `malloc` that fails, give NULL.
pub cstring_dup-dynamic_free :
    (a : ℕ) (junk : ℕ → ℕ) (text : Bytes) (h : RawHeap)
    → IsFree h a (length text + 1)
    → (h' : RawHeap) × (cstring_dup (some a) junk (some text) h ≡ some (a, h'))
      × (read_bytes (length text + 1) a h'.memory ≡ some (text ++ 0 ∷ []))
      × (dynamic_free a h' ≡ some h)
      × (cstring_dup none junk (some text) h ≡ some (0, h))
      × (cstring_dup (some a) junk none h ≡ some (0, h))
unfolding cstring_dup
cstring_dup-dynamic_free a junk text h free =
    let n = length text + 1 in
    let h₁ = place junk a n h in
    let long : length (text ++ 0 ∷ []) ≡ n = length-append text (0 ∷ []) in
    let (m', written, back, out, _) =
      write_bytes-read_bytes a (text ++ 0 ∷ []) h₁.memory
        (λ x le lt. place-IsAllocated junk a n h x le (omega (arith, long))) in
    (
      record h₁ { memory = m' },
      ap (with_memory a h₁) written,
      subst (λ k. read_bytes k a m' ≡ some (text ++ 0 ∷ [])) long back,
      free_block-place junk a n h m' free
          (λ x far. out x (elim far [ inl lt ↦ inl lt | inr le ↦ inr (omega (arith, long)) ])),
      refl,
      refl,
    )
