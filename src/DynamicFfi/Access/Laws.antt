-- ===== src/DynamicFfi/Access/Laws.antt =====
-- About the typed reads and writes of dynamic_ffi_helpers.c: what is written is read back.
use native.Mathlib.Nat.{pow-suc}
use kira_zig.Common.{
  ℕ, zero, suc, ◌+◌, ◌*◌, ◌/◌, ◌%◌, ◌^◌, ◌≤◌, ◌<◌, ◌≡◌, ◌≢◌, ◌⊎◌, inl, inr, refl, sym, ap, ◌∙◌,
  none, some, ◌==◌, if◌then◌else◌, arith, Bool-cases, Option-cases,
}
use kira_zig.DynamicFfi.Access.{Memory, set_byte, push_byte, load, if_allocated, store}

-- `n` bytes from `a` on are allocated.
abbrev pub IsAllocated : (a n : ℕ) → Memory → Type 0
IsAllocated a n m = (x : ℕ) → a ≤ x → x < a + n → m x ≢ none

-- Outside of these bytes the memory is the same.
abbrev pub Outside : (a n : ℕ) → (m m' : Memory) → Type 0
Outside a n m m' = (x : ℕ) → (x < a ⊎ a + n ≤ x) → m' x ≡ m x

-- Nothing was freed.
abbrev pub Keeps : (m m' : Memory) → Type 0
Keeps m m' = (x : ℕ) → m x ≢ none → m' x ≢ none

pub set_byte_self : (a v : ℕ) (m : Memory) → set_byte a v m a ≡ some v
set_byte_self a v m = ground arith

pub set_byte_ne : (a v : ℕ) (m : Memory) (x : ℕ) → x ≢ a → set_byte a v m x ≡ m x
set_byte_ne a v m x ne = ground arith

pub set_byte-Keeps : (a v : ℕ) (m : Memory) → Keeps m (set_byte a v m)
set_byte-Keeps a v m x there e = elim (Bool-cases (x == a)) [
  | inl same ↦ cc
  | inr other ↦ there (sym (ap (λ b. if b then some v else m x) other) ∙ e)
]

-- What a write of a number leaves.
abbrev pub Stored : (width a v : ℕ) → (m m' : Memory) → Type 0
Stored w a v m m' = (load w a m' ≡ some v) × Outside a w m m' × Keeps m m'

pub store-Stored :
    (w a v : ℕ) (m : Memory)
    → IsAllocated a w m
    → v < 256 ^ w
    → (m' : Memory) × (store w a v m ≡ some m') × Stored w a v m m'
unfolding load store
store-Stored zero a v m allocated small =
    let e : 0 ≡ v = omega arith in (m, refl, (ap some e, (λ x out. refl), (λ x there. there)))
store-Stored (suc w) a v m allocated small = elim (Option-cases (m a)) [
  | inl e ↦ absurd (allocated a (omega arith) (omega arith) e)
  | inr (b, e) ↦
      let m₁ = set_byte a (v % 256) m in
      let power = pow-suc 256 w in
      let (m', stored, (back, out, keeps)) =
        store-Stored w (a + 1) (v / 256) m₁
          (λ x le lt. set_byte-Keeps a (v % 256) m x (allocated x (omega arith) (omega arith)))
          (omega (arith, power)) in
      let first : m' a ≡ some (v % 256) = out a (inl (omega arith)) ∙ set_byte_self a (v % 256) m in
      let whole : v % 256 + 256 * (v / 256) ≡ v = omega arith in
      (
        m',
        ap (λ o. if_allocated o (store w (a + 1) (v / 256) m₁)) e ∙ stored,
        (
          ap (λ o. push_byte o (load w (a + 1) m')) first
              ∙ ap (λ o. push_byte (some (v % 256)) o) back
              ∙ ap some whole,
          (λ x far.
              out x (elim far [ inl lt ↦ inl (omega arith) | inr le ↦ inr (omega arith) ])
              ∙ set_byte_ne a (v % 256) m x
                  (elim far [ inl lt ↦ (λ e. omega arith) | inr le ↦ (λ e. omega arith) ])),
          (λ x there. keeps x (set_byte-Keeps a (v % 256) m x there)),
        ),
      )
]

pub load_agree :
    (w a : ℕ) (m m' : Memory)
    → ((x : ℕ) → a ≤ x → x < a + w → m' x ≡ m x)
    → load w a m' ≡ load w a m
unfolding load
load_agree zero a m m' same = refl
load_agree (suc w) a m m' same =
    ap (λ b. push_byte b (load w (a + 1) m')) (same a (omega arith) (omega arith))
    ∙ ap (push_byte (m a))
        (load_agree w (a + 1) m m' (λ x le lt. same x (omega arith) (omega arith)))
