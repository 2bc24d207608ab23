-- ===== src/Array/Alloc.antt =====
-- About `kira_array_alloc` of runtime_helpers_arrays.inc.
use kira_zig.Common.{
  length-replicate, ℕ, zero, suc, ◌*◌, ◌^◌, ◌<◌, ◌≡◌, ◌≢◌, refl, sym, ap, ◌∙◌, pos, false, none,
  some, ◌∷◌, ◌==◌, arith, take, replicate, Option-cases, ◌⊎◌, inl, inr,
}
use kira_zig.BridgeValue.{void}
use kira_zig.Memory.{
  KiraArray, Hooks, header, Heap, ok, put, cell_size, header_size, at_least_1, allocate,
}
use kira_zig.Memory.Laws.{
  chunk, put_self, put_ne, store_header-step, bridge_free-step, bridge_alloc-some,
  bridge_alloc-none, IsAllocator,
}
use kira_zig.Array.{alloc_items, array_alloc}
use kira_zig.Array.Layout.{IsArray, Apart}
use kira_zig.Array.Copy.{fresh_items, bridge_calloc-step}

-- A new array of `len` VOID elements at `a`; what was allocated is untouched.
pub record IsNew (h : Heap) (len a : ℕ) (h' : Heap) : Type 0 where
  pub array : IsArray h' a (replicate len void)
  pub unused : h a ≡ none
  pub unused_items : h array.r.items ≡ none
  pub kept : (x : ℕ) → Apart array x → h' x ≡ h x

take-replicate : (n : ℕ) → take n (replicate (at_least_1 n) void) ≡ replicate n void
take-replicate zero = refl
take-replicate (suc n) = ap (λ k. take (suc n) (replicate k void)) (one_more n) ∙ go (suc n)
  where
    one_more : (n : ℕ) → at_least_1 (suc n) ≡ suc n
    one_more n = ground arith

    go : (n : ℕ) → take n (replicate n void) ≡ replicate n void
    go zero = refl
    go (suc n) = ap (λ r. void ∷ r) (go n)

module _ (hooks : Hooks) (sound : IsAllocator hooks) (h : Heap) (len : ℕ)
    (small : at_least_1 len * cell_size < 2 ^ 64) where
  pub Allocates : ℕ → Heap → Type 0
  Allocates a h' = ((a ≡ 0) × ((x : ℕ) → h' x ≡ h x)) ⊎ IsNew h len a h'

  module _ (a : ℕ) (granted : allocate hooks h header_size ≡ some a) where
    blank : KiraArray
    blank = record { len = len; items = 0; cap = len }

    fields : ℕ → KiraArray
    fields p = record { len = len; items = p; cap = len }

    -- The heap with the header.
    h₁ : Heap
    h₁ = put a (chunk header_size (header blank)) h

    undone : (x : ℕ) → put a none h₁ x ≡ h x
    unfolding h₁ put
    undone x = ground (arith, sound.fresh h header_size a granted)

    new :
        (p : ℕ)
        → allocate hooks h₁ (at_least_1 len * cell_size) ≡ some p
        → IsNew h len a
            (put a (chunk header_size (header (fields p))) (fresh_items (at_least_1 len) p h₁))
    unfolding h₁ fields
    new p found =
        let n = at_least_1 len in
        let free = sound.fresh h₁ (n * cell_size) p found in
        let p≢a : p ≢ a =
          λ e. cc (ap h₁ e, put_self a (chunk header_size (header blank)) h, free) in
        let h₂ = fresh_items n p h₁ in
        record {
          array = record {
            r = fields p;
            vs = replicate n void;
            at_header = put_self a _ h₂;
            at_items = put_ne a _ h₂ p≢a ∙ put_self p _ h₁;
            full = length-replicate n void;
            fits = omega arith;
            live = take-replicate len;
            real = sound.real h header_size a granted;
            real_items = sound.real h₁ (n * cell_size) p found;
            bounded = sound.possible h₁ (n * cell_size) p found;
          };
          unused = sound.fresh h header_size a granted;
          unused_items = sym (put_ne a (chunk header_size (header blank)) h p≢a) ∙ free;
          kept = λ x apart. put_ne a _ h₂ apart.0 ∙ put_ne p _ h₁ apart.1 ∙ put_ne a _ h apart.0;
        }

    alloc_items-step :
        (b : ℕ) × (h' : Heap) × (alloc_items hooks a len h₁ ≡ ok b h') × Allocates b h'
    unfolding alloc_items Allocates fields h₁
    alloc_items-step =
        let at_a : h₁ a ≡ chunk header_size (header blank) =
          put_self a (chunk header_size (header blank)) h in
        let a_real : a ≢ 0 = omega (arith, sound.real h header_size a granted) in
        let n = at_least_1 len in
        elim (bridge_calloc-step hooks h₁ n (ground arith) small) [
          | inl (ran, _) ↦ (
            0,
            put a none h₁,
            rw (ran, bridge_free-step hooks h₁ a header_size a_real (omega arith) at_a) refl,
            inl (refl, undone),
          )
          | inr (p, found, ran) ↦
              let p_real : (p == 0) ≡ false =
                ground (arith, sound.real h₁ (n * cell_size) p found) in
              let free = sound.fresh h₁ (n * cell_size) p found in
              let h₂ = fresh_items n p h₁ in
              let a≢p : a ≢ p = λ e. cc (ap h₁ (sym e), at_a, free) in
              let a_at : h₂ a ≡ chunk header_size (header blank) = put_ne p _ h₁ a≢p ∙ at_a in
              (
                a,
                put a (chunk header_size (header (fields p))) h₂,
                rw (ran, p_real, store_header-step h₂ a (fields p) a_at) refl,
                inr (new p found),
              )
        ]

  -- An allocation always returns: either NULL, with the heap as before, or the address of a new array
  -- of `len` VOID elements, with all else untouched. The allocator gives new addresses above the
  -- first page, and the size of the buffer does not wrap around.
  alloc-Allocates :
      (a : ℕ) × (h' : Heap) × (array_alloc hooks (pos len) h ≡ ok a h') × Allocates a h'
  unfolding array_alloc h₁ Allocates blank
  alloc-Allocates = elim (Option-cases (allocate hooks h header_size)) [
    | inl refused ↦
        (0, h, rw (bridge_alloc-none hooks h header_size _ refused) refl, inl (refl, λ x. refl))
    | inr (a, granted) ↦
        let (b, h', ran, done) = alloc_items-step a granted in
        let real : (a == 0) ≡ false = ground (arith, sound.real h header_size a granted) in
        (b, h', rw (bridge_alloc-some hooks h header_size _ granted, real) ran, done)
  ]
