-- ===== src/Array/Owned/Clone.antt =====
-- About `kira_array_clone` of runtime_helpers_arrays.inc: the loop over the elements, and the copy.
use mathlib.Core.Path.{subst}
use kira_zig.Common.{
  ℕ, ◌*◌, ◌^◌, ◌<◌, ◌≡◌, inl, inr, refl, sym, ap, ◌∙◌, false, not, ◌||◌, none, some, List, ◌==◌,
  if◌then◌else◌, arith, length, get_elem?, Option-cases,
}
use kira_zig.BridgeValue.{BridgeValue}
use kira_zig.Memory.{
  Hooks, header, Heap, ok, put, cell_size, header_size, is_hybrid, allocate, and_then, pure, ◌>>=◌,
  bridge_alloc, load_header,
}
use kira_zig.Memory.Laws.{
  chunk, put_self, put_ne, IsAllocator, load_header-step, store_header-step, bridge_alloc-some,
  bridge_alloc-none,
}
use kira_zig.Array.{probably_invalid, is_active, emptied}
use kira_zig.Array.Layout.{IsArray, is_active-real, length-live}
use kira_zig.Array.Copy.{bridge_calloc-step}
use kira_zig.Array.Owned.{clone_items, array_clone}
use kira_zig.Array.Owned.Copies.{Readable}
use kira_zig.Array.Owned.Built.{with_header, Clones, h₁, h₂, fields, free, kept₁, at_b, copied}

module _ (hooks : Hooks) (sound : IsAllocator hooks) (native : is_hybrid hooks ≡ false) {h : Heap}
    {a : ℕ} {xs : List BridgeValue} (v : IsArray h a xs) (some_values : 0 < length xs)
    (readable : (k : ℕ) (x : BridgeValue) → get_elem? xs k ≡ some x → Readable h x) where
  -- Once the header stands at `b`.
  module _ (b : ℕ) (granted : allocate hooks h header_size ≡ some b) where
    clone_items-step :
        (b' : ℕ) × (h' : Heap) × (clone_items hooks none v.r b
            (h₁ hooks sound native v some_values readable b granted)
          ≡ ok b' h')
        × Clones hooks h xs b' h'
    unfolding clone_items h₁ h₂ fields
    clone_items-step =
        let n = v.r.len in
        let g = h₁ hooks sound native v some_values readable b granted in
        let unused = free hooks sound native v some_values readable b granted in
        let stays = kept₁ hooks sound native v some_values readable b granted in
        let at_g = at_b hooks sound native v some_values readable b granted in
        let backed : ((n == 0) || (v.r.items == 0) || probably_invalid v.r.items) ≡ false =
          ground (arith, some_values, length-live v, v.real_items) in
        let small : n * cell_size < 2 ^ 64 = ground (arith, v.fits, v.bounded) in
        elim (bridge_calloc-step hooks g n (omega (arith, some_values, length-live v)) small) [
          | inl (ran, refused) ↦ (
            b,
            put b (chunk header_size (header emptied)) g,
            rw (backed, ran, store_header-step g b emptied at_g) refl,
            inr (
                inl (
                  unused,
                  subst (λ m. allocate hooks (with_header b m h) (m * cell_size) ≡ none)
                      (sym (length-live v)) refused,
                  put_self b _ g,
                  λ x there. put_ne b _ g (λ e. there (ap h e ∙ unused)) ∙ stays x there,
                )),
          )
          | inr (p, found, ran) ↦
              let p_real : (p == 0) ≡ false =
                ground (arith, sound.real g (n * cell_size) p found) in
              let (h', done, clone) =
                copied hooks sound native v some_values readable b granted p found in
              (b, h', rw (backed, ran, p_real) done, inr (inr clone))
        ]

  -- A native clone of a well-formed array with elements always returns: NULL with the heap as before
  -- where the header was refused, an empty array where the buffer was refused after that, or a
  -- well-formed array of the same length in new allocations. Each element is then equal to the original, but a string that is not NULL has a new
  -- buffer of its own with the same bytes, or is empty and NULL where `malloc` refused the buffer at a heap between the one before and the one
  -- after. What was
  -- allocated before stays. There is no element function; the strings of the array are readable.
  pub clone-Clones :
      (b : ℕ) × (h' : Heap) × (array_clone hooks none a h ≡ ok b h') × Clones hooks h xs b h'
  unfolding array_clone h₁ fields
  clone-Clones =
      let cloned = load_header a >>= λ r.
      bridge_alloc hooks header_size (header (record { len = r.len; items = 0; cap = r.len }))
      >>= λ copy. if copy == 0 then pure 0 else clone_items hooks none r copy in
      let start : array_clone hooks none a h
          ≡ and_then
              (bridge_alloc hooks header_size
                (header (record { len = v.r.len; items = 0; cap = v.r.len })) h)
              (λ copy. if copy == 0 then pure 0 else clone_items hooks none v.r copy) =
        ap (λ t. (if t then pure a else (if not (is_active a) then pure 0 else cloned)) h) native
        ∙ ap (λ t. (if not t then pure 0 else cloned) h) (is_active-real a v.real)
        ∙ ap
            (λ o. and_then o (λ r.
              bridge_alloc hooks header_size
                (header (record { len = r.len; items = 0; cap = r.len }))
              >>= λ copy. if copy == 0 then pure 0 else clone_items hooks none r copy))
            (load_header-step h a v.at_header) in
      elim (Option-cases (allocate hooks h header_size)) [
        | inl refused ↦ (
          0,
          h,
          start
              ∙ ap
                  (λ o.
                    and_then o
                      (λ copy. if copy == 0 then pure 0 else clone_items hooks none v.r copy))
                  (bridge_alloc-none hooks h header_size _ refused),
          inl (refl, refused, λ x. refl),
        )
        | inr (b, granted) ↦
            let (b', h', ran, clones) = clone_items-step b granted in
            let real : (b == 0) ≡ false = ground (arith, sound.real h header_size b granted) in
            (
              b',
              h',
              start
                  ∙ ap
                      (λ o.
                        and_then o
                          (λ copy. if copy == 0 then pure 0 else clone_items hooks none v.r copy))
                      (bridge_alloc-some hooks h header_size _ granted)
                  ∙ ap
                      (λ t.
                        (if t then pure 0 else clone_items hooks none v.r b)
                          (h₁ hooks sound native v some_values readable b granted))
                      real
                  ∙ ran,
              clones,
            )
      ]
