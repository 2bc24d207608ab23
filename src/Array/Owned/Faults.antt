-- ===== src/Array/Owned/Faults.antt =====
-- About `kira_array_store_release` and `kira_array_clone` of runtime_helpers_arrays.inc at arrays whose
-- buffer pointer is a sentinel.
use kira_zig.Common.{
  ℕ, ◌≤◌, ◌<◌, ◌≡◌, ◌≢◌, refl, ap, ◌∙◌, pos, true, false, not, ◌||◌, Option, none, some, ◌==◌, ltb,
  if◌then◌else◌, arith,
}
use kira_zig.BridgeValue.{BridgeValue}
use kira_zig.Memory.{
  KiraArray, Hooks, header, Heap, M, ok, fault, put, header_size, pure, ◌>>=◌, ◌>>◌, is_hybrid,
  load_cells, load_header, allocate, bridge_alloc,
}
use kira_zig.Memory.Laws.{
  chunk, put_self, put_ne, load_header-step, store_header-step, bridge_alloc-some, IsAllocator,
}
use kira_zig.Array.{
  is_active, probably_invalid, emptied, repair_invalid_storage, read_cell, write_cell, array_load,
}
use kira_zig.Array.Layout.{is_active-real}
use kira_zig.Array.Owned.{
  Destructor, release_old, replace_at, array_store_release, array_clone, clone_items,
}

-- An array whose buffer pointer is a small number other than 0.
pub record IsSentinel (h : Heap) (a : ℕ) (r : KiraArray) : Type 0 where
  pub at_header : h a ≡ chunk header_size (header r)
  pub real : 4096 ≤ a
  pub sentinel : probably_invalid r.items ≡ true
  pub null : h 0 ≡ none

read_null : (h : Heap) (i : ℕ) → h 0 ≡ none → read_cell 0 i h ≡ fault
unfolding read_cell load_cells
read_null h i e = rw e refl

write_null : (h : Heap) (i : ℕ) (x : BridgeValue) → h 0 ≡ none → write_cell 0 i x h ≡ fault
unfolding write_cell load_cells
write_null h i x e = rw e refl

replace_null :
    (hooks : Hooks) (fn : Destructor) (h : Heap) (i : ℕ) (x : BridgeValue)
    → h 0 ≡ none
    → replace_at hooks fn 0 i x h ≡ fault
unfolding replace_at
replace_null hooks fn h i x e =
    (elim (is_hybrid hooks)
      as (λ b.
        (if b
            then write_cell 0 i x
            else (read_cell 0 i >>= λ old. release_old fn old x >> write_cell 0 i x))
          h
        ≡ fault) [ true ↦ write_null h i x e | false ↦ rw (read_null h i e) refl ])

module _ {h : Heap} {a : ℕ} {r : KiraArray} (s : IsSentinel h a r) where
  active : is_active a ≡ true
  active = is_active-real a s.real

  repaired : Heap
  repaired = put a (chunk header_size (header emptied)) h

  repairs : repair_invalid_storage a h ≡ ok tt repaired
  unfolding repair_invalid_storage repaired
  repairs =
      let ne : (a == 0) ≡ false = ground (arith, s.real) in
      rw (ne, load_header-step h a s.at_header, s.sentinel)
        (store_header-step h a emptied s.at_header)

  still_null : repaired 0 ≡ none
  unfolding repaired
  still_null = put_ne a _ h (omega (arith, s.real)) ∙ s.null

  -- The releasing store of an index below the stale length goes through NULL: the index is tested
  -- before the repair sets the length to 0 and the buffer to NULL.
  pub store_release-fault :
      (hooks : Hooks) (fn : Destructor) (i : ℕ) (x : BridgeValue)
      → i < r.len
      → array_store_release hooks fn a (pos i) x h ≡ fault
  unfolding array_store_release repaired
  store_release-fault hooks fn i x lt =
      let inside : ltb i r.len ≡ true = ground arith in
      rw
        (
          active,
          load_header-step h a s.at_header,
          inside,
          repairs,
          load_header-step repaired a (put_self a (chunk header_size (header emptied)) h),
        )
        (replace_null hooks fn repaired i x still_null)

-- The header of a copy whose buffer was not copied.
abbrev pub unbacked : KiraArray → KiraArray
unbacked r = record { len = r.len; items = 0; cap = 0 }

-- A native clone of an array that is empty, or whose buffer pointer is NULL or a sentinel, has the
-- same length and a NULL buffer; a read below that length goes through NULL. The header of the copy
-- was allocated.
pub clone-load-fault :
    (hooks : Hooks) (sound : IsAllocator hooks) (fn : Option (ℕ → M ℕ)) (h : Heap) (a b : ℕ)
    {r : KiraArray}
    → is_hybrid hooks ≡ false
    → 4096 ≤ a
    → h 0 ≡ none
    → h a ≡ chunk header_size (header r)
    → ((r.len == 0) || (r.items == 0) || probably_invalid r.items) ≡ true
    → allocate hooks h header_size ≡ some b
    → (h' : Heap) × (array_clone hooks fn a h ≡ ok b h')
      × (h' b ≡ chunk header_size (header (unbacked r)))
      × ((i : ℕ) → i < r.len → array_load b (pos i) h' ≡ fault)
unfolding array_clone clone_items array_load
clone-load-fault hooks sound fn h a b {r} native real null at_header bare granted =
    let cloned = load_header a >>= λ r.
    bridge_alloc hooks header_size (header (record { len = r.len; items = 0; cap = r.len }))
    >>= λ copy. if copy == 0 then pure 0 else clone_items hooks fn r copy in
    let h₁ =
      put b (chunk header_size (header (record { len = r.len; items = 0; cap = r.len }))) h in
    let h₂ = put b (chunk header_size (header (unbacked r))) h₁ in
    let b_real : (b == 0) ≡ false = ground (arith, sound.real h header_size b granted) in
    let at_b = put_self b (chunk header_size (header (unbacked r))) h₁ in
    let b≢0 : 0 ≢ b = omega (arith, sound.real h header_size b granted) in
    let null₂ : h₂ 0 ≡ none = put_ne b _ h₁ b≢0 ∙ put_ne b _ h b≢0 ∙ null in
    (
      h₂,
      ap (λ t. (if t then pure a else (if not (is_active a) then pure 0 else cloned)) h) native
          ∙ rw
              (
                is_active-real a real,
                load_header-step h a at_header,
                bridge_alloc-some hooks h header_size _ granted,
                b_real,
                bare,
                store_header-step h₁ b (unbacked r) (put_self b _ h),
              )
              refl,
      at_b,
      λ i lt.
          let inside : ltb i r.len ≡ true = ground arith in
          rw
            (
              is_active-real b (sound.real h header_size b granted),
              load_header-step h₂ b at_b,
              inside,
            )
            (read_null h₂ i null₂),
    )
