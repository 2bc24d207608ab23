-- ===== src/Array/Append.antt =====
-- About `kira_array_append` of runtime_helpers_arrays.inc, against a list of values.
use kira_zig.Common.{
  length-replicate, ℕ, ◌*◌, ◌≡◌, refl, ◌∙◌, false, not, ◌&&◌, none, some, List, [], ◌∷◌, ◌++◌, ◌==◌,
  ltb, arith, Bool-cases, ◌⊎◌, inl, inr,
}
use kira_zig.BridgeValue.{BridgeValue, void}
use kira_zig.Memory.{Hooks, Heap, ok, cell_size, allocate, bridge_calloc}
use kira_zig.Memory.Laws.{put_self, put_ne, load_header-step, IsAllocator}
use kira_zig.Array.{array_append, grow, next_cap}
use kira_zig.Array.Layout.{IsArray, is_active-real, repair-step}
use kira_zig.Array.Copy.{next_cap-bounds, fresh_items, bridge_calloc-step, copy_items-step}
use kira_zig.Array.Extends.{Extends, finish, finish-Extends, head, in_place, new≢}

module _ (hooks : Hooks) (sound : IsAllocator hooks) {h : Heap} {a : ℕ} {xs : List BridgeValue}
    (v : IsArray h a xs) (x : BridgeValue) where
  -- A refused allocation: the value is dropped and nothing changes.
  pub Refused : Heap → Type 0
  Refused h' = (h' ≡ h) × (allocate hooks h (next_cap v.r.cap v.r.len * cell_size) ≡ none)

  larger :
      (p : ℕ)
      → allocate hooks h (next_cap v.r.cap v.r.len * cell_size) ≡ some p
      → bridge_calloc hooks (next_cap v.r.cap v.r.len) h
        ≡ ok p (fresh_items (next_cap v.r.cap v.r.len) p h)
      → (h' : Heap) × (grow hooks a v.r x h ≡ ok tt h') × Extends v (xs ++ x ∷ []) h'
  unfolding grow finish head
  larger p granted ran =
      let cap = next_cap v.r.cap v.r.len in
      let lt = (next_cap-bounds v.r.cap v.r.len v.fits v.bounded).0 in
      let free = sound.fresh h (cap * cell_size) p granted in
      let real = sound.real h (cap * cell_size) p granted in
      let small = sound.possible h (cap * cell_size) p granted in
      let items≢p = new≢ h p v.r.items free v.at_items in
      let p_real : (p == 0) ≡ false = ground (arith, real) in
      let (h₂, copied, at_p, others) =
        copy_items-step (fresh_items cap p h) p v.r.items v.r.len
          (put_ne p _ h items≢p ∙ v.at_items) (put_self p _ h) (ground (arith, v.full, v.fits))
          (omega (arith, length-replicate cap void)) (omega (arith, v.real_items)) in
      let (h', ended, extends) =
        finish-Extends hooks v x p cap free real lt small h₂ at_p
          (λ y ne. others y ne ∙ put_ne p _ h ne) in
      (h', rw (ran, p_real, copied) ended, extends)

  grown :
      (h' : Heap) × (grow hooks a v.r x h ≡ ok tt h') × (Extends v (xs ++ x ∷ []) h' ⊎ Refused h')
  unfolding Refused
  grown =
      let (lt, small) = next_cap-bounds v.r.cap v.r.len v.fits v.bounded in
      elim (bridge_calloc-step hooks h (next_cap v.r.cap v.r.len) (omega arith) small) [
        | inl (ran, refused) ↦ (h, unfold grow in rw ran refl, inr (refl, refused))
        | inr (p, granted, ran) ↦
            let (h', done, extends) = larger p granted ran in (h', done, inl extends)
      ]

  -- An append always returns. Either the array then holds the old values and the new one, in the
  -- order of the list, in its old buffer or in a larger one, after which the old one is freed, and no
  -- other allocation has changed; or the allocator refused the larger buffer and the heap is as
  -- before.
  pub append-Extends :
      (h' : Heap) × (array_append hooks a x h ≡ ok tt h')
      × (Extends v (xs ++ x ∷ []) h' ⊎ Refused h')
  unfolding array_append
  append-Extends =
      let active = is_active-real a v.real in
      let there : (v.r.items == 0) ≡ false = ground (arith, v.real_items) in
      elim (Bool-cases (ltb v.r.len v.r.cap)) [
        | inl room ↦
            let (h', ran, extends) = in_place v x (ground arith) in
            (
              h',
              rw (active, repair-step v, load_header-step h a v.at_header, there, room) ran,
              inl extends,
            )
        | inr no_room ↦
            let (h', ran, done) = grown in
            let full : (not (v.r.items == 0) && ltb v.r.len v.r.cap) ≡ false =
              rw (there, no_room) refl in
            (h', rw (active, repair-step v, load_header-step h a v.at_header, full) ran, done)
      ]
