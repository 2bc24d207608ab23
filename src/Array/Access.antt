-- ===== src/Array/Access.antt =====
-- About `kira_array_load`, `kira_array_store`, `kira_array_take` and `kira_array_len` of
-- runtime_helpers_arrays.inc, against a list of values.
use mathlib.Core.Path.{subst}
use kira_zig.Common.{
  ℕ, ◌*◌, ◌<◌, ◌≡◌, refl, sym, ap, ◌∙◌, ℤ, pos, negsuc, true, not, some, List, ltb, if◌then◌else◌,
  arith, length, get_elem?, get_elem?-some, get_or, set, Bool-cases, inl, inr,
}
use kira_zig.BridgeValue.{BridgeValue, void}
use kira_zig.Memory.{
  KiraArray, cells, Heap, M, ok, put, cell_size, at_least_1, pure, ◌>>=◌, load_header,
}
use kira_zig.Memory.Laws.{chunk, put_ne, load_header-step}
use kira_zig.Array.{
  probably_invalid, is_active, in_bounds, array_len, store_at, array_store, load_at, array_load,
  take_at, array_take, write_cell,
}
use kira_zig.Array.Layout.{
  IsArray, Apart, is_active-real, valid-real, repair-step, read_cell-step, write_cell-step,
  get_elem?-take, take-set, get_or-some, get_or-past, set-past, length-live, written,
}

-- The same accesses of a list.
abbrev pub read_at : List BridgeValue → ℤ → BridgeValue
read_at xs (pos i) = get_or xs i void
read_at xs (negsuc _) = void

abbrev pub write_at : List BridgeValue → ℤ → BridgeValue → List BridgeValue
write_at xs (pos i) x = set xs i x
write_at xs (negsuc _) x = xs

-- The array now holds `ys`, and nothing else has changed.
abbrev pub Updates :
    {h : Heap} {a : ℕ} {xs : List BridgeValue} → IsArray h a xs → List BridgeValue → Heap → Type 0
Updates {h} {a} v ys h' = IsArray h' a ys × ((x : ℕ) → Apart v x → h' x ≡ h x)

module _ {h : Heap} {a : ℕ} {xs : List BridgeValue} (v : IsArray h a xs) where
  active : is_active a ≡ true
  active = is_active-real a v.real

  -- A read that passed the tests of the header.
  opened :
      {A : Type 0} (k : KiraArray → M A) (d : A)
      → ((if not (is_active a)
            then pure d
            else load_header a >>= λ r. if probably_invalid r.items then pure d else k r)
          h)
        ≡ k v.r h
  opened k d = rw (active, load_header-step h a v.at_header, valid-real v.r.items v.real_items) refl

  in_range :
      (i : ℕ)
      → i < v.r.len
      → (x : BridgeValue) × (get_elem? v.vs i ≡ some x) × (get_or xs i void ≡ x)
  in_range i lt =
      let (x, found) = get_elem?-some v.vs i (ground (arith, v.full, v.fits)) in
      (
        x,
        found,
        get_or-some xs i void (
            subst (λ ys. get_elem? ys i ≡ some x) v.live
              (get_elem?-take v.r.len v.vs i lt ∙ found)),
      )

  load_at-step : (index : ℤ) → load_at v.r (in_bounds index v.r.len) h ≡ ok (read_at xs index) h
  load_at-step (negsuc n) = refl
  load_at-step (pos i) = elim (Bool-cases (ltb i v.r.len)) [
    | inl inside ↦
        let (x, found, same) = in_range i (ground arith) in
        rw (inside, same) (read_cell-step h v.r.items i v.at_items found)
    | inr outside ↦
        let past = get_or-past xs i void (ground (arith, length-live v)) in rw (outside, past) refl
  ]

  -- The read of an element returns that element of the list, or VOID where the index is negative or
  -- past the end, and changes nothing.
  load-read_at : (index : ℤ) → array_load a index h ≡ ok (read_at xs index) h
  unfolding array_load
  load-read_at index = opened (λ r. load_at r (in_bounds index r.len)) void ∙ load_at-step index

  written_at :
      (i : ℕ) (x : BridgeValue)
      → i < v.r.len
      → (h' : Heap) × (write_cell v.r.items i x h ≡ ok tt h') × Updates v (set xs i x) h'
  written_at i x lt =
      let live = take-set v.r.len v.vs i x ∙ ap (λ ys. set ys i x) v.live in
      (
        put v.r.items (chunk (at_least_1 v.r.cap * cell_size) (cells (set v.vs i x))) h,
        write_cell-step h v.r.items i x v.at_items (ground (arith, v.full, v.fits)),
        (written v i x (set xs i x) live, λ y apart. put_ne v.r.items _ h apart.1),
      )

  same-Updates : (ys : List BridgeValue) → ys ≡ xs → Updates v ys h
  same-Updates ys e = (subst (IsArray h a) (sym e) v, λ x apart. refl)

  store_at-step :
      (index : ℤ) (x : BridgeValue)
      → (h' : Heap) × (store_at v.r (in_bounds index v.r.len) x h ≡ ok tt h')
        × Updates v (write_at xs index x) h'
  store_at-step (negsuc n) x = (h, refl, same-Updates xs refl)
  store_at-step (pos i) x = elim (Bool-cases (ltb i v.r.len)) [
    | inl inside ↦ rw inside (written_at i x (ground arith))
    | inr outside ↦
        rw outside
          (h, refl, same-Updates (set xs i x) (set-past xs i x (ground (arith, length-live v))))
  ]

  -- A store writes that element of the list, and none where the index is negative or past the end;
  -- the rest of the heap stays.
  pub store-write_at :
      (index : ℤ) (x : BridgeValue)
      → (h' : Heap) × (array_store a index x h ≡ ok tt h') × Updates v (write_at xs index x) h'
  unfolding array_store
  store-write_at index x =
      let (h', ran, u) = store_at-step index x in
      (h', rw (active, repair-step v, load_header-step h a v.at_header) ran, u)

  take_at-step :
      (index : ℤ)
      → (h' : Heap) × (take_at v.r (in_bounds index v.r.len) h ≡ ok (read_at xs index) h')
        × Updates v (write_at xs index void) h'
  take_at-step (negsuc n) = (h, refl, same-Updates xs refl)
  take_at-step (pos i) = elim (Bool-cases (ltb i v.r.len)) [
    | inl inside ↦
        let (x, found, same) = in_range i (ground arith) in
        let (h', ran, u) = written_at i void (ground arith) in
        (h', rw (inside, read_cell-step h v.r.items i v.at_items found, ran, same) refl, u)
    | inr outside ↦
        let past = get_or-past xs i void (ground (arith, length-live v)) in
        (
          h,
          rw (outside, past) refl,
          same-Updates (set xs i void) (set-past xs i void (ground (arith, length-live v))),
        )
  ]

  -- A take returns what a read returns, and leaves VOID in the place of the element.
  take-read_at :
      (index : ℤ)
      → (h' : Heap) × (array_take a index h ≡ ok (read_at xs index) h')
        × Updates v (write_at xs index void) h'
  unfolding array_take
  take-read_at index =
      let (h', ran, u) = take_at-step index in
      (h', opened (λ r. take_at r (in_bounds index r.len)) void ∙ ran, u)

  pub len-length : array_len a h ≡ ok (length xs) h
  unfolding array_len
  len-length =
      rw
        (active, load_header-step h a v.at_header, valid-real v.r.items v.real_items, length-live v)
        refl
