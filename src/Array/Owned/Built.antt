-- ===== src/Array/Owned/Built.antt =====
-- About `kira_array_clone` of runtime_helpers_arrays.inc: the copy, once its header and its buffer are
-- there.
use kira_zig.Common.{
  ℕ, ◌+◌, ◌*◌, ◌<◌, ◌≡◌, ◌≢◌, ◌⊎◌, sym, ap, ◌∙◌, false, none, some, List, arith, length, get_elem?,
  take, take_all, replicate, length-replicate,
}
use kira_zig.BridgeValue.{BridgeValue, void}
use kira_zig.Memory.{
  KiraArray, Hooks, header, cells, Heap, ok, put, cell_size, header_size, at_least_1, is_hybrid,
  allocate, and_then, pure, ◌>>◌, store_header,
}
use kira_zig.Memory.Laws.{chunk, put_self, put_ne, IsAllocator, store_header-step}
use kira_zig.Array.{emptied}
use kira_zig.Array.Layout.{IsArray, length-live, get_elem?-take}
use kira_zig.Array.Copy.{fresh_items}
use kira_zig.Array.Owned.{clone_cells}
use kira_zig.Array.Owned.Copies.{Readable, CopyOf, KeptBut, Kept, Readable-kept, CopyOf-earlier}
use kira_zig.Array.Owned.Loop.{Elements, ApartFrom, Cloned, clone_cells-step}

-- `b` is a copy of the array of `xs` in the heap `h`.
pub record IsClone (hooks : Hooks) (h : Heap) (xs : List BridgeValue) (b : ℕ) (h' : Heap)
    : Type 0 where
  pub ys : List BridgeValue
  pub array : IsArray h' b ys
  pub same_length : length ys ≡ length xs
  pub elements :
      (k : ℕ)
      → k < length xs
      → (x : BridgeValue) × (y : BridgeValue) × (get_elem? xs k ≡ some x)
        × (get_elem? ys k ≡ some y)
        × CopyOf hooks h h' x y
  pub apart : ApartFrom ys 0 (length xs)
  pub unused : h b ≡ none
  pub unused_items : h array.r.items ≡ none
  pub kept : Kept h h'

-- The heap once the header of a clone of `n` elements stands at `b`.
abbrev pub with_header : (b n : ℕ) → Heap → Heap
with_header b n h = put b (chunk header_size (header (record { len = n; items = 0; cap = n }))) h

-- What a clone of a native array gives: NULL where the header was refused, an empty array where the
-- buffer was, or a copy.
abbrev pub Clones : Hooks → Heap → List BridgeValue → ℕ → Heap → Type 0
Clones hooks h xs b h' =
    ((b ≡ 0) × (allocate hooks h header_size ≡ none) × ((x : ℕ) → h' x ≡ h x))
    ⊎ (((h b ≡ none)
          × (allocate hooks (with_header b (length xs) h) (length xs * cell_size) ≡ none)
          × (h' b ≡ chunk header_size (header emptied))
          × Kept h h')
        ⊎ IsClone hooks h xs b h')

module _ (hooks : Hooks) (sound : IsAllocator hooks) (native : is_hybrid hooks ≡ false) {h : Heap}
    {a : ℕ} {xs : List BridgeValue} (v : IsArray h a xs) (some_values : 0 < length xs)
    (readable : (k : ℕ) (x : BridgeValue) → get_elem? xs k ≡ some x → Readable h x) where
  -- Once the header stands at `b`.
  module _ (b : ℕ) (granted : allocate hooks h header_size ≡ some b) where
    unfoldable pub fields : (items cap : ℕ) → KiraArray
    fields items cap = record { len = v.r.len; items = items; cap = cap }

    unfoldable pub h₁ : Heap
    h₁ = put b (chunk header_size (header (fields 0 v.r.len))) h

    pub free : h b ≡ none
    free = sound.fresh h header_size b granted

    pub kept₁ : Kept h h₁
    unfolding h₁
    kept₁ x there = put_ne b _ h (λ e. there (ap h e ∙ free))

    pub at_b : h₁ b ≡ chunk header_size (header (fields 0 v.r.len))
    unfolding h₁
    at_b = put_self b _ h

    -- The buffer was allocated at `p`.
    module _ (p : ℕ) (found : allocate hooks h₁ (v.r.len * cell_size) ≡ some p) where
      unfoldable pub h₂ : Heap
      h₂ = fresh_items v.r.len p h₁

      h₃ : Heap
      h₃ = put b (chunk header_size (header (fields p v.r.len))) h₂

      free_p : h₁ p ≡ none
      free_p = sound.fresh h₁ (v.r.len * cell_size) p found

      b≢p : b ≢ p
      b≢p e = cc (ap h₁ e, at_b, free_p)

      free_below : h p ≡ none
      unfolding h₁
      free_below = sym (put_ne b _ h (λ e. b≢p (sym e))) ∙ free_p

      kept₃ : Kept h h₃
      unfolding h₂ h₃
      kept₃ x there =
          put_ne b _ h₂ (λ e. there (ap h e ∙ free))
          ∙ put_ne p _ h₁ (λ e. there (ap h e ∙ free_below))
          ∙ kept₁ x there

      at_p : h₃ p ≡ chunk (v.r.len * cell_size) (cells (replicate v.r.len void))
      unfolding h₂ h₃
      at_p = put_ne b _ h₂ (λ e. b≢p (sym e)) ∙ put_self p _ h₁

      at_b₃ : h₃ b ≡ chunk header_size (header (fields p v.r.len))
      unfolding h₃
      at_b₃ = put_self b _ h₂

      items_there : h v.r.items ≢ none
      items_there e = cc (e, v.at_items)

      items≢p : v.r.items ≢ p
      items≢p e = items_there (ap h e ∙ free_below)

      of_xs : (k : ℕ) → k < v.r.len → get_elem? xs k ≡ get_elem? v.vs k
      of_xs k lt = ap (λ ys. get_elem? ys k) (sym v.live) ∙ get_elem?-take v.r.len v.vs k lt

      loop :
          Cloned hooks sound native v.r.items p
            (at_least_1 v.r.cap * cell_size)
            (v.r.len * cell_size)
            v.vs
            items≢p
            h₃
            (replicate v.r.len void)
            0
            v.r.len
      loop =
          clone_cells-step hooks sound native v.r.items p (at_least_1 v.r.cap * cell_size)
            (v.r.len * cell_size) v.vs items≢p h₃ (replicate v.r.len void) 0 v.r.len
            (kept₃ v.r.items items_there ∙ v.at_items) at_p (ground (arith, v.full, v.fits))
            (omega (arith, length-replicate v.r.len void))
            (λ k x lt at_k.
              Readable-kept h h₃ p (λ z ne. kept₃ z) (λ n bs e. cc (e, free_below)) x
                (readable k x (of_xs k (omega (arith, lt)) ∙ at_k)))

      module _ (h' : Heap) (ws : List BridgeValue)
          (at_p' : h' p ≡ chunk (v.r.len * cell_size) (cells ws)) (long : length ws ≡ v.r.len)
          (kept' : KeptBut p h₃ h') where
        copied-IsArray : IsArray h' b ws
        unfolding fields
        copied-IsArray =
            let n = v.r.len in
            let sized : at_least_1 n ≡ n = ground (arith, some_values, length-live v) in
            record {
              r = fields p n;
              vs = ws;
              at_header = kept' b b≢p (λ e. cc (e, at_b₃)) ∙ at_b₃;
              at_items = at_p' ∙ ap (λ m. chunk (m * cell_size) (cells ws)) (sym sized);
              full = long ∙ sym sized;
              fits = omega arith;
              live = ap (λ m. take m ws) (sym long) ∙ take_all ws;
              real = sound.real h header_size b granted;
              real_items = sound.real h₁ (n * cell_size) p found;
              bounded = omega (arith, sized, sound.possible h₁ (n * cell_size) p found);
            }

        -- The elements, against the heap before the clone.
        copied-Elements :
            ((k : ℕ) → k < v.r.len → Elements hooks h₃ h' v.vs ws 0 k)
            → (k : ℕ) → k < length xs
            → (x : BridgeValue) × (y : BridgeValue) × (get_elem? xs k ≡ some x)
              × (get_elem? ws k ≡ some y)
              × CopyOf hooks h h' x y
        copied-Elements copies k lt =
            let below : k < v.r.len = omega (arith, lt, length-live v) in
            let (x, y, at_x, at_y, copy) = copies k below in
            let start : k ≡ 0 + k = omega arith in
            let at_k = of_xs k below ∙ ap (get_elem? v.vs) start ∙ at_x in
            (
              x,
              y,
              at_k,
              ap (get_elem? ws) start ∙ at_y,
              CopyOf-earlier h h₃ p (λ z ne. kept₃ z) (λ n bs e. cc (e, free_below)) hooks h'
                  (λ e. cc (e, at_p)) x y (readable k x at_k) copy,
            )

      pub copied :
          (h' : Heap) × ((store_header b (fields p v.r.len)
                >> (clone_cells hooks none v.r.items p 0 v.r.len >> pure b))
              h₂
            ≡ ok b h')
          × IsClone hooks h xs b h'
      unfolding h₂ h₃ copied-IsArray fields
      copied =
          let (h', ws, ran, at_p', same, _, copies, kept', apart') = loop in
          let n = v.r.len in
          let long : length ws ≡ n = same ∙ length-replicate n void in
          (
            h',
            ap (λ r. and_then r (λ _. clone_cells hooks none v.r.items p 0 n >> pure b))
                  (store_header-step h₂ b (fields p n) (put_ne p _ h₁ b≢p ∙ at_b))
                ∙ ap (λ r. and_then r (λ _. pure b)) ran,
            record {
              ys = ws;
              array = copied-IsArray h' ws at_p' long kept';
              same_length = long ∙ sym (length-live v);
              elements = copied-Elements h' ws at_p' long kept' copies;
              apart = λ j k p len p' len' lt below.
                  apart' j k p len p' len' lt (omega (arith, below, length-live v));
              unused = free;
              unused_items = free_below;
              kept = λ z there.
                  let same₃ = kept₃ z there in
                  kept' z (λ e. there (ap h e ∙ free_below)) (λ e. there (sym same₃ ∙ e)) ∙ same₃;
            },
          )
