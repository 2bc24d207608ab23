-- ===== src/Array/Copy.antt =====
-- The parts of an append of runtime_helpers_arrays.inc: the next capacity, a fresh buffer and the copy.
use kira_zig.Common.{
  ℕ, zero, suc, ◌+◌, ◌*◌, ◌^◌, ◌≤◌, ◌<◌, ◌≡◌, ◌≢◌, refl, ap, ◌∙◌, false, not, ◌&&◌, ◌||◌, none,
  some, List, [], ◌∷◌, ◌++◌, ◌==◌, ltb, if◌then◌else◌, arith, length, take, drop, replicate,
  Bool-cases, Option-cases, ◌⊎◌, inl, inr,
}
use kira_zig.BridgeValue.{BridgeValue, void}
use kira_zig.Memory.{
  Hooks, cells, Heap, ok, put, u64, cell_size, at_least_1, allocate, pure, bridge_alloc,
  bridge_calloc, cells_of,
}
use kira_zig.Memory.Laws.{
  chunk, put_self, put_ne, load_cells-step, store_cells-step, bridge_alloc-some, bridge_alloc-none,
  u64-small, cells_of-small,
}
use kira_zig.Array.{copy_items, next_cap}

pub next_cap-bounds :
    (cap len : ℕ)
    → len ≤ cap
    → at_least_1 cap * cell_size < 2 ^ 63
    → (len < next_cap cap len) × (next_cap cap len * cell_size < 2 ^ 64)
unfolding next_cap
next_cap-bounds cap len le bounded =
    let bound : cap * cell_size < 2 ^ 63 = ground arith in
    rw (u64-small (cap * 2) (omega arith), u64-small (len + 1) (omega arith))
      (ground arith, ground arith)

-- The buffer of `n` elements at `p`.
abbrev pub fresh_items : ℕ → ℕ → Heap → Heap
fresh_items n p h = put p (chunk (n * cell_size) (cells (replicate n void))) h

-- A fresh buffer of `n` elements, or none.
pub bridge_calloc-step :
    (hooks : Hooks) (h : Heap) (n : ℕ)
    → n ≢ 0
    → n * cell_size < 2 ^ 64
    → ((bridge_calloc hooks n h ≡ ok 0 h) × (allocate hooks h (n * cell_size) ≡ none))
      ⊎ ((p : ℕ) × (allocate hooks h (n * cell_size) ≡ some p)
          × (bridge_calloc hooks n h ≡ ok p (fresh_items n p h)))
unfolding bridge_calloc
bridge_calloc-step hooks h n some_cells small =
    let size = n * cell_size in
    let sized : at_least_1 size ≡ size = ground arith in
    let asked =
      ap (λ k. bridge_alloc hooks k (cells (cells_of (u64 size))) h) (u64-small size small)
      ∙ ap (λ c. bridge_alloc hooks size (cells c) h) (cells_of-small n small) in
    elim (Option-cases (allocate hooks h size)) [
      | inl refused ↦ inl (
        asked ∙ bridge_alloc-none hooks h size _ (ap (allocate hooks h) sized ∙ refused),
        refused,
      )
      | inr (p, granted) ↦ inr (
        p,
        granted,
        asked
            ∙ bridge_alloc-some hooks h size _ (ap (allocate hooks h) sized ∙ granted)
            ∙ ap (λ k. ok p (put p (chunk k (cells (replicate n void))) h)) sized,
      )
    ]

module _ {ℓ} {A : Type ℓ} where
  pub take-prefix : (n : ℕ) (xs ys : List A) → n ≤ length xs → take n (take n xs ++ ys) ≡ take n xs
  take-prefix zero xs ys le = refl
  take-prefix (suc n) [] ys le = elim le [ ]
  take-prefix (suc n) (x ∷ xs) ys le = ap (λ t. x ∷ t) (take-prefix n xs ys (omega arith))

-- The copy of the first `len` elements, which is left out where there are none.
module _ (h : Heap) (to from len : ℕ) {n m : ℕ} {new old : List BridgeValue} where
  pub copy_items-step :
      h from ≡ chunk n (cells old)
      → h to ≡ chunk m (cells new)
      → len ≤ length old
      → len ≤ length new
      → from ≢ 0
      → (h' : Heap) × (((if not (from == 0) && not (len == 0)
              then copy_items to from len
              else pure tt)
            h)
          ≡ ok tt h')
        × (h' to ≡ chunk m (cells (take len old ++ drop len new)))
        × ((x : ℕ) → x ≢ to → h' x ≡ h x)
  unfolding copy_items
  copy_items-step at_from at_to le le' real =
      let there : (from == 0) ≡ false = ground arith in
      elim (Bool-cases (len == 0)) [
        | inl no_cells ↦
            let zero_len : len ≡ 0 = ground arith in
            (h, rw (there, no_cells) refl, rw zero_len at_to, λ x ne. refl)
        | inr cells_left ↦
            let inside : (ltb (length old) len || ltb (length new) len) ≡ false = ground arith in
            (
              put to (chunk m (cells (take len old ++ drop len new))) h,
              rw
                  (
                    there,
                    cells_left,
                    load_cells-step h from at_from,
                    load_cells-step h to at_to,
                    inside,
                  )
                  (store_cells-step h to (take len old ++ drop len new) at_to),
              put_self to _ h,
              λ x ne. put_ne to _ h ne,
            )
      ]
