-- ===== src/Array/Owned/Loop.antt =====
-- About the loop of `kira_array_clone` of runtime_helpers_arrays.inc over the elements.
use mathlib.Core.Path.{subst}
use mathlib.Core.Option.{some-injective}
use kira_zig.Common.{
  ℕ, zero, suc, ◌+◌, ◌≤◌, ◌<◌, ◌≡◌, ◌≢◌, refl, sym, ap, ◌∙◌, false, none, some, List, arith, length,
  length-set, get_elem?, get_elem?-some, get_elem?-set_self, get_elem?-set_ne, set,
}
use kira_zig.BridgeValue.{string, BridgeValue}
use kira_zig.Memory.{Hooks, cells, Heap, M, ok, put, is_hybrid, and_then, ◌>>=◌, ◌>>◌}
use kira_zig.Memory.Laws.{chunk, put_self, put_ne, IsAllocator}
use kira_zig.Array.{write_cell}
use kira_zig.Array.Layout.{read_cell-step, write_cell-step}
use kira_zig.Array.Owned.{clone_cells, clone_string_element}
use kira_zig.Array.Owned.Copies.{
  Readable, CopyOf, KeptBut, KeptBut-trans, Kept, NoBytes, Readable-kept, CopyOf-earlier,
  CopyOf-later, CopyOf-apart,
}
use kira_zig.Array.Owned.Element.{clone_string_element-step}

-- The values of a list of elements that are given.
abbrev pub Elements : Hooks → Heap → Heap → List BridgeValue → List BridgeValue → (i k : ℕ) → Type 0
Elements hooks h h' vs ws i k =
    (x : BridgeValue) × (y : BridgeValue) × (get_elem? vs (i + k) ≡ some x)
    × (get_elem? ws (i + k) ≡ some y)
    × CopyOf hooks h h' x y

-- No two of the elements are strings in the same buffer.
abbrev pub ApartFrom : List BridgeValue → (i n : ℕ) → Type 0
ApartFrom ws i n =
    (j k : ℕ) (p len p' len' : ℕ)
    → j < k
    → k < n
    → get_elem? ws (i + j) ≡ some (string p len)
    → get_elem? ws (i + k) ≡ some (string p' len')
    → p ≢ 0
    → p ≢ p'

ApartFrom-cons :
    (ws : List BridgeValue) (i n : ℕ)
    → ((k : ℕ) (p len p' len' : ℕ)
        → k < n
        → get_elem? ws i ≡ some (string p len)
        → get_elem? ws (i + 1 + k) ≡ some (string p' len')
        → p ≢ 0
        → p ≢ p')
    → ApartFrom ws (i + 1) n
    → ApartFrom ws i (suc n)
ApartFrom-cons ws i n first rest j zero p len p' len' lt lt' at_j at_k = absurd (omega (arith, lt))
ApartFrom-cons ws i n first rest zero (suc k) p len p' len' lt lt' at_j at_k =
    let here : i ≡ i + 0 = omega arith in
    let shift : i + 1 + k ≡ i + suc k = omega arith in
    first k p len p' len' (omega (arith, lt')) (ap (get_elem? ws) here ∙ at_j)
      (ap (get_elem? ws) shift ∙ at_k)
ApartFrom-cons ws i n first rest (suc j) (suc k) p len p' len' lt lt' at_j at_k =
    let shift_j : i + 1 + j ≡ i + suc j = omega arith in
    let shift : i + 1 + k ≡ i + suc k = omega arith in
    rest j k p len p' len' (omega (arith, lt)) (omega (arith, lt'))
      (ap (get_elem? ws) shift_j ∙ at_j) (ap (get_elem? ws) shift ∙ at_k)

Elements-cons :
    (hooks : Hooks) (h h' : Heap) (vs ws : List BridgeValue) (i n : ℕ)
    → Elements hooks h h' vs ws i 0
    → ((k : ℕ) → k < n → Elements hooks h h' vs ws (i + 1) k)
    → (k : ℕ) → k < suc n
    → Elements hooks h h' vs ws i k
Elements-cons hooks h h' vs ws i n first rest zero lt = first
Elements-cons hooks h h' vs ws i n first rest (suc k) lt =
    let (x, y, at_x, at_y, copy) = rest k (omega (arith, lt)) in
    let shift : i + suc k ≡ i + 1 + k = omega arith in
    (x, y, ap (get_elem? vs) shift ∙ at_x, ap (get_elem? ws) shift ∙ at_y, copy)

cells-NoBytes :
    (h : Heap) (to : ℕ) {n : ℕ} {vs : List BridgeValue} → h to ≡ chunk n (cells vs) → NoBytes h to
cells-NoBytes h to found n bs e = cc

module _ (hooks : Hooks) (sound : IsAllocator hooks) (native : is_hybrid hooks ≡ false)
    (from to size size' : ℕ) (vs : List BridgeValue) (apart : from ≢ to) where
  -- The loop has copied `n` elements from `i` on.
  abbrev pub Cloned : Heap → List BridgeValue → (i n : ℕ) → Type 0
  Cloned h ws i n =
      (h' : Heap) × (ws' : List BridgeValue) × (clone_cells hooks none from to i n h ≡ ok tt h')
      × (h' to ≡ chunk size' (cells ws'))
      × (length ws' ≡ length ws)
      × ((k : ℕ) → k < i → get_elem? ws' k ≡ get_elem? ws k)
      × ((k : ℕ) → k < n → Elements hooks h h' vs ws' i k)
      × KeptBut to h h'
      × ApartFrom ws' i n

  -- One turn of the loop.
  clone_cells-turn :
      (h h₁ : Heap) (ws : List BridgeValue) (i n : ℕ) {x y : BridgeValue}
      → h from ≡ chunk size (cells vs)
      → get_elem? vs i ≡ some x
      → clone_string_element hooks x h ≡ ok y h₁
      → h₁ to ≡ chunk size' (cells ws)
      → i < length ws
      → clone_cells hooks none from to i (suc n) h
        ≡ clone_cells hooks none from to (i + 1) n (put to (chunk size' (cells (set ws i y))) h₁)
  unfolding clone_cells
  clone_cells-turn h h₁ ws i n {x} {y} at_from found copied at_to lt =
      let go : M Unit = clone_cells hooks none from to (i + 1) n in
      ap (λ r. and_then r (λ v. clone_string_element hooks v >>= λ v'. write_cell to i v' >> go))
        (read_cell-step h from i at_from found)
      ∙ ap (λ r. and_then r (λ v'. write_cell to i v' >> go)) copied
      ∙ ap (λ r. and_then r (λ _. go)) (write_cell-step h₁ to i y at_to lt)

  -- A turn before the rest of the loop.
  clone_cells-cons :
      (h h₁ : Heap) (ws : List BridgeValue) (i n : ℕ) (x y : BridgeValue)
      → h from ≡ chunk size (cells vs)
      → h to ≡ chunk size' (cells ws)
      → h₁ to ≡ chunk size' (cells ws)
      → i < length ws
      → ((k : ℕ) (x : BridgeValue) → k < i + suc n → get_elem? vs k ≡ some x → Readable h x)
      → get_elem? vs i ≡ some x
      → clone_string_element hooks x h ≡ ok y h₁
      → CopyOf hooks h h₁ x y
      → Kept h h₁
      → Cloned (put to (chunk size' (cells (set ws i y))) h₁) (set ws i y) (i + 1) n
      → Cloned h ws i (suc n)
  clone_cells-cons h h₁ ws i n x y at_from at_to at_to₁ lt readable found copied copy kept
        (h', ws', ran, at_to', same, before, copies, kept', apart') =
      let h₂ : Heap = put to (chunk size' (cells (set ws i y))) h₁ in
      let put_kept : KeptBut to h₁ h₂ = λ z ne there. put_ne to _ h₁ ne in
      let kept₂ : KeptBut to h h₂ = KeptBut-trans to h h₁ h₂ (λ z ne. kept z) put_kept in
      let onward : KeptBut to h₁ h' = KeptBut-trans to h₁ h₂ h' put_kept kept' in
      let taken : h₂ to ≢ none = λ e. cc (e, put_self to (chunk size' (cells (set ws i y))) h₁) in
      let here : i + 0 ≡ i = omega arith in
      let first : Elements hooks h h' vs ws' i 0 = (
        x,
        y,
        ap (get_elem? vs) here ∙ found,
        ap (get_elem? ws') here ∙ before i (omega arith) ∙ get_elem?-set_self ws i y lt,
        CopyOf-later hooks h h₁ h' to onward (cells-NoBytes h₁ to at_to₁) (λ e. cc (e, at_to')) x y
            copy,
      ) in
      (
        h',
        ws',
        clone_cells-turn h h₁ ws i n at_from found copied at_to₁ lt ∙ ran,
        at_to',
        same ∙ length-set ws i y,
        (λ k lt. before k (omega (arith, lt)) ∙ get_elem?-set_ne ws y (λ e. omega (arith, e, lt))),
        Elements-cons hooks h h' vs ws' i n first (λ k lt.
            let (x, y, at_x, at_y, copy) = copies k lt in
            (
              x,
              y,
              at_x,
              at_y,
              CopyOf-earlier h h₂ to kept₂ (cells-NoBytes h to at_to) hooks h' taken x y
                  (readable (i + 1 + k) x (omega (arith, lt)) at_x) copy,
            )),
        KeptBut-trans to h h₂ h' kept₂ kept',
        ApartFrom-cons ws' i n
            (λ k p len p' len' below at_i at_k.
              let (x', z, _, at_z, copy') = copies k below in
              let y_is : y ≡ string p len =
                some-injective _ _
                  (sym (before i (omega arith) ∙ get_elem?-set_self ws i y lt) ∙ at_i) in
              CopyOf-apart hooks h h₁ h₂ h' to x x' p len p' len' put_kept
                (cells-NoBytes h₁ to at_to₁) (subst (CopyOf hooks h h₁ x) y_is copy)
                (subst (CopyOf hooks h₂ h' x') (some-injective _ _ (sym at_z ∙ at_k)) copy'))
            apart',
      )

  pub clone_cells-step :
      (h : Heap) (ws : List BridgeValue) (i n : ℕ)
      → h from ≡ chunk size (cells vs)
      → h to ≡ chunk size' (cells ws)
      → i + n ≤ length vs
      → i + n ≤ length ws
      → ((k : ℕ) (x : BridgeValue) → k < i + n → get_elem? vs k ≡ some x → Readable h x)
      → Cloned h ws i n
  unfolding clone_cells
  clone_cells-step h ws i zero at_from at_to le le' readable = (
    h,
    ws,
    refl,
    at_to,
    refl,
    λ k lt. refl,
    λ k lt. absurd (omega (arith, lt)),
    λ x ne some_x. refl,
    λ j k p len p' len' lt lt'. absurd (omega (arith, lt')),
  )
  clone_cells-step h ws i (suc n) at_from at_to le le' readable =
      let (x, found) = get_elem?-some vs i (omega (arith, le)) in
      let (y, h₁, copied, copy, kept) =
        clone_string_element-step hooks sound native h x (readable i x (omega arith) found) in
      let at_to₁ = kept to (λ e. cc (e, at_to)) ∙ at_to in
      let kept₂ : KeptBut to h (put to (chunk size' (cells (set ws i y))) h₁) =
        λ z ne there. put_ne to _ h₁ ne ∙ kept z there in
      clone_cells-cons h h₁ ws i n x y at_from at_to at_to₁ (omega (arith, le')) readable found
        copied copy kept
        (clone_cells-step (put to (chunk size' (cells (set ws i y))) h₁) (set ws i y) (i + 1) n
          (kept₂ from apart (λ e. cc (e, at_from)) ∙ at_from)
          (put_self to (chunk size' (cells (set ws i y))) h₁) (omega (arith, le))
          (omega (arith, le', length-set ws i y))
          (λ k x lt at_k.
            Readable-kept h (put to (chunk size' (cells (set ws i y))) h₁) to kept₂
              (cells-NoBytes h to at_to) x (readable k x (omega (arith, lt)) at_k)))
