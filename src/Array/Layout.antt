-- ===== src/Array/Layout.antt =====
-- A well-formed array of runtime_helpers_arrays.inc and its abstract view, a list of values.
use kira_zig.Common.{
  ℕ, zero, suc, ◌*◌, ◌^◌, ◌≤◌, ◌<◌, ◌≡◌, ◌≢◌, refl, sym, ap, ◌∙◌, true, false, some, List, [], ◌∷◌,
  ◌++◌, ◌==◌, ltb, if◌then◌else◌, arith, length, length-set, get_elem?, get_or, set, take, min,
  length-take,
}
use kira_zig.BridgeValue.{BridgeValue}
use kira_zig.Memory.{
  KiraArray, header, cells, Heap, ok, put, cell_size, header_size, at_least_1, and_then, pure,
  ◌>>=◌, load_header, store_header,
}
use kira_zig.Memory.Laws.{
  chunk, put_self, put_ne, load_header-step, load_cells-step, store_cells-step,
}
use kira_zig.Array.{
  probably_invalid, is_active, repair_invalid_storage, read_cell, write_cell, or_invalid, emptied,
}

-- The array at `a` holds the values `xs`: its buffer has `max(cap, 1)` elements, and the size that a
-- hybrid runtime computes from the capacity.
pub record IsArray (h : Heap) (a : ℕ) (xs : List BridgeValue) : Type 0 where
  pub r : KiraArray
  pub vs : List BridgeValue
  pub at_header : h a ≡ chunk header_size (header r)
  pub at_items : h r.items ≡ chunk (at_least_1 r.cap * cell_size) (cells vs)
  pub full : length vs ≡ at_least_1 r.cap
  pub fits : r.len ≤ r.cap
  pub live : take r.len vs ≡ xs
  pub real : 4096 ≤ a
  pub real_items : 4096 ≤ r.items
  pub bounded : at_least_1 r.cap * cell_size < 2 ^ 63

-- The addresses of an array.
abbrev pub Apart : {h : Heap} {a : ℕ} {xs : List BridgeValue} → IsArray h a xs → ℕ → Type 0
Apart {h} {a} v x = (x ≢ a) × (x ≢ v.r.items)

pub is_active-real : (a : ℕ) → 4096 ≤ a → is_active a ≡ true
is_active-real a real = ground arith

pub valid-real : (p : ℕ) → 4096 ≤ p → probably_invalid p ≡ false
valid-real p real = ground arith

header≢cells :
    {n m : ℕ} {r : KiraArray} {vs : List BridgeValue} → chunk n (header r) ≢ chunk m (cells vs)
header≢cells e = cc

pub items≢ : {h : Heap} {a : ℕ} {xs : List BridgeValue} (v : IsArray h a xs) → v.r.items ≢ a
items≢ {h} {a} v e = header≢cells (sym v.at_header ∙ ap h (sym e) ∙ v.at_items)

-- A valid array needs no repair.
pub repair-step :
    {h : Heap} {a : ℕ} {xs : List BridgeValue}
    → IsArray h a xs
    → repair_invalid_storage a h ≡ ok tt h
unfolding repair_invalid_storage
repair-step {h} {a} v =
    let ne : (a == 0) ≡ false = ground (arith, v.real) in
    ap
      (λ b.
        (if b
            then pure tt
            else load_header a >>= λ r.
                if probably_invalid r.items then store_header a emptied else pure tt)
          h)
      ne
    ∙ ap (λ o. and_then o λ r. if probably_invalid r.items then store_header a emptied else pure tt)
        (load_header-step h a v.at_header)
    ∙ ap (λ b. (if b then store_header a emptied else pure tt) h)
        (valid-real v.r.items v.real_items)

pub read_cell-step :
    (h : Heap) (p i : ℕ) {n : ℕ} {vs : List BridgeValue} {x : BridgeValue}
    → h p ≡ chunk n (cells vs)
    → get_elem? vs i ≡ some x
    → read_cell p i h ≡ ok x h
unfolding read_cell
read_cell-step h p i e found =
    ap (λ o. and_then o λ vs. or_invalid (get_elem? vs i)) (load_cells-step h p e)
    ∙ ap (λ o. or_invalid o h) found

pub write_cell-step :
    (h : Heap) (p i : ℕ) (x : BridgeValue) {n : ℕ} {vs : List BridgeValue}
    → h p ≡ chunk n (cells vs)
    → i < length vs
    → write_cell p i x h ≡ ok tt (put p (chunk n (cells (set vs i x))) h)
unfolding write_cell
write_cell-step h p i x {n} {vs} e lt =
    let inside : ltb i (length vs) ≡ true = ground arith in
    rw (load_cells-step h p e, inside) (store_cells-step h p (set vs i x) e)

module _ {ℓ} {A : Type ℓ} where
  pub get_elem?-take :
      (n : ℕ) (xs : List A) (i : ℕ) → i < n → get_elem? (take n xs) i ≡ get_elem? xs i
  get_elem?-take zero xs i lt = elim lt [ ]
  get_elem?-take (suc n) [] i lt = refl
  get_elem?-take (suc n) (x ∷ xs) zero lt = refl
  get_elem?-take (suc n) (x ∷ xs) (suc i) lt = get_elem?-take n xs i (omega arith)

  pub take-set : (n : ℕ) (xs : List A) (i : ℕ) (x : A) → take n (set xs i x) ≡ set (take n xs) i x
  take-set zero xs i x = refl
  take-set (suc n) [] i x = refl
  take-set (suc n) (y ∷ xs) zero x = refl
  take-set (suc n) (y ∷ xs) (suc i) x = ap (λ t. y ∷ t) (take-set n xs i x)

  -- A write just past the end of a prefix extends it.
  pub take-set_next :
      (n : ℕ) (xs : List A) (x : A)
      → n < length xs
      → take (suc n) (set xs n x) ≡ take n xs ++ x ∷ []
  take-set_next zero [] x lt = elim lt [ ]
  take-set_next zero (y ∷ xs) x lt = refl
  take-set_next (suc n) [] x lt = elim lt [ ]
  take-set_next (suc n) (y ∷ xs) x lt = ap (λ t. y ∷ t) (take-set_next n xs x (omega arith))

  pub get_or-some :
      (xs : List A) (i : ℕ) (d : A) {x : A} → get_elem? xs i ≡ some x → get_or xs i d ≡ x
  get_or-some [] i d e = cc
  get_or-some (y ∷ xs) zero d e = cc
  get_or-some (y ∷ xs) (suc i) d e = get_or-some xs i d e

  pub get_or-past : (xs : List A) (i : ℕ) (d : A) → length xs ≤ i → get_or xs i d ≡ d
  get_or-past [] i d le = refl
  get_or-past (y ∷ xs) zero d le = elim le [ ]
  get_or-past (y ∷ xs) (suc i) d le = get_or-past xs i d (omega arith)

  pub set-past : (xs : List A) (i : ℕ) (d : A) → length xs ≤ i → set xs i d ≡ xs
  set-past [] i d le = refl
  set-past (y ∷ xs) zero d le = elim le [ ]
  set-past (y ∷ xs) (suc i) d le = ap (λ t. y ∷ t) (set-past xs i d (omega arith))

-- The number of values is the length field.
pub length-live :
    {h : Heap} {a : ℕ} {xs : List BridgeValue} (v : IsArray h a xs) → length xs ≡ v.r.len
length-live v = ap length (sym v.live) ∙ length-take v.r.len v.vs ∙ bound
  where
    bound : min v.r.len (length v.vs) ≡ v.r.len
    bound = ground (arith, v.full, v.fits)

-- The state after a write of element `i` of the buffer and of the length.
pub written :
    {h : Heap} {a : ℕ} {xs : List BridgeValue} (v : IsArray h a xs) (i : ℕ) (x : BridgeValue)
    (ys : List BridgeValue)
    → take v.r.len (set v.vs i x) ≡ ys
    → IsArray (put v.r.items (chunk (at_least_1 v.r.cap * cell_size) (cells (set v.vs i x))) h) a ys
written {h} {a} v i x ys live = record {
  r = v.r;
  vs = set v.vs i x;
  at_header = put_ne v.r.items _ h (λ e. items≢ v (sym e)) ∙ v.at_header;
  at_items = put_self v.r.items _ h;
  full = length-set v.vs i x ∙ v.full;
  fits = v.fits;
  live = live;
  real = v.real;
  real_items = v.real_items;
  bounded = v.bounded;
}
