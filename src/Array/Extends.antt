-- ===== src/Array/Extends.antt =====
-- About `kira_array_append` of runtime_helpers_arrays.inc: the store of the value, in place and after a
-- move to a larger buffer.
use kira_zig.Common.{
  length-replicate, ℕ, suc, ◌+◌, ◌*◌, ◌^◌, ◌≤◌, ◌<◌, ◌≡◌, ◌≢◌, ◌⊎◌, inl, inr, refl, sym, ap, ◌∙◌,
  none, List, [], ◌∷◌, ◌++◌, arith, length, length-set, length-append, length-take, length-drop,
  set, take, drop, replicate,
}
use kira_zig.BridgeValue.{BridgeValue, void}
use kira_zig.Memory.{
  KiraArray, Hooks, Body, header, cells, Heap, M, ok, put, u64, cell_size, header_size, at_least_1,
  ◌>>◌, store_header, bridge_free,
}
use kira_zig.Memory.Laws.{chunk, put_self, put_ne, store_header-step, bridge_free-step, u64-small}
use kira_zig.Array.{write_cell}
use kira_zig.Array.Layout.{IsArray, Apart, items≢, write_cell-step, take-set_next}
use kira_zig.Array.Copy.{take-prefix}

-- The array now holds `ys`, its buffer is the old one or the old one is freed, and no other
-- allocation has changed.
abbrev pub Extends :
    {h : Heap} {a : ℕ} {xs : List BridgeValue} → IsArray h a xs → List BridgeValue → Heap → Type 0
Extends {h} {a} v ys h' =
    (w : IsArray h' a ys) × ((w.r.items ≡ v.r.items) ⊎ (h' v.r.items ≡ none))
    × ((x : ℕ) → Apart v x → h x ≢ none → h' x ≡ h x)

suc_of : (n : ℕ) → n + 1 ≡ suc n
suc_of n = omega arith

module _ {h : Heap} {a : ℕ} {xs : List BridgeValue} (v : IsArray h a xs) (x : BridgeValue) where
  longer : KiraArray
  longer = record v.r { len = suc v.r.len }

  -- Room is left.
  pub in_place :
      v.r.len < v.r.cap
      → (h' : Heap) × ((write_cell v.r.items v.r.len x
              >> store_header a (record v.r { len = u64 (v.r.len + 1) }))
            h
          ≡ ok tt h')
        × Extends v (xs ++ x ∷ []) h'
  unfolding longer
  in_place lt =
      let room : v.r.len < length v.vs = ground (arith, v.full) in
      let next : u64 (v.r.len + 1) ≡ suc v.r.len =
        u64-small (v.r.len + 1) (ground (arith, v.bounded)) ∙ suc_of (v.r.len) in
      let cs = chunk (at_least_1 v.r.cap * cell_size) (cells (set v.vs v.r.len x)) in
      let h₁ = put v.r.items cs h in
      let kept = put_ne v.r.items cs h (λ e. items≢ v (sym e)) ∙ v.at_header in
      (
        put a (chunk header_size (header longer)) h₁,
        rw (write_cell-step h v.r.items v.r.len x v.at_items room, next)
            (store_header-step h₁ a longer kept),
        (
          record {
            r = longer;
            vs = set v.vs v.r.len x;
            at_header = put_self a _ h₁;
            at_items = put_ne a _ h₁ (items≢ v) ∙ put_self v.r.items cs h;
            full = length-set v.vs v.r.len x ∙ v.full;
            fits = omega arith;
            live = take-set_next v.r.len v.vs x room ∙ ap (λ ys. ys ++ x ∷ []) v.live;
            real = v.real;
            real_items = v.real_items;
            bounded = v.bounded;
          },
          inl refl,
          λ y apart _. put_ne a _ h₁ apart.0 ∙ put_ne v.r.items cs h apart.1,
        ),
      )

-- A fresh address is not one that is taken.
pub new≢ : (h : Heap) (p x : ℕ) {n : ℕ} {b : Body} → h p ≡ none → h x ≡ chunk n b → x ≢ p
new≢ h p x free taken e = cc (ap h e)

-- The move to a buffer `p` of `cap` elements.
module _ (hooks : Hooks) {h : Heap} {a : ℕ} {xs : List BridgeValue} (v : IsArray h a xs)
    (x : BridgeValue) (p cap : ℕ) (free : h p ≡ none) (real : 4096 ≤ p) (lt : v.r.len < cap)
    (small : cap * cell_size < 2 ^ 63) where
  moved : KiraArray
  moved = record { len = suc v.r.len; items = p; cap = cap }

  unfoldable pub head : List BridgeValue
  head = take v.r.len v.vs ++ drop v.r.len (replicate cap void)

  a≢p : a ≢ p
  a≢p = new≢ h p a free v.at_header

  pub items≢p : v.r.items ≢ p
  items≢p = new≢ h p v.r.items free v.at_items

  length-head : length head ≡ cap
  unfolding head
  length-head =
      length-append (take v.r.len v.vs) (drop v.r.len (replicate cap void))
      ∙ ground (
        arith,
        length-take v.r.len v.vs,
        length-drop v.r.len (replicate cap void),
        length-replicate cap void,
        v.full,
        v.fits,
      )

  head-live : take v.r.len head ≡ xs
  unfolding head
  head-live = take-prefix v.r.len v.vs _ (ground (arith, v.full, v.fits)) ∙ v.live

  -- What follows the copy: the old buffer is freed, and the value stored.
  unfoldable pub finish : M (Unit {0})
  finish = do
    bridge_free hooks v.r.items (u64 (at_least_1 v.r.cap * cell_size))
    write_cell p v.r.len x
    store_header a (record { len = u64 (v.r.len + 1); items = p; cap = cap })

  pub finish-Extends :
      (h₂ : Heap)
      → h₂ p ≡ chunk (cap * cell_size) (cells head)
      → ((y : ℕ) → y ≢ p → h₂ y ≡ h y)
      → (h' : Heap) × (finish h₂ ≡ ok tt h') × Extends v (xs ++ x ∷ []) h'
  unfolding finish moved
  finish-Extends h₂ at_p others =
      let size = at_least_1 v.r.cap * cell_size in
      let h₃ = put v.r.items none h₂ in
      let c₄ = chunk (cap * cell_size) (cells (set head v.r.len x)) in
      let h₄ = put p c₄ h₃ in
      let old = others v.r.items items≢p ∙ v.at_items in
      let freed =
        bridge_free-step hooks h₂ v.r.items size (omega (arith, v.real_items)) (ground arith) old in
      let stays = put_ne v.r.items none h₂ (λ e. items≢p (sym e)) ∙ at_p in
      let room : v.r.len < length head = omega (arith, lt, length-head) in
      let a_at =
        put_ne p c₄ h₃ a≢p
        ∙ put_ne v.r.items none h₂ (λ e. items≢ v (sym e))
        ∙ others a a≢p
        ∙ v.at_header in
      let next : u64 (v.r.len + 1) ≡ suc v.r.len =
        u64-small (v.r.len + 1) (omega (arith, lt, small)) ∙ suc_of v.r.len in
      let wide : at_least_1 cap ≡ cap = ground (arith, lt) in
      (
        put a (chunk header_size (header moved)) h₄,
        rw
            (
              u64-small size (omega (arith, v.bounded)),
              freed,
              write_cell-step h₃ p v.r.len x stays room,
              next,
            )
            (store_header-step h₄ a moved a_at),
        (
          record {
            r = moved;
            vs = set head v.r.len x;
            at_header = put_self a _ h₄;
            at_items =
                put_ne a _ h₄ (λ e. a≢p (sym e))
                ∙ put_self p c₄ h₃
                ∙ ap (λ n. chunk (n * cell_size) (cells (set head v.r.len x))) (sym wide);
            full = length-set head v.r.len x ∙ length-head ∙ sym wide;
            fits = omega (arith, lt);
            live = take-set_next v.r.len head x room ∙ ap (λ ys. ys ++ x ∷ []) head-live;
            real = v.real;
            real_items = real;
            bounded = ground (arith, small);
          },
          inr (put_ne a _ h₄ (items≢ v) ∙ put_ne p c₄ h₃ items≢p ∙ put_self v.r.items none h₂),
          λ y apart taken.
              let y≢p : y ≢ p = λ e. taken (ap h e ∙ free) in
              put_ne a _ h₄ apart.0
              ∙ put_ne p c₄ h₃ y≢p
              ∙ put_ne v.r.items none h₂ apart.1
              ∙ others y y≢p,
        ),
      )
