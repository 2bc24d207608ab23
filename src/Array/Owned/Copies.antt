-- ===== src/Array/Owned/Copies.antt =====
-- About `kira_array_clone` of runtime_helpers_arrays.inc: the copy of one element, and what the later
-- copies leave of it.
use native.Mathlib.Decide.{ℕ_discrete}
use kira_zig.Common.{
  ℕ, ◌≤◌, ◌≡◌, ◌≢◌, ◌⊎◌, inl, inr, sym, ap, ◌∙◌, none, length, take, Bytes, Option-cases,
}
use kira_zig.BridgeValue.{BridgeValue, void, integer, float, string, boolean, raw_ptr}
use kira_zig.Memory.{Hooks, bytes, Heap, at_least_1}
use kira_zig.Memory.Laws.{chunk}

-- A string is NULL, or its bytes are there.
abbrev pub Readable : Heap → BridgeValue → Type 0
Readable h (string ptr len) =
    (ptr ≡ 0)
    ⊎ ((ptr ≢ 0) × (n : ℕ) × (bs : Bytes) × (h ptr ≡ chunk n (bytes bs)) × (len ≤ length bs))
Readable h _ = Unit

-- All that is allocated in `h` is allocated in `g`.
abbrev pub Below : Heap → Heap → Type 0
Below h g = (x : ℕ) → h x ≢ none → g x ≢ none

-- `y` is the copy in `h'` of the element `x` of `h`: equal, but for a string that is not NULL. Its copy
-- has a new buffer with the same bytes, or is empty and NULL where `malloc` refused the buffer on the way
-- from `h` to `h'`.
abbrev pub CopyOf : Hooks → Heap → Heap → BridgeValue → BridgeValue → Type 0
CopyOf hooks h h' (string ptr len) y =
    ((ptr ≡ 0) × (y ≡ string ptr len))
    ⊎ (((y ≡ string 0 0)
          × (g : Heap) × Below h g
          × Below g h'
          × (hooks.malloc g (at_least_1 len) ≡ none))
        ⊎ ((ptr ≢ 0)
            × (n : ℕ) × (bs : Bytes) × (buf : ℕ) × (h ptr ≡ chunk n (bytes bs))
            × (y ≡ string buf len)
            × (h buf ≡ none)
            × (h' buf ≡ chunk (at_least_1 len) (bytes (take len bs)))))
CopyOf hooks h h' x y = y ≡ x

-- What was allocated stays, but at `to`.
abbrev pub KeptBut : ℕ → Heap → Heap → Type 0
KeptBut to h h' = (x : ℕ) → x ≢ to → h x ≢ none → h' x ≡ h x

abbrev pub Kept : Heap → Heap → Type 0
Kept h h' = (x : ℕ) → h x ≢ none → h' x ≡ h x

pub KeptBut-trans :
    (to : ℕ) (h h' h'' : Heap) → KeptBut to h h' → KeptBut to h' h'' → KeptBut to h h''
KeptBut-trans to h h' h'' k k' x ne there =
    k' x ne (λ e. there (sym (k x ne there) ∙ e)) ∙ k x ne there

-- No string is at `to`.
abbrev pub NoBytes : Heap → ℕ → Type 0
NoBytes h to = (n : ℕ) (bs : Bytes) → h to ≢ chunk n (bytes bs)

KeptBut-Below : (to : ℕ) (h h' : Heap) → KeptBut to h h' → h' to ≢ none → Below h h'
KeptBut-Below to h h' kept taken x there = elim (ℕ_discrete x to) [
  | yes same ↦ λ e. taken (ap h' (sym same) ∙ e)
  | no ne ↦ λ e. there (sym (kept x ne there) ∙ e)
]

module _ (h h' : Heap) (to : ℕ) (kept : KeptBut to h h') (apart : NoBytes h to) where
  bytes-kept : (x n : ℕ) (bs : Bytes) → h x ≡ chunk n (bytes bs) → h' x ≡ h x
  bytes-kept x n bs found = kept x (λ e. apart n bs (ap h (sym e) ∙ found)) (λ e. cc (e, found))

  pub Readable-kept : (x : BridgeValue) → Readable h x → Readable h' x
  Readable-kept void r = tt
  Readable-kept (integer _) r = tt
  Readable-kept (float _) r = tt
  Readable-kept (boolean _) r = tt
  Readable-kept (raw_ptr _) r = tt
  Readable-kept (string ptr len) (inl null) = inl null
  Readable-kept (string ptr len) (inr (real, n, bs, found, le)) =
      inr (real, n, bs, bytes-kept ptr n bs found ∙ found, le)

  -- A copy of an element as it was earlier.
  pub CopyOf-earlier :
      (hooks : Hooks) (h'' : Heap)
      → h' to ≢ none
      → (x y : BridgeValue) → Readable h x
      → CopyOf hooks h' h'' x y
      → CopyOf hooks h h'' x y
  CopyOf-earlier hooks h'' taken void y r c = c
  CopyOf-earlier hooks h'' taken (integer _) y r c = c
  CopyOf-earlier hooks h'' taken (float _) y r c = c
  CopyOf-earlier hooks h'' taken (boolean _) y r c = c
  CopyOf-earlier hooks h'' taken (raw_ptr _) y r c = c
  CopyOf-earlier hooks h'' taken (string ptr len) y r (inl null) = inl null
  CopyOf-earlier hooks h'' taken (string ptr len) y r
        (inr (inl (empty, g, above, below, refused))) =
      inr (
        inl (
          empty,
          g,
          (λ x there. above x (KeptBut-Below to h h' kept taken x there)),
          below,
          refused,
        ))
  CopyOf-earlier hooks h'' taken (string ptr len) y r
        (inr (inr (real, n, bs, buf, found, same, free, copied))) =
      inr (inr (real, n, bs, buf, was_there r, same, was_free, copied))
    where
      was_there : Readable h (string ptr len) → h ptr ≡ chunk n (bytes bs)
      was_there (inl null) = absurd (real null)
      was_there (inr (_, m, cs, at_ptr, _)) = sym (bytes-kept ptr m cs at_ptr) ∙ found

      was_free : h buf ≡ none
      was_free = elim (Option-cases (h buf)) [
        | inl none_yet ↦ none_yet
        | inr (c, some_yet) ↦
            let there : h buf ≢ none = λ e. cc (e, some_yet) in
            let apart' : buf ≢ to = λ e. taken (ap h' (sym e) ∙ free) in
            absurd (there (sym (kept buf apart' there) ∙ free))
      ]

-- A copy after later changes.
pub CopyOf-later :
    (hooks : Hooks) (h h' h'' : Heap) (to : ℕ)
    → KeptBut to h' h''
    → NoBytes h' to
    → h'' to ≢ none
    → (x y : BridgeValue) → CopyOf hooks h h' x y
    → CopyOf hooks h h'' x y
CopyOf-later hooks h h' h'' to kept apart taken void y c = c
CopyOf-later hooks h h' h'' to kept apart taken (integer _) y c = c
CopyOf-later hooks h h' h'' to kept apart taken (float _) y c = c
CopyOf-later hooks h h' h'' to kept apart taken (boolean _) y c = c
CopyOf-later hooks h h' h'' to kept apart taken (raw_ptr _) y c = c
CopyOf-later hooks h h' h'' to kept apart taken (string ptr len) y (inl null) = inl null
CopyOf-later hooks h h' h'' to kept apart taken (string ptr len) y
      (inr (inl (empty, g, above, below, refused))) =
    inr (
      inl (
        empty,
        g,
        above,
        (λ x there. KeptBut-Below to h' h'' kept taken x (below x there)),
        refused,
      ))
CopyOf-later hooks h h' h'' to kept apart taken (string ptr len) y
      (inr (inr (real, n, bs, buf, found, same, free, copied))) =
    inr (
      inr (
        real,
        n,
        bs,
        buf,
        found,
        same,
        free,
        bytes-kept h' h'' to kept apart buf (at_least_1 len) (take len bs) copied ∙ copied,
      ))

-- A string among the copies that is not NULL stands in a buffer that was not there before.
pub CopyOf-string :
    (hooks : Hooks) (h h' : Heap) (x : BridgeValue) (p len : ℕ)
    → CopyOf hooks h h' x (string p len)
    → p ≢ 0
    → (h p ≡ none) × (n : ℕ) × (bs : Bytes) × (h' p ≡ chunk n (bytes bs))
CopyOf-string hooks h h' void p len c real = cc
CopyOf-string hooks h h' (integer _) p len c real = cc
CopyOf-string hooks h h' (float _) p len c real = cc
CopyOf-string hooks h h' (boolean _) p len c real = cc
CopyOf-string hooks h h' (raw_ptr _) p len c real = cc
CopyOf-string hooks h h' (string ptr m) p len (inl (null, same)) real =
    absurd (real (cc (null, same)))
CopyOf-string hooks h h' (string ptr m) p len (inr (inl (same, _, _, _, _))) real =
    absurd (real (cc same))
CopyOf-string hooks h h' (string ptr m) p len (inr (inr (_, n, bs, buf, found, same, free, copied)))
      real =
    let at_buf : p ≡ buf = cc same in
    (ap h at_buf ∙ free, at_least_1 m, take m bs, ap h' at_buf ∙ copied)

-- Two copies, the second made later, do not share a buffer.
pub CopyOf-apart :
    (hooks : Hooks) (h h₁ h₂ h' : Heap) (to : ℕ) (x x' : BridgeValue) (p len p' len' : ℕ)
    → KeptBut to h₁ h₂
    → NoBytes h₁ to
    → CopyOf hooks h h₁ x (string p len)
    → CopyOf hooks h₂ h' x' (string p' len')
    → p ≢ 0
    → p ≢ p'
CopyOf-apart hooks h h₁ h₂ h' to x x' p len p' len' kept apart c c' real e =
    let (_, n, bs, there) = CopyOf-string hooks h h₁ x p len c real in
    let (free, _, _, _) = CopyOf-string hooks h₂ h' x' p' len' c' (λ null. real (e ∙ null)) in
    let same : h₂ p ≡ h₁ p = bytes-kept h₁ h₂ to kept apart p n bs there in
    cc (same, there, free, ap h₂ e)
