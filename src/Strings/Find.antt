-- ===== src/Strings/Find.antt =====
-- About `kira_string_index_of` of runtime_helpers.c, against the positions where a needle stands.
use mathlib.Core.Path.{subst}
use kira_zig.Common.{
  ℕ, zero, suc, ◌+◌, ◌-◌, ◌≤◌, ◌<◌, ◌≡◌, ◌⊎◌, inl, inr, refl, sym, ap, ◌∙◌, ℤ, pos, negsuc, true,
  ◌&&◌, [], ◌∷◌, ◌==◌, ltb, leb, arith, length, take, drop, Bytes, Bool-cases,
}
use kira_zig.Memory.{Heap, ok, bytes}
use kira_zig.Memory.Laws.{chunk}
use kira_zig.Strings.{string_bytes, same_bytes, find_from, index_of}

same_bytes_refl : (a : Bytes) → same_bytes a a ≡ true
unfolding same_bytes
same_bytes_refl [] = refl
same_bytes_refl (x ∷ a) = ground (arith, same_bytes_refl a)

same_bytes_sound : (a b : Bytes) → same_bytes a b ≡ true → a ≡ b
unfolding same_bytes
same_bytes_sound [] [] e = refl
same_bytes_sound [] (y ∷ b) e = cc
same_bytes_sound (x ∷ a) [] e = cc
same_bytes_sound (x ∷ a) (y ∷ b) e = split x y a b e (same_bytes_sound a b)
  where
    split :
        (x y : ℕ) (a b : Bytes)
        → ((x == y) && same_bytes a b) ≡ true
        → (same_bytes a b ≡ true → a ≡ b)
        → x ∷ a ≡ y ∷ b
    split x y a b e rest = elim (Bool-cases (x == y)) [
      | inl same ↦
          let tail : same_bytes a b ≡ true = cc in
          let first : x ≡ y = ground arith in ap (λ z. z ∷ a) first ∙ ap (λ c. y ∷ c) (rest tail)
      | inr other ↦ cc
    ]

pub string_bytes-step :
    (h : Heap) (ptr from count : ℕ) {n : ℕ} (bs : Bytes)
    → h ptr ≡ chunk n (bytes bs)
    → from + count ≤ length bs
    → string_bytes ptr from count h ≡ ok (take count (drop from bs)) h
unfolding string_bytes
string_bytes-step h ptr from zero bs found le = refl
string_bytes-step h ptr from (suc n) bs found le =
    let inside : leb (from + suc n) (length bs) ≡ true = ground arith in rw (found, inside) refl

module _ (hs ns : Bytes) (nlen : ℕ) where
  -- The first `nlen` bytes of the needle stand at `i`.
  abbrev pub Occurs : ℕ → Type 0
  Occurs i = take nlen (drop i hs) ≡ take nlen ns

  -- `r` is the first occurrence from `i` on, among `n` positions, or -1 if there is none.
  abbrev pub Finds : (i n : ℕ) → ℤ → Type 0
  Finds i n r =
      ((j : ℕ) × (r ≡ pos j)
        × (i ≤ j)
        × (j < i + n)
        × Occurs j
        × ((k : ℕ) → i ≤ k → k < j → ¬ Occurs k))
      ⊎ ((r ≡ negsuc 0) × ((k : ℕ) → i ≤ k → k < i + n → ¬ Occurs k))

  here : (i n : ℕ) → Occurs i → Finds i (suc n) (pos i)
  here i n o = inl (i, refl, omega arith, omega arith, o, λ k le lt. absurd (omega arith))

  later : (i n : ℕ) (r : ℤ) → ¬ Occurs i → Finds (i + 1) n r → Finds i (suc n) r
  later i n r not_here (inl (j, e, le, lt, o, first)) = inl (
    j,
    e,
    omega arith,
    omega arith,
    o,
    λ k le' lt'. elim (Bool-cases (k == i)) [
      | inl same ↦ λ at_k.
          not_here (let q : k ≡ i = ground arith in sym (ap (λ m. take nlen (drop m hs)) q) ∙ at_k)
      | inr other ↦ first k (ground arith) lt'
    ],
  )
  later i n r not_here (inr (e, none_left)) = inr (
    e,
    λ k le lt. elim (Bool-cases (k == i)) [
      | inl same ↦ λ at_k.
          not_here (let q : k ≡ i = ground arith in sym (ap (λ m. take nlen (drop m hs)) q) ∙ at_k)
      | inr other ↦ none_left k (ground arith) (omega arith)
    ],
  )

  module _ (h : Heap) (hptr nptr : ℕ) {a b : ℕ} (at_h : h hptr ≡ chunk a (bytes hs))
      (at_n : h nptr ≡ chunk b (bytes ns)) (long : nlen ≤ length ns) where
    find_from-Finds :
        (i n : ℕ)
        → i + n + nlen ≤ length hs + 1
        → (r : ℤ) × (find_from hptr nptr nlen i n h ≡ ok r h) × Finds i n r
    unfolding find_from
    find_from-Finds i zero le = (negsuc 0, refl, inr (refl, λ k le' lt. absurd (omega arith)))
    find_from-Finds i (suc n) le =
        let (r, ran, found) = find_from-Finds (i + 1) n (omega arith) in
        let window = string_bytes-step h hptr i nlen hs at_h (omega arith) in
        let needle = string_bytes-step h nptr 0 nlen ns at_n (omega arith) in
        elim (Bool-cases (same_bytes (take nlen (drop i hs)) (take nlen ns))) [
          | inl same ↦ (
            pos i,
            rw (window, needle, same) refl,
            here i n (same_bytes_sound (take nlen (drop i hs)) (take nlen ns) same),
          )
          | inr other ↦ (
            r,
            rw (window, needle, other) ran,
            later i n r
                (λ o. absurd (
                  cc (
                    ap (λ w. same_bytes w (take nlen ns)) o,
                    same_bytes_refl (take nlen ns),
                    other,
                  )))
                found,
          )
        ]

    -- A search always returns: the position of the first occurrence of the needle, or -1 if it does
    -- not occur, and 0 for an empty needle; it changes nothing. The lengths are within the two
    -- buffers.
    pub index_of-Finds :
        (hlen : ℕ)
        → hlen ≤ length hs
        → (r : ℤ) × (index_of hptr hlen nptr nlen h ≡ ok r h) × Finds 0 (hlen + 1 - nlen) r
    unfolding index_of
    index_of-Finds hlen within = elim (Bool-cases (nlen == 0)) [
      | inl empty ↦
          let e : nlen ≡ 0 = ground arith in
          (
            pos 0,
            rw empty refl,
            inl (
              0,
              refl,
              omega arith,
              omega (arith, e),
              rw e refl,
              λ k le lt. absurd (omega arith),
            ),
          )
      | inr some_bytes ↦ elim (Bool-cases (ltb hlen nlen)) [
        | inl short ↦
            (negsuc 0, rw (some_bytes, short) refl, inr (refl, λ k le lt. absurd (ground arith)))
        | inr fits ↦
            let (r, ran, found) = find_from-Finds 0 (hlen - nlen + 1) (ground arith) in
            let e : hlen - nlen + 1 ≡ hlen + 1 - nlen = ground arith in
            (r, rw (some_bytes, fits) ran, subst (λ n. Finds 0 n r) e found)
      ]
    ]
