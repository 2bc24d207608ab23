-- ===== src/Strings/Float/PlainBytes.antt =====
-- About kira_string_from_f64: the bytes of the plain notation.
use kira_zig.Common.{
  ℕ, zero, suc, ◌-◌, ◌≤◌, ◌≡◌, refl, ℤ, pos, negsuc, true, false, [], ◌∷◌, ◌++◌, leb, if◌then◌else◌,
  length, Bytes, arith, All, ◌⊎◌, inl, inr, replicate, take, drop,
}
use kira_zig.Strings.Float.{expand}

abbrev pub IsDigit : ℕ → Type 0
IsDigit c = (48 ≤ c) × (c ≤ 57)

-- The bytes of plain notation.
abbrev pub IsPlainByte : ℕ → Type 0
IsPlainByte c = IsDigit c ⊎ (c ≡ b'.')

plain-append :
    (xs ys : Bytes) → All IsPlainByte xs → All IsPlainByte ys → All IsPlainByte (xs ++ ys)
plain-append [] ys l r = r
plain-append (x ∷ xs) ys (first, l) r = (first, plain-append xs ys l r)

plain_zeros : (n : ℕ) → All IsPlainByte (replicate n b'0')
plain_zeros zero = tt
plain_zeros (suc n) = (inl (omega arith, omega arith), plain_zeros n)

plain_digits : (ds : Bytes) → All IsDigit ds → All IsPlainByte ds
plain_digits [] all = tt
plain_digits (d ∷ ds) (first, all) = (inl first, plain_digits ds all)

digits-take : (n : ℕ) (ds : Bytes) → All IsDigit ds → All IsDigit (take n ds)
digits-take zero ds all = tt
digits-take (suc n) [] all = tt
digits-take (suc n) (d ∷ ds) (first, all) = (first, digits-take n ds all)

digits-drop : (n : ℕ) (ds : Bytes) → All IsDigit ds → All IsDigit (drop n ds)
digits-drop zero ds all = all
digits-drop (suc n) [] all = tt
digits-drop (suc n) (d ∷ ds) (first, all) = digits-drop n ds all

pub plain-expand : (ds : Bytes) (dp : ℤ) → All IsDigit ds → All IsPlainByte (expand ds dp)
unfolding expand
plain-expand ds (negsuc n) all = (
  inl (omega arith, omega arith),
  (inr refl, plain-append (replicate (suc n) b'0') ds (plain_zeros (suc n)) (plain_digits ds all)),
)
plain-expand ds (pos zero) all = (inl (omega arith, omega arith), (inr refl, plain_digits ds all))
plain-expand ds (pos (suc n)) all =
    (elim (leb (length ds) (suc n))
      as (λ b. All IsPlainByte (
        if b
        then ds ++ replicate (suc n - length ds) b'0'
        else take (suc n) ds ++ b'.' ∷ drop (suc n) ds)) [
          | true ↦
              plain-append ds (replicate (suc n - length ds) b'0') (plain_digits ds all)
                (plain_zeros (suc n - length ds))
          | false ↦
              plain-append (take (suc n) ds) (b'.' ∷ drop (suc n) ds)
                (plain_digits (take (suc n) ds) (digits-take (suc n) ds all))
                (inr refl, plain_digits (drop (suc n) ds) (digits-drop (suc n) ds all))
        ])
