-- ===== src/Strings/Float/Plain.antt =====
-- About kira_string_from_f64: the number that the plain notation shows.
use mathlib.Core.Path.{subst}
use native.Mathlib.Nat.{pow-succ', mul_assoc}
use kira_zig.Common.{
  length-replicate, ℕ, zero, suc, ◌+◌, ◌-◌, ◌*◌, ◌^◌, ◌≡◌, refl, sym, ap, ◌∙◌, inl, inr, ℤ, pos,
  negsuc, Bool, false, ◌||◌, [], ◌∷◌, ◌++◌, ◌==◌, leb, if◌then◌else◌, length, take, drop, replicate,
  Bytes, codes, pos_part, neg_part, arith, Bool-cases, length-append, length-drop, append-nil,
}
use kira_zig.Strings.Float.{expand}

-- The text before and after the first point.
unfoldable pub split_point : Bytes → Bytes × Bytes
split_point [] = ([], [])
split_point (c ∷ cs) =
    let rest = split_point cs in if c == b'.' then ([], cs) else (c ∷ rest.0, rest.1)

unfoldable pub has_point : Bytes → Bool
has_point [] = false
has_point (c ∷ cs) = c == b'.' || has_point cs

-- The number that digits write.
abbrev pub value_of : ℕ → Bytes → ℕ
value_of acc [] = acc
value_of acc (c ∷ cs) = value_of (acc * 10 + (c - 48)) cs

split_at_point : (xs ys : Bytes) → has_point xs ≡ false → split_point (xs ++ b'.' ∷ ys) ≡ (xs, ys)
unfolding split_point has_point
split_at_point [] ys e = refl
split_at_point (x ∷ xs) ys e =
    let here : (x == b'.') ≡ false = ground arith in
    let ih = split_at_point xs ys (ground arith) in
    ap
      (λ b.
        if b
        then ([], xs ++ b'.' ∷ ys)
        else (x ∷ (split_point (xs ++ b'.' ∷ ys)).0, (split_point (xs ++ b'.' ∷ ys)).1))
      here
    ∙ ap (λ r. (x ∷ r.0, r.1)) ih

split_no_point : (xs : Bytes) → has_point xs ≡ false → split_point xs ≡ (xs, [])
unfolding split_point has_point
split_no_point [] e = refl
split_no_point (x ∷ xs) e =
    let here : (x == b'.') ≡ false = ground arith in
    let ih = split_no_point xs (ground arith) in
    ap (λ b. if b then ([], xs) else (x ∷ (split_point xs).0, (split_point xs).1)) here
    ∙ ap (λ r. (x ∷ r.0, r.1)) ih

value_of-append :
    (acc : ℕ) (xs ys : Bytes) → value_of acc (xs ++ ys) ≡ value_of (value_of acc xs) ys
value_of-append acc [] ys = refl
value_of-append acc (x ∷ xs) ys = value_of-append (acc * 10 + (x - 48)) xs ys

value_of-zeros : (n : ℕ) → value_of 0 (replicate n b'0') ≡ 0
value_of-zeros zero = refl
value_of-zeros (suc n) = value_of-zeros n

value_of-replicate : (acc n : ℕ) → value_of acc (replicate n b'0') ≡ acc * 10 ^ n
value_of-replicate acc zero = let e : acc ≡ acc * 10 ^ 0 = omega arith in e
value_of-replicate acc (suc n) =
    let flat : acc * 10 + 0 ≡ acc * 10 = omega arith in
    value_of-replicate (acc * 10 + 0) n
    ∙ (ap (λ k. k * 10 ^ n) flat
        ∙ mul_assoc acc 10 (10 ^ n)
        ∙ ap (λ k. acc * k) (sym (pow-succ' 10 n)))

pub has_point-append :
    (xs ys : Bytes) → has_point xs ≡ false → has_point ys ≡ false → has_point (xs ++ ys) ≡ false
unfolding has_point
has_point-append [] ys e e' = e'
has_point-append (x ∷ xs) ys e e' = ground (arith, has_point-append xs ys (ground arith) e')

has_point-replicate : (n : ℕ) → has_point (replicate n b'0') ≡ false
unfolding has_point
has_point-replicate zero = refl
has_point-replicate (suc n) = has_point-replicate n

has_point-take : (n : ℕ) (xs : Bytes) → has_point xs ≡ false → has_point (take n xs) ≡ false
unfolding has_point
has_point-take zero xs e = refl
has_point-take (suc n) [] e = refl
has_point-take (suc n) (x ∷ xs) e = ground (arith, has_point-take n xs (ground arith))

-- The number of the digits of a plain text, and how many of them are after the point.
abbrev pub plain_value : Bytes → ℕ
plain_value text = value_of 0 ((split_point text).0 ++ (split_point text).1)

abbrev pub decimals : Bytes → ℕ
decimals text = length (split_point text).1

-- `text` shows the number whose digits are `ds`, with the decimal point at `dp` from their start.
abbrev pub Shows : Bytes → (ds : Bytes) → (dp : ℤ) → Type 0
Shows text ds dp =
    plain_value text * 10 ^ (length ds + neg_part dp)
    ≡ value_of 0 ds * 10 ^ (pos_part dp + decimals text)

split_point-Shows :
    (text before after ds : Bytes) (dp : ℤ)
    → split_point text ≡ (before, after)
    → value_of 0 (before ++ after) * 10 ^ (length ds + neg_part dp)
      ≡ value_of 0 ds * 10 ^ (pos_part dp + length after)
    → Shows text ds dp
split_point-Shows text before after ds dp e q =
    ap (λ r. value_of 0 (r.0 ++ r.1) * 10 ^ (length ds + neg_part dp)) e
    ∙ q
    ∙ sym (ap (λ r. value_of 0 ds * 10 ^ (pos_part dp + length r.1)) e)

take-++-drop : (n : ℕ) (xs : Bytes) → take n xs ++ drop n xs ≡ xs
take-++-drop zero xs = refl
take-++-drop (suc n) [] = refl
take-++-drop (suc n) (x ∷ xs) = ap (λ ys. x ∷ ys) (take-++-drop n xs)

pow_sum : (a b : ℕ) → 10 ^ (a + b) ≡ 10 ^ a * 10 ^ b
pow_sum zero b =
    let none_added : 0 + b ≡ b = omega arith in
    let once : 10 ^ b ≡ 1 * 10 ^ b = omega arith in ap (λ k. 10 ^ k) none_added ∙ once
pow_sum (suc a) b =
    let next : suc a + b ≡ suc (a + b) = omega arith in
    ap (λ k. 10 ^ k) next
    ∙ pow-succ' 10 (a + b)
    ∙ ap (λ k. 10 * k) (pow_sum a b)
    ∙ sym (mul_assoc 10 (10 ^ a) (10 ^ b))
    ∙ ap (λ k. k * 10 ^ b) (sym (pow-succ' 10 a))

leading_zeros : (n : ℕ) (ds : Bytes) → value_of 0 (replicate n b'0' ++ ds) ≡ value_of 0 ds
leading_zeros n ds =
    value_of-append 0 (replicate n b'0') ds ∙ ap (λ k. value_of k ds) (value_of-zeros n)

pub expand-Shows : (ds : Bytes) (dp : ℤ) → has_point ds ≡ false → Shows (expand ds dp) ds dp
unfolding expand has_point split_point
expand-Shows ds (negsuc n) e =
    let zeros = replicate (suc n) b'0' ++ ds in
    let long : length ds + suc n ≡ 0 + length zeros =
      omega
        (arith, length-append (replicate (suc n) b'0') ds, length-replicate {A = ℕ} (suc n) b'0') in
    split_point-Shows (codes "0." ++ zeros) (codes "0") zeros ds (negsuc n) refl (
      ap (λ k. k * 10 ^ (length ds + suc n)) (leading_zeros (suc n) ds)
      ∙ ap (λ k. value_of 0 ds * 10 ^ k) long)
expand-Shows ds (pos zero) e =
    let long : length ds + 0 ≡ 0 + length ds = omega arith in
    split_point-Shows (codes "0." ++ ds) (codes "0") ds ds (pos 0) refl
      (ap (λ k. value_of 0 ds * 10 ^ k) long)
expand-Shows ds (pos (suc n)) e = elim (Bool-cases (leb (length ds) (suc n))) [
  | inl whole ↦
      let k = suc n - length ds in
      let text = ds ++ replicate k b'0' in
      let plain = has_point-append ds (replicate k b'0') e (has_point-replicate k) in
      let value : value_of 0 (text ++ []) ≡ value_of 0 ds * 10 ^ k =
        ap (value_of 0) (append-nil text)
        ∙ value_of-append 0 ds (replicate k b'0')
        ∙ value_of-replicate (value_of 0 ds) k in
      let long : k + (length ds + 0) ≡ suc n + 0 = ground arith in
      subst (λ t. Shows t ds (pos (suc n)))
        (sym (ap (λ b. if b then text else take (suc n) ds ++ b'.' ∷ drop (suc n) ds) whole))
        (split_point-Shows text text [] ds (pos (suc n)) (split_no_point text plain) (
          ap (λ v. v * 10 ^ (length ds + 0)) value
          ∙ mul_assoc (value_of 0 ds) (10 ^ k) (10 ^ (length ds + 0))
          ∙ ap (λ v. value_of 0 ds * v) (sym (pow_sum k (length ds + 0)) ∙ ap (λ m. 10 ^ m) long)))
  | inr within ↦
      let text = take (suc n) ds ++ b'.' ∷ drop (suc n) ds in
      let long : length ds + 0 ≡ suc n + length (drop (suc n) ds) =
        ground (arith, length-drop (suc n) ds) in
      subst (λ t. Shows t ds (pos (suc n)))
        (sym (ap (λ b. if b then ds ++ replicate (suc n - length ds) b'0' else text) within))
        (split_point-Shows text (take (suc n) ds) (drop (suc n) ds) ds (pos (suc n))
          (split_at_point (take (suc n) ds) (drop (suc n) ds) (has_point-take (suc n) ds e))
          (ap (λ v. value_of 0 v * 10 ^ (length ds + 0)) (take-++-drop (suc n) ds)
            ∙ ap (λ m. value_of 0 ds * 10 ^ m) long))
]
