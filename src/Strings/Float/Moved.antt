-- ===== src/Strings/Float/Moved.antt =====
-- About kira_string_from_f64: the decimal point, moved by the exponent.
use mathlib.Core.Path.{subst}
use native.Mathlib.Nat.{pow-succ', mul_assoc, mul_comm}
use kira_zig.Common.{
  ℕ, zero, suc, ◌+◌, ◌-◌, ◌*◌, ◌^◌, ◌≤◌, ◌<◌, ◌≡◌, sym, ap, ◌∙◌, ℤ, pos, negsuc, Bool, true, false,
  leb, if◌then◌else◌, pos_part, neg_part, sub_ℕ, arith,
}
use kira_zig.Strings.Float.{minus, decimal_point}

-- The powers of ten that the exponent multiplies by, and divides by.
abbrev pub rise : Bool → ℕ → ℕ
rise false n = n
rise true n = 0

abbrev pub fall : Bool → ℕ → ℕ
fall false n = 0
fall true n = n

abbrev pub exponent_of : Bool → ℕ → ℤ
exponent_of down n = if down then minus n else pos n

sub-le : (a b : ℕ) → b ≤ a → sub_ℕ a b ≡ pos (a - b)
sub-le a b le =
    let yes : leb b a ≡ true = ground arith in
    ap (λ t. if t then pos (a - b) else negsuc (b - a - 1)) yes

sub-gt : (a b : ℕ) → a < b → sub_ℕ a b ≡ negsuc (b - a - 1)
sub-gt a b lt =
    let no : leb b a ≡ false = ground arith in
    ap (λ t. if t then pos (a - b) else negsuc (b - a - 1)) no

next_power : (x n : ℕ) → x * 10 ^ suc n ≡ 10 * (x * 10 ^ n)
next_power x n =
    ap (λ k. x * k) (pow-succ' 10 n)
    ∙ sym (mul_assoc x 10 (10 ^ n))
    ∙ ap (λ k. k * 10 ^ n) (mul_comm x 10)
    ∙ mul_assoc 10 x (10 ^ n)

cancel_ten : (x y n m : ℕ) → x * 10 ^ suc n ≡ y * 10 ^ suc m → x * 10 ^ n ≡ y * 10 ^ m
cancel_ten x y n m e = omega (arith, e, next_power x n, next_power y m)

raised_point :
    (n d E x y : ℕ)
    → let dp = decimal_point 1 (pos E) in
      x * 10 ^ (suc n + neg_part dp) ≡ y * 10 ^ (pos_part dp + d)
      → x * 10 ^ (n + 0) ≡ y * 10 ^ (E + d)
raised_point n d E x y e =
    let at : decimal_point 1 (pos E) ≡ pos (1 + E) =
      sub-le (1 + E) 0 (omega arith) ∙ ap pos whole in
    let e' = subst (λ dp. x * 10 ^ (suc n + neg_part dp) ≡ y * 10 ^ (pos_part dp + d)) at e in
    cancel_ten x y (n + 0) (E + d) (left ∙ e' ∙ right)
  where
    whole : 1 + E - 0 ≡ 1 + E
    whole = omega arith

    left : x * 10 ^ suc (n + 0) ≡ x * 10 ^ (suc n + 0)
    left = let s : suc (n + 0) ≡ suc n + 0 = omega arith in ap (λ k. x * 10 ^ k) s

    right : y * 10 ^ (1 + E + d) ≡ y * 10 ^ suc (E + d)
    right = let s : 1 + E + d ≡ suc (E + d) = omega arith in ap (λ k. y * 10 ^ k) s

-- The decimal point at 1 moved by the exponent, against the exponent itself.
pub moved_point :
    (down : Bool) (n d E x y : ℕ)
    → let dp = decimal_point 1 (exponent_of down E) in
      x * 10 ^ (suc n + neg_part dp) ≡ y * 10 ^ (pos_part dp + d)
      → x * 10 ^ (n + fall down E) ≡ y * 10 ^ (rise down E + d)
moved_point false n d E x y e = raised_point n d E x y e
moved_point true n d zero x y e = raised_point n d 0 x y e
moved_point true n d (suc zero) x y e =
    let s : n + 1 ≡ suc n + 0 = omega arith in ap (λ k. x * 10 ^ k) s ∙ e
moved_point true n d (suc (suc k)) x y e =
    let at : decimal_point 1 (negsuc (suc k)) ≡ negsuc k =
      sub-gt 1 (suc (suc k)) (omega arith) ∙ ap negsuc left in
    let e' = subst (λ dp. x * 10 ^ (suc n + neg_part dp) ≡ y * 10 ^ (pos_part dp + d)) at e in
    let s : n + suc (suc k) ≡ suc n + suc k = omega arith in ap (λ k. x * 10 ^ k) s ∙ e'
  where
    left : suc (suc k) - 1 - 1 ≡ k
    left = omega arith

pub exponent_size :
    (down : Bool) (n : ℕ)
    → n ≤ 400
    → pos_part (exponent_of down n) + neg_part (exponent_of down n) ≤ 400
exponent_size false n le = omega (arith, le)
exponent_size true zero le = omega arith
exponent_size true (suc n) le = omega (arith, le)
