-- ===== src/Common/Text.antt =====
-- Byte strings. A `const char *` is the bytes before its NUL terminator, and `none` is NULL.
use Prim.Native.Nat.{ℕ}
use Prim.Native.Char.{code}
use Prim.Native.String.{String}
use mathlib.Core.Bool.{Bool, true, false, ◌&&◌}
use mathlib.Core.List.{List, [], ◌∷◌}
use mathlib.Core.Logic.{inl, inr}
use mathlib.Core.Path.{◌≡◌, refl, ap, ◌∙◌}
use native.Mathlib.Omega.{arith}
use kira_zig.Common.Tests.{◌==◌, Bool-cases}

abbrev pub Bytes : Type 0
Bytes = List ℕ

-- The code points of a literal, which are its bytes when the text is ASCII.
abbrev pub codes : String → Bytes
codes String.[] = []
codes (String.◌∷◌ c s) = code c ∷ codes s

-- `strcmp(a, b) == 0`.
unfoldable pub str_eq : Bytes → Bytes → Bool
str_eq [] [] = true
str_eq [] (b ∷ bs) = false
str_eq (a ∷ as') [] = false
str_eq (a ∷ as') (b ∷ bs) = (a == b) && str_eq as' bs

pub str_eq_refl : (a : Bytes) → str_eq a a ≡ true
unfolding str_eq
str_eq_refl [] = refl
str_eq_refl (x ∷ a) = ground (arith, str_eq_refl a)

pub str_eq_sound : (a b : Bytes) → str_eq a b ≡ true → a ≡ b
unfolding str_eq
str_eq_sound [] [] e = refl
str_eq_sound [] (y ∷ b) e = cc
str_eq_sound (x ∷ a) [] e = cc
str_eq_sound (x ∷ a) (y ∷ b) e = split x y a b e (str_eq_sound a b)
  where
    split :
        (x y : ℕ) (a b : Bytes)
        → ((x == y) && str_eq a b) ≡ true
        → (str_eq a b ≡ true → a ≡ b)
        → x ∷ a ≡ y ∷ b
    split x y a b e rest = elim (Bool-cases (x == y)) [
      | inl same ↦
          let tail : str_eq a b ≡ true = cc in
          let first : x ≡ y = ground arith in ap (λ z. z ∷ a) first ∙ ap (λ c. y ∷ c) (rest tail)
      | inr other ↦ cc
    ]
