-- ===== src/Strings/Float.antt =====
-- kira_string_from_f64 of runtime_helpers.c. A `double` is its bit pattern.
pub mod Plain
pub mod PlainBytes
pub mod Moved
pub mod Scientific
pub mod Size
pub mod Printed
use kira_zig.Common.{
  ℕ, zero, suc, ◌+◌, ◌-◌, ◌*◌, ◌%◌, ℤ, pos, negsuc, Bool, true, false, ◌&&◌, ◌||◌, Option, none,
  some, List, [], ◌∷◌, ◌++◌, ◌==◌, ltb, leb, if◌then◌else◌, length, take, drop, replicate, Bytes,
  codes, pos_part, neg_part, sub_ℕ,
}
use kira_zig.Memory.{Hooks, M, invalid}
use kira_zig.Strings.{BridgeString, string_out}

-- `isnan`, `isinf`, `value < 0`, `==`, "%.*g" and `strtod`.
pub record Floats : Type 0 where
  pub is_nan : ℕ → Bool
  pub is_inf : ℕ → Bool
  pub is_negative : ℕ → Bool
  pub equal : ℕ → ℕ → Bool
  pub format : (prec value : ℕ) → Bytes
  pub strtod : Bytes → ℕ

-- `sizeof g`, and the sizes of `digits` and `plain`.
abbrev pub g_size : ℕ
g_size = 64

abbrev pub digits_size : ℕ
digits_size = 32

abbrev pub plain_size : ℕ
plain_size = 1100

abbrev pub max_prec : ℕ
max_prec = 17

-- The loop over the precisions, from `prec` on with `n` more after it; `g` keeps the last text.
unfoldable pub shortest_from : Floats → (value n prec : ℕ) → Bytes
shortest_from F value zero prec = take (g_size - 1) (F.format prec value)
shortest_from F value (suc n) prec =
    let g = take (g_size - 1) (F.format prec value) in
    let rest = shortest_from F value n (prec + 1) in if F.equal (F.strtod g) value then g else rest

abbrev pub in_front : ℕ → Option (Bytes × Bytes) → Option (Bytes × Bytes)
in_front c none = none
in_front c (some (before, after)) = some (c ∷ before, after)

-- `strpbrk(g, "eE")`: what is before and after the mark.
unfoldable pub split_exponent : Bytes → Option (Bytes × Bytes)
split_exponent [] = none
split_exponent (c ∷ cs) =
    let rest = split_exponent cs in
    if c == b'e' || c == b'E' then some ([], cs) else in_front c rest

abbrev pub is_digit : ℕ → Bool
is_digit c = leb 48 c && leb c 57

-- `strtol` of text without white space.
unfoldable pub natural : ℕ → Bytes → ℕ
natural acc [] = acc
natural acc (c ∷ cs) =
    let rest = natural (acc * 10 + (c - 48)) cs in if is_digit c then rest else acc

abbrev pub minus : ℕ → ℤ
minus zero = pos 0
minus (suc n) = negsuc n

unfoldable pub strtol : Bytes → ℤ
unfolding natural
strtol [] = pos 0
strtol (c ∷ cs) =
    if c == b'-'
    then minus (natural 0 cs)
    else if c == b'+'
    then pos (natural 0 cs)
    else pos (natural 0 (c ∷ cs))

-- The loop over the mantissa: the digits so far, and how many stood before the point.
unfoldable pub mantissa : Bytes → (digits : Bytes) → (point : Option ℕ) → Bytes × Option ℕ
mantissa [] ds point = (ds, point)
mantissa (c ∷ cs) ds point =
    mantissa cs (if c == b'.' then ds else ds ++ c ∷ [])
      (if c == b'.' then some (length ds) else point)

unfoldable pub expand : Bytes → (dp : ℤ) → Bytes
expand ds (negsuc n) = codes "0." ++ (replicate (suc n) b'0' ++ ds)
expand ds (pos zero) = codes "0." ++ ds
expand ds (pos (suc n)) =
    if leb (length ds) (suc n)
    then ds ++ replicate (suc n - length ds) b'0'
    else take (suc n) ds ++ b'.' ∷ drop (suc n) ds

abbrev pub starts_minus : Bytes → Bool
starts_minus [] = false
starts_minus (c ∷ cs) = c == b'-'

abbrev pub without_sign : Bool → Bytes → Bytes
without_sign neg g = if neg then drop 1 g else g

abbrev pub point_of : Option ℕ → Bytes → ℕ
point_of none ds = length ds
point_of (some p) ds = p

-- `point + exp10`
abbrev pub decimal_point : (point : ℕ) → (exp10 : ℤ) → ℤ
decimal_point point exp10 = sub_ℕ (point + pos_part exp10) (neg_part exp10)

module _ (hooks : Hooks) where
  abbrev pub plain_out : Bytes → M BridgeString
  plain_out plain = if ltb plain_size (length plain) then invalid else string_out hooks plain

  abbrev pub expanded_out : (neg : Bool) → (exp10 : ℤ) → Bytes × Option ℕ → M BridgeString
  expanded_out neg exp10 (ds, point) =
      if ltb digits_size (length ds)
      then invalid
      else plain_out
          ((if neg then codes "-" else []) ++ expand ds (decimal_point (point_of point ds) exp10))

  -- The end of the function: the text without an exponent, or the expanded one.
  unfoldable pub finite_out : Bytes → Option (Bytes × Bytes) → M BridgeString
  unfolding string_out mantissa expand strtol
  finite_out g none = string_out hooks g
  finite_out g (some (before, after)) =
      let neg = starts_minus g in
      expanded_out neg (strtol after) (mantissa (without_sign neg before) [] none)

  unfoldable pub string_from_f64 : Floats → ℕ → M BridgeString
  unfolding finite_out shortest_from split_exponent string_out
  string_from_f64 F value =
      if F.is_nan value
      then string_out hooks (codes "nan")
      else if F.is_inf value
      then string_out hooks (if F.is_negative value then codes "-inf" else codes "inf")
      else (let g = shortest_from F value (max_prec - 1) 1 in finite_out g (split_exponent g))
