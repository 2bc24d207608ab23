-- ===== src/Strings/Float/Scientific.antt =====
-- About kira_string_from_f64: the texts of "%.*g", with and without an exponent, and how the code takes
-- them apart.
use mathlib.Core.Path.{subst}
use kira_zig.Common.{
  ℕ, ◌+◌, ◌-◌, ◌*◌, ◌^◌, ◌≤◌, ◌≡◌, ◌≢◌, refl, sym, ap, ◌∙◌, pos, Bool, true, false, ◌||◌, Option,
  none, some, [], ◌∷◌, ◌++◌, ◌==◌, if◌then◌else◌, length, Bytes, codes, pos_part, neg_part, arith,
  All, append-nil, append_assoc,
}
use kira_zig.Strings.Float.{
  split_exponent, in_front, is_digit, natural, minus, strtol, mantissa, decimal_point, starts_minus,
  point_of, without_sign,
}
use kira_zig.Strings.Float.PlainBytes.{IsDigit}
use kira_zig.Strings.Float.Moved.{rise, fall, exponent_of, moved_point, exponent_size}
use kira_zig.Strings.Float.Plain.{value_of, plain_value, decimals, Shows}

abbrev pub NoMark : Bytes → Type 0
NoMark = All (λ c. (c ≢ b'e') × (c ≢ b'E'))

abbrev pub sign : Bool → Bytes
sign neg = if neg then codes "-" else []

abbrev pub fraction : Option Bytes → Bytes
fraction none = []
fraction (some ds) = b'.' ∷ ds

abbrev pub decimals_of : Option Bytes → Bytes
decimals_of none = []
decimals_of (some ds) = ds

abbrev pub down_mark : Bool → ℕ
down_mark down = if down then b'-' else b'+'

-- A text such as -1.5e-07: a sign, a digit, the decimals if there are any, and the exponent.
pub record Scientific (g : Bytes) : Type 0 where
  pub neg : Bool
  pub lead : ℕ
  pub frac : Option Bytes
  pub down : Bool
  pub size : Bytes
  pub text : g ≡ sign neg ++ ((lead ∷ fraction frac) ++ b'e' ∷ down_mark down ∷ size)
  pub lead-IsDigit : IsDigit lead
  pub frac-IsDigit : All IsDigit (decimals_of frac)
  pub size-IsDigit : All IsDigit size
  pub small : value_of 0 size ≤ 400

-- The plain text shows the number that the digits and the exponent write.
abbrev pub SameNumber : {g : Bytes} → Scientific g → Bytes → Type 0
SameNumber s shown =
    plain_value shown * 10 ^ (length (decimals_of s.frac) + fall s.down (value_of 0 s.size))
    ≡ value_of 0 (s.lead ∷ decimals_of s.frac)
      * 10 ^ (rise s.down (value_of 0 s.size) + decimals shown)

pub split_exponent-NoMark : (g : Bytes) → NoMark g → split_exponent g ≡ none
unfolding split_exponent
split_exponent-NoMark [] plain = refl
split_exponent-NoMark (c ∷ cs) ((ne, ne'), plain) =
    let here : (c == b'e' || c == b'E') ≡ false = ground arith in
    ap (λ b. if b then some ([], cs) else in_front c (split_exponent cs)) here
    ∙ ap (in_front c) (split_exponent-NoMark cs plain)

split_exponent-mark : (xs ys : Bytes) → NoMark xs → split_exponent (xs ++ b'e' ∷ ys) ≡ some (xs, ys)
unfolding split_exponent
split_exponent-mark [] ys plain = refl
split_exponent-mark (c ∷ cs) ys ((ne, ne'), plain) =
    let here : (c == b'e' || c == b'E') ≡ false = ground arith in
    ap
      (λ b. if b then some ([], cs ++ b'e' ∷ ys) else in_front c (split_exponent (cs ++ b'e' ∷ ys)))
      here
    ∙ ap (in_front c) (split_exponent-mark cs ys plain)

digits-NoMark : (ds : Bytes) → All IsDigit ds → NoMark ds
digits-NoMark [] all = tt
digits-NoMark (d ∷ ds) ((low, high), all) =
    (((λ e. omega (arith, e, high)), (λ e. omega (arith, e, high))), digits-NoMark ds all)

fraction-NoMark : (frac : Option Bytes) → All IsDigit (decimals_of frac) → NoMark (fraction frac)
fraction-NoMark none all = tt
fraction-NoMark (some ds) all =
    (((λ e. omega (arith, e)), (λ e. omega (arith, e))), digits-NoMark ds all)

natural-value_of : (acc : ℕ) (cs : Bytes) → All IsDigit cs → natural acc cs ≡ value_of acc cs
unfolding natural
natural-value_of acc [] all = refl
natural-value_of acc (c ∷ cs) ((low, high), all) =
    let here : is_digit c ≡ true = ground arith in
    ap (λ b. if b then natural (acc * 10 + (c - 48)) cs else acc) here
    ∙ natural-value_of (acc * 10 + (c - 48)) cs all

strtol-exponent :
    (down : Bool) (size : Bytes)
    → All IsDigit size
    → strtol (down_mark down ∷ size) ≡ exponent_of down (value_of 0 size)
unfolding strtol
strtol-exponent true size all = ap minus (natural-value_of 0 size all)
strtol-exponent false size all = ap pos (natural-value_of 0 size all)

mantissa-digits :
    (cs ds : Bytes) (point : Option ℕ) → All IsDigit cs → mantissa cs ds point ≡ (ds ++ cs, point)
unfolding mantissa
mantissa-digits [] ds point all = ap (λ xs. (xs, point)) (sym (append-nil ds))
mantissa-digits (c ∷ cs) ds point ((low, high), all) =
    let here : (c == b'.') ≡ false = ground arith in
    ap (λ b. mantissa cs (if b then ds else ds ++ c ∷ []) (if b then some (length ds) else point))
      here
    ∙ mantissa-digits cs (ds ++ c ∷ []) point all
    ∙ ap (λ xs. (xs, point)) (append_assoc ds (c ∷ []) cs)

abbrev pub point_at : Option Bytes → Option ℕ
point_at none = none
point_at (some _) = some 1

mantissa-fraction :
    (lead : ℕ) (frac : Option Bytes)
    → IsDigit lead
    → All IsDigit (decimals_of frac)
    → mantissa (lead ∷ fraction frac) [] none ≡ (lead ∷ decimals_of frac, point_at frac)
unfolding mantissa
mantissa-fraction lead none digit all = mantissa-digits (lead ∷ []) [] none (digit, tt)
mantissa-fraction lead (some ds) (low, high) all =
    let here : (lead == b'.') ≡ false = ground arith in
    ap (λ b. mantissa (b'.' ∷ ds) (if b then [] else lead ∷ []) (if b then some 0 else none)) here
    ∙ mantissa-digits ds (lead ∷ []) (some 1) all

starts_minus-sign :
    (neg : Bool) (lead : ℕ) (rest : Bytes)
    → IsDigit lead
    → starts_minus (sign neg ++ lead ∷ rest) ≡ neg
starts_minus-sign true lead rest digit = refl
starts_minus-sign false lead rest (low, high) = ground arith

sign-NoMark : (neg : Bool) (xs : Bytes) → NoMark xs → NoMark (sign neg ++ xs)
sign-NoMark true xs all = (((λ e. omega (arith, e)), (λ e. omega (arith, e))), all)
sign-NoMark false xs all = all

without_sign-sign : (neg : Bool) (xs : Bytes) → without_sign neg (sign neg ++ xs) ≡ xs
without_sign-sign true xs = refl
without_sign-sign false xs = refl

point_of-at :
    (lead : ℕ) (frac : Option Bytes) → point_of (point_at frac) (lead ∷ decimals_of frac) ≡ 1
point_of-at lead none = refl
point_of-at lead (some ds) = refl

module _ {g : Bytes} (s : Scientific g) where
  abbrev pub mantissa_text : Bytes
  mantissa_text = s.lead ∷ fraction s.frac

  abbrev pub exponent_text : Bytes
  exponent_text = down_mark s.down ∷ s.size

  pub split_exponent-Scientific :
      split_exponent g ≡ some (sign s.neg ++ mantissa_text, exponent_text)
  split_exponent-Scientific =
      ap split_exponent
        (s.text ∙ sym (append_assoc (sign s.neg) mantissa_text (b'e' ∷ exponent_text)))
      ∙ split_exponent-mark (sign s.neg ++ mantissa_text) exponent_text (
          sign-NoMark s.neg mantissa_text (
            (digits-NoMark (s.lead ∷ []) (s.lead-IsDigit, tt)).0,
            fraction-NoMark s.frac s.frac-IsDigit,
          ))

  pub starts_minus-Scientific : starts_minus g ≡ s.neg
  starts_minus-Scientific =
      ap starts_minus s.text
      ∙ starts_minus-sign s.neg s.lead (fraction s.frac ++ b'e' ∷ exponent_text) s.lead-IsDigit

  pub mantissa-Scientific :
      mantissa (without_sign (starts_minus g) (sign s.neg ++ mantissa_text)) [] none
      ≡ (s.lead ∷ decimals_of s.frac, point_at s.frac)
  mantissa-Scientific =
      ap (λ neg. mantissa (without_sign neg (sign s.neg ++ mantissa_text)) [] none)
        starts_minus-Scientific
      ∙ ap (λ xs. mantissa xs [] none) (without_sign-sign s.neg mantissa_text)
      ∙ mantissa-fraction s.lead s.frac s.lead-IsDigit s.frac-IsDigit

  pub size_of-exponent : pos_part (strtol exponent_text) + neg_part (strtol exponent_text) ≤ 400
  size_of-exponent =
      subst (λ e. pos_part e + neg_part e ≤ 400)
        (sym (strtol-exponent s.down s.size s.size-IsDigit))
        (exponent_size s.down (value_of 0 s.size) s.small)

  -- What the code takes out of the text shows the number of the text.
  pub Shows-SameNumber :
      (digits : Bytes) (point : Option ℕ) (shown : Bytes)
      → mantissa (without_sign (starts_minus g) (sign s.neg ++ mantissa_text)) [] none
        ≡ (digits, point)
      → Shows shown digits (decimal_point (point_of point digits) (strtol exponent_text))
      → SameNumber s shown
  Shows-SameNumber digits point shown taken shows =
      let same : (digits, point) ≡ (s.lead ∷ decimals_of s.frac, point_at s.frac) =
        sym taken ∙ mantissa-Scientific in
      let shows₁ =
        subst (λ r. Shows shown r.0 (decimal_point (point_of r.1 r.0) (strtol exponent_text))) same
          shows in
      let shows₂ =
        subst
          (λ n. Shows shown (s.lead ∷ decimals_of s.frac) (decimal_point n (strtol exponent_text)))
          (point_of-at s.lead s.frac) shows₁ in
      let shows₃ =
        subst (λ e. Shows shown (s.lead ∷ decimals_of s.frac) (decimal_point 1 e))
          (strtol-exponent s.down s.size s.size-IsDigit) shows₂ in
      moved_point s.down (length (decimals_of s.frac)) (decimals shown) (value_of 0 s.size)
        (plain_value shown) (value_of 0 (s.lead ∷ decimals_of s.frac)) shows₃
